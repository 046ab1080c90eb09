-- ===== src/Verifier/Agents.antt =====
-- The loop of `verifyVP` over the agent credentials (core/vp-verifier.ts): the scopes it collects are
-- those of the credentials that verify, and of no other.
use helix_core.Prelude.{
  ◌≡◌, refl, sym, ◌∙◌, ap, subst, String, Option, some, List, [], ◌∷◌, true, not, ◌===◌, ===→eq,
  Bool-cases, ◌⊎◌, inl, inr, Memᴰ, Has, add_all, Has-add_all, Has-add_all_of, Has-add_all_new,
  IsUnique, add_all-IsUnique,
}
use helix_core.Errors.{Thrown}
use helix_core.Result.{ok-injective, Result, ok, throw, >>=-eq-ok, >>-eq-ok, guard-eq-ok}
use helix_core.Credential.{SignedVc, body, SignedVp, DelegationLink, agent_scopes}
use helix_core.Verifier.Host.{Host, VerifyVpOptions, is_dropped}
use helix_core.Verifier.Vc.{assert_agent_vc}
use helix_core.Verifier.Links.{not-eq-false}
use helix_core.Verifier.Vp.{
  AgentState, is_present, check_agent, verify_agent_credential, accept_agent, settle_agent,
  agent_step, agent_loop,
}

module _ (host : Host) (options : VerifyVpOptions) where
  -- An agent credential that counts: it is the holder's, and it verifies.
  pub record IsAccepted (vp : SignedVp) (vc : SignedVc) : Type 0 where
    pub holder : (body vc).subject.id ≡ vp.holder
    pub verified : List DelegationLink × Option String
    pub verifies : verify_agent_credential host options vc ≡ ok verified

  -- How a credential is settled: it is accepted, or dropped with its error.
  abbrev pub Settles :
      SignedVc → Result (List DelegationLink × Option String) → AgentState → AgentState → Type 0
  Settles vc r s t =
      ((v : List DelegationLink × Option String) × (r ≡ ok v)
        × (t ≡ accept_agent host options vc v s))
      ⊎ ((e : Thrown) × (r ≡ throw e)
          × (is_dropped e ≡ true)
          × (t ≡ record s { last_dropped = some e }))

  settle_agent-eq-ok :
      (vc : SignedVc) (r : Result (List DelegationLink × Option String)) (s t : AgentState)
      → settle_agent host options vc r s ≡ ok t
      → Settles vc r s t
  unfolding settle_agent
  settle_agent-eq-ok vc (ok v) s t h = inl (v, refl, sym (ok-injective h))
  settle_agent-eq-ok vc (throw e) s t h = elim (Bool-cases (is_dropped e)) [
    | inl d ↦ inr (e, refl, d, sym (ok-injective (rw d at h)))
    | inr d ↦ cc (rw d at h)
  ]

  check_agent-eq-ok :
      (vp : SignedVp) (vc : SignedVc) → check_agent vp vc ≡ ok tt → (body vc).subject.id ≡ vp.holder
  unfolding check_agent
  check_agent-eq-ok vp vc h =
      let (_, h1) = guard-eq-ok (not (is_present (body vc).proof)) _ _ h in
      let (_, _, h2) = >>-eq-ok (assert_agent_vc vc) _ h1 in
      let (same, _) = guard-eq-ok (not ((body vc).subject.id === vp.holder)) _ _ h2 in
      ===→eq _ _ (not-eq-false _ same)

  pub agent_step-eq-ok :
      (vp : SignedVp) (vc : SignedVc) (s t : AgentState)
      → agent_step host options vp vc s ≡ ok t
      → ((body vc).subject.id ≡ vp.holder)
        × Settles vc (verify_agent_credential host options vc) s t
  unfolding agent_step
  agent_step-eq-ok vp vc s t h =
      let (_, checked, settled) = >>-eq-ok (check_agent vp vc) _ h in
      (check_agent-eq-ok vp vc checked, settle_agent-eq-ok vc _ s t settled)

  accept_agent_scopes :
      (vc : SignedVc) (v : List DelegationLink × Option String) (s : AgentState)
      → (accept_agent host options vc v s).privilege_scope_set
        ≡ add_all (agent_scopes vc) s.privilege_scope_set
  unfolding accept_agent
  accept_agent_scopes vc v s = refl

  -- The scopes after one credential: its own are added if it is accepted, else they stay.
  abbrev Collects : SignedVp → SignedVc → AgentState → AgentState → Type 0
  Collects vp vc s t =
      (IsAccepted vp vc × (t.privilege_scope_set ≡ add_all (agent_scopes vc) s.privilege_scope_set))
      ⊎ (¬ (IsAccepted vp vc) × (t.privilege_scope_set ≡ s.privilege_scope_set))

  Settles-Collects :
      (vp : SignedVp) (vc : SignedVc) (s t : AgentState)
      → (body vc).subject.id ≡ vp.holder
      → Settles vc (verify_agent_credential host options vc) s t
      → Collects vp vc s t
  Settles-Collects vp vc s t same (inl (v, verifies, e)) = inl (
    record { holder = same; verified = v; verifies = verifies },
    ap (λ (u : AgentState). u.privilege_scope_set) e ∙ accept_agent_scopes vc v s,
  )
  Settles-Collects vp vc s t same (inr (d, fails, dropped, e)) =
      inr (λ a. cc (fails, a.verifies), ap (λ (u : AgentState). u.privilege_scope_set) e)

  agent_step-Collects :
      (vp : SignedVp) (vc : SignedVc) (s t : AgentState)
      → agent_step host options vp vc s ≡ ok t
      → Collects vp vc s t
  agent_step-Collects vp vc s t h =
      let (same, settled) = agent_step-eq-ok vp vc s t h in Settles-Collects vp vc s t same settled

  Collects-new :
      (vp : SignedVp) (vc : SignedVc) (s t : AgentState) (scope : String)
      → Collects vp vc s t
      → Has t.privilege_scope_set scope
      → Has s.privilege_scope_set scope ⊎ (IsAccepted vp vc × Has (agent_scopes vc) scope)
  Collects-new vp vc s t scope (inl (a, e)) m =
      elim (Has-add_all (agent_scopes vc) s.privilege_scope_set scope
        (subst (λ x. Has x scope) e m)) [ inl mine ↦ inr (a, mine) | inr old ↦ inl old ]
  Collects-new vp vc s t scope (inr (_, e)) m = inl (subst (λ x. Has x scope) e m)

  Collects-old :
      (vp : SignedVp) (vc : SignedVc) (s t : AgentState) (scope : String)
      → Collects vp vc s t
      → Has s.privilege_scope_set scope
      → Has t.privilege_scope_set scope
  Collects-old vp vc s t scope (inl (a, e)) m =
      subst (λ x. Has x scope) (sym e) (Has-add_all_of (agent_scopes vc) _ scope m)
  Collects-old vp vc s t scope (inr (_, e)) m = subst (λ x. Has x scope) (sym e) m

  Collects-own :
      (vp : SignedVp) (vc : SignedVc) (s t : AgentState) (scope : String)
      → Collects vp vc s t
      → IsAccepted vp vc
      → Has (agent_scopes vc) scope
      → Has t.privilege_scope_set scope
  Collects-own vp vc s t scope (inl (a, e)) b m =
      subst (λ x. Has x scope) (sym e)
        (Has-add_all_new (agent_scopes vc) s.privilege_scope_set scope m)
  Collects-own vp vc s t scope (inr (refused, e)) b m = absurd (refused b)

  Collects-IsUnique :
      (vp : SignedVp) (vc : SignedVc) (s t : AgentState)
      → Collects vp vc s t
      → IsUnique s.privilege_scope_set
      → IsUnique t.privilege_scope_set
  Collects-IsUnique vp vc s t (inl (a, e)) u =
      subst IsUnique (sym e) (add_all-IsUnique (agent_scopes vc) s.privilege_scope_set u)
  Collects-IsUnique vp vc s t (inr (_, e)) u = subst IsUnique (sym e) u

  pub agent_loop_new :
      (vp : SignedVp) (vcs : List SignedVc) (s t : AgentState) (scope : String)
      → agent_loop host options vp vcs s ≡ ok t
      → Has t.privilege_scope_set scope
      → Has s.privilege_scope_set scope
        ⊎ ((vc : SignedVc) × Memᴰ vc vcs × IsAccepted vp vc × Has (agent_scopes vc) scope)
  unfolding agent_loop
  agent_loop_new vp [] s t scope h m =
      inl (subst (λ (u : AgentState). Has u.privilege_scope_set scope) (sym (ok-injective h)) m)
  agent_loop_new vp (vc ∷ rest) s t scope h m =
      let (u, now, later) = >>=-eq-ok _ _ h in
      elim (agent_loop_new vp rest u t scope later m) [
        | inr (w, at_w, a, k) ↦ inr (w, Memᴰ.tail at_w, a, k)
        | inl k ↦ elim (Collects-new vp vc s u scope (agent_step-Collects vp vc s u now) k) [
          | inl old ↦ inl old
          | inr (a, mine) ↦ inr (vc, Memᴰ.head refl, a, mine)
        ]
      ]

  pub agent_loop_old :
      (vp : SignedVp) (vcs : List SignedVc) (s t : AgentState) (scope : String)
      → agent_loop host options vp vcs s ≡ ok t
      → Has s.privilege_scope_set scope
      → Has t.privilege_scope_set scope
  unfolding agent_loop
  agent_loop_old vp [] s t scope h m =
      subst (λ (u : AgentState). Has u.privilege_scope_set scope) (ok-injective h) m
  agent_loop_old vp (vc ∷ rest) s t scope h m =
      let (u, now, later) = >>=-eq-ok _ _ h in
      agent_loop_old vp rest u t scope later
        (Collects-old vp vc s u scope (agent_step-Collects vp vc s u now) m)

  pub agent_loop_own :
      (vp : SignedVp) (vcs : List SignedVc) (s t : AgentState) (scope : String) (vc : SignedVc)
      → agent_loop host options vp vcs s ≡ ok t
      → Memᴰ vc vcs
      → IsAccepted vp vc
      → Has (agent_scopes vc) scope
      → Has t.privilege_scope_set scope
  unfolding agent_loop
  agent_loop_own vp [] s t scope vc h k a m = elim k [ ]
  agent_loop_own vp (w ∷ rest) s t scope vc h (Memᴰ.head e) a m =
      let (u, now, later) = >>=-eq-ok _ _ h in
      agent_loop_old vp rest u t scope later (
        Collects-own vp w s u scope (agent_step-Collects vp w s u now) (subst (IsAccepted vp) e a)
          (subst (λ x. Has (agent_scopes x) scope) e m))
  agent_loop_own vp (w ∷ rest) s t scope vc h (Memᴰ.tail k) a m =
      let (u, now, later) =
        >>=-eq-ok (agent_step host options vp w s) (agent_loop host options vp rest) h in
      agent_loop_own vp rest u t scope vc later k a m

  pub agent_loop-IsUnique :
      (vp : SignedVp) (vcs : List SignedVc) (s t : AgentState)
      → agent_loop host options vp vcs s ≡ ok t
      → IsUnique s.privilege_scope_set
      → IsUnique t.privilege_scope_set
  unfolding agent_loop
  agent_loop-IsUnique vp [] s t h u =
      subst (λ (x : AgentState). IsUnique x.privilege_scope_set) (ok-injective h) u
  agent_loop-IsUnique vp (vc ∷ rest) s t h u =
      let (x, now, later) = >>=-eq-ok _ _ h in
      agent_loop-IsUnique vp rest x t later
        (Collects-IsUnique vp vc s x (agent_step-Collects vp vc s x now) u)
