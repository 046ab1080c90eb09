-- ===== src/Verifier/Grants.antt =====
-- The loop of `verifyVP` over the consent grants (core/vp-verifier.ts): what a grant that counts has,
-- and that nothing else is allowed.
use helix_core.Prelude.{
  ◌≡◌, ◌≢◌, refl, sym, ap, subst, String, Option, none, some, List, [], ◌∷◌, map, Bool, true, false,
  not, ◌&&◌, ◌||◌, ◌===◌, ===→eq, Bool-cases, ◌⊎◌, inl, inr, Memᴰ, Has, includes, Has-select,
  Has-add_all,
}
use helix_core.Result.{
  ok-injective, Result, ok, throw, >>=-eq-ok, >>-eq-ok, guard-eq-ok, throw_if-eq-ok,
}
use helix_core.Credential.{SignedVc, body, SignedVp, DelegationLink}
use helix_core.Verifier.Host.{Host, VerifyVpOptions, is_dropped}
use helix_core.Verifier.Vc.{grant_schema, assert_grant_vc, verify_credential}
use helix_core.Verifier.Trust.{IsTrusted, verify_credential-IsTrusted}
use helix_core.Verifier.Links.{not-eq-false}
use helix_core.Verifier.Vp.{
  AgentState, GrantState, intersect, is_false, grant_scopes, same_user, covered_authority,
  settle_grant, check_grant, grant_step, grant_loop,
}

and_parts : (a b : Bool) → (a && b) ≡ true → (a ≡ true) × (b ≡ true)
and_parts true b h = (refl, h)
and_parts false b h = cc

same_user-eq :
    (user delegated_by : Option String)
    → same_user user delegated_by ≡ true
    → (u : String) × (user ≡ some u) × (delegated_by ≡ some u)
unfolding same_user
same_user-eq none d h = cc
same_user-eq (some u) none h = cc
same_user-eq (some u) (some d) h = (u, refl, ap some (===→eq d u h))

-- A grant to another agent of the chain must not forbid delegates.
abbrev Delegable : Bool → Option Bool → Type 0
Delegable direct allow = (direct ≡ true) ⊎ (allow ≢ some false)

delegable :
    (direct : Bool) (allow : Option Bool)
    → (not direct && is_false allow) ≡ false
    → Delegable direct allow
unfolding is_false
delegable true allow h = inl refl
delegable false none h = inr (λ e. cc)
delegable false (some true) h = inr (λ e. cc)
delegable false (some false) h = cc

module _ (host : Host) (options : VerifyVpOptions) where
  -- A consent grant that counts: given by the VP's user, by the service that the VP is for, to the holder
  -- or to an agent of the delegation chain that may pass it on; well formed and trusted.
  pub record IsConsent (vp : SignedVp) (chain_dids : List String) (grant : SignedVc) : Type 0 where
    pub user : String
    pub names_user : (body grant).subject.user_did ≡ some user
    pub acts_for_user : vp.delegated_by ≡ some user
    pub issuer : (body grant).issuer ≡ vp.target_service
    pub agent :
        ((body grant).subject.id ≡ vp.holder)
        ⊎ (Has chain_dids (body grant).subject.id
            × ((body grant).subject.allow_delegation ≢ some false))
    pub well_formed : grant_schema host grant ≡ true
    pub trusted : IsTrusted host options grant

  assert_grant_vc-eq-ok :
      (grant : SignedVc) → assert_grant_vc host grant ≡ ok tt → grant_schema host grant ≡ true
  unfolding assert_grant_vc
  assert_grant_vc-eq-ok grant h =
      not-eq-false _ ((guard-eq-ok (not (grant_schema host grant)) _ _ h).0)

  check_grant-eq-ok :
      (vp : SignedVp) (chain_dids : List String) (grant : SignedVc)
      → check_grant host options vp chain_dids grant ≡ ok tt
      → IsTrusted host options grant
      → IsConsent vp chain_dids grant
  unfolding check_grant
  check_grant-eq-ok vp chain_dids grant h trusted =
      let subject = (body grant).subject in
      let direct = subject.id === vp.holder in
      let (_, asserted, h1) = >>-eq-ok (assert_grant_vc host grant) _ h in
      let (matches, h2) =
        guard-eq-ok
          (not (
            (direct || includes chain_dids subject.id)
            && same_user subject.user_did vp.delegated_by))
          _ _ h1 in
      let (right_service, h3) =
        guard-eq-ok (not ((body grant).issuer === vp.target_service)) _ _ h2 in
      let allowed = throw_if-eq-ok (not direct && is_false subject.allow_delegation) _ h3 in
      let (agent, named) = and_parts _ _ (not-eq-false _ matches) in
      let (user, names, acts) = same_user-eq _ _ named in
      record {
        user = user;
        names_user = names;
        acts_for_user = acts;
        issuer = ===→eq _ _ (not-eq-false _ right_service);
        agent = agent_of direct refl agent (delegable direct subject.allow_delegation allowed);
        well_formed = assert_grant_vc-eq-ok grant asserted;
        trusted = trusted;
      }
    where
      agent_of :
          (direct : Bool)
          → ((body grant).subject.id === vp.holder) ≡ direct
          → (direct || includes chain_dids (body grant).subject.id) ≡ true
          → Delegable direct (body grant).subject.allow_delegation
          → ((body grant).subject.id ≡ vp.holder)
            ⊎ (Has chain_dids (body grant).subject.id
                × ((body grant).subject.allow_delegation ≢ some false))
      agent_of true e a d = inl (===→eq _ _ e)
      agent_of false e a (inl d) = cc
      agent_of false e a (inr d) = inr (a, d)

  -- What one grant adds to the allowed scopes.
  abbrev Covers : SignedVp → AgentState → SignedVc → String → Type 0
  Covers vp s grant scope =
      Has (grant_scopes grant) scope × Has (covered_authority host options vp s grant) scope

  Has-intersect :
      (left right : List String) (scope : String)
      → Has (intersect left right) scope
      → Has left scope × Has right scope
  unfolding intersect
  Has-intersect left right scope h = Has-select (includes right) left scope h

  settle_grant_new :
      (vp : SignedVp) (s : AgentState) (grant : SignedVc) (r : Result (Option String))
      (g t : GrantState) (scope : String)
      → settle_grant host options vp s grant r g ≡ ok t
      → Has t.allowed scope
      → Has g.allowed scope ⊎ ((w : Option String) × (r ≡ ok w) × Covers vp s grant scope)
  unfolding settle_grant
  settle_grant_new vp s grant (ok w) g t scope h m =
      elim (Has-add_all (intersect (grant_scopes grant) (covered_authority host options vp s grant))
        g.allowed scope
        (subst (λ (x : GrantState). Has x.allowed scope) (sym (ok-injective h)) m)) [
          | inl mine ↦ inr (w, refl, Has-intersect _ _ scope mine)
          | inr old ↦ inl old
        ]
  settle_grant_new vp s grant (throw e) g t scope h m = elim (Bool-cases (is_dropped e)) [
    | inl d ↦
        inl (subst (λ (x : GrantState). Has x.allowed scope) (sym (ok-injective (rw d at h))) m)
    | inr d ↦ cc (rw d at h)
  ]

  abbrev chain_dids_of : AgentState → List String
  chain_dids_of s = map (λ (link : DelegationLink). link.subject) s.delegation_chain

  grant_step_new :
      (vp : SignedVp) (s : AgentState) (grant : SignedVc) (g t : GrantState) (scope : String)
      → grant_step host options vp s grant g ≡ ok t
      → Has t.allowed scope
      → Has g.allowed scope ⊎ (IsConsent vp (chain_dids_of s) grant × Covers vp s grant scope)
  unfolding grant_step
  grant_step_new vp s grant g t scope h m =
      let (_, checked, settled) =
        >>-eq-ok (check_grant host options vp (chain_dids_of s) grant) _ h in
      elim (settle_grant_new vp s grant (verify_credential host grant options) g t scope settled
        m) [
          | inl old ↦ inl old
          | inr (w, verified, covers) ↦ inr (
            check_grant-eq-ok vp (chain_dids_of s) grant checked
                (verify_credential-IsTrusted host options grant w verified),
            covers,
          )
        ]

  pub grant_loop_new :
      (vp : SignedVp) (s : AgentState) (grants : List SignedVc) (g t : GrantState) (scope : String)
      → grant_loop host options vp s grants g ≡ ok t
      → Has t.allowed scope
      → Has g.allowed scope
        ⊎ ((grant : SignedVc) × Memᴰ grant grants
            × IsConsent vp (chain_dids_of s) grant
            × Covers vp s grant scope)
  unfolding grant_loop
  grant_loop_new vp s [] g t scope h m =
      inl (subst (λ (x : GrantState). Has x.allowed scope) (sym (ok-injective h)) m)
  grant_loop_new vp s (grant ∷ rest) g t scope h m =
      let (u, now, later) =
        >>=-eq-ok (grant_step host options vp s grant g) (grant_loop host options vp s rest) h in
      elim (grant_loop_new vp s rest u t scope later m) [
        | inr (x, at_x, c, k) ↦ inr (x, Memᴰ.tail at_x, c, k)
        | inl k ↦ elim (grant_step_new vp s grant g u scope now k) [
          | inl old ↦ inl old
          | inr (c, covers) ↦ inr (grant, Memᴰ.head refl, c, covers)
        ]
      ]
