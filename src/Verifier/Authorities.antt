-- ===== src/Verifier/Authorities.antt =====
-- The list `validAgentAuthorities` of `verifyVP` (core/vp-verifier.ts): each entry comes from a
-- credential that verified, with the scopes of the credential and the subjects of its chain.
use helix_core.Prelude.{
  ◌≡◌, refl, sym, ap, subst, String, List, [], ◌∷◌, ◌++◌, map, Bool, true, ◌⊎◌, inl, inr, Memᴰ, Has,
  includes, select, Bool-cases, Has-append, not-Has-nil, ◌∙◌, ◌===◌, ===→eq, Option,
}
use mathlib.Core.List.{flat_map}
use helix_core.Result.{ok-injective, ok, >>=-eq-ok}
use helix_core.Credential.{SignedVc, body, SignedVp, DelegationLink, agent_scopes}
use helix_core.Verifier.Host.{Host, VerifyVpOptions}
use helix_core.Verifier.Agents.{IsAccepted, Settles, agent_step-eq-ok}
use helix_core.Verifier.Vp.{
  Authority, AgentState, accept_agent, agent_step, agent_loop, covered_authority,
  verify_agent_credential,
}

abbrev pub link_subjects : List DelegationLink → List String
link_subjects links = map (λ (link : DelegationLink). link.subject) links

Mem-append {ℓ} : {A : Type ℓ} (xs : List A) (a x : A) → Memᴰ x (xs ++ a ∷ []) → Memᴰ x xs ⊎ (x ≡ a)
Mem-append [] a x (Memᴰ.head e) = inr e
Mem-append [] a x (Memᴰ.tail k) = elim k [ ]
Mem-append (y ∷ xs) a x (Memᴰ.head e) = inl (Memᴰ.head e)
Mem-append (y ∷ xs) a x (Memᴰ.tail k) = elim (Mem-append xs a x k) [
  | inl old ↦ inl (Memᴰ.tail old)
  | inr new ↦ inr new
]

-- A string that a flattened selection holds comes from one selected entry.
Has-flat_map :
    (q : Authority → Bool) (xs : List Authority) (s : String)
    → Has (flat_map (λ (entry : Authority). entry.scopes) (select q xs)) s
    → (entry : Authority) × Memᴰ entry xs × (q entry ≡ true) × Has entry.scopes s
unfolding flat_map
Has-flat_map q [] s h = absurd (not-Has-nil s h)
Has-flat_map q (x ∷ xs) s h = elim (Bool-cases (q x)) [
  | inl e ↦ elim (Has-append x.scopes _ s (rw (e, select) at h)) [
    | inl here ↦ (x, Memᴰ.head refl, e, here)
    | inr later ↦ let (y, at_y, t, k) = Has-flat_map q xs s later in (y, Memᴰ.tail at_y, t, k)
  ]
  | inr e ↦
      let (y, at_y, t, k) = Has-flat_map q xs s (rw (e, select) at h) in (y, Memᴰ.tail at_y, t, k)
]

module _ (host : Host) (options : VerifyVpOptions) where
  -- An entry and the credential it comes from.
  pub record IsFrom (vp : SignedVp) (vcs : List SignedVc) (entry : Authority) : Type 0 where
    pub credential : SignedVc
    pub presented : Memᴰ credential vcs
    pub accepted : IsAccepted host options vp credential
    pub scopes : entry.scopes ≡ agent_scopes credential
    pub subjects : entry.chain_subjects ≡ link_subjects accepted.verified.0

  later :
      (vp : SignedVp) (vc : SignedVc) (vcs : List SignedVc) (entry : Authority)
      → IsFrom vp vcs entry
      → IsFrom vp (vc ∷ vcs) entry
  later vp vc vcs entry f = record {
    credential = f.credential;
    presented = Memᴰ.tail f.presented;
    accepted = f.accepted;
    scopes = f.scopes;
    subjects = f.subjects;
  }

  abbrev entry_of : SignedVc → List DelegationLink → Authority
  entry_of vc chain = record { scopes = agent_scopes vc; chain_subjects = link_subjects chain }

  accept_agent_authorities :
      (vc : SignedVc) (v : List DelegationLink × Option String) (s : AgentState)
      → (accept_agent host options vc v s).valid_agent_authorities
        ≡ s.valid_agent_authorities ++ entry_of vc v.0 ∷ []
  unfolding accept_agent
  accept_agent_authorities vc v s = refl

  Settles-authorities :
      (vp : SignedVp) (vc : SignedVc) (rest : List SignedVc) (s t : AgentState) (entry : Authority)
      → (body vc).subject.id ≡ vp.holder
      → Settles host options vc (verify_agent_credential host options vc) s t
      → Memᴰ entry t.valid_agent_authorities
      → Memᴰ entry s.valid_agent_authorities ⊎ IsFrom vp (vc ∷ rest) entry
  Settles-authorities vp vc rest s t entry same (inl (v, verifies, e)) m =
      elim (Mem-append s.valid_agent_authorities (entry_of vc v.0) entry (
        subst (Memᴰ entry)
          (ap (λ (u : AgentState). u.valid_agent_authorities) e ∙ accept_agent_authorities vc v s)
          m)) [
            | inl old ↦ inl old
            | inr new ↦ inr (record {
              credential = vc;
              presented = Memᴰ.head refl;
              accepted = record { holder = same; verified = v; verifies = verifies };
              scopes = ap (λ (x : Authority). x.scopes) new;
              subjects = ap (λ (x : Authority). x.chain_subjects) new;
            })
          ]
  Settles-authorities vp vc rest s t entry same (inr (d, fails, dropped, e)) m =
      inl (subst (Memᴰ entry) (ap (λ (u : AgentState). u.valid_agent_authorities) e) m)

  pub agent_loop_authorities :
      (vp : SignedVp) (vcs : List SignedVc) (s t : AgentState) (entry : Authority)
      → agent_loop host options vp vcs s ≡ ok t
      → Memᴰ entry t.valid_agent_authorities
      → Memᴰ entry s.valid_agent_authorities ⊎ IsFrom vp vcs entry
  unfolding agent_loop
  agent_loop_authorities vp [] s t entry h m =
      inl
        (subst (λ (u : AgentState). Memᴰ entry u.valid_agent_authorities) (sym (ok-injective h)) m)
  agent_loop_authorities vp (vc ∷ rest) s t entry h m =
      let (u, now, after) =
        >>=-eq-ok (agent_step host options vp vc s) (agent_loop host options vp rest) h in
      elim (agent_loop_authorities vp rest u t entry after m) [
        | inr f ↦ inr (later vp vc rest entry f)
        | inl k ↦
            let (same, settled) = agent_step-eq-ok host options vp vc s u now in
            Settles-authorities vp vc rest s u entry same settled k
      ]

  -- What a grant to an agent of the chain is weighed against: the scopes of an accepted credential whose
  -- chain that agent stands on.
  pub Has-covered_authority :
      (vp : SignedVp) (s : AgentState) (grant : SignedVc) (scope : String)
      → Has (covered_authority host options vp s grant) scope
      → (((body grant).subject.id ≡ vp.holder) × Has s.privilege_scope_set scope)
        ⊎ ((entry : Authority) × Memᴰ entry s.valid_agent_authorities
            × Has entry.chain_subjects (body grant).subject.id
            × Has entry.scopes scope)
  unfolding covered_authority
  Has-covered_authority vp s grant scope h =
      let subject = (body grant).subject.id in
      elim (Bool-cases (subject === vp.holder)) [
        | inl e ↦ inl (===→eq _ _ e, rw e at h)
        | inr e ↦ inr (
            Has-flat_map (λ (entry : Authority). includes entry.chain_subjects subject)
              s.valid_agent_authorities scope (rw e at h))
      ]
