-- ===== src/Verifier/Soundness.antt =====
-- What a presentation that `verifyVP` (core/vp-verifier.ts) accepts guarantees.
use helix_core.Prelude.{
  ◌≡◌, refl, sym, ◌∙◌, subst, String, List, [], ◌∷◌, true, false, ◌==◌, ◌⊎◌, inl, inr, ◌↔◌, Memᴰ,
  Has, includes, Has-select, select-IsUnique, IsUnique, not-Has-nil, length,
}
use helix_core.Result.{ok-injective, ok}
use helix_core.Text.{truthy}
use helix_core.Credential.{SignedVc, body, SignedVp, agent_scopes}
use helix_core.Verifier.Host.{Host, VerifyVpOptions}
use helix_core.Verifier.Agents.{IsAccepted, agent_loop_new, agent_loop_own, agent_loop-IsUnique}
use helix_core.Verifier.Authorities.{link_subjects, agent_loop_authorities, Has-covered_authority}
use helix_core.Verifier.Grants.{IsConsent, grant_loop_new}
use helix_core.Verifier.Run.{
  agent_entries, grant_entries, IsRun, verify_vp-IsRun, effective-eq-ok, check_entries-named,
  IsSigned, check_envelope-IsSigned,
}
use helix_core.Verifier.Vp.{
  VerifyVpResult, AgentState, agent_start, grant_start, covered_authority, grant_scopes, effective,
  verify_vp,
}

module _ (host : Host) (options : VerifyVpOptions) where
  -- The agent's privileges are exactly the scopes of the agent credentials that are the holder's and
  -- verify, each with its chain.
  pub verify_vp_privileges :
      (vp : SignedVp) (r : VerifyVpResult) (scope : String)
      → verify_vp host options vp ≡ ok r
      → (Has r.privilege_scopes scope) ↔ (
          (vc : SignedVc) × Memᴰ vc (agent_entries vp)
          × IsAccepted host options vp vc
          × Has (agent_scopes vc) scope)
  verify_vp_privileges vp r scope h =
      let run = verify_vp-IsRun host options vp r h in
      (
        λ m. from_start (
            agent_loop_new host options vp (agent_entries vp) agent_start run.agents scope
              run.looped (subst (λ x. Has x scope) run.privileges m)),
        λ found.
            let (vc, at_vc, a, k) = found in
            subst (λ x. Has x scope) (sym run.privileges)
              (agent_loop_own host options vp (agent_entries vp) agent_start run.agents scope vc
                run.looped at_vc a k),
      )
    where
      from_start : {A : Type 0} → Has [] scope ⊎ A → A
      from_start (inl m) = absurd (not-Has-nil scope m)
      from_start (inr a) = a

  -- The authority that a grant speaks for: the holder's own, for a grant to the holder; for a grant to
  -- another agent, that of an accepted credential whose chain the agent stands on.
  abbrev pub Backs : SignedVp → SignedVc → String → Type 0
  Backs vp grant scope =
      ((body grant).subject.id ≡ vp.holder)
      ⊎ ((vc : SignedVc) × Memᴰ vc (agent_entries vp)
          × ((a : IsAccepted host options vp vc) × Has (link_subjects a.verified.0)
                (body grant).subject.id)
          × Has (agent_scopes vc) scope)

  -- A grant of the VP that allows a scope.
  pub record Allows (vp : SignedVp) (r : VerifyVpResult) (grant : SignedVc) (scope : String)
      : Type 0 where
    pub presented : Memᴰ grant (grant_entries vp)
    pub consent : IsConsent host options vp (link_subjects r.delegation_chain) grant
    pub lists : Has (grant_scopes grant) scope
    pub backs : Backs vp grant scope

  covers-Backs :
      (vp : SignedVp) (r : VerifyVpResult) (grant : SignedVc) (scope : String)
      (run : IsRun host options vp r)
      → Has (covered_authority host options vp run.agents grant) scope
      → Backs vp grant scope
  covers-Backs vp r grant scope run m =
      elim (Has-covered_authority host options vp run.agents grant scope m) [
        | inl (direct, _) ↦ inl direct
        | inr (entry, at_entry, on_chain, holds) ↦
            elim (agent_loop_authorities host options vp (agent_entries vp) agent_start run.agents
              entry run.looped at_entry) [
                | inl k ↦ elim k [ ]
                | inr f ↦ inr (
                  f.credential,
                  f.presented,
                  (f.accepted, subst (λ x. Has x (body grant).subject.id) f.subjects on_chain),
                  subst (λ x. Has x scope) f.scopes holds,
                )
              ]
      ]

  -- What the effective scopes are, given the VP's grants.
  abbrev Weighed : SignedVp → VerifyVpResult → List SignedVc → String → Type 0
  Weighed vp r grants scope =
      Has r.privilege_scopes scope
      × ((grants ≡ []) ⊎ ((grant : SignedVc) × Allows vp r grant scope))

  weigh :
      (vp : SignedVp) (r : VerifyVpResult) (scope : String) (run : IsRun host options vp r)
      (grants : List SignedVc)
      → grant_entries vp ≡ grants
      → effective host options vp run.agents grants ≡ ok run.scopes
      → Has run.scopes scope
      → Weighed vp r grants scope
  unfolding effective
  weigh vp r scope run [] e h m = (
    subst (λ x. Has x scope) (sym run.privileges)
        (subst (λ x. Has x scope) (sym (ok-injective h)) m),
    inl refl,
  )
  weigh vp r scope run (grant ∷ grants) e h m =
      let (g, looped, result) =
        effective-eq-ok host options vp run.agents grant grants run.scopes h in
      let (held, allowed) =
        Has-select (λ s. includes g.allowed s) run.agents.privilege_scope_set scope
          (subst (λ x. Has x scope) result m) in
      (
        subst (λ x. Has x scope) (sym run.privileges) held,
        elim (grant_loop_new host options vp run.agents (grant ∷ grants) grant_start g scope looped
            allowed) [
              | inl k ↦ absurd (not-Has-nil scope k)
              | inr (w, at_w, consent, covers) ↦ inr (
                w,
                record {
                  presented = subst (Memᴰ w) (sym e) at_w;
                  consent =
                      subst (λ links. IsConsent host options vp (link_subjects links) w)
                        (sym run.links) consent;
                  lists = covers.0;
                  backs = covers-Backs vp r w scope run covers.1;
                },
              )
            ],
      )

  -- No scope is effective unless the agent holds it as a privilege, and, where the VP carries grants,
  -- unless one grant of the VP allows it: a grant by the VP's user and service that lists the scope and
  -- speaks for an authority that has it.
  pub verify_vp_effective :
      (vp : SignedVp) (r : VerifyVpResult) (scope : String)
      → verify_vp host options vp ≡ ok r
      → Has r.effective_scopes scope
      → Has r.privilege_scopes scope
        × ((grant_entries vp ≡ []) ⊎ ((grant : SignedVc) × Allows vp r grant scope))
  verify_vp_effective vp r scope h m =
      let run = verify_vp-IsRun host options vp r h in
      weigh vp r scope run (grant_entries vp) refl run.weighed
        (subst (λ x. Has x scope) run.effectives m)

  -- A VP that names a user is effective for a scope only by that user's consent: a grant of the VP that
  -- names the same user allows the scope.
  pub verify_vp_consent :
      (vp : SignedVp) (r : VerifyVpResult) (scope : String)
      → verify_vp host options vp ≡ ok r
      → truthy vp.delegated_by ≡ true
      → Has r.effective_scopes scope
      → (grant : SignedVc) × Allows vp r grant scope
        × ((body grant).subject.user_did ≡ vp.delegated_by)
  verify_vp_consent vp r scope h named m = elim ((verify_vp_effective vp r scope h m).1) [
    | inr (grant, a) ↦ (grant, a, a.consent.names_user ∙ sym a.consent.acts_for_user)
    | inl bare ↦
        let run = verify_vp-IsRun host options vp r h in
        cc (
          subst (λ grants. (length grants == 0) ≡ false) bare
            (check_entries-named host options vp run.entries named))
  ]

  -- An accepted VP has not expired, is for the expected service, and its proof verifies, by a key of the
  -- holder's DID document; the result names the holder and the VP.
  pub verify_vp-IsSigned :
      (vp : SignedVp) (r : VerifyVpResult)
      → verify_vp host options vp ≡ ok r
      → IsSigned host options vp × (r.agent_did ≡ vp.holder) × (r.vp_id ≡ vp.id)
  verify_vp-IsSigned vp r h =
      let run = verify_vp-IsRun host options vp r h in
      (check_envelope-IsSigned host options vp run.enveloped, run.agent, run.vp_id)

  effective-IsUnique :
      (vp : SignedVp) (s : AgentState) (grants : List SignedVc) (scopes : List String)
      → effective host options vp s grants ≡ ok scopes
      → IsUnique s.privilege_scope_set
      → IsUnique scopes
  unfolding effective
  effective-IsUnique vp s [] scopes h u = subst IsUnique (ok-injective h) u
  effective-IsUnique vp s (grant ∷ grants) scopes h u =
      let (g, _, result) = effective-eq-ok host options vp s grant grants scopes h in
      subst IsUnique (sym result) (select-IsUnique (includes g.allowed) s.privilege_scope_set u)

  -- Neither list of scopes of a result names a scope twice.
  pub verify_vp-IsUnique :
      (vp : SignedVp) (r : VerifyVpResult)
      → verify_vp host options vp ≡ ok r
      → IsUnique r.privilege_scopes × IsUnique r.effective_scopes
  verify_vp-IsUnique vp r h =
      let run = verify_vp-IsRun host options vp r h in
      let u =
        agent_loop-IsUnique host options vp (agent_entries vp) agent_start run.agents run.looped
          tt in
      (
        subst IsUnique (sym run.privileges) u,
        subst IsUnique (sym run.effectives)
            (effective-IsUnique vp run.agents (grant_entries vp) run.scopes run.weighed u),
      )
