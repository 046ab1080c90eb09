-- ===== src/Verifier/Run.antt =====
-- `verifyVP` (core/vp-verifier.ts): the parts of a call that returns.
use helix_core.Prelude.{
  ◌+◌, ◌≡◌, sym, ap, subst, String, Option, none, some, List, ◌∷◌, Bool, true, false, not, ◌&&◌,
  ltb, ◌==◌, length, if◌then◌else◌, includes, ◌||◌, select,
}
use helix_core.Errors.{Thrown}
use helix_core.Result.{ok-injective, Result, ok, >>=-eq-ok, >>-eq-ok, guard-eq-ok, throw_if-eq-ok}
use helix_core.Text.{truthy}
use helix_core.Credential.{SignedVc, SignedVp}
use helix_core.DidDocument.{DidDocument}
use helix_core.Proof.{verify_ed25519_proof}
use helix_core.Verifier.Host.{Host, VerifyVpOptions}
use helix_core.Verifier.Vc.{is_agent_authority_type, is_grant_type, at_or_before}
use helix_core.Verifier.Chain.{is_text}
use helix_core.Verifier.Links.{not-eq-false}
use helix_core.Verifier.Vp.{
  VerifyVpResult, AgentState, agent_start, GrantState, grant_start, throw_last, agent_loop,
  grant_loop, effective, check_envelope, check_entries, verify_vp,
}

throw_last-ne-ok {ℓ} : {A : Type ℓ} {a : A} (e : Option Thrown) → throw_last e ≡ ok a → ⊥
unfolding throw_last
throw_last-ne-ok none h = cc
throw_last-ne-ok (some e) h = cc

choice-eq-ok {ℓ} :
    {A : Type ℓ} {a : A} (b : Bool) (e : Option Thrown) (k : Result A)
    → (if b then throw_last e else k) ≡ ok a
    → k ≡ ok a
choice-eq-ok true e k h = absurd (throw_last-ne-ok e h)
choice-eq-ok false e k h = h

abbrev pub agent_entries : SignedVp → List SignedVc
agent_entries vp = select is_agent_authority_type vp.verifiable_credential

abbrev pub grant_entries : SignedVp → List SignedVc
grant_entries vp = select is_grant_type vp.verifiable_credential

module _ (host : Host) (options : VerifyVpOptions) where
  -- What a call that returns went through.
  pub record IsRun (vp : SignedVp) (r : VerifyVpResult) : Type 0 where
    pub enveloped : check_envelope host options vp ≡ ok tt
    pub entries : check_entries host options vp ≡ ok tt
    pub agents : AgentState
    pub looped : agent_loop host options vp (agent_entries vp) agent_start ≡ ok agents
    pub scopes : List String
    pub weighed : effective host options vp agents (grant_entries vp) ≡ ok scopes
    pub privileges : r.privilege_scopes ≡ agents.privilege_scope_set
    pub effectives : r.effective_scopes ≡ scopes
    pub links : r.delegation_chain ≡ agents.delegation_chain
    pub agent : r.agent_did ≡ vp.holder
    pub vp_id : r.vp_id ≡ vp.id

  pub verify_vp-IsRun :
      (vp : SignedVp) (r : VerifyVpResult) → verify_vp host options vp ≡ ok r → IsRun vp r
  unfolding verify_vp
  verify_vp-IsRun vp r h =
      let (_, enveloped, h1) = >>-eq-ok (check_envelope host options vp) _ h in
      let (_, entries, h2) = >>-eq-ok (check_entries host options vp) _ h1 in
      let (s, looped, h3) =
        >>=-eq-ok (agent_loop host options vp (agent_entries vp) agent_start) _ h2 in
      let (_, _, h4) =
        >>-eq-ok (if s.valid_agent_vcs == 0 then throw_last s.last_dropped else ok tt) _ h3 in
      let (scopes, weighed, h5) = >>=-eq-ok (effective host options vp s (grant_entries vp)) _ h4 in
      let e = sym (ok-injective h5) in
      record {
        enveloped = enveloped;
        entries = entries;
        agents = s;
        looped = looped;
        scopes = scopes;
        weighed = weighed;
        privileges = ap (λ (x : VerifyVpResult). x.privilege_scopes) e;
        effectives = ap (λ (x : VerifyVpResult). x.effective_scopes) e;
        links = ap (λ (x : VerifyVpResult). x.delegation_chain) e;
        agent = ap (λ (x : VerifyVpResult). x.agent_did) e;
        vp_id = ap (λ (x : VerifyVpResult). x.vp_id) e;
      }

  -- With a grant at hand, the effective scopes are the privileges that the grants' loop allowed.
  pub effective-eq-ok :
      (vp : SignedVp) (s : AgentState) (grant : SignedVc) (grants : List SignedVc)
      (scopes : List String)
      → effective host options vp s (grant ∷ grants) ≡ ok scopes
      → (g : GrantState) × (grant_loop host options vp s (grant ∷ grants) grant_start ≡ ok g)
        × (scopes ≡ select (λ scope. includes g.allowed scope) s.privilege_scope_set)
  unfolding effective
  effective-eq-ok vp s grant grants scopes h =
      let (g, looped, h1) =
        >>=-eq-ok (grant_loop host options vp s (grant ∷ grants) grant_start) _ h in
      (g, looped, sym (ok-injective (choice-eq-ok (g.valid == 0) g.last_dropped _ h1)))

  -- A VP that names a user and passes the tests of its entries holds a grant.
  pub check_entries-named :
      (vp : SignedVp)
      → check_entries host options vp ≡ ok tt
      → truthy vp.delegated_by ≡ true
      → (length (grant_entries vp) == 0) ≡ false
  unfolding check_entries
  check_entries-named vp h named =
      let (_, h1) = guard-eq-ok (ltb (length vp.verifiable_credential) 1) _ _ h in
      let (_, h2) =
        guard-eq-ok
          (ltb (length (agent_entries vp)) 1
            || not (
                length (agent_entries vp) + length (grant_entries vp)
                == length vp.verifiable_credential))
          _ _ h1 in
      both (truthy vp.delegated_by) (length (grant_entries vp) == 0) named
        (throw_if-eq-ok (truthy vp.delegated_by && (length (grant_entries vp) == 0)) _ h2)
    where
      both : (a b : Bool) → a ≡ true → (a && b) ≡ false → b ≡ false
      both true b e h = h
      both false b e h = cc

  -- What the tests on the VP's own expiry, service and signature leave.
  pub record IsSigned (vp : SignedVp) : Type 0 where
    pub live : at_or_before (host.date_ms vp.expiration_date) host.now ≡ false
    pub service :
        (truthy options.expected_target_service
          && not (is_text options.expected_target_service vp.target_service))
        ≡ false
    pub document : DidDocument
    pub resolved : host.resolve_did vp.holder ≡ ok document
    pub signed :
        verify_ed25519_proof host.ed25519_verify (host.hash_vp vp) vp.proof document ≡ ok true

  pub check_envelope-IsSigned :
      (vp : SignedVp) → check_envelope host options vp ≡ ok tt → IsSigned vp
  unfolding check_envelope
  check_envelope-IsSigned vp h =
      let (live, h1) =
        guard-eq-ok (at_or_before (host.date_ms vp.expiration_date) host.now) _ _ h in
      let (service, h2) =
        guard-eq-ok
          (truthy options.expected_target_service
            && not (is_text options.expected_target_service vp.target_service))
          _ _ h1 in
      let (document, resolved, h3) = >>=-eq-ok (host.resolve_did vp.holder) _ h2 in
      let (valid, verified, h4) =
        >>=-eq-ok (verify_ed25519_proof host.ed25519_verify (host.hash_vp vp) vp.proof document) _
          h3 in
      record {
        live = live;
        service = service;
        document = document;
        resolved = resolved;
        signed =
            subst
              (λ b.
                verify_ed25519_proof host.ed25519_verify (host.hash_vp vp) vp.proof document ≡ ok b)
              (not-eq-false _ (throw_if-eq-ok (not valid) _ h4)) verified;
      }
