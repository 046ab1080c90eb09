-- ===== src/VpBuilder/Laws.antt =====
-- What `VPBuilder` makes passes the tests of `verifyVP` on the entries (core/vp-builder.ts,
-- core/vp-verifier.ts).
use helix_core.Prelude.{
  ℕ, ◌+◌, ◌≡◌, refl, subst, Option, false, not, ◌&&◌, ◌||◌, ltb, ◌==◌, length, select,
}
use helix_core.Text.{truthy}
use helix_core.Result.{Result, ok, >>=-eq-ok, guard-eq-ok, ok-injective}
use helix_core.Credential.{Proof, SignedVp}
use helix_core.Verifier.Host.{Host, VerifyVpOptions}
use helix_core.Verifier.Vc.{is_agent_authority_type, is_grant_type}
use helix_core.Verifier.Vp.{check_entries}
use helix_core.VpBuilder.{
  VpBuilderOptions, VpBuilderSignOverrides, Draws, new_vp_builder, vp_payload, sign_vp,
}

-- A presentation that a `VPBuilder` has signed carries entries that `verifyVP` accepts: whatever overrides
-- are given, if the constructor took the options and signing resolves, and there is a grant among the
-- credentials or no user is named, the verifier's tests of the entries pass.
pub sign_vp-check_entries :
    (host : Host) (checks : VerifyVpOptions) (create_proof : SignedVp → Option ℕ → Result Proof)
    (options : VpBuilderOptions) (overrides : VpBuilderSignOverrides) (draws : Draws)
    (vp : SignedVp)
    → new_vp_builder options ≡ ok options
    → sign_vp create_proof options overrides draws ≡ ok vp
    → (truthy options.user_did && (length (select is_grant_type options.credentials) == 0)) ≡ false
    → check_entries host checks vp ≡ ok tt
unfolding new_vp_builder sign_vp vp_payload check_entries
sign_vp-check_entries host checks create_proof options overrides draws vp built signed user =
    let (many, h) = guard-eq-ok (ltb (length options.credentials) 1) _ _ built in
    let (fits, h) =
      guard-eq-ok
        (ltb (length (select is_agent_authority_type options.credentials)) 1
          || not (
              length (select is_agent_authority_type options.credentials)
                + length (select is_grant_type options.credentials)
              == length options.credentials))
        _ _ h in
    let (proof, made, same) =
      >>=-eq-ok (create_proof (vp_payload options overrides draws) overrides.proof_created_at) _
        signed in
    subst (λ vp. check_entries host checks vp ≡ ok tt) (ok-injective same)
      (rw (many, fits, user) refl)
