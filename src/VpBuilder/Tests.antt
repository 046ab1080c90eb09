-- ===== src/VpBuilder/Tests.antt =====
-- A presentation of a delegated credential and a grant.
use helix_core.Prelude.{
  ◌≡◌, ◌&&◌, ◌==◌, refl, none, some, [], ◌∷◌, false, length, select, includes, ◌===◌,
}
use helix_core.Text.{truthy}
use helix_core.Result.{ok}
use helix_core.Credential.{SignedVp}
use helix_core.Verifier.Fixture.{host, options, proof, leaf, grant}
use helix_core.Verifier.Vc.{is_agent_authority_type, is_grant_type}
use helix_core.Verifier.Vp.{check_entries}
use helix_core.VpBuilder.{
  VpBuilderOptions, VpBuilderSignOverrides, Draws, new_vp_builder, vp_payload, sign_vp,
}
use helix_core.VpBuilder.Laws.{sign_vp-check_entries}

abbrev contents : VpBuilderOptions
contents = record {
  credentials = leaf ∷ grant ∷ [];
  holder_did = "did:holder";
  target_service = "did:service";
  user_did = some "did:user";
}

abbrev overrides : VpBuilderSignOverrides
overrides = record { id = none; nonce = none; expires_at = some 9; proof_created_at = none }

abbrev draws : Draws
draws = record { id = "vp:helix:1"; nonce = "n"; now = 1; iso = λ t. "future" }

abbrev signed : SignedVp
signed = record {
  id = "vp:helix:1";
  holder = "did:holder";
  verifiable_credential = leaf ∷ grant ∷ [];
  nonce = "n";
  expiration_date = "future";
  delegated_by = some "did:user";
  target_service = "did:service";
  proof = some proof;
}

built_run : new_vp_builder contents ≡ ok contents
unfolding new_vp_builder is_agent_authority_type is_grant_type includes ◌===◌
built_run = refl

signed_run : sign_vp (λ vp at. ok proof) contents overrides draws ≡ ok signed
unfolding sign_vp vp_payload
signed_run = refl

consented :
    (truthy contents.user_did && (length (select is_grant_type contents.credentials) == 0)) ≡ false
unfolding is_grant_type includes ◌===◌
consented = refl

sign_vp-check_entries_example : check_entries host options signed ≡ ok tt
sign_vp-check_entries_example =
    sign_vp-check_entries host options (λ vp at. ok proof) contents overrides draws signed built_run
      signed_run consented
