-- ===== src/VpService/Tests.antt =====
-- A presentation that is no `signedVPSchema`.
use helix_core.Prelude.{◌≡◌, refl, false, none, [], ◌∷◌}
use helix_core.Errors.{vp_invalid_structure}
use helix_core.Result.{ok, throw}
use helix_core.Verifier.Host.{error}
use helix_core.Verifier.Fixture.{host, list_json, vp}
use helix_core.VpService.{
  VpPlatform, VpOptions, vp_rejected, masked, signed_vp_schema, verify_parsed, verify_presented,
}
use helix_core.VpService.Errors.{IsRejection, verify_presented-IsRejection}

abbrev platform : VpPlatform
platform = record {
  host = host;
  api_base_url = "https://helix/";
  jwt_session = none;
  get_status_list = λ id. ok list_json;
  decode_uri_component = λ text. ok "1";
  iso = λ t. "then";
  issue_jwt = λ payload key. ok "token";
}

abbrev options : VpOptions
options = record {
  issue_session = false;
  expected_target_service = none;
  allow_self_signed = none;
  jti = "jwt:1";
}

-- its id does not start with `vp:helix:`
rejects :
    verify_presented platform options vp []
    ≡ (throw (error vp_invalid_structure []), vp_rejected "unknown" ∷ [])
unfolding verify_presented verify_parsed signed_vp_schema masked
rejects = refl

verify_presented-IsRejection_example :
    IsRejection platform options vp (error vp_invalid_structure []) (vp_rejected "unknown" ∷ [])
verify_presented-IsRejection_example =
    verify_presented-IsRejection platform options vp [] (vp_rejected "unknown" ∷ [])
      (error vp_invalid_structure []) rejects
