-- ===== src/Errors/Laws.antt =====
-- The codes of core/errors/HelixError.ts identify the classes, and every status is one that
-- reports a failure.
use helix_core.Prelude.{◌≤◌, ◌≡◌, refl, ap, Option, some, List, [], ◌∷◌, String, arith, ◌===◌, find}
use helix_core.Errors.{
  ErrorClass, code, http_status, invalid_public_key, invalid_did_format, did_not_found,
  did_method_not_available, unsupported_did_method, did_already_exists, did_deactivated,
  invalid_service_endpoint_url, service_endpoint_not_found, service_endpoint_already_exists,
  hedera_anchor_failed, hedera_resolution_failed, internal, validation, admin_auth_required,
  vc_not_found, vc_already_revoked, vc_expired, vc_not_yet_valid, vc_subject_did_not_found,
  vc_invalid_privilege_scope, status_list_index_exhausted, vc_signature_invalid,
  self_signed_vc_not_allowed, scope_escalation_denied, max_delegation_depth_exceeded,
  self_delegation_not_allowed, vc_revoked, vc_issuer_not_found, delegation_not_permitted,
  delegation_chain_invalid, delegation_parent_vc_not_found, delegation_parent_vc_revoked,
  wallet_already_exists, no_credential_in_wallet, credential_not_for_this_agent,
  credential_already_in_wallet, sdk_only_mode_no_api, insufficient_scope, vp_missing, vp_not_found,
  vp_expired, vp_already_consumed, vp_verification_failed, vp_signature_invalid,
  vp_invalid_structure, consent_grant_subject_mismatch, consent_grant_required,
  consent_grant_wrong_service, consent_grant_not_delegable, consent_grant_scope_not_allowed,
  consent_no_grantable_scopes, consent_grant_invalid, consent_grant_not_found,
  vp_agent_did_not_found, vp_no_active_vc, vp_multiple_active_vc, invalid_jwt, jwt_expired,
  jwt_public_key_not_found, enrollment_token_not_found, enrollment_token_expired,
  enrollment_token_already_used, challenge_not_found, challenge_expired, challenge_already_verified,
  challenge_signature_invalid, agent_already_onboarded, agent_key_not_found, service_key_not_found,
  service_revoked, delegatee_not_an_agent, agent_active_credential_not_found, service_not_found,
  service_already_exists, account_already_exists, account_not_found, invalid_credentials,
  account_has_no_password, refresh_token_invalid, refresh_token_expired,
  refresh_token_reuse_detected, access_token_invalid, access_token_expired, google_oauth_failed,
  email_not_verified, email_verification_token_invalid, email_verification_token_expired,
  account_quota_exceeded, captcha_failed,
}

-- Every class, in the order of the file.
abbrev classes : List ErrorClass
classes =
    invalid_public_key ∷ invalid_did_format ∷ did_not_found ∷ did_method_not_available
    ∷ unsupported_did_method ∷ did_already_exists ∷ did_deactivated ∷ invalid_service_endpoint_url
    ∷ service_endpoint_not_found ∷ service_endpoint_already_exists ∷ hedera_anchor_failed
    ∷ hedera_resolution_failed ∷ internal ∷ validation ∷ admin_auth_required ∷ vc_not_found
    ∷ vc_already_revoked ∷ vc_expired ∷ vc_not_yet_valid ∷ vc_subject_did_not_found
    ∷ vc_invalid_privilege_scope ∷ status_list_index_exhausted ∷ vc_signature_invalid
    ∷ self_signed_vc_not_allowed ∷ scope_escalation_denied ∷ max_delegation_depth_exceeded
    ∷ self_delegation_not_allowed ∷ vc_revoked ∷ vc_issuer_not_found ∷ delegation_not_permitted
    ∷ delegation_chain_invalid ∷ delegation_parent_vc_not_found ∷ delegation_parent_vc_revoked
    ∷ wallet_already_exists ∷ no_credential_in_wallet ∷ credential_not_for_this_agent
    ∷ credential_already_in_wallet ∷ sdk_only_mode_no_api ∷ insufficient_scope ∷ vp_missing
    ∷ vp_not_found ∷ vp_expired ∷ vp_already_consumed ∷ vp_verification_failed
    ∷ vp_signature_invalid ∷ vp_invalid_structure ∷ consent_grant_subject_mismatch
    ∷ consent_grant_required ∷ consent_grant_wrong_service ∷ consent_grant_not_delegable
    ∷ consent_grant_scope_not_allowed ∷ consent_no_grantable_scopes ∷ consent_grant_invalid
    ∷ consent_grant_not_found ∷ vp_agent_did_not_found ∷ vp_no_active_vc ∷ vp_multiple_active_vc
    ∷ invalid_jwt ∷ jwt_expired ∷ jwt_public_key_not_found ∷ enrollment_token_not_found
    ∷ enrollment_token_expired ∷ enrollment_token_already_used ∷ challenge_not_found
    ∷ challenge_expired ∷ challenge_already_verified ∷ challenge_signature_invalid
    ∷ agent_already_onboarded ∷ agent_key_not_found ∷ service_key_not_found ∷ service_revoked
    ∷ delegatee_not_an_agent ∷ agent_active_credential_not_found ∷ service_not_found
    ∷ service_already_exists ∷ account_already_exists ∷ account_not_found ∷ invalid_credentials
    ∷ account_has_no_password ∷ refresh_token_invalid ∷ refresh_token_expired
    ∷ refresh_token_reuse_detected ∷ access_token_invalid ∷ access_token_expired
    ∷ google_oauth_failed ∷ email_not_verified ∷ email_verification_token_invalid
    ∷ email_verification_token_expired ∷ account_quota_exceeded ∷ captcha_failed ∷ []

of_code : String → Option ErrorClass
unfolding code ◌===◌
of_code s = find (λ c. code c === s) classes

of_code-code : (c : ErrorClass) → of_code (code c) ≡ some c
unfolding of_code
of_code-code invalid_public_key = refl
of_code-code _ = refl

-- No two error classes share a code: a client can tell from the code which class was thrown.
pub code_injective : (c d : ErrorClass) → code c ≡ code d → c ≡ d
code_injective c d h = cc (of_code-code c, of_code-code d, ap of_code h)

-- Every class answers with a status from 400 to 503, so no error is reported as a success.
pub http_status_bounds : (c : ErrorClass) → (400 ≤ http_status c) × (http_status c ≤ 503)
unfolding http_status
http_status_bounds invalid_public_key = omega arith
http_status_bounds _ = omega arith
