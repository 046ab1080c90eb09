-- ===== src/Errors/Codes.antt =====
-- core/errors/codes.ts: the codes that a client may meet.
use helix_core.Prelude.{refl, String, List, [], ◌∷◌, Has, includes, ◌===◌}
use helix_core.Errors.{
  ErrorClass, code, invalid_public_key, invalid_did_format, did_not_found, did_method_not_available,
  unsupported_did_method, did_already_exists, did_deactivated, invalid_service_endpoint_url,
  service_endpoint_not_found, service_endpoint_already_exists, hedera_anchor_failed,
  hedera_resolution_failed, internal, validation, admin_auth_required, vc_not_found,
  vc_already_revoked, vc_expired, vc_not_yet_valid, vc_subject_did_not_found,
  vc_invalid_privilege_scope, status_list_index_exhausted, vc_signature_invalid,
  self_signed_vc_not_allowed, scope_escalation_denied, max_delegation_depth_exceeded,
  self_delegation_not_allowed, vc_revoked, vc_issuer_not_found, delegation_not_permitted,
  delegation_chain_invalid, delegation_parent_vc_not_found, delegation_parent_vc_revoked,
  wallet_already_exists, no_credential_in_wallet, credential_not_for_this_agent,
  credential_already_in_wallet, sdk_only_mode_no_api, insufficient_scope, vp_missing, vp_not_found,
  vp_expired, vp_already_consumed, vp_verification_failed, vp_signature_invalid,
  vp_invalid_structure, consent_grant_subject_mismatch, consent_grant_required,
  consent_grant_wrong_service, consent_grant_not_delegable, consent_grant_scope_not_allowed,
  consent_no_grantable_scopes, consent_grant_invalid, consent_grant_not_found,
  vp_agent_did_not_found, vp_no_active_vc, vp_multiple_active_vc, invalid_jwt, jwt_expired,
  jwt_public_key_not_found, enrollment_token_not_found, enrollment_token_expired,
  enrollment_token_already_used, challenge_not_found, challenge_expired, challenge_already_verified,
  challenge_signature_invalid, agent_already_onboarded, agent_key_not_found, service_key_not_found,
  service_revoked, delegatee_not_an_agent, agent_active_credential_not_found, service_not_found,
  service_already_exists, account_already_exists, account_not_found, invalid_credentials,
  account_has_no_password, refresh_token_invalid, refresh_token_expired,
  refresh_token_reuse_detected, access_token_invalid, access_token_expired, google_oauth_failed,
  email_not_verified, email_verification_token_invalid, email_verification_token_expired,
  account_quota_exceeded, captcha_failed,
}

-- the values of `ErrorCodes`
abbrev pub error_codes : List String
error_codes =
    "VALIDATION_ERROR" ∷ "INTERNAL_ERROR" ∷ "ADMIN_AUTH_REQUIRED" ∷ "ACCOUNT_AUTH_REQUIRED"
    ∷ "ACCOUNT_FORBIDDEN" ∷ "INVALID_PUBLIC_KEY" ∷ "INVALID_DID_FORMAT" ∷ "DID_NOT_FOUND"
    ∷ "DID_METHOD_NOT_AVAILABLE" ∷ "UNSUPPORTED_DID_METHOD" ∷ "DID_ALREADY_EXISTS"
    ∷ "DID_DEACTIVATED" ∷ "INVALID_SERVICE_ENDPOINT_URL" ∷ "SERVICE_ENDPOINT_NOT_FOUND"
    ∷ "SERVICE_ENDPOINT_ALREADY_EXISTS" ∷ "HEDERA_ANCHOR_FAILED" ∷ "HEDERA_RESOLUTION_FAILED"
    ∷ "VC_NOT_FOUND" ∷ "VC_ALREADY_REVOKED" ∷ "VC_EXPIRED" ∷ "VC_NOT_YET_VALID"
    ∷ "VC_SUBJECT_DID_NOT_FOUND" ∷ "VC_INVALID_PRIVILEGE_SCOPE" ∷ "STATUS_LIST_INDEX_EXHAUSTED"
    ∷ "STATUS_LIST_NOT_FOUND" ∷ "VC_SIGNATURE_INVALID" ∷ "SELF_SIGNED_VC_NOT_ALLOWED"
    ∷ "SCOPE_ESCALATION_DENIED" ∷ "MAX_DELEGATION_DEPTH_EXCEEDED" ∷ "SELF_DELEGATION_NOT_ALLOWED"
    ∷ "ISSUER_SIGNING_KEY_MISMATCH" ∷ "VC_REVOKED" ∷ "VC_ISSUER_NOT_FOUND"
    ∷ "DELEGATION_NOT_PERMITTED" ∷ "DELEGATION_DEPTH_EXCEEDED" ∷ "DELEGATION_SCOPE_ESCALATION"
    ∷ "DELEGATION_CHAIN_INVALID" ∷ "DELEGATION_PARENT_VC_NOT_FOUND" ∷ "DELEGATION_PARENT_VC_REVOKED"
    ∷ "VP_MISSING" ∷ "VP_NOT_FOUND" ∷ "VP_EXPIRED" ∷ "VP_ALREADY_CONSUMED"
    ∷ "VP_VERIFICATION_FAILED" ∷ "VP_SIGNATURE_INVALID" ∷ "VP_INVALID_STRUCTURE"
    ∷ "VP_AGENT_DID_NOT_FOUND" ∷ "VP_NO_ACTIVE_VC" ∷ "VP_MULTIPLE_ACTIVE_VC"
    ∷ "CONSENT_GRANT_SUBJECT_MISMATCH" ∷ "CONSENT_GRANT_INVALID" ∷ "CONSENT_GRANT_NOT_FOUND"
    ∷ "CONSENT_GRANT_REQUIRED" ∷ "CONSENT_GRANT_WRONG_SERVICE" ∷ "CONSENT_GRANT_NOT_DELEGABLE"
    ∷ "CONSENT_GRANT_SCOPE_NOT_ALLOWED" ∷ "CONSENT_NO_GRANTABLE_SCOPES" ∷ "JWT_INVALID"
    ∷ "JWT_EXPIRED" ∷ "JWT_PUBLIC_KEY_NOT_FOUND" ∷ "SERVICE_NOT_FOUND" ∷ "SERVICE_ALREADY_EXISTS"
    ∷ "ENROLLMENT_TOKEN_NOT_FOUND" ∷ "ENROLLMENT_TOKEN_EXPIRED" ∷ "ENROLLMENT_TOKEN_ALREADY_USED"
    ∷ "CHALLENGE_NOT_FOUND" ∷ "CHALLENGE_EXPIRED" ∷ "CHALLENGE_ALREADY_VERIFIED"
    ∷ "CHALLENGE_SIGNATURE_INVALID" ∷ "AGENT_ALREADY_ONBOARDED" ∷ "AGENT_KEY_NOT_FOUND"
    ∷ "SERVICE_KEY_NOT_FOUND" ∷ "SERVICE_REVOKED" ∷ "DELEGATEE_NOT_AN_AGENT"
    ∷ "AGENT_ACTIVE_CREDENTIAL_NOT_FOUND" ∷ "WALLET_ALREADY_EXISTS" ∷ "NO_CREDENTIAL_IN_WALLET"
    ∷ "CREDENTIAL_NOT_FOR_THIS_AGENT" ∷ "CREDENTIAL_ALREADY_IN_WALLET" ∷ "SDK_ONLY_MODE_NO_API"
    ∷ "INSUFFICIENT_SCOPE" ∷ "ACCOUNT_ALREADY_EXISTS" ∷ "ACCOUNT_NOT_FOUND" ∷ "INVALID_CREDENTIALS"
    ∷ "ACCOUNT_HAS_NO_PASSWORD" ∷ "REFRESH_TOKEN_INVALID" ∷ "REFRESH_TOKEN_EXPIRED"
    ∷ "REFRESH_TOKEN_REUSE_DETECTED" ∷ "ACCESS_TOKEN_INVALID" ∷ "ACCESS_TOKEN_EXPIRED"
    ∷ "GOOGLE_OAUTH_FAILED" ∷ "EMAIL_NOT_VERIFIED" ∷ "EMAIL_VERIFICATION_TOKEN_INVALID"
    ∷ "EMAIL_VERIFICATION_TOKEN_EXPIRED" ∷ "ACCOUNT_QUOTA_EXCEEDED" ∷ "CAPTCHA_FAILED" ∷ []

-- The code of every error class is one of the published codes.
pub code-error_codes : (class : ErrorClass) → Has error_codes (code class)
unfolding code includes ◌===◌
code-error_codes invalid_public_key = refl
code-error_codes invalid_did_format = refl
code-error_codes did_not_found = refl
code-error_codes did_method_not_available = refl
code-error_codes unsupported_did_method = refl
code-error_codes did_already_exists = refl
code-error_codes did_deactivated = refl
code-error_codes invalid_service_endpoint_url = refl
code-error_codes service_endpoint_not_found = refl
code-error_codes service_endpoint_already_exists = refl
code-error_codes hedera_anchor_failed = refl
code-error_codes hedera_resolution_failed = refl
code-error_codes internal = refl
code-error_codes validation = refl
code-error_codes admin_auth_required = refl
code-error_codes vc_not_found = refl
code-error_codes vc_already_revoked = refl
code-error_codes vc_expired = refl
code-error_codes vc_not_yet_valid = refl
code-error_codes vc_subject_did_not_found = refl
code-error_codes vc_invalid_privilege_scope = refl
code-error_codes status_list_index_exhausted = refl
code-error_codes vc_signature_invalid = refl
code-error_codes self_signed_vc_not_allowed = refl
code-error_codes scope_escalation_denied = refl
code-error_codes max_delegation_depth_exceeded = refl
code-error_codes self_delegation_not_allowed = refl
code-error_codes vc_revoked = refl
code-error_codes vc_issuer_not_found = refl
code-error_codes delegation_not_permitted = refl
code-error_codes delegation_chain_invalid = refl
code-error_codes delegation_parent_vc_not_found = refl
code-error_codes delegation_parent_vc_revoked = refl
code-error_codes wallet_already_exists = refl
code-error_codes no_credential_in_wallet = refl
code-error_codes credential_not_for_this_agent = refl
code-error_codes credential_already_in_wallet = refl
code-error_codes sdk_only_mode_no_api = refl
code-error_codes insufficient_scope = refl
code-error_codes vp_missing = refl
code-error_codes vp_not_found = refl
code-error_codes vp_expired = refl
code-error_codes vp_already_consumed = refl
code-error_codes vp_verification_failed = refl
code-error_codes vp_signature_invalid = refl
code-error_codes vp_invalid_structure = refl
code-error_codes consent_grant_subject_mismatch = refl
code-error_codes consent_grant_required = refl
code-error_codes consent_grant_wrong_service = refl
code-error_codes consent_grant_not_delegable = refl
code-error_codes consent_grant_scope_not_allowed = refl
code-error_codes consent_no_grantable_scopes = refl
code-error_codes consent_grant_invalid = refl
code-error_codes consent_grant_not_found = refl
code-error_codes vp_agent_did_not_found = refl
code-error_codes vp_no_active_vc = refl
code-error_codes vp_multiple_active_vc = refl
code-error_codes invalid_jwt = refl
code-error_codes jwt_expired = refl
code-error_codes jwt_public_key_not_found = refl
code-error_codes enrollment_token_not_found = refl
code-error_codes enrollment_token_expired = refl
code-error_codes enrollment_token_already_used = refl
code-error_codes challenge_not_found = refl
code-error_codes challenge_expired = refl
code-error_codes challenge_already_verified = refl
code-error_codes challenge_signature_invalid = refl
code-error_codes agent_already_onboarded = refl
code-error_codes agent_key_not_found = refl
code-error_codes service_key_not_found = refl
code-error_codes service_revoked = refl
code-error_codes delegatee_not_an_agent = refl
code-error_codes agent_active_credential_not_found = refl
code-error_codes service_not_found = refl
code-error_codes service_already_exists = refl
code-error_codes account_already_exists = refl
code-error_codes account_not_found = refl
code-error_codes invalid_credentials = refl
code-error_codes account_has_no_password = refl
code-error_codes refresh_token_invalid = refl
code-error_codes refresh_token_expired = refl
code-error_codes refresh_token_reuse_detected = refl
code-error_codes access_token_invalid = refl
code-error_codes access_token_expired = refl
code-error_codes google_oauth_failed = refl
code-error_codes email_not_verified = refl
code-error_codes email_verification_token_invalid = refl
code-error_codes email_verification_token_expired = refl
code-error_codes account_quota_exceeded = refl
code-error_codes captcha_failed = refl
