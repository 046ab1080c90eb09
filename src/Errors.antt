-- ===== src/Errors.antt =====
-- core/errors/HelixError.ts and codes.ts: the error classes with their codes and statuses, and what
-- a JavaScript `throw` carries. A `HelixError` keeps its class, which `instanceof` tests, and the
-- arguments that its constructor was given; code, status and message are computed from these.
mod Laws
pub mod Message
mod Codes
use Prim.Native.String.{String}
use helix_core.Prelude.{ℕ, List}

-- One constructor for each `class … extends HelixError`.
pub data ErrorClass : Type 0 where
  invalid_public_key invalid_did_format did_not_found did_method_not_available : ErrorClass
  unsupported_did_method did_already_exists did_deactivated invalid_service_endpoint_url :
      ErrorClass
  service_endpoint_not_found service_endpoint_already_exists hedera_anchor_failed : ErrorClass
  hedera_resolution_failed internal validation admin_auth_required vc_not_found : ErrorClass
  vc_already_revoked vc_expired vc_not_yet_valid vc_subject_did_not_found : ErrorClass
  vc_invalid_privilege_scope status_list_index_exhausted vc_signature_invalid : ErrorClass
  self_signed_vc_not_allowed scope_escalation_denied max_delegation_depth_exceeded : ErrorClass
  self_delegation_not_allowed vc_revoked vc_issuer_not_found delegation_not_permitted : ErrorClass
  delegation_chain_invalid delegation_parent_vc_not_found delegation_parent_vc_revoked : ErrorClass
  wallet_already_exists no_credential_in_wallet credential_not_for_this_agent : ErrorClass
  credential_already_in_wallet sdk_only_mode_no_api insufficient_scope vp_missing : ErrorClass
  vp_not_found vp_expired vp_already_consumed vp_verification_failed vp_signature_invalid :
      ErrorClass
  vp_invalid_structure consent_grant_subject_mismatch consent_grant_required : ErrorClass
  consent_grant_wrong_service consent_grant_not_delegable consent_grant_scope_not_allowed :
      ErrorClass
  consent_no_grantable_scopes consent_grant_invalid consent_grant_not_found : ErrorClass
  vp_agent_did_not_found vp_no_active_vc vp_multiple_active_vc invalid_jwt jwt_expired : ErrorClass
  jwt_public_key_not_found enrollment_token_not_found enrollment_token_expired : ErrorClass
  enrollment_token_already_used challenge_not_found challenge_expired : ErrorClass
  challenge_already_verified challenge_signature_invalid agent_already_onboarded : ErrorClass
  agent_key_not_found service_key_not_found service_revoked delegatee_not_an_agent : ErrorClass
  agent_active_credential_not_found service_not_found service_already_exists : ErrorClass
  account_already_exists account_not_found invalid_credentials account_has_no_password : ErrorClass
  refresh_token_invalid refresh_token_expired refresh_token_reuse_detected : ErrorClass
  access_token_invalid access_token_expired google_oauth_failed email_not_verified : ErrorClass
  email_verification_token_invalid email_verification_token_expired : ErrorClass
  account_quota_exceeded captcha_failed : ErrorClass

-- The code that each class hands to `super`.
unfoldable pub code : ErrorClass → String
code invalid_public_key = "INVALID_PUBLIC_KEY"
code invalid_did_format = "INVALID_DID_FORMAT"
code did_not_found = "DID_NOT_FOUND"
code did_method_not_available = "DID_METHOD_NOT_AVAILABLE"
code unsupported_did_method = "UNSUPPORTED_DID_METHOD"
code did_already_exists = "DID_ALREADY_EXISTS"
code did_deactivated = "DID_DEACTIVATED"
code invalid_service_endpoint_url = "INVALID_SERVICE_ENDPOINT_URL"
code service_endpoint_not_found = "SERVICE_ENDPOINT_NOT_FOUND"
code service_endpoint_already_exists = "SERVICE_ENDPOINT_ALREADY_EXISTS"
code hedera_anchor_failed = "HEDERA_ANCHOR_FAILED"
code hedera_resolution_failed = "HEDERA_RESOLUTION_FAILED"
code internal = "INTERNAL_ERROR"
code validation = "VALIDATION_ERROR"
code admin_auth_required = "ADMIN_AUTH_REQUIRED"
code vc_not_found = "VC_NOT_FOUND"
code vc_already_revoked = "VC_ALREADY_REVOKED"
code vc_expired = "VC_EXPIRED"
code vc_not_yet_valid = "VC_NOT_YET_VALID"
code vc_subject_did_not_found = "VC_SUBJECT_DID_NOT_FOUND"
code vc_invalid_privilege_scope = "VC_INVALID_PRIVILEGE_SCOPE"
code status_list_index_exhausted = "STATUS_LIST_INDEX_EXHAUSTED"
code vc_signature_invalid = "VC_SIGNATURE_INVALID"
code self_signed_vc_not_allowed = "SELF_SIGNED_VC_NOT_ALLOWED"
code scope_escalation_denied = "SCOPE_ESCALATION_DENIED"
code max_delegation_depth_exceeded = "MAX_DELEGATION_DEPTH_EXCEEDED"
code self_delegation_not_allowed = "SELF_DELEGATION_NOT_ALLOWED"
code vc_revoked = "VC_REVOKED"
code vc_issuer_not_found = "VC_ISSUER_NOT_FOUND"
code delegation_not_permitted = "DELEGATION_NOT_PERMITTED"
code delegation_chain_invalid = "DELEGATION_CHAIN_INVALID"
code delegation_parent_vc_not_found = "DELEGATION_PARENT_VC_NOT_FOUND"
code delegation_parent_vc_revoked = "DELEGATION_PARENT_VC_REVOKED"
code wallet_already_exists = "WALLET_ALREADY_EXISTS"
code no_credential_in_wallet = "NO_CREDENTIAL_IN_WALLET"
code credential_not_for_this_agent = "CREDENTIAL_NOT_FOR_THIS_AGENT"
code credential_already_in_wallet = "CREDENTIAL_ALREADY_IN_WALLET"
code sdk_only_mode_no_api = "SDK_ONLY_MODE_NO_API"
code insufficient_scope = "INSUFFICIENT_SCOPE"
code vp_missing = "VP_MISSING"
code vp_not_found = "VP_NOT_FOUND"
code vp_expired = "VP_EXPIRED"
code vp_already_consumed = "VP_ALREADY_CONSUMED"
code vp_verification_failed = "VP_VERIFICATION_FAILED"
code vp_signature_invalid = "VP_SIGNATURE_INVALID"
code vp_invalid_structure = "VP_INVALID_STRUCTURE"
code consent_grant_subject_mismatch = "CONSENT_GRANT_SUBJECT_MISMATCH"
code consent_grant_required = "CONSENT_GRANT_REQUIRED"
code consent_grant_wrong_service = "CONSENT_GRANT_WRONG_SERVICE"
code consent_grant_not_delegable = "CONSENT_GRANT_NOT_DELEGABLE"
code consent_grant_scope_not_allowed = "CONSENT_GRANT_SCOPE_NOT_ALLOWED"
code consent_no_grantable_scopes = "CONSENT_NO_GRANTABLE_SCOPES"
code consent_grant_invalid = "CONSENT_GRANT_INVALID"
code consent_grant_not_found = "CONSENT_GRANT_NOT_FOUND"
code vp_agent_did_not_found = "VP_AGENT_DID_NOT_FOUND"
code vp_no_active_vc = "VP_NO_ACTIVE_VC"
code vp_multiple_active_vc = "VP_MULTIPLE_ACTIVE_VC"
code invalid_jwt = "JWT_INVALID"
code jwt_expired = "JWT_EXPIRED"
code jwt_public_key_not_found = "JWT_PUBLIC_KEY_NOT_FOUND"
code enrollment_token_not_found = "ENROLLMENT_TOKEN_NOT_FOUND"
code enrollment_token_expired = "ENROLLMENT_TOKEN_EXPIRED"
code enrollment_token_already_used = "ENROLLMENT_TOKEN_ALREADY_USED"
code challenge_not_found = "CHALLENGE_NOT_FOUND"
code challenge_expired = "CHALLENGE_EXPIRED"
code challenge_already_verified = "CHALLENGE_ALREADY_VERIFIED"
code challenge_signature_invalid = "CHALLENGE_SIGNATURE_INVALID"
code agent_already_onboarded = "AGENT_ALREADY_ONBOARDED"
code agent_key_not_found = "AGENT_KEY_NOT_FOUND"
code service_key_not_found = "SERVICE_KEY_NOT_FOUND"
code service_revoked = "SERVICE_REVOKED"
code delegatee_not_an_agent = "DELEGATEE_NOT_AN_AGENT"
code agent_active_credential_not_found = "AGENT_ACTIVE_CREDENTIAL_NOT_FOUND"
code service_not_found = "SERVICE_NOT_FOUND"
code service_already_exists = "SERVICE_ALREADY_EXISTS"
code account_already_exists = "ACCOUNT_ALREADY_EXISTS"
code account_not_found = "ACCOUNT_NOT_FOUND"
code invalid_credentials = "INVALID_CREDENTIALS"
code account_has_no_password = "ACCOUNT_HAS_NO_PASSWORD"
code refresh_token_invalid = "REFRESH_TOKEN_INVALID"
code refresh_token_expired = "REFRESH_TOKEN_EXPIRED"
code refresh_token_reuse_detected = "REFRESH_TOKEN_REUSE_DETECTED"
code access_token_invalid = "ACCESS_TOKEN_INVALID"
code access_token_expired = "ACCESS_TOKEN_EXPIRED"
code google_oauth_failed = "GOOGLE_OAUTH_FAILED"
code email_not_verified = "EMAIL_NOT_VERIFIED"
code email_verification_token_invalid = "EMAIL_VERIFICATION_TOKEN_INVALID"
code email_verification_token_expired = "EMAIL_VERIFICATION_TOKEN_EXPIRED"
code account_quota_exceeded = "ACCOUNT_QUOTA_EXCEEDED"
code captcha_failed = "CAPTCHA_FAILED"

-- The HTTP status that each class hands to `super`.
unfoldable pub http_status : ErrorClass → ℕ
http_status invalid_public_key = 400
http_status invalid_did_format = 400
http_status did_not_found = 404
http_status did_method_not_available = 501
http_status unsupported_did_method = 400
http_status did_already_exists = 409
http_status did_deactivated = 410
http_status invalid_service_endpoint_url = 400
http_status service_endpoint_not_found = 404
http_status service_endpoint_already_exists = 409
http_status hedera_anchor_failed = 502
http_status hedera_resolution_failed = 502
http_status internal = 500
http_status validation = 400
http_status admin_auth_required = 403
http_status vc_not_found = 404
http_status vc_already_revoked = 409
http_status vc_expired = 400
http_status vc_not_yet_valid = 400
http_status vc_subject_did_not_found = 404
http_status vc_invalid_privilege_scope = 400
http_status status_list_index_exhausted = 503
http_status vc_signature_invalid = 400
http_status self_signed_vc_not_allowed = 403
http_status scope_escalation_denied = 400
http_status max_delegation_depth_exceeded = 400
http_status self_delegation_not_allowed = 400
http_status vc_revoked = 400
http_status vc_issuer_not_found = 400
http_status delegation_not_permitted = 403
http_status delegation_chain_invalid = 400
http_status delegation_parent_vc_not_found = 404
http_status delegation_parent_vc_revoked = 400
http_status wallet_already_exists = 409
http_status no_credential_in_wallet = 400
http_status credential_not_for_this_agent = 400
http_status credential_already_in_wallet = 409
http_status sdk_only_mode_no_api = 400
http_status insufficient_scope = 403
http_status vp_missing = 401
http_status vp_not_found = 404
http_status vp_expired = 400
http_status vp_already_consumed = 400
http_status vp_verification_failed = 400
http_status vp_signature_invalid = 400
http_status vp_invalid_structure = 400
http_status consent_grant_subject_mismatch = 400
http_status consent_grant_required = 400
http_status consent_grant_wrong_service = 400
http_status consent_grant_not_delegable = 400
http_status consent_grant_scope_not_allowed = 400
http_status consent_no_grantable_scopes = 400
http_status consent_grant_invalid = 400
http_status consent_grant_not_found = 404
http_status vp_agent_did_not_found = 404
http_status vp_no_active_vc = 400
http_status vp_multiple_active_vc = 400
http_status invalid_jwt = 400
http_status jwt_expired = 401
http_status jwt_public_key_not_found = 500
http_status enrollment_token_not_found = 404
http_status enrollment_token_expired = 400
http_status enrollment_token_already_used = 409
http_status challenge_not_found = 404
http_status challenge_expired = 410
http_status challenge_already_verified = 409
http_status challenge_signature_invalid = 400
http_status agent_already_onboarded = 409
http_status agent_key_not_found = 404
http_status service_key_not_found = 404
http_status service_revoked = 409
http_status delegatee_not_an_agent = 404
http_status agent_active_credential_not_found = 404
http_status service_not_found = 404
http_status service_already_exists = 409
http_status account_already_exists = 409
http_status account_not_found = 404
http_status invalid_credentials = 401
http_status account_has_no_password = 401
http_status refresh_token_invalid = 401
http_status refresh_token_expired = 401
http_status refresh_token_reuse_detected = 401
http_status access_token_invalid = 401
http_status access_token_expired = 401
http_status google_oauth_failed = 401
http_status email_not_verified = 403
http_status email_verification_token_invalid = 400
http_status email_verification_token_expired = 400
http_status account_quota_exceeded = 429
http_status captcha_failed = 400

pub record HelixError : Type 0 where
  pub class : ErrorClass
  pub arguments : List String

-- What a `throw` carries: a Helix error, any other `Error` with its message, or `undefined`.
pub data Thrown : Type 0 where
  helix : HelixError → Thrown
  coded : String → String → ℕ → Thrown
  plain : String → Thrown
  undefined : Thrown
