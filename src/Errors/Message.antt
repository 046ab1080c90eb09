-- ===== src/Errors/Message.antt =====
-- core/errors/HelixError.ts: the message that each class hands to `super`, from the arguments of its
-- constructor. `scopes.join(', ')` has been applied by the caller, which hands over the joined text.
use Prim.Native.String.{String, ◌++◌}
use helix_core.Prelude.{List, [], ◌∷◌}
use helix_core.Errors.{
  ErrorClass, invalid_public_key, invalid_did_format, did_not_found, did_method_not_available,
  unsupported_did_method, did_already_exists, did_deactivated, invalid_service_endpoint_url,
  service_endpoint_not_found, service_endpoint_already_exists, hedera_anchor_failed,
  hedera_resolution_failed, internal, validation, admin_auth_required, vc_not_found,
  vc_already_revoked, vc_expired, vc_not_yet_valid, vc_subject_did_not_found,
  vc_invalid_privilege_scope, status_list_index_exhausted, vc_signature_invalid,
  self_signed_vc_not_allowed, scope_escalation_denied, max_delegation_depth_exceeded,
  self_delegation_not_allowed, vc_revoked, vc_issuer_not_found, delegation_not_permitted,
  delegation_chain_invalid, delegation_parent_vc_not_found, delegation_parent_vc_revoked,
  wallet_already_exists, no_credential_in_wallet, credential_not_for_this_agent,
  credential_already_in_wallet, sdk_only_mode_no_api, insufficient_scope, vp_missing, vp_not_found,
  vp_expired, vp_already_consumed, vp_verification_failed, vp_signature_invalid,
  vp_invalid_structure, consent_grant_subject_mismatch, consent_grant_required,
  consent_grant_wrong_service, consent_grant_not_delegable, consent_grant_scope_not_allowed,
  consent_no_grantable_scopes, consent_grant_invalid, consent_grant_not_found,
  vp_agent_did_not_found, vp_no_active_vc, vp_multiple_active_vc, invalid_jwt, jwt_expired,
  jwt_public_key_not_found, enrollment_token_not_found, enrollment_token_expired,
  enrollment_token_already_used, challenge_not_found, challenge_expired, challenge_already_verified,
  challenge_signature_invalid, agent_already_onboarded, agent_key_not_found, service_key_not_found,
  service_revoked, delegatee_not_an_agent, agent_active_credential_not_found, service_not_found,
  service_already_exists, account_already_exists, account_not_found, invalid_credentials,
  account_has_no_password, refresh_token_invalid, refresh_token_expired,
  refresh_token_reuse_detected, access_token_invalid, access_token_expired, google_oauth_failed,
  email_not_verified, email_verification_token_invalid, email_verification_token_expired,
  account_quota_exceeded, captcha_failed,
}

-- An argument that is left out reads `undefined`.
abbrev argument : List String → String
argument [] = "undefined"
argument (a ∷ more) = a

abbrev rest : List String → List String
rest [] = []
rest (a ∷ more) = more

-- A parameter with a default value.
abbrev or_default : String → List String → String
or_default d [] = d
or_default d (a ∷ more) = a

unfoldable pub message : ErrorClass → List String → String
message invalid_public_key args =
    "The submitted public key is not a valid 32-byte Ed25519 public key."
message invalid_did_format args = "The value '" ++ (argument args) ++ "' is not a valid Helix DID."
message did_not_found args = "DID '" ++ (argument args) ++ "' was not found."
message did_method_not_available args = argument args
message unsupported_did_method args = "Unsupported DID method: " ++ (argument args)
message did_already_exists args = "A DID already exists for this public key."
message did_deactivated args =
    "DID '" ++ (argument args) ++ "' has been deactivated and cannot be used."
message invalid_service_endpoint_url args =
    "Service endpoint URL '" ++ (argument args) ++ "' must be a valid HTTPS URL."
message service_endpoint_not_found args =
    "Service endpoint '" ++ (argument args) ++ "' was not found in the DID document."
message service_endpoint_already_exists args =
    "A service endpoint with ID '" ++ (argument args) ++ "' already exists."
message hedera_anchor_failed args =
    or_default "Failed to anchor the DID document on Hedera. Please retry." args
message hedera_resolution_failed args =
    or_default "Failed to resolve the DID document from Hedera." args
message internal args = "An unexpected error occurred."
message validation args = argument args
message admin_auth_required args = or_default "Admin authorization is required" args
message vc_not_found args = "Verifiable Credential not found: " ++ (argument args)
message vc_already_revoked args =
    or_default "The Verifiable Credential has already been revoked" args
message vc_expired args = or_default "The Verifiable Credential has expired" args
message vc_not_yet_valid args = or_default "The Verifiable Credential is not valid yet" args
message vc_subject_did_not_found args = "Subject DID not found: " ++ (argument args)
message vc_invalid_privilege_scope args = "Invalid privilege scope: " ++ (argument args)
message status_list_index_exhausted args =
    or_default "The status list index space is exhausted" args
message vc_signature_invalid args = or_default "The Verifiable Credential signature is invalid" args
message self_signed_vc_not_allowed args =
    or_default "Self-signed VCs are not allowed unless allowSelfSigned is true" args
message scope_escalation_denied args =
    "Delegated scope is not permitted by the parent credential: " ++ (argument args)
message max_delegation_depth_exceeded args =
    or_default "Maximum delegation depth has been exceeded" args
message self_delegation_not_allowed args =
    "Cannot delegate authority to the same DID: " ++ (argument args)
message vc_revoked args = or_default "The Verifiable Credential has been revoked" args
message vc_issuer_not_found args =
    or_default "The Verifiable Credential issuer DID could not be resolved" args
message delegation_not_permitted args =
    or_default "Delegation is not permitted for this credential" args
message delegation_chain_invalid args = "Delegation chain is invalid: " ++ (argument args)
message delegation_parent_vc_not_found args =
    or_default "Parent VC in delegation chain was not found" args
message delegation_parent_vc_revoked args =
    or_default "Parent VC in delegation chain has been revoked" args
message wallet_already_exists args =
    or_default "Wallet file already exists. Use AgentWallet.load() to load an existing wallet." args
message no_credential_in_wallet args = or_default "Wallet has no credentials" args
message credential_not_for_this_agent args =
    or_default "Credential subject does not match this wallet DID" args
message credential_already_in_wallet args = or_default "Credential is already in this wallet" args
message sdk_only_mode_no_api args =
    or_default
      "This operation requires a HelixID API URL. Pass the API URL to HelixClient constructor: new HelixClient(\"http://your-api\")"
      args
message insufficient_scope args = "Required scope: " ++ (argument args)
message vp_missing args =
    or_default "No Verifiable Presentation in the X-Helix-VP header or MCP _meta[\"x-helix-vp\"]"
      args
message vp_not_found args = or_default "VP not found" args
message vp_expired args = or_default "VP has expired" args
message vp_already_consumed args = or_default "VP was already consumed" args
message vp_verification_failed args =
    or_default "The Verifiable Presentation could not be verified" args
message vp_signature_invalid args =
    or_default "The Verifiable Presentation signature is invalid" args
message vp_invalid_structure args = or_default "VP payload is invalid" args
message consent_grant_subject_mismatch args =
    or_default "Consent grant does not match the presenting agent or the VP user identifier" args
message consent_grant_required args =
    "VP acts on behalf of " ++ (argument args) ++ " but carries no consent grant from them"
message consent_grant_wrong_service args =
    "Consent grant was issued by "
    ++ (argument args)
    ++ ", not by the VP's target service "
    ++ (argument (rest args))
message consent_grant_not_delegable args =
    "Consent grant was given to a delegating agent and does not allow use by its delegates"
message consent_grant_scope_not_allowed args =
    "Consent grant scopes are not held by the agent's own credential: " ++ (argument args)
message consent_no_grantable_scopes args =
    or_default "Consent grant carries no scope the agent can use at this service" args
message consent_grant_invalid args =
    or_default "Consent grant credential is structurally invalid" args
message consent_grant_not_found args =
    "No active consent grant from "
    ++ (argument (rest args))
    ++ " to "
    ++ (argument args)
    ++ " on behalf of "
    ++ (argument (rest (rest args)))
message vp_agent_did_not_found args = or_default "Agent DID not found" args
message vp_no_active_vc args = or_default "No active VC found for agent" args
message vp_multiple_active_vc args = or_default "Multiple active VCs found for agent" args
message invalid_jwt args = or_default "JWT is invalid" args
message jwt_expired args = or_default "JWT has expired" args
message jwt_public_key_not_found args = or_default "JWT public key is not configured" args
message enrollment_token_not_found args = or_default "Enrollment token was not found" args
message enrollment_token_expired args = or_default "Enrollment token has expired" args
message enrollment_token_already_used args = or_default "Enrollment token was already used" args
message challenge_not_found args = or_default "Challenge was not found" args
message challenge_expired args = or_default "Challenge has expired" args
message challenge_already_verified args = or_default "Challenge was already verified" args
message challenge_signature_invalid args = or_default "Challenge signature is invalid" args
message agent_already_onboarded args = or_default "Agent is already onboarded" args
message agent_key_not_found args = "No server-held key for agent DID: " ++ (argument args)
message service_key_not_found args = "No server-held key for service DID: " ++ (argument args)
message service_revoked args = "Service has been revoked: " ++ (argument args)
message delegatee_not_an_agent args = "Delegatee is not a known agent: " ++ (argument args)
message agent_active_credential_not_found args =
    "No active credential for agent DID: " ++ (argument args)
message service_not_found args = or_default "Service was not found" args
message service_already_exists args = or_default "Service already exists" args
message account_already_exists args = or_default "An account with this email already exists" args
message account_not_found args = or_default "Account was not found" args
message invalid_credentials args = or_default "Email or password is incorrect" args
message account_has_no_password args =
    or_default "This account signs in with Google only; no password is set" args
message refresh_token_invalid args = or_default "Refresh token is invalid" args
message refresh_token_expired args =
    or_default "Refresh token has expired; please sign in again" args
message refresh_token_reuse_detected args =
    or_default
      "This refresh token was already used. All sessions for this account have been signed out args a precaution."
      args
message access_token_invalid args = or_default "Access token is invalid" args
message access_token_expired args = or_default "Access token has expired" args
message google_oauth_failed args = or_default "Google sign-in failed" args
message email_not_verified args =
    or_default "Please verify your email before issuing credentials or enrollment tokens" args
message email_verification_token_invalid args = or_default "Verification link is invalid" args
message email_verification_token_expired args =
    or_default "Verification link has expired; request a new one" args
message account_quota_exceeded args = or_default "Daily quota exceeded for this account" args
message captcha_failed args = or_default "CAPTCHA verification failed" args
