-- ===== src/AgentService/Onboarding.antt =====
-- services/agent/agent.service.ts: `processOnboardVerify`, `onboardWithCustody` and `mapAgentError`;
-- the `verifySignature` of core/crypto/vp.ts.
use helix_core.Prelude.{
  ℕ, String, Option, none, some, List, [], ◌∷◌, Bool, false, not, ◌&&◌, ◌===◌, leb, if◌then◌else◌,
}
use helix_core.Text.{truthy}
use helix_core.Errors.{
  Thrown, helix, coded, plain, undefined, code, http_status, challenge_not_found, challenge_expired,
  challenge_already_verified, challenge_signature_invalid, agent_already_onboarded,
}
use helix_core.Errors.Message.{message}
use helix_core.Result.{Result, ok}
use helix_core.Action.{Action, resolve, reject, reject_if, call, ◌>>=◌, ◌>>◌}
use helix_core.Credential.{SignedVc}
use helix_core.Verifier.Host.{error}
use helix_core.DidService.{DidCreationProof}
use helix_core.VcService.Request.{IssueVcParams}
use helix_core.AgentStore.{
  EnrollmentTokenRecord, ChallengeRecord, find_challenge_by_id, find_enrollment_token_by_id,
  mark_challenge_verified,
}
use helix_core.AgentService.{
  Services, AgentPlatform, challenge_verified, agent_onboarded, is_hex, or_text, CustodyState,
  on_agents, on_rest, log_agent, catching,
}
use helix_core.AgentService.Challenge.{is_used}

-- the input of `processOnboardVerify`
pub record VerifyInput : Type 0 where
  pub challenge_id : String
  pub signature : String
  pub did_create_signature : Option String

-- what `processOnboardVerify` resolves to
pub record OnboardResult : Type 0 where
  pub agent_did : String
  pub vc : SignedVc
  pub hedera_transaction_id : String
  pub vc_id : String

-- `error.code`
abbrev code_of : Thrown → Option String
code_of (helix e) = some (code e.class)
code_of (coded c m s) = some c
code_of (plain m) = none
code_of undefined = none

-- the error that takes the place of what `createDID` threw
abbrev pub if_already_exists : Thrown → Option String → Thrown
if_already_exists e none = e
if_already_exists e (some c) =
    if c === "DID_ALREADY_EXISTS" then error agent_already_onboarded [] else e

unfoldable pub onboarding_error : Thrown → Thrown
onboarding_error e = if_already_exists e (code_of e)

-- `mapAgentError`: status, code and message
unfoldable pub map_agent_error : Thrown → ℕ × String × String
map_agent_error (helix e) = (http_status e.class, code e.class, message e.class e.arguments)
map_agent_error (coded c m status) = (status, c, m)
map_agent_error (plain m) = (500, "INTERNAL_ERROR", "Internal server error")
map_agent_error undefined = (500, "INTERNAL_ERROR", "Internal server error")

-- of the enrollment token: its scopes as text, its name, depth and expiry, or what stands for them
abbrev pub token_name : Option EnrollmentTokenRecord → String
token_name none = "Agent"
token_name (some token) = token.agent_name

abbrev pub token_depth : Option EnrollmentTokenRecord → ℕ
token_depth none = 0
token_depth (some token) = token.max_delegation_depth

abbrev pub token_expiry : Option EnrollmentTokenRecord → Option ℕ
token_expiry none = none
token_expiry (some token) = token.expires_at

-- the proof that `createDID` is handed
abbrev pub creation_proof : Option String → Option String → Option DidCreationProof
creation_proof none signature = none
creation_proof (some state_json) none = none
creation_proof (some state_json) (some signature) =
    if truthy (some state_json) && truthy (some signature)
    then some (record { state_json = state_json; signature_hex = signature })
    else none

module _ (services : Services) (platform : AgentPlatform) where
  -- `verifySignature`: what the library throws is thrown
  unfoldable pub verify_signature : List ℕ → String → String → Result Bool
  verify_signature message signature public_key =
      platform.ed25519_verify signature message public_key

  abbrev pub token_scopes : Option EnrollmentTokenRecord → Result (List String)
  token_scopes none = ok ("read:orders" ∷ [])
  token_scopes (some token) = platform.parse_texts token.requested_scopes

  -- the credential that an onboarding asks for
  unfoldable pub onboarding_vc : String → List String → Option EnrollmentTokenRecord → IssueVcParams
  onboarding_vc did scopes token = record {
    subject_did = did;
    subject_type = "agent";
    privilege_scopes = some scopes;
    agent_name = some (token_name token);
    user_id = none;
    expires_in_seconds = none;
    expires_at = some (token_expiry token);
    delegated_from = none;
    delegation_depth = some 0;
    max_delegation_depth = some (token_depth token);
    parent_vc_id = none;
    revoke_existing = false;
  }

  -- the token that the challenge was opened with
  abbrev pub token_of :
      Option String → Action (CustodyState services) (Option EnrollmentTokenRecord)
  token_of none = resolve none
  token_of (some id) =
      if truthy (some id) then on_agents services (find_enrollment_token_by_id id) else resolve none

  -- after the checks: the DID, the credential and the challenge's mark
  unfoldable pub complete_onboarding :
      ℕ → VerifyInput → ChallengeRecord → Action (CustodyState services) OnboardResult
  unfolding onboarding_vc
  complete_onboarding now input challenge = do
    token ← token_of challenge.enrollment_token_id
    domains ← call (platform.parse_texts (or_text "[]" challenge.pending_domains))
    did_result ← catching services onboarding_error (
        on_rest services (
          services.create_did (or_text "" challenge.pending_public_key_hex) "agent" domains
            (creation_proof challenge.pending_did_create_state_json input.did_create_signature)))
    scopes ← call (token_scopes token)
    vc ← on_rest services (services.issue_vc (onboarding_vc did_result.did scopes token))
    on_agents services (mark_challenge_verified now input.challenge_id)
    log_agent services (challenge_verified input.challenge_id)
    log_agent services (agent_onboarded did_result.did)
    resolve (record {
      agent_did = did_result.did;
      vc = vc.vc;
      hedera_transaction_id = did_result.hedera_transaction_id;
      vc_id = vc.vc_id;
    })

  -- the tests of a challenge that has been found
  unfoldable pub check_challenge :
      ℕ → VerifyInput → ChallengeRecord → Action (CustodyState services) OnboardResult
  unfolding complete_onboarding verify_signature
  check_challenge now input challenge = do
    reject_if (not (challenge.purpose === "agent_onboarding")) (error challenge_not_found [])
    reject_if (leb challenge.expires_at now) (error challenge_expired [])
    reject_if (is_used challenge.verified_at) (error challenge_already_verified [])
    reject_if (not (is_hex 128 input.signature)) (error challenge_signature_invalid [])
    valid ← call (
        verify_signature (platform.hex_bytes challenge.nonce) input.signature
          (or_text "" challenge.pending_public_key_hex))
    reject_if (not valid) (error challenge_signature_invalid [])
    reject_if
        (truthy challenge.pending_did_create_state_json
          && not (is_hex 128 (or_text "" input.did_create_signature)))
        (error challenge_signature_invalid ("DID creation signature is invalid" ∷ []))
    complete_onboarding now input challenge

  abbrev pub with_challenge :
      ℕ → VerifyInput → Option ChallengeRecord → Action (CustodyState services) OnboardResult
  with_challenge now input none = reject (error challenge_not_found [])
  with_challenge now input (some challenge) = check_challenge now input challenge

  -- `processOnboardVerify`
  unfoldable pub process_onboard_verify :
      ℕ → VerifyInput → Action (CustodyState services) OnboardResult
  process_onboard_verify now input = do
    challenge ← on_agents services (find_challenge_by_id input.challenge_id)
    with_challenge now input challenge
