-- ===== src/AgentService/Challenge.antt =====
-- services/agent/agent.service.ts: `processOnboardCreateChallenge` and `issueUserChallenge`.
use helix_core.Prelude.{
  ℕ, ◌+◌, ◌*◌, String, Option, none, some, List, [], Bool, true, false, not, leb, if◌then◌else◌,
}
use helix_core.Errors.{
  Thrown, coded, enrollment_token_not_found, enrollment_token_already_used,
  enrollment_token_expired,
}
use helix_core.Action.{Action, resolve, reject, reject_if, call, ◌>>=◌, ◌>>◌}
use helix_core.Verifier.Host.{error}
use helix_core.DidService.{DidCreationRequest, message_or}
use helix_core.AgentStore.{
  EnrollmentTokenRecord, ChallengeRecord, find_enrollment_token_by_hash, burn_enrollment_token,
  create_challenge,
}
use helix_core.AgentService.{
  Services, AgentPlatform, enrollment_token_rejected, enrollment_token_consumed, challenge_issued,
  has_code, is_hex, CustodyState, on_agents, on_rest, log_agent, catching,
}
use helix_core.AgentService.Enrollment.{or_no_texts, normalize_domains}

-- What one call draws from outside: the clock, the random id of the row, the challenge id and its nonce.
pub record ChallengeDraws : Type 0 where
  pub now : ℕ
  pub id : String
  pub challenge_id : String
  pub nonce : String

-- `ChallengeResult`
pub record ChallengeResult : Type 0 where
  pub challenge_id : String
  pub nonce : String
  pub expires_at : ℕ
  pub did_create_signing_payload_hex : Option String

-- the input of `processOnboardCreateChallenge`
pub record OnboardInput : Type 0 where
  pub enrollment_token : String
  pub public_key_hex : String
  pub domains : Option (List String)

-- `expiresAt && expiresAt.getTime() <= now`
abbrev pub has_passed : ℕ → Option ℕ → Bool
has_passed now none = false
has_passed now (some expires_at) = leb expires_at now

-- `if (usedAt)`
abbrev pub is_used : Option ℕ → Bool
is_used none = false
is_used (some t) = true

-- the error that takes the place of what `prepareDIDCreation` threw
unfoldable pub prepare_error : Thrown → Thrown
prepare_error e =
    if has_code e
    then e
    else coded "HEDERA_ANCHOR_FAILED" (message_or "Hedera DID creation request failed" e) 502

module _ (services : Services) (platform : AgentPlatform) where
  -- the challenge of an onboarding
  unfoldable pub onboarding_challenge :
      ChallengeDraws
      → OnboardInput
      → List String
      → EnrollmentTokenRecord
      → DidCreationRequest
      → ChallengeRecord
  onboarding_challenge draws input domains token request = record {
    id = "";
    challenge_id = draws.challenge_id;
    nonce = draws.nonce;
    did = "";
    purpose = "agent_onboarding";
    pending_public_key_hex = some input.public_key_hex;
    pending_domains = some (platform.json_texts domains);
    pending_did_create_state_json = some request.state_json;
    pending_did_create_payload_hex = some request.signing_payload_hex;
    expires_at = draws.now + platform.challenge_ttl_seconds * 1000;
    verified_at = none;
    created_at = 0;
    enrollment_token_id = some token.id;
  }

  -- after the token has been burned
  unfoldable pub open_challenge :
      ChallengeDraws
      → OnboardInput
      → List String
      → EnrollmentTokenRecord
      → Action (CustodyState services) ChallengeResult
  unfolding onboarding_challenge
  open_challenge draws input domains token = do
    request ←
        catching services prepare_error
          (on_rest services (services.prepare_did_creation input.public_key_hex))
    on_agents services (
        create_challenge draws.now draws.id
          (onboarding_challenge draws input domains token request))
    log_agent services (enrollment_token_consumed (platform.hash_token input.enrollment_token))
    log_agent services (challenge_issued draws.challenge_id)
    resolve (record {
      challenge_id = draws.challenge_id;
      nonce = draws.nonce;
      expires_at = draws.now + platform.challenge_ttl_seconds * 1000;
      did_create_signing_payload_hex = some request.signing_payload_hex;
    })

  -- the token has been found and may be used
  unfoldable pub burn_and_open :
      ChallengeDraws
      → OnboardInput
      → List String
      → EnrollmentTokenRecord
      → Action (CustodyState services) ChallengeResult
  burn_and_open draws input domains token = do
    burned ←
        on_agents services
          (burn_enrollment_token draws.now (platform.hash_token input.enrollment_token))
    reject_if (not burned) (error enrollment_token_already_used [])
    open_challenge draws input domains token

  -- the tests of expiry, of a token that has not been used
  abbrev pub unless_expired :
      ChallengeDraws
      → OnboardInput
      → List String
      → EnrollmentTokenRecord
      → Bool
      → Action (CustodyState services) ChallengeResult
  unless_expired draws input domains token true = do
    log_agent services (enrollment_token_rejected (platform.hash_token input.enrollment_token))
    reject (error enrollment_token_expired [])
  unless_expired draws input domains token false = burn_and_open draws input domains token

  abbrev pub with_token :
      ChallengeDraws
      → OnboardInput
      → List String
      → Option EnrollmentTokenRecord
      → Action (CustodyState services) ChallengeResult
  with_token draws input domains none = reject (error enrollment_token_not_found [])
  with_token draws input domains (some token) = do
    reject_if (is_used token.used_at) (error enrollment_token_already_used [])
    unless_expired draws input domains token (has_passed draws.now token.expires_at)

  -- `processOnboardCreateChallenge`
  unfoldable pub process_onboard_create_challenge :
      ChallengeDraws → OnboardInput → Action (CustodyState services) ChallengeResult
  process_onboard_create_challenge draws input = do
    reject_if (not (is_hex 64 input.public_key_hex))
        (coded "INVALID_PUBLIC_KEY" "Invalid public key" 400)
    domains ← call (normalize_domains services platform (or_no_texts input.domains))
    token ←
        on_agents services
          (find_enrollment_token_by_hash (platform.hash_token input.enrollment_token))
    with_token draws input domains token

  -- `issueUserChallenge`, of a DID
  unfoldable pub issue_user_challenge :
      ChallengeDraws → String → Action (CustodyState services) ChallengeResult
  issue_user_challenge draws did = do
    on_rest services (services.resolve_did did)
    let expires_at = draws.now + platform.challenge_ttl_seconds * 1000
    on_agents services (
        create_challenge draws.now draws.id (record {
          id = "";
          challenge_id = draws.challenge_id;
          nonce = draws.nonce;
          did = did;
          purpose = "user_verification";
          pending_public_key_hex = none;
          pending_domains = none;
          pending_did_create_state_json = none;
          pending_did_create_payload_hex = none;
          expires_at = expires_at;
          verified_at = none;
          created_at = 0;
          enrollment_token_id = none;
        }))
    log_agent services (challenge_issued draws.challenge_id)
    resolve (record {
      challenge_id = draws.challenge_id;
      nonce = draws.nonce;
      expires_at = expires_at;
      did_create_signing_payload_hex = none;
    })
