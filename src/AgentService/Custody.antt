-- ===== src/AgentService/Custody.antt =====
-- services/agent/agent.service.ts: `onboardWithCustody`, `extractPublicKeyHex` and `verifyUserChallenge`.
use helix_core.Prelude.{
  ℕ, String, Option, none, some, List, [], false, not, ◌===◌, leb, find, if◌then◌else◌,
}
use helix_core.Text.{codes, truthy, after_z}
use helix_core.Errors.{
  challenge_not_found, challenge_expired, challenge_already_verified, challenge_signature_invalid,
}
use helix_core.Result.{Result, ok, throw}
use helix_core.Action.{Action, resolve, reject, reject_if, call, ◌>>=◌, ◌>>◌}
use helix_core.Base58
use helix_core.Credential.{SignedVc}
use helix_core.DidDocument.{VerificationMethod, DidDocument, drop_prefix}
use helix_core.Verifier.Host.{error}
use helix_core.VcService.Request.{IssueVcParams, contains}
use helix_core.KeyStore.{EncryptedKey, create_key}
use helix_core.AgentStore.{ChallengeRecord, find_challenge_by_id, mark_challenge_verified}
use helix_core.AgentService.{
  Services, AgentPlatform, challenge_verified, user_did_verified, is_hex, CustodyState, on_agents,
  on_rest, on_keys, log_agent,
}
use helix_core.AgentService.Challenge.{ChallengeDraws, is_used, process_onboard_create_challenge}
use helix_core.AgentService.Onboarding.{verify_signature, process_onboard_verify}

-- `keyCustody.generateAndEncrypt()`, and the random id of the row of the key
pub record KeyDraws : Type 0 where
  pub public_key : String
  pub encrypted : EncryptedKey
  pub key_id : String

-- the result of `verifyUserChallenge`
pub record UserResult : Type 0 where
  pub did : String
  pub vc : SignedVc

abbrev hex_of_multibase : (List ℕ → String) → Option (List ℕ) → Result String
hex_of_multibase hex_text none = throw (error challenge_signature_invalid [])
hex_of_multibase hex_text (some text) = elim (Base58.decode text) [
  | throw e ↦ throw e
  | ok decoded ↦ ok (hex_text (drop_prefix decoded))
]

-- `extractPublicKeyHex`, of a document whose methods have `publicKeyMultibase`
unfoldable pub extract_public_key_hex : (List ℕ → String) → DidDocument → Result String
extract_public_key_hex hex_text document =
    elim (find (λ (m : VerificationMethod). contains (codes "Ed25519") (codes m.type))
      document.verification_method) [
        | none ↦ throw (error challenge_signature_invalid [])
        | some method ↦ hex_of_multibase hex_text (after_z (codes method.public_key_multibase))
      ]

-- the credential of a user
unfoldable pub user_vc : String → IssueVcParams
user_vc did = record {
  subject_did = did;
  subject_type = "user";
  privilege_scopes = none;
  agent_name = none;
  user_id = some did;
  expires_in_seconds = some 7776000;
  expires_at = none;
  delegated_from = none;
  delegation_depth = none;
  max_delegation_depth = none;
  parent_vc_id = none;
  revoke_existing = false;
}

module _ (services : Services) (platform : AgentPlatform) where
  -- the signature of the DID creation, when there is a payload to sign
  abbrev did_create_signature : EncryptedKey → Option String → Result (Option String)
  did_create_signature encrypted none = ok none
  did_create_signature encrypted (some payload) =
      if truthy (some payload)
      then (elim (platform.sign_bytes encrypted (platform.hex_bytes payload)) [
        | throw e ↦ throw e
        | ok signature ↦ ok (some signature)
      ])
      else ok none

  -- `onboardWithCustody`: the agent's DID and the id of its credential
  unfoldable pub onboard_with_custody :
      KeyDraws
      → ChallengeDraws
      → String
      → Option (List String)
      → Action (CustodyState services) (String × String)
  onboard_with_custody key draws enrollment_token domains = do
    challenge ← process_onboard_create_challenge services platform draws (record {
      enrollment_token = enrollment_token;
      public_key_hex = key.public_key;
      domains = domains;
    })
    signature ← call (platform.sign_bytes key.encrypted (platform.hex_bytes challenge.nonce))
    did_signature ←
        call (did_create_signature key.encrypted challenge.did_create_signing_payload_hex)
    result ← process_onboard_verify services platform draws.now (record {
      challenge_id = challenge.challenge_id;
      signature = signature;
      did_create_signature = did_signature;
    })
    on_keys services (create_key draws.now key.key_id result.agent_did "agent" key.encrypted)
    resolve (result.agent_did, result.vc_id)

  abbrev or_issue : String → Option SignedVc → Action (CustodyState services) SignedVc
  or_issue did (some vc) = resolve vc
  or_issue did none = do
    issued ← on_rest services (services.issue_vc (user_vc did))
    resolve issued.vc

  -- the tests of a challenge that has been found, and what follows them
  unfoldable pub check_user_challenge :
      ℕ → String → String → ChallengeRecord → Action (CustodyState services) UserResult
  unfolding user_vc
  check_user_challenge now challenge_id signature challenge = do
    reject_if (not (challenge.purpose === "user_verification")) (error challenge_not_found [])
    reject_if (leb challenge.expires_at now) (error challenge_expired [])
    reject_if (is_used challenge.verified_at) (error challenge_already_verified [])
    reject_if (not (is_hex 128 signature)) (error challenge_signature_invalid [])
    document ← on_rest services (services.resolve_did challenge.did)
    public_key ← call (extract_public_key_hex platform.hex_text document)
    valid ← call (
        verify_signature services platform (platform.hex_bytes challenge.nonce) signature
          public_key)
    reject_if (not valid) (error challenge_signature_invalid [])
    on_agents services (mark_challenge_verified now challenge_id)
    own ← on_rest services (services.find_active_by_subject_did challenge.did)
    vc ← or_issue challenge.did own
    log_agent services (challenge_verified challenge_id)
    log_agent services (user_did_verified challenge.did)
    resolve (record { did = challenge.did; vc = vc })

  abbrev pub with_user_challenge :
      ℕ → String → String → Option ChallengeRecord → Action (CustodyState services) UserResult
  with_user_challenge now challenge_id signature none = reject (error challenge_not_found [])
  with_user_challenge now challenge_id signature (some challenge) =
      check_user_challenge now challenge_id signature challenge

  -- `verifyUserChallenge`
  unfoldable pub verify_user_challenge :
      ℕ → String → String → Action (CustodyState services) UserResult
  verify_user_challenge now challenge_id signature = do
    challenge ← on_agents services (find_challenge_by_id challenge_id)
    with_user_challenge now challenge_id signature challenge
