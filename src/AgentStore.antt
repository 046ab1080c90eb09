-- ===== src/AgentStore.antt =====
-- repositories/agent.repository.ts and `InMemoryAgentStorageDriver` of
-- repositories/drivers/agent.drivers.ts: enrollment tokens and challenges. The clock and the random id are
-- arguments of a call. Rows are values: the model does not follow a row that was handed out earlier.
pub mod Laws
use helix_core.Prelude.{
  ℕ, String, Option, none, some, List, Bool, true, false, ◌===◌, find, at_key, put, values,
}
use helix_core.Errors.{plain}
use helix_core.Credential.{or_zero}
use helix_core.Action.{Action, resolve, reject, read, write, ◌>>=◌, ◌>>◌}

-- `EnrollmentTokenRecord`
pub record EnrollmentTokenRecord : Type 0 where
  pub id : String
  pub token_hash : String
  pub agent_name : String
  pub requested_scopes : String
  pub requested_domains : String
  pub max_delegation_depth : ℕ
  pub expires_at : Option ℕ
  pub used_at : Option ℕ
  pub created_at : ℕ

-- `ChallengeRecord`
pub record ChallengeRecord : Type 0 where
  pub id : String
  pub challenge_id : String
  pub nonce : String
  pub did : String
  pub purpose : String
  pub pending_public_key_hex : Option String
  pub pending_domains : Option String
  pub pending_did_create_state_json : Option String
  pub pending_did_create_payload_hex : Option String
  pub expires_at : ℕ
  pub verified_at : Option ℕ
  pub created_at : ℕ
  pub enrollment_token_id : Option String

-- the two maps of `InMemoryAgentStorageDriver`
pub record AgentStore : Type 0 where
  pub enrollment_tokens : List (String × EnrollmentTokenRecord)
  pub challenges : List (String × ChallengeRecord)

-- `createEnrollmentToken`: the caller's fields, of which `maxDelegationDepth` may be absent
unfoldable pub create_enrollment_token :
    ℕ → String → Option ℕ → EnrollmentTokenRecord → Action AgentStore EnrollmentTokenRecord
create_enrollment_token now id max_delegation_depth fields = do
  let row = record fields {
    id = id;
    max_delegation_depth = or_zero max_delegation_depth;
    used_at = none;
    created_at = now;
  }
  write (λ (store : AgentStore). record store {
    enrollment_tokens = put row.token_hash row store.enrollment_tokens;
  })
  resolve row

-- `findEnrollmentTokenByHash`
unfoldable pub find_enrollment_token_by_hash :
    String → Action AgentStore (Option EnrollmentTokenRecord)
find_enrollment_token_by_hash token_hash =
    read (λ (store : AgentStore). at_key token_hash store.enrollment_tokens)

-- `findEnrollmentTokenById`
unfoldable pub find_enrollment_token_by_id :
    String → Action AgentStore (Option EnrollmentTokenRecord)
find_enrollment_token_by_id id = read (λ (store : AgentStore).
    find (λ (token : EnrollmentTokenRecord). token.id === id) (values store.enrollment_tokens))

-- what `burnEnrollmentTokenAtomically` makes of the token that it finds
abbrev burn_token : ℕ → String → Option EnrollmentTokenRecord → Action AgentStore Bool
burn_token now token_hash none = resolve false
burn_token now token_hash (some token) = elim token.used_at [
  | some t ↦ resolve false
  | none ↦ do
    write (λ (store : AgentStore). record store {
      enrollment_tokens =
          put token_hash (record token { used_at = some now }) store.enrollment_tokens;
    })
    resolve true
]

-- `burnEnrollmentTokenAtomically`
unfoldable pub burn_enrollment_token : ℕ → String → Action AgentStore Bool
burn_enrollment_token now token_hash = do
  token ← find_enrollment_token_by_hash token_hash
  burn_token now token_hash token

-- `createChallenge`
unfoldable pub create_challenge : ℕ → String → ChallengeRecord → Action AgentStore ChallengeRecord
create_challenge now id fields = do
  let row = record fields { id = id; verified_at = none; created_at = now }
  write (λ (store : AgentStore). record store {
    challenges = put row.challenge_id row store.challenges;
  })
  resolve row

-- `findChallengeById`
unfoldable pub find_challenge_by_id : String → Action AgentStore (Option ChallengeRecord)
find_challenge_by_id challenge_id =
    read (λ (store : AgentStore). at_key challenge_id store.challenges)

abbrev verify_found : ℕ → String → Option ChallengeRecord → Action AgentStore ChallengeRecord
verify_found now challenge_id none = reject (plain "Challenge not found")
verify_found now challenge_id (some challenge) = do
  let verified = record challenge { verified_at = some now }
  write (λ (store : AgentStore). record store {
    challenges = put challenge_id verified store.challenges;
  })
  resolve verified

-- `markChallengeVerified`
unfoldable pub mark_challenge_verified : ℕ → String → Action AgentStore ChallengeRecord
mark_challenge_verified now challenge_id = do
  challenge ← find_challenge_by_id challenge_id
  verify_found now challenge_id challenge
