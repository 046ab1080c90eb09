-- ===== src/AgentStore/Laws.antt =====
-- An enrollment token is burned once (repositories/drivers/agent.drivers.ts).
use helix_core.Prelude.{ℕ, ◌≡◌, refl, String, none, some, true, false, at_key, put, at_key-put_self}
use helix_core.Result.{ok}
use helix_core.AgentStore.{
  EnrollmentTokenRecord, AgentStore, find_enrollment_token_by_hash, burn_enrollment_token,
}

abbrev pub burned : ℕ → String → EnrollmentTokenRecord → AgentStore → AgentStore
burned now token_hash token store = record store {
  enrollment_tokens = put token_hash (record token { used_at = some now }) store.enrollment_tokens;
}

-- A stored token that has not been used is burned by the first call, which resolves to true and writes the
-- time into its row; every later call for the same token resolves to false and leaves the store as it is.
pub burn_enrollment_token_once :
    (now later : ℕ) (token_hash : String) (token : EnrollmentTokenRecord) (store : AgentStore)
    → at_key token_hash store.enrollment_tokens ≡ some token
    → token.used_at ≡ none
    → (after : AgentStore) × (burn_enrollment_token now token_hash store ≡ (ok true, after))
      × (find_enrollment_token_by_hash token_hash after
          ≡ (ok (some (record token { used_at = some now })), after))
      × (burn_enrollment_token later token_hash after ≡ (ok false, after))
unfolding burn_enrollment_token find_enrollment_token_by_hash
burn_enrollment_token_once now later token_hash token store here unused =
    let again =
      at_key-put_self token_hash (record token { used_at = some now }) store.enrollment_tokens in
    (burned now token_hash token store, rw (here, unused) refl, rw again refl, rw again refl)
