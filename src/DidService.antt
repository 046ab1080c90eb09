-- ===== src/DidService.antt =====
-- services/did/did.service.ts: `DIDService`, over the rows of its repository, its cache of documents, the
-- resolver's own cache and the audit log.
pub mod Mint
pub mod Create
pub mod Resolve
pub mod Update
pub mod Coherence
pub mod Steps
pub mod Changes
pub mod Reached
pub mod Deactivation
pub mod Permanent
pub mod Forever
mod Tests
pub mod Laws
pub mod Created
use helix_core.Prelude.{ℕ, String, Option, none, some, List, [], ◌∷◌, ◌++◌, Bool, true, false}
use helix_core.Errors.{Thrown, helix, coded, plain, undefined}
use helix_core.Errors.Message.{message}
use helix_core.Result.{Result, ok, throw}
use helix_core.Action.{Action, resolve, reject, write}
use helix_core.Cache.{ICache}
use helix_core.DidDocument.{DidDocument}
use helix_core.DidResolver.{DidCache, evict_did_cache}
use helix_core.DidStore.{DidRows}

-- `DidMethod`
pub data DidMethod : Type 0 where
  hedera web key : DidMethod

-- `HederaDIDCreationRequest`, `HederaDIDCreationResult` and `HederaTransactionResult`
pub record DidCreationRequest : Type 0 where
  pub state_json : String
  pub signing_payload_hex : String

pub record DidCreationResult : Type 0 where
  pub did : String
  pub did_document : DidDocument
  pub transaction_id : String
  pub topic_id : String
  pub sequence_number : ℕ

pub record Anchoring : Type 0 where
  pub transaction_id : String
  pub topic_id : Option String
  pub sequence_number : Option ℕ

-- `DIDCreationProof`
pub record DidCreationProof : Type 0 where
  pub state_json : String
  pub signature_hex : String

-- What the service is given: its configuration, the Hedera client, and what it calls beside its state.
pub record DidPlatform : Type 0 where
  pub did_method : DidMethod
  pub did_domain : String
  pub cache_ttl_seconds : ℕ
  -- the text of code points, the decimal text of a number, `Buffer.from(s, 'hex')`, `toString('hex')`, the
  -- first 16 bytes of `sha256`
  pub text_of : List ℕ → String
  pub index_text : ℕ → String
  pub hex_bytes : String → List ℕ
  pub hex_text : List ℕ → String
  pub short_hash : List ℕ → List ℕ
  -- `JSON.stringify(document)`, `JSON.parse`, and the text of a deactivation
  pub document_text : DidDocument → String
  pub parse_document : String → Result DidDocument
  pub deactivation_text : String → ℕ → String
  -- `did.split(':')[1] ?? 'unknown'`
  pub method_of : String → String
  -- the methods of `IHederaClient`
  pub prepare_did_creation : String → Result DidCreationRequest
  pub submit_did_creation : String → String → Result DidCreationResult
  pub anchor_document : String → Result Anchoring
  pub fetch_message : String → ℕ → Result String

-- where a resolved document came from
pub data Source : Type 0 where
  cache db ledger : Source

-- the events of the audit log, with the DID they are about
pub data DidEvent : Type 0 where
  did_creation_failed : String → DidEvent
  did_created did_deactivated : String → DidEvent
  did_resolved : String → Source → DidEvent
  did_updated : String → String → DidEvent

-- What the service reads and writes.
pub record DidWorld (Cache : Type 0) : Type 0 where
  pub rows : DidRows
  pub cache : Cache
  pub resolver_cache : DidCache
  pub log : List DidEvent

-- `err instanceof HelixError`
unfoldable pub is_helix_error : Thrown → Bool
is_helix_error (helix e) = true
is_helix_error (coded code message status) = true
is_helix_error (plain message) = false
is_helix_error undefined = false

-- `err instanceof Error ? err.message : otherwise`
unfoldable pub message_or : String → Thrown → String
message_or otherwise (helix e) = message e.class e.arguments
message_or otherwise (coded code message status) = message
message_or otherwise (plain message) = message
message_or otherwise undefined = otherwise

module _ (caches : ICache DidDocument) (platform : DidPlatform) where
  abbrev pub DidState : Type 0
  DidState = DidWorld caches.Cache

  abbrev pub put_rows {ℓ} :
      {Value : Type ℓ} → DidState → Result Value × DidRows → Result Value × DidState
  put_rows state (outcome, rows) = (outcome, record state { rows = rows })

  -- a call of the repository
  abbrev pub on_rows {ℓ} : {Value : Type ℓ} → Action DidRows Value → Action DidState Value
  on_rows action state = put_rows state (action state.rows)

  -- `this.cache.get`, `set` and `delete`
  abbrev pub cached_document : ℕ → String → Action DidState (Option DidDocument)
  cached_document now did state = (
    ok (caches.get now did state.cache).0,
    record state { cache = (caches.get now did state.cache).1 },
  )

  abbrev pub cache_document : ℕ → String → DidDocument → Action DidState (Unit {0})
  cache_document now did document = write (λ (state : DidState). record state {
    cache = caches.set now did document platform.cache_ttl_seconds state.cache;
  })

  abbrev pub forget_document : String → Action DidState (Unit {0})
  forget_document did =
      write (λ (state : DidState). record state { cache = caches.delete did state.cache })

  -- `evictDIDCache` of the resolver
  abbrev pub evict_resolved : String → Action DidState (Unit {0})
  evict_resolved did = write (λ (state : DidState). record state {
    resolver_cache = (evict_did_cache did state.resolver_cache).1;
  })

  -- `this.audit.log`
  abbrev pub log_event : DidEvent → Action DidState (Unit {0})
  log_event event = write (λ (state : DidState). record state { log = state.log ++ event ∷ [] })
