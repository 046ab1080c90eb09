-- ===== src/DidService/Resolve.antt =====
-- services/did/did.service.ts: `resolveDID`.
use helix_core.Prelude.{ℕ, String, Option, none, some, Bool, true, false}
use helix_core.Errors.{Thrown, coded}
use helix_core.Result.{Result, ok, throw}
use helix_core.Action.{Action, resolve, reject, call, ◌>>=◌, ◌>>◌}
use helix_core.Cache.{ICache}
use helix_core.DidDocument.{DidDocument}
use helix_core.DidStore.{DidRecord, find_did_by_id}
use helix_core.DidService.{
  DidPlatform, Source, cache, db, ledger, did_resolved, message_or, DidState, on_rows,
  cached_document, cache_document, forget_document, log_event,
}

-- `ResolveDIDResult`, whose `didDocument` and `document` are the same
pub record ResolveDidResult : Type 0 where
  pub did : String
  pub document : DidDocument
  pub deactivated : Bool
  pub source : Source

abbrev pub missing_did : Thrown
missing_did = coded "DID_NOT_FOUND" "DID not found" 404

abbrev pub deactivated_did : Thrown
deactivated_did = coded "DID_DEACTIVATED" "DID is deactivated" 410

-- `a ?? b`
abbrev pub or_default {ℓ} : {A : Type ℓ} → A → Option A → A
or_default other none = other
or_default other (some a) = a

-- `!!deactivatedAt`
abbrev pub is_set : Option ℕ → Bool
is_set none = false
is_set (some t) = true

module _ (caches : ICache DidDocument) (platform : DidPlatform) where
  -- `if (deactivatedAt) { await this.cache.delete(did); throw … }`, and what follows
  abbrev pub unless_deactivated :
      String
      → Option ℕ
      → Action (DidState caches platform) ResolveDidResult
      → Action (DidState caches platform) ResolveDidResult
  unless_deactivated did (some t) next = do
    forget_document caches platform did
    reject deactivated_did
  unless_deactivated did none next = next

  -- the rest of the path on which the cache answers
  abbrev pub answer_cached :
      String → DidDocument → Action (DidState caches platform) ResolveDidResult
  answer_cached did cached = do
    log_event caches platform (did_resolved did cache)
    resolve (record { did = did; document = cached; deactivated = false; source = cache })

  abbrev pub from_cached :
      String → DidDocument → Option DidRecord → Action (DidState caches platform) ResolveDidResult
  from_cached did cached none = do forget_document caches platform did; reject missing_did
  from_cached did cached (some row) =
      unless_deactivated did row.deactivated_at (answer_cached did cached)

  abbrev or_resolution_failed : Result DidDocument → Result DidDocument
  or_resolution_failed (ok document) = ok document
  or_resolution_failed (throw e) =
      throw
        (coded "HEDERA_RESOLUTION_FAILED" (message_or "Live Hedera DID resolution failed" e) 502)

  abbrev parse_message : Result String → Result DidDocument
  parse_message (ok contents) = platform.parse_document contents
  parse_message (throw e) = throw e

  -- the live document of a row
  unfoldable pub fetch_live : DidRecord → Result DidDocument
  fetch_live row = or_resolution_failed (
      parse_message (
        platform.fetch_message (or_default "" row.hedera_topic_id)
          (or_default 0 row.hedera_sequence_number)))

  -- the rest of the path on which the row answers
  abbrev pub from_active :
      ℕ → String → Bool → DidRecord → Action (DidState caches platform) ResolveDidResult
  from_active now did true row = do
    document ← call (fetch_live row)
    log_event caches platform (did_resolved did ledger)
    resolve (record {
      did = did;
      document = document;
      deactivated = is_set row.deactivated_at;
      source = ledger;
    })
  from_active now did false row = do
    cache_document caches platform now did row.did_document
    log_event caches platform (did_resolved did db)
    resolve (record {
      did = did;
      document = row.did_document;
      deactivated = is_set row.deactivated_at;
      source = db;
    })

  abbrev pub from_found :
      ℕ → String → Bool → Option DidRecord → Action (DidState caches platform) ResolveDidResult
  from_found now did live none = reject missing_did
  from_found now did live (some row) =
      unless_deactivated did row.deactivated_at (from_active now did live row)

  -- `resolveDID` from where the row is read
  unfoldable pub resolve_from_rows :
      ℕ → String → Bool → Action (DidState caches platform) ResolveDidResult
  resolve_from_rows now did live = do
    found ← on_rows caches platform (find_did_by_id did)
    from_found now did live found

  -- `resolveDID` after the cache has been asked
  abbrev pub after_cache :
      ℕ → String → Option DidDocument → Action (DidState caches platform) ResolveDidResult
  after_cache now did none = resolve_from_rows now did false
  after_cache now did (some cached) = do
    found ← on_rows caches platform (find_did_by_id did)
    from_cached did cached found

  -- `resolveDID`; a live resolution does not ask the cache
  unfoldable pub resolve_registered :
      ℕ → String → Bool → Action (DidState caches platform) ResolveDidResult
  resolve_registered now did true = resolve_from_rows now did true
  resolve_registered now did false = do
    cached ← cached_document caches platform now did
    after_cache now did cached
