-- ===== src/DidService/Update.antt =====
-- services/did/did.service.ts: `addServiceEndpoint`, `removeServiceEndpoint` and `deactivateDID`.
use helix_core.Prelude.{ℕ, String, Option, none, some}
use helix_core.Errors.{coded}
use helix_core.Result.{Result, ok, throw}
use helix_core.Action.{Action, resolve, reject, call, ◌>>=◌, ◌>>◌}
use helix_core.Cache.{ICache}
use helix_core.DidDocument.{ServiceEndpoint, DidDocument}
use helix_core.DidDocument.Build.{add_endpoint, remove_endpoint}
use helix_core.DidStore.{DidRecord, find_did_by_id, update_did_document, deactivate_did}
use helix_core.DidService.{
  Anchoring, DidPlatform, did_updated, did_deactivated, message_or, DidState, on_rows,
  forget_document, evict_resolved, log_event,
}
use helix_core.DidService.Resolve.{missing_did}

module _ (caches : ICache DidDocument) (platform : DidPlatform) where
  abbrev pub or_update_failed : Result Anchoring → Result Anchoring
  or_update_failed (ok anchoring) = ok anchoring
  or_update_failed (throw e) =
      throw
        (coded "HEDERA_ANCHOR_FAILED" (message_or "Live Hedera DID update anchoring failed" e) 501)

  -- what the two updates do with the changed document
  unfoldable pub publish_update :
      ℕ → String → String → DidDocument → Action (DidState caches platform) DidDocument
  publish_update now did update_type updated = do
    call (or_update_failed (platform.anchor_document (platform.document_text updated)))
    on_rows caches platform (update_did_document now did updated)
    forget_document caches platform did
    log_event caches platform (did_updated did update_type)
    resolve updated

  abbrev pub unless_set :
      Option ℕ
      → Action (DidState caches platform) DidDocument
      → Action (DidState caches platform) DidDocument
  unless_set (some t) next = reject (coded "DID_DEACTIVATED" "Cannot update a deactivated DID" 410)
  unless_set none next = next

  -- the guards of the two updates, and what follows them
  abbrev pub update_found :
      ℕ
      → String
      → String
      → (DidDocument → Result DidDocument)
      → Option DidRecord
      → Action (DidState caches platform) DidDocument
  update_found now did update_type change none = reject missing_did
  update_found now did update_type change (some row) =
      unless_set row.deactivated_at
        (do updated ← call (change row.did_document); publish_update now did update_type updated)

  -- `addServiceEndpoint`
  unfoldable pub add_service_endpoint :
      ℕ → String → ServiceEndpoint → Action (DidState caches platform) DidDocument
  add_service_endpoint now did endpoint = do
    found ← on_rows caches platform (find_did_by_id did)
    update_found now did "add_service_endpoint" (λ document. add_endpoint document endpoint) found

  -- `removeServiceEndpoint`
  unfoldable pub remove_service_endpoint :
      ℕ → String → String → Action (DidState caches platform) DidDocument
  remove_service_endpoint now did endpoint_id = do
    found ← on_rows caches platform (find_did_by_id did)
    update_found now did "remove_service_endpoint"
        (λ document. remove_endpoint document endpoint_id) found

  -- a failure of Hedera is swallowed
  abbrev pub swallow : Result Anchoring → Action (DidState caches platform) (Unit {0})
  swallow (ok anchoring) = resolve tt
  swallow (throw e) = resolve tt

  -- the rest of `deactivateDID`, unless the row has been deactivated already
  abbrev pub deactivate_unless :
      ℕ → String → Option ℕ → Action (DidState caches platform) (Unit {0})
  deactivate_unless now did (some t) = resolve tt
  deactivate_unless now did none = do
    swallow (platform.anchor_document (platform.deactivation_text did now))
    on_rows caches platform (deactivate_did now did now)
    forget_document caches platform did
    evict_resolved caches platform did
    log_event caches platform (did_deactivated did)

  abbrev pub deactivate_found :
      ℕ → String → Option DidRecord → Action (DidState caches platform) (Unit {0})
  deactivate_found now did none = reject missing_did
  deactivate_found now did (some row) = deactivate_unless now did row.deactivated_at

  -- `deactivateDID`
  unfoldable pub deactivate_registered : ℕ → String → Action (DidState caches platform) (Unit {0})
  deactivate_registered now did = do
    found ← on_rows caches platform (find_did_by_id did)
    deactivate_found now did found
