-- ===== src/DidService/Changes.antt =====
-- Resolving, updating and deactivating keep the cache consistent with the rows
-- (services/did/did.service.ts).
use helix_core.Prelude.{
  ℕ, ◌≡◌, String, Option, none, some, Bool, true, false, Option-cases, inl, inr, at_key,
}
use helix_core.Result.{Result, ok, throw}
use helix_core.Action.{Action, Keeps, continue-Keeps}
use helix_core.Cache.{ICache}
use helix_core.Cache.Agreement.{refresh_Agree, delete_Agree, forget_Agree, get_Agree}
use helix_core.DidDocument.{ServiceEndpoint, DidDocument}
use helix_core.DidDocument.Build.{add_endpoint, remove_endpoint}
use helix_core.DidStore.{DidRecord, find_did_by_id, update_did_document, deactivate_did}
use helix_core.DidService.{Anchoring, DidPlatform, DidState}
use helix_core.DidService.Resolve.{
  ResolveDidResult, fetch_live, answer_cached, unless_deactivated, from_active, resolve_from_rows,
  after_cache, resolve_registered,
}
use helix_core.DidService.Update.{
  or_update_failed, publish_update, unless_set, update_found, add_service_endpoint,
  remove_service_endpoint, swallow, deactivate_unless, deactivate_found, deactivate_registered,
}
use helix_core.DidService.Coherence.{IsConsistent, row_document}

module _ (caches : ICache DidDocument) (platform : DidPlatform) where
  abbrev Consistent : DidState caches platform → Type 0
  Consistent state = IsConsistent caches platform state

  unless_deactivated-Keeps :
      (did : String) (deactivated_at : Option ℕ)
      (next : Action (DidState caches platform) ResolveDidResult) (state : DidState caches platform)
      → Consistent state
      → Consistent (next state).1
      → Consistent (unless_deactivated caches platform did deactivated_at next state).1
  unless_deactivated-Keeps did (some t) next state h later =
      forget_Agree caches row_document did state.rows state.cache h
  unless_deactivated-Keeps did none next state h later = later

  from_active-Keeps :
      (now : ℕ) (did : String) (live : Bool) (row : DidRecord) (state : DidState caches platform)
      → at_key did state.rows ≡ some row
      → Consistent state
      → Consistent (from_active caches platform now did live row state).1
  from_active-Keeps now did true row state here h =
      continue-Keeps Consistent (fetch_live caches platform row, state) _ h (λ document middle k. k)
  from_active-Keeps now did false row state here h =
      refresh_Agree caches row_document now did row platform.cache_ttl_seconds state.rows
        state.cache here h

  resolve_from_rows-Keeps :
      (now : ℕ) (did : String) (live : Bool)
      → Keeps Consistent (resolve_from_rows caches platform now did live)
  unfolding resolve_from_rows find_did_by_id
  resolve_from_rows-Keeps now did live state h = elim (Option-cases (at_key did state.rows)) [
    | inl missing ↦ rw missing h
    | inr (row, here) ↦ rw here (
        unless_deactivated-Keeps did row.deactivated_at
          (from_active caches platform now did live row) state h
          (from_active-Keeps now did live row state here h))
  ]

  after_cache-Keeps :
      (now : ℕ) (did : String) (cached : Option DidDocument)
      → Keeps Consistent (after_cache caches platform now did cached)
  unfolding find_did_by_id
  after_cache-Keeps now did none state h = resolve_from_rows-Keeps now did false state h
  after_cache-Keeps now did (some cached) state h = elim (Option-cases (at_key did state.rows)) [
    | inl missing ↦ rw missing (forget_Agree caches row_document did state.rows state.cache h)
    | inr (row, here) ↦ rw here (
        unless_deactivated-Keeps did row.deactivated_at (answer_cached caches platform did cached)
          state h h)
  ]

  pub resolve_registered-Keeps :
      (now : ℕ) (did : String) (live : Bool)
      → Keeps Consistent (resolve_registered caches platform now did live)
  unfolding resolve_registered
  resolve_registered-Keeps now did true state h = resolve_from_rows-Keeps now did true state h
  resolve_registered-Keeps now did false state h =
      after_cache-Keeps now did (caches.get now did state.cache).0 _
        (get_Agree caches row_document now did state.rows state.cache h)

  -- A row is replaced and its key leaves the cache.
  publish_update-Keeps :
      (now : ℕ) (did update_type : String) (updated : DidDocument)
      → Keeps Consistent (publish_update caches platform now did update_type updated)
  unfolding publish_update update_did_document find_did_by_id
  publish_update-Keeps now did update_type updated state h =
      continue-Keeps Consistent
        (
          or_update_failed caches platform
              (platform.anchor_document (platform.document_text updated)),
          state,
        )
        _ h
        (λ anchoring middle k. elim (Option-cases (at_key did middle.rows)) [
          | inl missing ↦ rw missing k
          | inr (row, here) ↦
              rw here (delete_Agree caches row_document did _ middle.rows middle.cache k)
        ])

  unless_set-Keeps :
      (deactivated_at : Option ℕ) (next : Action (DidState caches platform) DidDocument)
      → Keeps Consistent next
      → Keeps Consistent (unless_set caches platform deactivated_at next)
  unless_set-Keeps (some t) next later state h = h
  unless_set-Keeps none next later state h = later state h

  update_found-Keeps :
      (now : ℕ) (did update_type : String) (change : DidDocument → Result DidDocument)
      (found : Option DidRecord)
      → Keeps Consistent (update_found caches platform now did update_type change found)
  update_found-Keeps now did update_type change none state h = h
  update_found-Keeps now did update_type change (some row) state h =
      unless_set-Keeps row.deactivated_at _
        (λ before k.
          continue-Keeps Consistent (change row.did_document, before) _ k
            (λ updated. publish_update-Keeps now did update_type updated))
        state h

  pub add_service_endpoint-Keeps :
      (now : ℕ) (did : String) (endpoint : ServiceEndpoint)
      → Keeps Consistent (add_service_endpoint caches platform now did endpoint)
  unfolding add_service_endpoint find_did_by_id
  add_service_endpoint-Keeps now did endpoint state h =
      update_found-Keeps now did "add_service_endpoint" (λ document. add_endpoint document endpoint)
        (at_key did state.rows) state h

  pub remove_service_endpoint-Keeps :
      (now : ℕ) (did endpoint_id : String)
      → Keeps Consistent (remove_service_endpoint caches platform now did endpoint_id)
  unfolding remove_service_endpoint find_did_by_id
  remove_service_endpoint-Keeps now did endpoint_id state h =
      update_found-Keeps now did "remove_service_endpoint"
        (λ document. remove_endpoint document endpoint_id) (at_key did state.rows) state h

  swallow-Keeps : (outcome : Result Anchoring) → Keeps Consistent (swallow caches platform outcome)
  swallow-Keeps (ok anchoring) state h = h
  swallow-Keeps (throw e) state h = h

  deactivate_unless-Keeps :
      (now : ℕ) (did : String) (deactivated_at : Option ℕ)
      → Keeps Consistent (deactivate_unless caches platform now did deactivated_at)
  unfolding deactivate_did find_did_by_id
  deactivate_unless-Keeps now did (some t) state h = h
  deactivate_unless-Keeps now did none state h =
      let anchored = platform.anchor_document (platform.deactivation_text did now) in
      continue-Keeps Consistent (swallow caches platform anchored state) _
        (swallow-Keeps anchored state h)
        (λ done middle k. elim (Option-cases (at_key did middle.rows)) [
          | inl missing ↦ rw missing k
          | inr (row, here) ↦
              rw here (delete_Agree caches row_document did _ middle.rows middle.cache k)
        ])

  deactivate_found-Keeps :
      (now : ℕ) (did : String) (found : Option DidRecord)
      → Keeps Consistent (deactivate_found caches platform now did found)
  deactivate_found-Keeps now did none state h = h
  deactivate_found-Keeps now did (some row) state h =
      deactivate_unless-Keeps now did row.deactivated_at state h

  pub deactivate_registered-Keeps :
      (now : ℕ) (did : String) → Keeps Consistent (deactivate_registered caches platform now did)
  unfolding deactivate_registered find_did_by_id
  deactivate_registered-Keeps now did state h =
      deactivate_found-Keeps now did (at_key did state.rows) state h
