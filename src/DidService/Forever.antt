-- ===== src/DidService/Forever.antt =====
-- What deactivating a DID means for whoever resolves it later (services/did/did.service.ts).
use helix_core.Prelude.{
  ℕ, ◌≡◌, refl, String, Option, none, some, Bool, true, false, at_key, at_key-put_self,
}
use helix_core.Result.{Result, ok, throw}
use helix_core.Cache.{ICache}
use helix_core.DidDocument.{DidDocument}
use helix_core.DidStore.{DidRecord, find_did_by_id, deactivate_did}
use helix_core.DidService.{Anchoring, DidPlatform, DidState}
use helix_core.DidService.Resolve.{
  deactivated_did, from_cached, from_found, unless_deactivated, resolve_from_rows, after_cache,
  resolve_registered,
}
use helix_core.DidService.Update.{swallow, deactivate_unless, deactivate_registered}
use helix_core.DidService.Reached.{DidChanges}
use helix_core.DidService.Deactivation.{IsDeactivated}
use helix_core.DidService.Permanent.{DidChanges-Gone}

module _ (caches : ICache DidDocument) (platform : DidPlatform) where
  resolve_from_rows_gone :
      (now : ℕ) (did : String) (live : Bool) (state : DidState caches platform)
      → IsDeactivated did state.rows
      → (resolve_from_rows caches platform now did live state).0 ≡ throw deactivated_did
  unfolding resolve_from_rows find_did_by_id
  resolve_from_rows_gone now did live state (row, t, here, set) =
      rw (here, from_found) (rw (set, unless_deactivated) refl)

  after_cache_gone :
      (now : ℕ) (did : String) (cached : Option DidDocument) (state : DidState caches platform)
      → IsDeactivated did state.rows
      → (after_cache caches platform now did cached state).0 ≡ throw deactivated_did
  unfolding find_did_by_id
  after_cache_gone now did none state gone = resolve_from_rows_gone now did false state gone
  after_cache_gone now did (some cached) state (row, t, here, set) =
      rw (here, from_cached) (rw (set, unless_deactivated) refl)

  resolve_registered_gone :
      (now : ℕ) (did : String) (live : Bool) (state : DidState caches platform)
      → IsDeactivated did state.rows
      → (resolve_registered caches platform now did live state).0 ≡ throw deactivated_did
  unfolding resolve_registered
  resolve_registered_gone now did true state gone = resolve_from_rows_gone now did true state gone
  resolve_registered_gone now did false state gone =
      after_cache_gone now did (caches.get now did state.cache).0
        (record state { cache = (caches.get now did state.cache).1 }) gone

  swallow_lem :
      (outcome : Result Anchoring) (state : DidState caches platform)
      → swallow caches platform outcome state ≡ (ok tt, state)
  swallow_lem (ok anchoring) state = refl
  swallow_lem (throw e) state = refl

  deactivate_unless_lem :
      (now : ℕ) (did : String) (row : DidRecord) (deactivated_at : Option ℕ)
      (state : DidState caches platform)
      → at_key did state.rows ≡ some row
      → row.deactivated_at ≡ deactivated_at
      → ((deactivate_unless caches platform now did deactivated_at state).0 ≡ ok tt)
        × IsDeactivated did (deactivate_unless caches platform now did deactivated_at state).1.rows
  unfolding deactivate_did find_did_by_id
  deactivate_unless_lem now did row (some t) state here set = (refl, (row, t, here, set))
  deactivate_unless_lem now did row none state here set =
      rw (swallow_lem (platform.anchor_document (platform.deactivation_text did now)) state)
        (rw here (refl, (_, now, at_key-put_self did _ state.rows, refl)))

-- Deactivating a DID that has a row succeeds, whatever Hedera answers. From then on, whatever calls follow
-- that create no DID, resolving it is rejected as deactivated, live or not, and whatever the cache holds.
pub deactivate_registered_forever :
    (caches : ICache DidDocument) (platform : DidPlatform) (now later : ℕ) (did : String)
    (live : Bool) (row : DidRecord) (state after : DidState caches platform)
    → at_key did state.rows ≡ some row
    → DidChanges caches platform (deactivate_registered caches platform now did state).1 after
    → ((deactivate_registered caches platform now did state).0 ≡ ok tt)
      × ((resolve_registered caches platform later did live after).0 ≡ throw deactivated_did)
unfolding deactivate_registered find_did_by_id
deactivate_registered_forever caches platform now later did live row state after here run =
    let (ends, gone) =
      deactivate_unless_lem caches platform now did row row.deactivated_at state here refl in
    (
      rw here ends,
      resolve_registered_gone caches platform later did live after
          (DidChanges-Gone caches platform did run (rw here gone)),
    )
