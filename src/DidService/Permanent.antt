-- ===== src/DidService/Permanent.antt =====
-- A DID that has been deactivated stays so (services/did/did.service.ts).
use helix_core.Prelude.{
  ℕ, ◌≢◌, sym, subst, String, Option, none, some, ◌===◌, ===→eq, Bool-cases, Option-cases, inl, inr,
  at_key,
}
use helix_core.Result.{Result, ok, throw}
use helix_core.Action.{Action, Keeps, continue-Keeps}
use helix_core.Cache.{ICache}
use helix_core.DidDocument.{DidDocument}
use helix_core.DidDocument.Build.{add_endpoint, remove_endpoint}
use helix_core.DidStore.{DidRecord, find_did_by_id, update_did_document, deactivate_did}
use helix_core.DidService.{Anchoring, DidPlatform, DidState}
use helix_core.DidService.Update.{
  or_update_failed, publish_update, unless_set, update_found, add_service_endpoint,
  remove_service_endpoint, swallow, deactivate_unless, deactivate_found, deactivate_registered,
}
use helix_core.DidService.Reached.{
  DidChange, registers, resolves, adds_endpoint, removes_endpoint, deactivates, DidChanges,
  unchanged, then_changes,
}
use helix_core.DidService.Deactivation.{
  put_ne-IsDeactivated, differ, Gone, register_resolved-Gone, resolve_registered-Gone,
}

module _ (caches : ICache DidDocument) (platform : DidPlatform) (did : String) where
  abbrev Kept : DidState caches platform → Type 0
  Kept state = Gone caches platform did state

  publish_update-Gone :
      (now : ℕ) (other update_type : String) (updated : DidDocument)
      → other ≢ did
      → Keeps Kept (publish_update caches platform now other update_type updated)
  unfolding publish_update update_did_document find_did_by_id
  publish_update-Gone now other update_type updated apart state h =
      continue-Keeps Kept
        (
          or_update_failed caches platform
              (platform.anchor_document (platform.document_text updated)),
          state,
        )
        _ h
        (λ anchoring middle k. elim (Option-cases (at_key other middle.rows)) [
          | inl missing ↦ rw missing k
          | inr (row, here) ↦ rw here (put_ne-IsDeactivated did other _ middle.rows apart k)
        ])

  unless_set-Gone :
      (deactivated_at : Option ℕ) (next : Action (DidState caches platform) DidDocument)
      → Keeps Kept next
      → Keeps Kept (unless_set caches platform deactivated_at next)
  unless_set-Gone (some t) next later state h = h
  unless_set-Gone none next later state h = later state h

  update_other-Gone :
      (now : ℕ) (other update_type : String) (change : DidDocument → Result DidDocument)
      (found : Option DidRecord)
      → other ≢ did
      → Keeps Kept (update_found caches platform now other update_type change found)
  update_other-Gone now other update_type change none apart state h = h
  update_other-Gone now other update_type change (some row) apart state h =
      unless_set-Gone row.deactivated_at _
        (λ before k.
          continue-Keeps Kept (change row.did_document, before) _ k
            (λ updated. publish_update-Gone now other update_type updated apart))
        state h

  update_own-Gone :
      (now : ℕ) (update_type : String) (change : DidDocument → Result DidDocument)
      (state : DidState caches platform)
      → Kept state
      → Kept
          (update_found caches platform now did update_type change (at_key did state.rows) state).1
  update_own-Gone now update_type change state (row, t, here, set) =
      rw (here, update_found) (rw (set, unless_set) (row, t, here, set))

  update_found-Gone :
      (now : ℕ) (other update_type : String) (change : DidDocument → Result DidDocument)
      (state : DidState caches platform)
      → Kept state
      → Kept
          (update_found caches platform now other update_type change
            (at_key other state.rows)
            state).1
  update_found-Gone now other update_type change state h = elim (Bool-cases (other === did)) [
    | inl e ↦
        subst
          (λ d.
            Kept
              (update_found caches platform now d update_type change (at_key d state.rows) state).1)
          (sym (===→eq other did e)) (update_own-Gone now update_type change state h)
    | inr e ↦
        update_other-Gone now other update_type change (at_key other state.rows)
          (differ did other e) state h
  ]

  swallow-Gone : (outcome : Result Anchoring) → Keeps Kept (swallow caches platform outcome)
  swallow-Gone (ok anchoring) state h = h
  swallow-Gone (throw e) state h = h

  deactivate_unless-Gone :
      (now : ℕ) (other : String) (deactivated_at : Option ℕ)
      → other ≢ did
      → Keeps Kept (deactivate_unless caches platform now other deactivated_at)
  unfolding deactivate_did find_did_by_id
  deactivate_unless-Gone now other (some t) apart state h = h
  deactivate_unless-Gone now other none apart state h =
      let anchored = platform.anchor_document (platform.deactivation_text other now) in
      continue-Keeps Kept (swallow caches platform anchored state) _ (swallow-Gone anchored state h)
        (λ done middle k. elim (Option-cases (at_key other middle.rows)) [
          | inl missing ↦ rw missing k
          | inr (row, here) ↦ rw here (put_ne-IsDeactivated did other _ middle.rows apart k)
        ])

  deactivate_other-Gone :
      (now : ℕ) (other : String) (found : Option DidRecord)
      → other ≢ did
      → Keeps Kept (deactivate_found caches platform now other found)
  deactivate_other-Gone now other none apart state h = h
  deactivate_other-Gone now other (some row) apart state h =
      deactivate_unless-Gone now other row.deactivated_at apart state h

  deactivate_own-Gone :
      (now : ℕ) (state : DidState caches platform)
      → Kept state
      → Kept (deactivate_found caches platform now did (at_key did state.rows) state).1
  deactivate_own-Gone now state (row, t, here, set) =
      rw (here, deactivate_found) (rw (set, deactivate_unless) (row, t, here, set))

  deactivate_found-Gone :
      (now : ℕ) (other : String) (state : DidState caches platform)
      → Kept state
      → Kept (deactivate_found caches platform now other (at_key other state.rows) state).1
  deactivate_found-Gone now other state h = elim (Bool-cases (other === did)) [
    | inl e ↦
        subst (λ d. Kept (deactivate_found caches platform now d (at_key d state.rows) state).1)
          (sym (===→eq other did e)) (deactivate_own-Gone now state h)
    | inr e ↦ deactivate_other-Gone now other (at_key other state.rows) (differ did other e) state h
  ]

  DidChange-Gone :
      {before after : DidState caches platform}
      → DidChange caches platform before after
      → Kept before
      → Kept after
  unfolding add_service_endpoint remove_service_endpoint deactivate_registered find_did_by_id
  DidChange-Gone (registers now other document subject_type) h =
      register_resolved-Gone caches platform did now other document subject_type _ h
  DidChange-Gone (resolves now other live) h =
      resolve_registered-Gone caches platform did now other live _ h
  DidChange-Gone (adds_endpoint {state = state} now other endpoint) h =
      update_found-Gone now other "add_service_endpoint"
        (λ document. add_endpoint document endpoint) state h
  DidChange-Gone (removes_endpoint {state = state} now other endpoint_id) h =
      update_found-Gone now other "remove_service_endpoint"
        (λ document. remove_endpoint document endpoint_id) state h
  DidChange-Gone (deactivates {state = state} now other) h = deactivate_found-Gone now other state h

  pub DidChanges-Gone :
      {before after : DidState caches platform}
      → DidChanges caches platform before after
      → Kept before
      → Kept after
  DidChanges-Gone unchanged h = h
  DidChanges-Gone (then_changes run change) h = DidChange-Gone change (DidChanges-Gone run h)
