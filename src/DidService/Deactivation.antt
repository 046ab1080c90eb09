-- ===== src/DidService/Deactivation.antt =====
-- Resolving and registering leave a deactivated DID deactivated (services/did/did.service.ts).
use helix_core.Prelude.{
  ℕ, ◌≡◌, ◌≢◌, ◌∙◌, String, Option, none, some, Bool, true, false, ◌===◌, ===_refl, Option-cases,
  inl, inr, at_key, put, at_key-put_ne,
}
use helix_core.Result.{Result, ok, throw}
use helix_core.Action.{Action, Keeps, continue-Keeps}
use helix_core.Cache.{ICache}
use helix_core.DidDocument.{DidDocument}
use helix_core.DidStore.{DidRecord, DidRows, create_did, find_did_by_id}
use helix_core.VcService.Request.{extract_ed25519_public_key}
use helix_core.DidService.{DidPlatform, DidState}
use helix_core.DidService.Mint.{first_multibase, did_row}
use helix_core.DidService.Create.{try_register, unless_now_registered, register_resolved}
use helix_core.DidService.Resolve.{
  ResolveDidResult, fetch_live, answer_cached, from_cached, unless_deactivated, from_active,
  from_found, resolve_from_rows, after_cache, resolve_registered,
}

-- The row of the DID says that it has been deactivated.
abbrev pub IsDeactivated : String → DidRows → Type 0
IsDeactivated did rows =
    (row : DidRecord) × (t : ℕ) × (at_key did rows ≡ some row) × (row.deactivated_at ≡ some t)

pub put_ne-IsDeactivated :
    (did other : String) (row : DidRecord) (rows : DidRows)
    → other ≢ did
    → IsDeactivated did rows
    → IsDeactivated did (put other row rows)
put_ne-IsDeactivated did other row rows apart (old, t, here, set) =
    (old, t, at_key-put_ne other did row rows apart ∙ here, set)

absent_ne :
    (did other : String) (rows : DidRows)
    → at_key other rows ≡ none
    → IsDeactivated did rows
    → other ≢ did
absent_ne did other rows missing (row, t, here, set) same = cc (missing, here, same)

pub differ : (did other : String) → (other === did) ≡ false → other ≢ did
differ did other e same = cc (===_refl did, e, same)

module _ (caches : ICache DidDocument) (platform : DidPlatform) (did : String) where
  abbrev pub Gone : DidState caches platform → Type 0
  Gone state = IsDeactivated did state.rows

  -- Resolving changes no row.
  unless_deactivated-Gone :
      (other : String) (deactivated_at : Option ℕ)
      (next : Action (DidState caches platform) ResolveDidResult)
      → Keeps Gone next
      → Keeps Gone (unless_deactivated caches platform other deactivated_at next)
  unless_deactivated-Gone other (some t) next later state h = h
  unless_deactivated-Gone other none next later state h = later state h

  from_active-Gone :
      (now : ℕ) (other : String) (live : Bool) (row : DidRecord)
      → Keeps Gone (from_active caches platform now other live row)
  from_active-Gone now other true row state h =
      continue-Keeps Gone (fetch_live caches platform row, state) _ h (λ document middle k. k)
  from_active-Gone now other false row state h = h

  from_found-Gone :
      (now : ℕ) (other : String) (live : Bool) (found : Option DidRecord)
      → Keeps Gone (from_found caches platform now other live found)
  from_found-Gone now other live none state h = h
  from_found-Gone now other live (some row) state h =
      unless_deactivated-Gone other row.deactivated_at _ (from_active-Gone now other live row) state
        h

  from_cached-Gone :
      (other : String) (cached : DidDocument) (found : Option DidRecord)
      → Keeps Gone (from_cached caches platform other cached found)
  from_cached-Gone other cached none state h = h
  from_cached-Gone other cached (some row) state h =
      unless_deactivated-Gone other row.deactivated_at (answer_cached caches platform other cached)
        (λ before k. k) state h

  after_cache-Gone :
      (now : ℕ) (other : String) (cached : Option DidDocument)
      → Keeps Gone (after_cache caches platform now other cached)
  unfolding resolve_from_rows find_did_by_id
  after_cache-Gone now other none state h = from_found-Gone now other false _ state h
  after_cache-Gone now other (some cached) state h = from_cached-Gone other cached _ state h

  pub resolve_registered-Gone :
      (now : ℕ) (other : String) (live : Bool)
      → Keeps Gone (resolve_registered caches platform now other live)
  unfolding resolve_registered resolve_from_rows find_did_by_id
  resolve_registered-Gone now other true state h = from_found-Gone now other true _ state h
  resolve_registered-Gone now other false state h = after_cache-Gone now other _ _ h

  -- Registering leaves a DID with a row alone.
  try_register-Gone :
      (now : ℕ) (other : String) (document : DidDocument) (subject_type public_key : String)
      → other ≢ did
      → Keeps Gone (try_register caches platform now other document subject_type public_key)
  unfolding try_register create_did did_row
  try_register-Gone now other document subject_type public_key apart state h =
      continue-Keeps Gone (first_multibase document.verification_method, state) _ h
        (λ multibase middle k. put_ne-IsDeactivated did other _ middle.rows apart k)

  unless_now_registered-Gone :
      (other : String) (ended : Result (Unit {0}) × DidState caches platform)
      → Gone ended.1
      → Gone (unless_now_registered caches platform other ended).1
  unfolding find_did_by_id
  unless_now_registered-Gone other (ok done, state) h = h
  unless_now_registered-Gone other (throw e, state) h =
      elim (Option-cases (at_key other state.rows)) [
        | inl missing ↦ rw missing h
        | inr (row, here) ↦ rw here h
      ]

  pub register_resolved-Gone :
      (now : ℕ) (other : String) (document : DidDocument) (subject_type : String)
      → Keeps Gone (register_resolved caches platform now other document subject_type)
  unfolding register_resolved find_did_by_id
  register_resolved-Gone now other document subject_type state h =
      elim (Option-cases (at_key other state.rows)) [
        | inr (row, here) ↦ rw here h
        | inl missing ↦ rw missing (
            continue-Keeps Gone (extract_ed25519_public_key document, state) _ h
              (λ public_key middle k. unless_now_registered-Gone other _ (
                try_register-Gone now other document subject_type (platform.hex_text public_key)
                  (absent_ne did other state.rows missing h) middle k)))
      ]
