-- ===== src/DidService/Steps.antt =====
-- Each method of `DIDService` keeps the cache consistent with the rows (services/did/did.service.ts).
use helix_core.Prelude.{ℕ, String, Option, none, some, List, Option-cases, inl, inr, at_key, put}
use helix_core.Result.{Result, ok, throw}
use helix_core.Action.{Keeps, continue-Keeps}
use helix_core.Cache.{ICache}
use helix_core.Cache.Agreement.{Agree, set_Agree}
use helix_core.DidDocument.{ServiceEndpoint, DidDocument}
use helix_core.DidDocument.Build.{build_service_endpoints}
use helix_core.DidStore.{DidRecord, create_did, find_did_by_id, find_did_by_public_key}
use helix_core.VcService.Request.{extract_ed25519_public_key}
use helix_core.DidService.{DidMethod, hedera, web, key, DidCreationProof, DidPlatform, DidState}
use helix_core.DidService.Mint.{Minted, first_multibase, mint_hedera, did_row}
use helix_core.DidService.Create.{
  mint_by, or_anchor_error, persist_minted, unless_existing, create_new_did, try_register,
  unless_now_registered, register_unless, register_resolved,
}
use helix_core.DidService.Coherence.{IsConsistent, row_document}

module _ (caches : ICache DidDocument) (platform : DidPlatform) where
  abbrev Consistent : DidState caches platform → Type 0
  Consistent state = IsConsistent caches platform state

  or_anchor_error-Keeps :
      (outcome : Result Minted) → Keeps Consistent (or_anchor_error caches platform outcome)
  or_anchor_error-Keeps (ok minted) state h = h
  or_anchor_error-Keeps (throw e) state h = h

  mint_by-Keeps :
      (method : DidMethod) (public_key subject_type : String) (endpoints : List ServiceEndpoint)
      (proof : Option DidCreationProof)
      → Keeps Consistent (mint_by caches platform method public_key subject_type endpoints proof)
  mint_by-Keeps key public_key subject_type endpoints proof state h = h
  mint_by-Keeps web public_key subject_type endpoints proof state h = h
  mint_by-Keeps hedera public_key subject_type endpoints proof state h =
      or_anchor_error-Keeps (mint_hedera platform public_key endpoints proof) state h

  -- A row is created and its document is put into the cache.
  created-Consistent :
      (now : ℕ) (row : DidRecord) (state : DidState caches platform)
      → Consistent state
      → Agree caches row_document
          (put row.id row state.rows)
          (caches.set now row.id row.did_document platform.cache_ttl_seconds state.cache)
  created-Consistent now row state h =
      set_Agree caches row_document now row.id row platform.cache_ttl_seconds state.rows state.cache
        h

  persist_minted-Keeps :
      (now : ℕ) (public_key subject_type : String) (minted : Minted)
      → Keeps Consistent (persist_minted caches platform now public_key subject_type minted)
  unfolding persist_minted create_did did_row
  persist_minted-Keeps now public_key subject_type minted state h =
      continue-Keeps Consistent (first_multibase minted.document.verification_method, state) _ h
        (λ multibase middle k. created-Consistent now _ middle k)

  unless_existing-Keeps :
      (now : ℕ) (public_key subject_type : String) (domains : List String)
      (proof : Option DidCreationProof) (existing : Option DidRecord)
      → Keeps Consistent
          (unless_existing caches platform now public_key subject_type domains proof existing)
  unless_existing-Keeps now public_key subject_type domains proof (some row) state h = h
  unless_existing-Keeps now public_key subject_type domains proof none state h =
      let endpoints = build_service_endpoints platform.index_text domains in
      continue-Keeps Consistent
        (mint_by caches platform platform.did_method public_key subject_type endpoints proof state)
        _ (mint_by-Keeps platform.did_method public_key subject_type endpoints proof state h)
        (λ minted. persist_minted-Keeps now public_key subject_type minted)

  pub create_new_did-Keeps :
      (now : ℕ) (public_key subject_type : String) (domains : List String)
      (proof : Option DidCreationProof)
      → Keeps Consistent (create_new_did caches platform now public_key subject_type domains proof)
  unfolding create_new_did find_did_by_public_key
  create_new_did-Keeps now public_key subject_type domains proof state h =
      unless_existing-Keeps now public_key subject_type domains proof _ state h

  try_register-Keeps :
      (now : ℕ) (did : String) (document : DidDocument) (subject_type public_key : String)
      → Keeps Consistent (try_register caches platform now did document subject_type public_key)
  unfolding try_register create_did did_row
  try_register-Keeps now did document subject_type public_key state h =
      continue-Keeps Consistent (first_multibase document.verification_method, state) _ h
        (λ multibase middle k. created-Consistent now _ middle k)

  unless_now_registered-Keeps :
      (did : String) (ended : Result (Unit {0}) × DidState caches platform)
      → Consistent ended.1
      → Consistent (unless_now_registered caches platform did ended).1
  unfolding find_did_by_id
  unless_now_registered-Keeps did (ok done, state) h = h
  unless_now_registered-Keeps did (throw e, state) h = elim (Option-cases (at_key did state.rows)) [
    | inl missing ↦ rw missing h
    | inr (row, here) ↦ rw here h
  ]

  register_unless-Keeps :
      (now : ℕ) (did : String) (document : DidDocument) (subject_type : String)
      (existing : Option DidRecord)
      → Keeps Consistent (register_unless caches platform now did document subject_type existing)
  register_unless-Keeps now did document subject_type (some row) state h = h
  register_unless-Keeps now did document subject_type none state h =
      continue-Keeps Consistent (extract_ed25519_public_key document, state) _ h
        (λ public_key middle k. unless_now_registered-Keeps did _ (
          try_register-Keeps now did document subject_type (platform.hex_text public_key) middle k))

  pub register_resolved-Keeps :
      (now : ℕ) (did : String) (document : DidDocument) (subject_type : String)
      → Keeps Consistent (register_resolved caches platform now did document subject_type)
  unfolding register_resolved find_did_by_id
  register_resolved-Keeps now did document subject_type state h =
      register_unless-Keeps now did document subject_type (at_key did state.rows) state h
