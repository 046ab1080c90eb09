-- ===== src/DidService/Laws.antt =====
-- `DIDService` against its rows: what a caller sees (services/did/did.service.ts).
use helix_core.Prelude.{
  ℕ, ◌≡◌, refl, sym, ◌∙◌, ap, String, Option, none, some, false, Option-cases, inl, inr, at_key,
}
use helix_core.Result.{Result, ok, throw}
use helix_core.Action.{Action}
use helix_core.Cache.{ICache}
use helix_core.DidDocument.{DidDocument}
use helix_core.DidStore.{DidRecord, find_did_by_id}
use helix_core.DidService.{DidPlatform, DidState}
use helix_core.DidService.Resolve.{
  ResolveDidResult, missing_did, deactivated_did, unless_deactivated, answer_cached, from_active,
  resolve_from_rows, after_cache, resolve_registered,
}
use helix_core.DidService.Coherence.{IsConsistent}

-- The document of a row that may have been deactivated.
abbrev pub active_document : Option ℕ → DidDocument → Result DidDocument
active_document (some t) document = throw deactivated_did
active_document none document = ok document

-- What resolving a DID promises: the document of its row, unless there is none or it has been deactivated.
abbrev pub registered : Option DidRecord → Result DidDocument
registered none = throw missing_did
registered (some row) = active_document row.deactivated_at row.did_document

-- The document of a result.
abbrev pub result_document : Result ResolveDidResult → Result DidDocument
result_document (throw e) = throw e
result_document (ok result) = ok result.document

module _ (caches : ICache DidDocument) (platform : DidPlatform) where
  unless_deactivated_lem :
      (did : String) (deactivated_at : Option ℕ) (document : DidDocument)
      (next : Action (DidState caches platform) ResolveDidResult) (state : DidState caches platform)
      → result_document (next state).0 ≡ ok document
      → result_document (unless_deactivated caches platform did deactivated_at next state).0
        ≡ active_document deactivated_at document
  unless_deactivated_lem did (some t) document next state h = refl
  unless_deactivated_lem did none document next state h = h

  pub resolve_from_rows_lem :
      (now : ℕ) (did : String) (state : DidState caches platform)
      → result_document (resolve_from_rows caches platform now did false state).0
        ≡ registered (at_key did state.rows)
  unfolding resolve_from_rows find_did_by_id
  resolve_from_rows_lem now did state = elim (Option-cases (at_key did state.rows)) [
    | inl missing ↦ rw missing refl
    | inr (row, here) ↦ rw here (
        unless_deactivated_lem did row.deactivated_at row.did_document
          (from_active caches platform now did false row) state refl)
  ]

  after_cache_lem :
      (now : ℕ) (did : String) (cached : Option DidDocument) (state : DidState caches platform)
      → ((document : DidDocument)
          → cached ≡ some document
          → (row : DidRecord) × (at_key did state.rows ≡ some row) × (row.did_document ≡ document))
      → result_document (after_cache caches platform now did cached state).0
        ≡ registered (at_key did state.rows)
  unfolding find_did_by_id
  after_cache_lem now did none state right = resolve_from_rows_lem now did state
  after_cache_lem now did (some document) state right =
      let (row, here, same) = right document refl in
      rw here (
        unless_deactivated_lem did row.deactivated_at document
          (answer_cached caches platform did document) state refl
        ∙ ap (active_document row.deactivated_at) (sym same))

-- When the cache is consistent with the rows, a resolution that is not live gives what the row says, whether
-- the cache answers or not: the document of the row, or the error for a DID that is missing or deactivated.
pub resolve_registered_lem :
    (caches : ICache DidDocument) (platform : DidPlatform) (now : ℕ) (did : String)
    (state : DidState caches platform)
    → IsConsistent caches platform state
    → result_document (resolve_registered caches platform now did false state).0
      ≡ registered (at_key did state.rows)
unfolding resolve_registered
resolve_registered_lem caches platform now did state consistent =
    after_cache_lem caches platform now did (caches.get now did state.cache).0
      (record state { cache = (caches.get now did state.cache).1 })
      (λ document answered.
        consistent did document (caches.get_answer now did state.cache document answered))
