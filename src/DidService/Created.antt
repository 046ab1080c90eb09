-- ===== src/DidService/Created.antt =====
-- What creating a DID gives (services/did/did.service.ts).
use Prim.Native.String.{◌++◌ as ◌<>◌}
use helix_core.Prelude.{
  ℕ, ◌≡◌, refl, ◌∙◌, ap, subst, String, Option, none, some, List, [], ◌∷◌, ◌++◌, false, ◌===◌, find,
  values, at_key, at_key-put_self,
}
use helix_core.Errors.{coded}
use helix_core.Result.{ok, throw}
use helix_core.Action.{After, continue-eq-ok, call-eq-ok}
use helix_core.Cache.{ICache}
use helix_core.DidDocument.{DidDocument}
use helix_core.DidDocument.Build.{build_did_document, build_service_endpoints}
use helix_core.DidStore.{DidRecord, DidRows, create_did, find_did_by_public_key}
use helix_core.DidService.{key, DidCreationProof, DidPlatform, did_creation_failed, DidState}
use helix_core.DidService.Mint.{
  Minted, CreateDidResult, first_multibase, did_row, multibase_text, mint_key,
}
use helix_core.DidService.Create.{mint_by, persist_minted, unless_existing, create_new_did}
use helix_core.DidService.Resolve.{resolve_registered}
use helix_core.DidService.Coherence.{IsConsistent}
use helix_core.DidService.Steps.{create_new_did-Keeps}
use helix_core.DidService.Laws.{
  result_document, active_document, registered, resolve_registered_lem,
}

-- the first row with the key
abbrev pub row_of_key : String → DidRows → Option DidRecord
row_of_key public_key rows = find (λ (row : DidRecord). row.public_key === public_key) (values rows)

registered_active :
    (did : String) (rows : DidRows) (row : DidRecord) (document : DidDocument)
    → at_key did rows ≡ some row
    → row.did_document ≡ document
    → row.deactivated_at ≡ none
    → registered (at_key did rows) ≡ ok document
registered_active did rows row document here same active =
    rw (here, registered) (rw (active, active_document) (ap ok same))

module _ (caches : ICache DidDocument) (platform : DidPlatform) where
  -- The row that a creation leaves under the DID that it returns.
  abbrev HasCreated : CreateDidResult → DidState caches platform → Type 0
  HasCreated result state =
      (row : DidRecord) × (at_key result.did state.rows ≡ some row)
      × (row.did_document ≡ result.did_document)
      × (row.deactivated_at ≡ none)

  persist_minted-eq-ok :
      (now : ℕ) (public_key subject_type : String) (minted : Minted)
      (state : DidState caches platform) {result : CreateDidResult}
      {after : DidState caches platform}
      → persist_minted caches platform now public_key subject_type minted state ≡ (ok result, after)
      → HasCreated result after
  unfolding persist_minted create_did did_row
  persist_minted-eq-ok now public_key subject_type minted state created =
      let (multibase, read, wrote) =
        call-eq-ok (first_multibase minted.document.verification_method) state _ created in
      subst (After HasCreated (λ rest. Unit {0})) wrote
        (_, at_key-put_self minted.did _ state.rows, refl, refl)

  unless_existing-eq-ok :
      (now : ℕ) (public_key subject_type : String) (domains : List String)
      (proof : Option DidCreationProof) (existing : Option DidRecord)
      (state : DidState caches platform) {result : CreateDidResult}
      {after : DidState caches platform}
      → unless_existing caches platform now public_key subject_type domains proof existing state
        ≡ (ok result, after)
      → HasCreated result after
  unless_existing-eq-ok now public_key subject_type domains proof (some row) state created =
      cc created
  unless_existing-eq-ok now public_key subject_type domains proof none state created =
      let endpoints = build_service_endpoints platform.index_text domains in
      let (minted, middle, made, persisted) =
        continue-eq-ok
          (mint_by caches platform platform.did_method public_key subject_type endpoints proof
            state)
          _ created in
      persist_minted-eq-ok now public_key subject_type minted middle persisted

-- A DID that is created from a state whose cache agrees with the rows resolves, not live, to the document that
-- its creation returned, whenever it is resolved next, from the cache or from the row.
pub create_new_did-resolve_registered :
    (caches : ICache DidDocument) (platform : DidPlatform) (now later : ℕ)
    (public_key subject_type : String) (domains : List String) (proof : Option DidCreationProof)
    (result : CreateDidResult) (state after : DidState caches platform)
    → IsConsistent caches platform state
    → create_new_did caches platform now public_key subject_type domains proof state
      ≡ (ok result, after)
    → result_document (resolve_registered caches platform later result.did false after).0
      ≡ ok result.did_document
unfolding create_new_did find_did_by_public_key
create_new_did-resolve_registered caches platform now later public_key subject_type domains proof
      result state after consistent created =
    let (row, here, same, active) =
      unless_existing-eq-ok caches platform now public_key subject_type domains proof
        (row_of_key public_key state.rows) state created in
    let kept =
      create_new_did-Keeps caches platform now public_key subject_type domains proof state
        consistent in
    let still : IsConsistent caches platform after =
      subst (IsConsistent caches platform) (ap (λ ended. ended.1) created) kept in
    resolve_registered_lem caches platform later result.did after still
    ∙ registered_active result.did after.rows row result.did_document here same active

-- A key that a row has already is not given a second DID: creating one is rejected, whatever the method and
-- the proof, and neither the rows nor the cache change.
pub create_new_did_duplicate :
    (caches : ICache DidDocument) (platform : DidPlatform) (now : ℕ)
    (public_key subject_type : String) (domains : List String) (proof : Option DidCreationProof)
    (row : DidRecord) (state : DidState caches platform)
    → row_of_key public_key state.rows ≡ some row
    → create_new_did caches platform now public_key subject_type domains proof state ≡ (
      throw (coded "DID_ALREADY_EXISTS" "DID already exists for this public key" 409),
      record state {
        log = state.log ++ did_creation_failed "DID already exists for this public key" ∷ [];
      },
    )
unfolding create_new_did find_did_by_public_key
create_new_did_duplicate caches platform now public_key subject_type domains proof row state known =
    rw known refl

-- With the method `key`, a key that no row has is given a DID whatever Hedera would answer: the did:key of its
-- multibase text, with the document that is built from the key.
pub create_new_did-key :
    (caches : ICache DidDocument) (platform : DidPlatform) (now : ℕ)
    (public_key subject_type : String) (domains : List String) (proof : Option DidCreationProof)
    (state : DidState caches platform)
    → platform.did_method ≡ key
    → row_of_key public_key state.rows ≡ none
    → (create_new_did caches platform now public_key subject_type domains proof state).0
      ≡ ok (record {
        did = ◌<>◌ "did:key:" (multibase_text platform public_key);
        did_document =
            build_did_document platform.text_of
              (◌<>◌ "did:key:" (multibase_text platform public_key))
              (platform.hex_bytes public_key)
              (build_service_endpoints platform.index_text domains);
        hedera_transaction_id =
            ◌<>◌ "not-anchored:key:" (◌<>◌ "did:key:" (multibase_text platform public_key));
      })
unfolding create_new_did find_did_by_public_key persist_minted create_did did_row mint_key
    build_did_document
create_new_did-key caches platform now public_key subject_type domains proof state method fresh =
    rw (fresh, unless_existing) (rw (method, mint_by) refl)
