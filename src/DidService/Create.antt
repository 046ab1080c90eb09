-- ===== src/DidService/Create.antt =====
-- services/did/did.service.ts: `createDID` and `registerResolvedDID`.
use Prim.Native.String.{◌++◌ as ◌<>◌}
use helix_core.Prelude.{ℕ, String, Option, none, some, List}
use helix_core.Errors.{coded}
use helix_core.Result.{Result, ok, throw}
use helix_core.Action.{Action, resolve, reject, call, continue, ◌>>=◌, ◌>>◌}
use helix_core.Cache.{ICache}
use helix_core.DidDocument.{ServiceEndpoint, DidDocument}
use helix_core.DidDocument.Build.{build_service_endpoints}
use helix_core.DidStore.{DidRecord, create_did, find_did_by_id, find_did_by_public_key}
use helix_core.VcService.Request.{extract_ed25519_public_key}
use helix_core.DidService.{
  DidMethod, hedera, web, key, DidCreationProof, DidPlatform, did_creation_failed, did_created,
  DidState, on_rows, cache_document, log_event,
}
use helix_core.DidService.Mint.{
  Minted, CreateDidResult, first_multibase, not_anchored, did_row, mint_hedera, anchor_error,
  mint_key, mint_web,
}

module _ (caches : ICache DidDocument) (platform : DidPlatform) where
  abbrev pub or_anchor_error : Result Minted → Action (DidState caches platform) Minted
  or_anchor_error (ok minted) = resolve minted
  or_anchor_error (throw e) = do
    log_event caches platform (did_creation_failed "Hedera anchoring failed")
    reject (anchor_error platform e)

  -- step 3 of `createDID`
  abbrev pub mint_by :
      DidMethod
      → String
      → String
      → List ServiceEndpoint
      → Option DidCreationProof
      → Action (DidState caches platform) Minted
  mint_by key public_key subject_type endpoints proof =
      resolve (mint_key platform public_key endpoints)
  mint_by web public_key subject_type endpoints proof =
      resolve (mint_web platform public_key subject_type endpoints)
  mint_by hedera public_key subject_type endpoints proof =
      or_anchor_error (mint_hedera platform public_key endpoints proof)

  -- steps 4 and 5 of `createDID`
  unfoldable pub persist_minted :
      ℕ → String → String → Minted → Action (DidState caches platform) CreateDidResult
  persist_minted now public_key subject_type minted = do
    multibase ← call (first_multibase minted.document.verification_method)
    row ← on_rows caches platform (
        create_did now
          (did_row minted.did subject_type public_key multibase minted.document minted.anchoring))
    cache_document caches platform now minted.did minted.document
    log_event caches platform (did_created minted.did)
    resolve (record {
      did = row.id;
      did_document = row.did_document;
      hedera_transaction_id = row.hedera_transaction_id;
    })

  abbrev pub unless_existing :
      ℕ
      → String
      → String
      → List String
      → Option DidCreationProof
      → Option DidRecord
      → Action (DidState caches platform) CreateDidResult
  unless_existing now public_key subject_type domains proof (some existing) = do
    log_event caches platform (did_creation_failed "DID already exists for this public key")
    reject (coded "DID_ALREADY_EXISTS" "DID already exists for this public key" 409)
  unless_existing now public_key subject_type domains proof none = do
    minted ←
        mint_by platform.did_method public_key subject_type
          (build_service_endpoints platform.index_text domains) proof
    persist_minted now public_key subject_type minted

  -- `createDID`
  unfoldable pub create_new_did :
      ℕ
      → String
      → String
      → List String
      → Option DidCreationProof
      → Action (DidState caches platform) CreateDidResult
  create_new_did now public_key subject_type domains proof = do
    existing ← on_rows caches platform (find_did_by_public_key public_key)
    unless_existing now public_key subject_type domains proof existing

  -- the `try` of `registerResolvedDID`
  unfoldable pub try_register :
      ℕ → String → DidDocument → String → String → Action (DidState caches platform) (Unit {0})
  try_register now did document subject_type public_key = do
    multibase ← call (first_multibase document.verification_method)
    on_rows caches platform (
        create_did now (
          did_row did subject_type public_key multibase document
            (not_anchored (◌<>◌ "not-anchored:" (◌<>◌ (platform.method_of did) (◌<>◌ ":" did))))))
    cache_document caches platform now did document
    log_event caches platform (did_created did)

  -- its `catch`
  abbrev pub unless_now_registered :
      String
      → Result (Unit {0}) × DidState caches platform
      → Result (Unit {0}) × DidState caches platform
  unless_now_registered did (ok done, state) = (ok done, state)
  unless_now_registered did (throw e, state) =
      continue (on_rows caches platform (find_did_by_id did) state)
        (λ existing. elim existing [ some row ↦ resolve tt | none ↦ reject e ])

  abbrev pub register_unless :
      ℕ
      → String
      → DidDocument
      → String
      → Option DidRecord
      → Action (DidState caches platform) (Unit {0})
  register_unless now did document subject_type (some existing) = resolve tt
  register_unless now did document subject_type none = do
    public_key ← call (extract_ed25519_public_key document)
    (λ state.
        unless_now_registered did
          (try_register now did document subject_type (platform.hex_text public_key) state))

  -- `registerResolvedDID`
  unfoldable pub register_resolved :
      ℕ → String → DidDocument → String → Action (DidState caches platform) (Unit {0})
  unfolding try_register
  register_resolved now did document subject_type = do
    existing ← on_rows caches platform (find_did_by_id did)
    register_unless now did document subject_type existing
