-- ===== src/VcService/Reconcile.antt =====
-- services/vc/vc.service.ts: `retire` and `reconcileActive`.
use helix_core.Prelude.{
  ℕ, String, Option, some, List, [], ◌∷◌, ◌++◌, Bool, true, false, not, ◌===◌, ◌||◌, if◌then◌else◌,
  select,
}
use helix_core.Errors.{plain}
use helix_core.Result.{Result, ok, throw}
use helix_core.Action.{Action, resolve, call, ◌>>=◌, ◌>>◌}
use helix_core.Cache.{ICache}
use helix_core.Credential.{SignedVc, body}
use helix_core.StatusList.{bit_1, set_bit, read_buffer}
use helix_core.Verifier.Host.{JsNumber, index, negative, not_integer}
use helix_core.VcLookup.{VcLookupColumns, vc_lookup_columns}
use helix_core.VcStore.{
  VcRecord, VcIdentity, same_text, find_active_children, find_active_by_identity,
  find_status_list_by_id, revoke_vc_row, mark_as_renewed, or_fail,
}
use helix_core.VcService.{
  Platform, vc_superseded, default_status_list_id, State, on_store, cache_delete, audit,
  points_at_default_list,
}

-- `ReconcileResult`
pub record ReconcileResult : Type 0 where
  pub replaced_vc_ids : List String
  pub revoked_vc_ids : List String
  pub retained_vc_ids : List String

abbrev pub nothing_done : ReconcileResult
nothing_done = record { replaced_vc_ids = []; revoked_vc_ids = []; retained_vc_ids = [] }

outside : Result (List ℕ) → Result (List ℕ)
outside (ok buffer) = throw (plain "Status list index out of bounds")
outside (throw e) = throw e

module _ (caches : ICache (List ℕ)) (platform : Platform) where
  -- `setBit` at an index that may be no natural number: the buffer is read and holds no such byte. Rows have
  -- integers, which `Number.isInteger` is asked for, so a fraction does not reach this
  set_bit_at : List ℕ → JsNumber → Result (List ℕ)
  set_bit_at encoded_list (index i) = set_bit platform.codec encoded_list i bit_1
  set_bit_at encoded_list negative = outside (read_buffer platform.codec encoded_list)
  set_bit_at encoded_list not_integer = outside (read_buffer platform.codec encoded_list)

  -- `ownsBit ? setBit(list.encodedList, record.statusListIndex, 1) : list.encodedList`
  unfoldable pub with_bit : VcRecord → List ℕ → Result (List ℕ)
  unfolding set_bit_at outside
  with_bit row encoded_list =
      if points_at_default_list caches platform row.vc_json
      then set_bit_at encoded_list row.status_list_index
      else ok encoded_list

  -- the bit and the row of one credential; `retire` and `revokeVC` share these lines. First the list is read
  -- and its new text is computed
  abbrev pub read_revocation : VcRecord → Action (State caches platform) (List ℕ)
  read_revocation row = do
    list ← on_store caches platform (
        find_status_list_by_id default_status_list_id
        >>= or_fail "Status list missing during revocation")
    call (with_bit row list.encoded_list)

  -- and then that text is written
  abbrev pub finish_revocation : ℕ → VcRecord → List ℕ → Action (State caches platform) VcRecord
  finish_revocation now row encoded = do
    updated ← on_store caches platform (revoke_vc_row now row.vc_id default_status_list_id encoded)
    (if points_at_default_list caches platform row.vc_json
        then cache_delete caches platform default_status_list_id
        else resolve tt)
    resolve updated

  unfoldable pub write_revocation : ℕ → VcRecord → Action (State caches platform) VcRecord
  write_revocation now row = do encoded ← read_revocation row; finish_revocation now row encoded

  abbrev pub retire_childless : ℕ → VcRecord → List VcRecord → Action (State caches platform) Bool
  retire_childless now row [] = do
    write_revocation now row
    audit caches platform (vc_superseded row.vc_id)
    resolve true
  retire_childless now row (child ∷ children) = resolve false

  -- `retire`
  unfoldable pub retire : ℕ → VcRecord → Action (State caches platform) Bool
  retire now row = do
    children ← on_store caches platform (find_active_children now row.vc_id)
    retire_childless now row children

  -- the loop over the credentials with the same scopes
  unfoldable pub replace_all :
      ℕ → String → List VcRecord → ReconcileResult → Action (State caches platform) ReconcileResult
  replace_all now vc_id [] result = resolve result
  replace_all now vc_id (old ∷ rest) result = do
    on_store caches platform (mark_as_renewed now old.vc_id vc_id)
    retired ← retire now old
    replace_all now vc_id rest (
        if retired
        then record result { replaced_vc_ids = result.replaced_vc_ids ++ old.vc_id ∷ [] }
        else record result { retained_vc_ids = result.retained_vc_ids ++ old.vc_id ∷ [] })

  -- the loop over those with other scopes
  unfoldable pub revoke_all :
      ℕ → List VcRecord → ReconcileResult → Action (State caches platform) ReconcileResult
  revoke_all now [] result = resolve result
  revoke_all now (old ∷ rest) result = do
    retired ← retire now old
    revoke_all now rest (
        if retired
        then record result { revoked_vc_ids = result.revoked_vc_ids ++ old.vc_id ∷ [] }
        else record result { retained_vc_ids = result.retained_vc_ids ++ old.vc_id ∷ [] })

  unfoldable pub same_scopes : VcLookupColumns → VcRecord → Bool
  same_scopes columns row = same_text row.scope_key columns.scope_key

  -- `reconcileActive`, for a credential whose type and issuer are known
  unfoldable pub reconcile_identity :
      ℕ
      → SignedVc
      → VcLookupColumns
      → VcIdentity
      → Bool
      → Action (State caches platform) ReconcileResult
  reconcile_identity now vc columns identity revoke_existing = do
    active ← on_store caches platform (find_active_by_identity now identity)
    let siblings = select (λ (row : VcRecord). not (row.vc_id === (body vc).id)) active
    let others = select (λ row. not (same_scopes columns row)) siblings
    replaced ← replace_all now (body vc).id (select (same_scopes columns) siblings) nothing_done
    revoke_all now (if revoke_existing then others else []) replaced

  abbrev pub reconcile_known :
      ℕ
      → SignedVc
      → Bool
      → VcLookupColumns
      → Option String
      → Option String
      → Action (State caches platform) ReconcileResult
  reconcile_known now vc revoke_existing columns (some type) (some issuer) =
      if type === "" || issuer === ""
      then resolve nothing_done
      else reconcile_identity now vc columns
          (record {
            vc_type = type;
            issuer_did = issuer;
            subject_did = (body vc).subject.id;
            user_did = columns.user_did;
          })
          revoke_existing
  reconcile_known now vc revoke_existing columns type issuer = resolve nothing_done

  -- `reconcileActive`
  unfoldable pub reconcile_active :
      ℕ → SignedVc → Bool → Action (State caches platform) ReconcileResult
  reconcile_active now vc revoke_existing =
      let columns = vc_lookup_columns vc in
      reconcile_known now vc revoke_existing columns columns.vc_type columns.issuer_did
