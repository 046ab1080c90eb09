-- ===== src/VcService/Rejections.antt =====
-- What `VCService` rejects (services/vc/vc.service.ts): calls about a credential that is unknown or
-- already revoked.
use helix_core.Prelude.{ℕ, ◌≡◌, refl, String, none, some, List, at_key}
use helix_core.Result.{ok, throw}
use helix_core.Cache.{ICache}
use helix_core.VcStore.{VcRecord, find_by_vc_id}
use helix_core.VcService.{Platform, Stamp, helix_error, State}
use helix_core.VcService.Manage.{
  is_revoked, RenewVcOptions, status_of, record_status, find_row, revoke_vc, renew_vc, get_vc,
  get_vc_status, find_record_by_vc_id,
}

module _ (caches : ICache (List ℕ)) (platform : Platform) where
  -- A credential that no row holds cannot be revoked, renewed or looked at: each call is rejected with
  -- `VC_NOT_FOUND` and status 404, only `findRecordByVcId` resolves, to null, and nothing is written.
  pub unknown_vc :
      (stamp : Stamp) (vc_id : String) (overrides : RenewVcOptions) (state : State caches platform)
      → at_key vc_id state.store.vcs ≡ none
      → (revoke_vc caches platform stamp.now vc_id state
          ≡ (throw (helix_error "VC_NOT_FOUND" "Credential not found" 404), state))
        × (renew_vc caches platform stamp vc_id overrides state
            ≡ (throw (helix_error "VC_NOT_FOUND" "Credential not found" 404), state))
        × (get_vc caches platform stamp.now vc_id state
            ≡ (throw (helix_error "VC_NOT_FOUND" "Credential not found" 404), state))
        × (get_vc_status caches platform stamp.now vc_id state
            ≡ (throw (helix_error "VC_NOT_FOUND" "Credential not found" 404), state))
        × (find_record_by_vc_id caches platform stamp.now vc_id state ≡ (ok none, state))
  unfolding revoke_vc renew_vc get_vc get_vc_status find_record_by_vc_id find_row find_by_vc_id
  unknown_vc stamp vc_id overrides state h = (rw h refl, rw h refl, rw h refl, rw h refl, rw h refl)

  -- A credential whose row carries the time of its revocation stays revoked: revoking and renewing it are
  -- rejected with `VC_ALREADY_REVOKED` and status 409, nothing is written, and its status is `revoked`
  -- whether or not it has expired.
  pub revoked_vc :
      (stamp : Stamp) (vc_id : String) (row : VcRecord) (t : ℕ) (overrides : RenewVcOptions)
      (state : State caches platform)
      → at_key vc_id state.store.vcs ≡ some row
      → row.revoked_at ≡ some t
      → (revoke_vc caches platform stamp.now vc_id state
          ≡ (throw (helix_error "VC_ALREADY_REVOKED" "Credential already revoked" 409), state))
        × (renew_vc caches platform stamp vc_id overrides state ≡ (
          throw (helix_error "VC_ALREADY_REVOKED" "Cannot renew a revoked credential" 409),
          state,
        ))
        × (get_vc_status caches platform stamp.now vc_id state ≡ (ok is_revoked, state))
        × (find_record_by_vc_id caches platform stamp.now vc_id state
            ≡ (ok (some (row.vc_json, is_revoked)), state))
  unfolding revoke_vc renew_vc get_vc_status find_record_by_vc_id find_row find_by_vc_id status_of
      record_status
  revoked_vc stamp vc_id row t overrides state h r =
      (rw (h, r) refl, rw (h, r) refl, rw (h, r) refl, rw (h, r) refl)
