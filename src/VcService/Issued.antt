-- ===== src/VcService/Issued.antt =====
-- What holds of a credential that `issueVC` has issued (services/vc/vc.service.ts).
mod Tests
use Prim.Native.String.{◌++◌ as ◌<>◌}
use helix_core.Prelude.{
  ℕ, ◌+◌, ◌<◌, ◌≡◌, refl, sym, ap, ◌∙◌, subst, String, Option, none, some, List, [], ◌∷◌, Bool,
  true, false, leb, at_key, put, at_key-put_self, arith, if◌then◌else◌, ◌===◌,
}
use helix_core.Errors.{Thrown}
use helix_core.Result.{Result, ok, throw, ok-injective}
use helix_core.Action.{
  Action, resolve, reject, reject_if, call, continue, read, write, ◌>>=◌, ◌>>◌, continue-eq-ok,
  call-eq-ok, reject_if-eq-ok,
}
use helix_core.Cache.{ICache}
use helix_core.Credential.{SignedVc, body, VcBody}
use helix_core.StatusList.{create_status_list}
use helix_core.VcStore.{
  StatusListEntryRecord, VcStore, VcRecord, CreateVcParams, find_status_list_by_id,
  claim_next_index, create_status_list_row, create_vc,
}
use helix_core.VcService.{
  Platform, State, Stamp, default_status_list_id, capacity, on_store, put_back, ensure_default_list,
  check_capacity, make_status_list, or_new_list,
}
use helix_core.VcService.Allotment.{claim_next_index_lem}
use helix_core.VcService.Reconcile.{ReconcileResult, reconcile_active}
use helix_core.VcService.Issue.{
  ensure_subject, assert_issuer_signing_key_matches, sign_credential, build_credential,
  store_issued, issue_vc,
}
use helix_core.VcService.Request.{IssueVcParams, IssueVcResult, check_kind, check_scopes}

below_capacity : {n m i : ℕ} → leb capacity m ≡ false → n ≡ m → i ≡ n → i < capacity
below_capacity room same at_index = ground arith

module _ (caches : ICache (List ℕ)) (platform : Platform) where
  -- The list that `ensure_default_list` reports is the one that it leaves.
  Finds : Result (List ℕ × ℕ) × State caches platform → Type 0
  Finds (throw e, state) = Unit
  Finds (ok list, state) =
      (entry : StatusListEntryRecord) × (at_key default_status_list_id state.store.status_lists
        ≡ some entry)
      × (entry.next_index ≡ list.1)

  or_new_list-Finds :
      (now : ℕ) (found : Option StatusListEntryRecord) (state : State caches platform)
      → at_key default_status_list_id state.store.status_lists ≡ found
      → Finds (or_new_list caches platform now found state)
  unfolding Finds make_status_list create_status_list_row
  or_new_list-Finds now (some entry) state h = (entry, h, refl)
  or_new_list-Finds now none state h = (
    record {
      list_id = default_status_list_id;
      encoded_list = create_status_list platform.codec capacity;
      next_index = 0;
      updated_at = now;
    },
    at_key-put_self default_status_list_id _ state.store.status_lists,
    refl,
  )

  ensure_default_list-Finds :
      (now : ℕ) (state : State caches platform)
      → Finds (ensure_default_list caches platform now state)
  unfolding ensure_default_list find_status_list_by_id
  ensure_default_list-Finds now state = or_new_list-Finds now _ state refl

  -- What the rest of `issueVC` resolves to, when it does.
  store_issued-eq-ok :
      (stamp : Stamp) (params : IssueVcParams) (i : ℕ) (state after : State caches platform)
      (result : IssueVcResult)
      → store_issued caches platform stamp params i state ≡ (ok result, after)
      → (result.status_list_index ≡ i)
        × (sign_credential caches platform stamp (build_credential caches platform stamp params i)
            ≡ ok result.vc)
  unfolding store_issued create_vc
  store_issued-eq-ok stamp params i state after result h =
      let (vc, signed, h) =
        call-eq-ok
          (sign_credential caches platform stamp (build_credential caches platform stamp params i))
          state _ h in
      let (reconciled, middle, done, h) =
        continue-eq-ok (reconcile_active caches platform stamp.now vc params.revoke_existing _) _
          h in
      let same =
        ok-injective
          (ap (λ (outcome : Result IssueVcResult × State caches platform). outcome.0) h) in
      (
        sym (ap (λ (r : IssueVcResult). r.status_list_index) same),
        signed ∙ ap (λ (r : IssueVcResult). ok r.vc) same,
      )

  -- A credential that `issueVC` resolves to has passed its checks: the subject is registered or could be,
  -- the parameters fit its kind, its scopes have no problem and the signing key is that of the configured
  -- issuer. It is the signed form of the credential that was built with the index in the result, and that
  -- index is below 131072, the fixed capacity that the code tests for, whatever the length of the list.
  pub issue_vc-eq-ok :
      (stamp : Stamp) (params : IssueVcParams) (state after : State caches platform)
      (result : IssueVcResult)
      → issue_vc caches platform stamp params state ≡ (ok result, after)
      → (ensure_subject caches platform params.subject_did params.subject_type ≡ ok tt)
        × (check_kind params ≡ ok tt)
        × (check_scopes params ≡ ok tt)
        × (assert_issuer_signing_key_matches caches platform ≡ ok tt)
        × (sign_credential caches platform stamp
              (build_credential caches platform stamp params result.status_list_index)
            ≡ ok result.vc)
        × (result.status_list_index < capacity)
  unfolding issue_vc check_capacity Finds
  issue_vc-eq-ok stamp params state after result h =
      let (u, subject, h) =
        call-eq-ok (ensure_subject caches platform params.subject_did params.subject_type) state _
          h in
      let (v, kind, h) = call-eq-ok (check_kind params) state _ h in
      let (w, scopes, h) = call-eq-ok (check_scopes params) state _ h in
      let (list, middle, listed, h) =
        continue-eq-ok (ensure_default_list caches platform stamp.now state) _ h in
      let (room, h) = reject_if-eq-ok (leb capacity list.1) _ middle _ h in
      let (x, key, h) = call-eq-ok (assert_issuer_signing_key_matches caches platform) middle _ h in
      let (entry, finds, same) = subst Finds listed (ensure_default_list-Finds stamp.now state) in
      let claimed =
        claim_next_index_lem stamp.now default_status_list_id entry middle.store finds in
      let stored =
        subst
          (λ outcome.
            continue (put_back caches platform middle outcome)
              (λ claimed. store_issued caches platform stamp params claimed.1)
            ≡ (ok result, after))
          claimed h in
      let (at_index, signed) =
        store_issued-eq-ok stamp params entry.next_index _ after result stored in
      (
        subject,
        kind,
        scopes,
        key,
        subst
            (λ i.
              sign_credential caches platform stamp
                (build_credential caches platform stamp params i)
              ≡ ok result.vc)
            (sym at_index) signed,
        below_capacity room same at_index,
      )
