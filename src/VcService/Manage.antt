-- ===== src/VcService/Manage.antt =====
-- services/vc/vc.service.ts: `revokeVC`, `renewVC`, and what the service reports of a stored credential.
use helix_core.Prelude.{
  ℕ, String, Option, none, some, List, [], ◌∷◌, map, Bool, false, not, ◌&&◌, ◌||◌, ltb, ◌===◌,
  if◌then◌else◌,
}
use helix_core.Text.{truthy}
use helix_core.Errors.{plain, vp_multiple_active_vc}
use helix_core.Result.{Result, ok, throw}
use helix_core.Action.{Action, resolve, reject, reject_if, call, ◌>>=◌, ◌>>◌}
use helix_core.Cache.{ICache}
use helix_core.Credential.{SignedVc, body}
use helix_core.VcStore.{
  JsDate, at, invalid_date, VcRecord, is_null, of_type, find_by_vc_id, find_active_by_identity,
  find_active_by_subject_did, mark_as_renewed,
}
use helix_core.VcStore.Listing.{not_after}
use helix_core.VcService.{
  Platform, Stamp, vc_revoked, vc_renewed, helix_error, State, on_store, audit,
}
use helix_core.VcService.Reconcile.{write_revocation}
use helix_core.VcService.Issue.{issue_vc}
use helix_core.VcService.Request.{IssueVcParams, IssueVcResult, iso_of}
use helix_core.Verifier.Host.{error}

-- `'active' | 'revoked' | 'expired'`
pub data VcStatus : Type 0 where
  is_good is_revoked is_expired : VcStatus

-- `VCDetails`
pub record VcDetails : Type 0 where
  pub vc_id : String
  pub vc : SignedVc
  pub status : VcStatus
  pub expires_at : Option String
  pub revoked_at : Option String
  pub renewed_by_vc_id : Option String

-- `record.expiresAt && record.expiresAt < now`
abbrev pub before : Option JsDate → ℕ → Bool
before none now = false
before (some (at t)) now = ltb t now
before (some invalid_date) now = false

-- the status in `getVC` and `getVCStatus`
unfoldable pub status_of : ℕ → VcRecord → VcStatus
status_of now row =
    if not (is_null row.revoked_at)
    then is_revoked
    else if before row.expires_at now
    then is_expired
    else is_good

-- the status in `findRecordByVcId` and `listVCs`
unfoldable pub record_status : ℕ → VcRecord → VcStatus
record_status now row =
    if not (is_null row.revoked_at)
    then is_revoked
    else if not_after row.expires_at now
    then is_expired
    else is_good

-- `findActiveByVcIdForSubject` of a row
unfoldable pub active_for_subject : ℕ → String → Option String → VcRecord → Option SignedVc
active_for_subject now subject_did vc_type row =
    if not (row.subject_did === subject_did)
      || not (is_null row.revoked_at)
      || not_after row.expires_at now
    then none
    else if truthy vc_type && not (of_type vc_type row.vc_json)
    then none
    else some row.vc_json

-- the last of a list, if it has one or none; `findActiveBySubjectDid` throws at more
abbrev at_most_one : List VcRecord → Result (Option SignedVc)
at_most_one [] = ok none
at_most_one (row ∷ []) = ok (some row.vc_json)
at_most_one (row ∷ other ∷ rows) = throw (error vp_multiple_active_vc [])

-- `RenewVCOptions`
pub record RenewVcOptions : Type 0 where
  pub privilege_scopes : Option (List String)
  pub expires_in_seconds : Option ℕ

abbrev either : Option (List String) → Option (List String) → Option (List String)
either none scopes = scopes
either (some overriding) scopes = some overriding

-- what `renewVC` hands to `issueVC`
unfoldable pub renewal : VcRecord → RenewVcOptions → IssueVcParams
renewal row overrides = record {
  subject_did = row.subject_did;
  subject_type = row.subject_type;
  privilege_scopes = either overrides.privilege_scopes row.privilege_scopes;
  agent_name = (body row.vc_json).subject.agent_name;
  user_id = (body row.vc_json).subject.user_id;
  expires_in_seconds = overrides.expires_in_seconds;
  expires_at = none;
  delegated_from = none;
  delegation_depth = none;
  max_delegation_depth = none;
  parent_vc_id = none;
  revoke_existing = false;
}

module _ (caches : ICache (List ℕ)) (platform : Platform) where
  -- `if (!record) throw new HelixError(VC_NOT_FOUND, …)`
  abbrev pub or_not_found : Option VcRecord → Action (State caches platform) VcRecord
  or_not_found none = reject (helix_error "VC_NOT_FOUND" "Credential not found" 404)
  or_not_found (some row) = resolve row

  unfoldable pub find_row : String → Action (State caches platform) VcRecord
  find_row vc_id = do row ← on_store caches platform (find_by_vc_id vc_id); or_not_found row

  -- `revokeVC`: the row of the revoked credential
  unfoldable pub revoke_vc : ℕ → String → Action (State caches platform) VcRecord
  revoke_vc now vc_id = do
    row ← find_row vc_id
    reject_if (not (is_null row.revoked_at))
        (helix_error "VC_ALREADY_REVOKED" "Credential already revoked" 409)
    updated ← write_revocation caches platform now row
    audit caches platform (vc_revoked vc_id)
    resolve updated

  -- `record.expiresAt?.toISOString() ?? null`
  abbrev pub iso_date : Option JsDate → Result (Option String)
  iso_date none = ok none
  iso_date (some (at t)) = ok (some (platform.iso t))
  iso_date (some invalid_date) = throw (plain "Invalid time value")

  -- `getVC`
  unfoldable pub get_vc : ℕ → String → Action (State caches platform) VcDetails
  get_vc now vc_id = do
    row ← find_row vc_id
    expires_at ← call (iso_date row.expires_at)
    resolve (record {
      vc_id = row.vc_id;
      vc = row.vc_json;
      status = status_of now row;
      expires_at = expires_at;
      revoked_at = iso_of platform.iso row.revoked_at;
      renewed_by_vc_id = row.renewed_by_vc_id;
    })

  -- `getVCStatus`
  unfoldable pub get_vc_status : ℕ → String → Action (State caches platform) VcStatus
  get_vc_status now vc_id = do row ← find_row vc_id; resolve (status_of now row)

  abbrev reported : ℕ → Option VcRecord → Option (SignedVc × VcStatus)
  reported now none = none
  reported now (some row) = some (row.vc_json, record_status now row)

  -- `findRecordByVcId`
  unfoldable pub find_record_by_vc_id :
      ℕ → String → Action (State caches platform) (Option (SignedVc × VcStatus))
  find_record_by_vc_id now vc_id = do
    row ← on_store caches platform (find_by_vc_id vc_id)
    resolve (reported now row)

  -- `findActiveBySubjectDid`
  unfoldable pub find_active_of_subject :
      ℕ → String → Option String → Action (State caches platform) (Option SignedVc)
  find_active_of_subject now subject_did vc_type = do
    rows ← on_store caches platform (find_active_by_subject_did now subject_did vc_type)
    call (at_most_one rows)

  -- `listActiveBySubjectDid`
  unfoldable pub list_active_by_subject_did :
      ℕ → String → Option String → Action (State caches platform) (List SignedVc)
  list_active_by_subject_did now subject_did vc_type = do
    rows ← on_store caches platform (find_active_by_subject_did now subject_did vc_type)
    resolve (map (λ (row : VcRecord). row.vc_json) rows)

  abbrev active_if_found : ℕ → String → Option String → Option VcRecord → Option SignedVc
  active_if_found now subject_did vc_type none = none
  active_if_found now subject_did vc_type (some row) =
      active_for_subject now subject_did vc_type row

  -- `findActiveByVcIdForSubject`
  unfoldable pub find_active_by_vc_id_for_subject :
      ℕ → String → String → Option String → Action (State caches platform) (Option SignedVc)
  find_active_by_vc_id_for_subject now vc_id subject_did vc_type = do
    row ← on_store caches platform (find_by_vc_id vc_id)
    resolve (active_if_found now subject_did vc_type row)

  -- `listActiveGrants`
  unfoldable pub list_active_grants :
      ℕ → String → String → String → Action (State caches platform) (List SignedVc)
  list_active_grants now agent_did service_did user_did = do
    rows ← on_store caches platform (
        find_active_by_identity now (record {
          vc_type = "DelegationGrantCredential";
          issuer_did = service_did;
          subject_did = agent_did;
          user_did = some user_did;
        }))
    resolve (map (λ (row : VcRecord). row.vc_json) rows)

  -- `renewVC`
  unfoldable pub renew_vc :
      Stamp → String → RenewVcOptions → Action (State caches platform) IssueVcResult
  renew_vc stamp vc_id overrides = do
    row ← find_row vc_id
    reject_if (not (is_null row.revoked_at))
        (helix_error "VC_ALREADY_REVOKED" "Cannot renew a revoked credential" 409)
    result ← issue_vc caches platform stamp (renewal row overrides)
    on_store caches platform (mark_as_renewed stamp.now vc_id result.vc_id)
    audit caches platform (vc_renewed vc_id result.vc_id)
    resolve result
