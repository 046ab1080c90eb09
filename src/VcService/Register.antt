-- ===== src/VcService/Register.antt =====
-- services/vc/vc.service.ts: `registerSignedVC`, `registerExternalVC` and `registerIssuedGrant`.
use Prim.Native.String.{◌++◌ as ◌<>◌}
use helix_core.Prelude.{
  ℕ, String, Option, none, some, List, Bool, true, false, not, leb, if◌then◌else◌,
}
use helix_core.Text.{truthy}
use helix_core.Result.{Result, ok, throw, throw_if}
use helix_core.Action.{Action, resolve, call, ◌>>=◌, ◌>>◌}
use helix_core.Cache.{ICache}
use helix_core.Credential.{Proof, CredentialStatus, SignedVc, body}
use helix_core.DidDocument.{DidDocument}
use helix_core.Proof.{verify_ed25519_proof}
use helix_core.Verifier.Host.{JsNumber, index, negative, not_integer}
use helix_core.VcLookup.{vc_lookup_columns}
use helix_core.VcStore.{
  JsDate, at, invalid_date, VcRecord, CreateVcParams, find_by_vc_id, create_vc,
}
use helix_core.VcService.{
  Platform, consent_granted, helix_error, State, on_store, audit, points_at_default_list,
}
use helix_core.VcService.Reconcile.{ReconcileResult, reconcile_active}
use helix_core.VcService.Issue.{ensure_subject}

-- `Number.isInteger(index) ? index : 0`
unfoldable pub integer_or_zero : JsNumber → JsNumber
integer_or_zero (index i) = index i
integer_or_zero negative = negative
integer_or_zero not_integer = index 0

-- `new Date(text)`, given its instant
abbrev date_or_invalid : Option ℕ → JsDate
date_or_invalid none = invalid_date
date_or_invalid (some t) = at t

-- `validUntil ? new Date(validUntil) : null`, given the instant of the text
abbrev pub date_of : (String → Option ℕ) → Option String → Option JsDate
date_of date_ms none = none
date_of date_ms (some String.[]) = none
date_of date_ms (some (String.◌∷◌ c s)) = some (date_or_invalid (date_ms (String.◌∷◌ c s)))

-- `subject.privilegeScopes ?? subject.scopes`
abbrev pub own_or : Option (List String) → Option (List String) → Option (List String)
own_or none scopes = scopes
own_or (some own) scopes = some own

-- the row of a credential that was signed elsewhere; what the calls fill in differently is handed in
unfoldable pub registered_row :
    SignedVc → Option (List String) → JsNumber → Option JsDate → CreateVcParams
registered_row vc privilege_scopes status_list_index expires_at =
    let columns = vc_lookup_columns vc in
    record {
      vc_id = (body vc).id;
      subject_did = (body vc).subject.id;
      subject_type = "agent";
      vc_json = vc;
      privilege_scopes = privilege_scopes;
      status_list_index = status_list_index;
      expires_at = expires_at;
      delegated_from = none;
      delegation_depth = none;
      max_delegation_depth = none;
      parent_vc_id = none;
      vc_type = columns.vc_type;
      issuer_did = columns.issuer_did;
      user_did = columns.user_did;
      scope_key = columns.scope_key;
    }

-- `{ vcId, alreadyRegistered, ...reconciled }`
pub record ExternalResult : Type 0 where
  pub vc_id : String
  pub already_registered : Bool
  pub reconciled : Option ReconcileResult

module _ (caches : ICache (List ℕ)) (platform : Platform) where
  abbrev claimed_index : Option CredentialStatus → JsNumber
  claimed_index none = not_integer
  claimed_index (some status) = platform.number_of status.status_list_index

  -- the index that `registerSignedVC` stores
  unfoldable pub own_index : SignedVc → JsNumber
  own_index vc =
      if points_at_default_list caches platform vc
      then integer_or_zero (claimed_index (body vc).credential_status)
      else index 0

  -- `registerSignedVC`
  unfoldable pub register_signed_vc :
      ℕ → SignedVc → Bool → Action (State caches platform) ReconcileResult
  register_signed_vc now vc revoke_existing = do
    let subject = (body vc).subject
    let row =
        registered_row vc subject.privilege_scopes (own_index vc)
          (date_of platform.date_ms (body vc).valid_until)
    on_store caches platform (
        create_vc now (record row {
          delegated_from = subject.delegated_from;
          delegation_depth = subject.delegation_depth;
          max_delegation_depth = subject.max_delegation_depth;
          parent_vc_id = subject.parent_vc_id;
        }))
    reconcile_active caches platform now vc revoke_existing

  -- `!proof?.proofValue`
  abbrev has_proof_value : Option Proof → Bool
  has_proof_value none = false
  has_proof_value (some proof) = truthy (some proof.proof_value)

  abbrev check_against : SignedVc → Result DidDocument → Result (Unit {0})
  check_against vc (throw e) = throw (
      helix_error "VC_ISSUER_NOT_FOUND"
        (◌<>◌ "Issuer DID " (◌<>◌ (body vc).issuer " could not be resolved")) 400)
  check_against vc (ok document) =
      elim (verify_ed25519_proof platform.ed25519_verify (platform.hash_vc vc) (body vc).proof
        document) [
          | throw e ↦ throw e
          | ok valid ↦ throw_if (not valid) (
              helix_error "VC_SIGNATURE_INVALID" "VC proof does not verify against its issuer DID"
                400)
        ]

  -- the proof of an external credential
  unfoldable pub check_external_proof : SignedVc → Result (Unit {0})
  check_external_proof vc =
      if has_proof_value (body vc).proof
      then check_against vc (platform.resolve_did_core (body vc).issuer)
      else throw (helix_error "VALIDATION_ERROR" "VC carries no proof to verify" 400)

  abbrev check_date : ℕ → Option JsDate → Result (Option JsDate)
  check_date now none = ok none
  check_date now (some invalid_date) =
      throw (helix_error "VALIDATION_ERROR" "VC has no usable validUntil" 400)
  check_date now (some (at t)) =
      if leb t now
      then throw (helix_error "VC_EXPIRED" "Cannot register an already-expired VC" 400)
      else ok (some (at t))

  -- its expiry
  unfoldable pub external_expiry : ℕ → SignedVc → Result (Option JsDate)
  external_expiry now vc = check_date now (date_of platform.date_ms (body vc).valid_until)

  -- `registerExternalVC` once no row has the id
  unfoldable pub register_new : ℕ → SignedVc → Bool → Action (State caches platform) ExternalResult
  register_new now vc revoke_existing = do
    call (check_external_proof vc)
    expires_at ← call (external_expiry now vc)
    call (ensure_subject caches platform (body vc).subject.id "agent")
    on_store caches platform (
        create_vc now (
          registered_row vc (own_or (body vc).subject.privilege_scopes (body vc).subject.scopes)
            (index 0) expires_at))
    audit caches platform (consent_granted (body vc).id)
    reconciled ← reconcile_active caches platform now vc revoke_existing
    resolve
        (record { vc_id = (body vc).id; already_registered = false; reconciled = some reconciled })

  abbrev unless_registered :
      ℕ → SignedVc → Bool → Option VcRecord → Action (State caches platform) ExternalResult
  unless_registered now vc revoke_existing (some row) =
      resolve (record { vc_id = (body vc).id; already_registered = true; reconciled = none })
  unless_registered now vc revoke_existing none = register_new now vc revoke_existing

  -- `registerExternalVC`
  unfoldable pub register_external_vc :
      ℕ → SignedVc → Bool → Action (State caches platform) ExternalResult
  register_external_vc now vc revoke_existing = do
    existing ← on_store caches platform (find_by_vc_id (body vc).id)
    unless_registered now vc revoke_existing existing

  -- `Number(vc.credentialStatus?.statusListIndex ?? 0)`
  abbrev index_or_zero : Option CredentialStatus → JsNumber
  index_or_zero none = index 0
  index_or_zero (some status) = platform.number_of status.status_list_index

  -- `registerIssuedGrant`
  unfoldable pub register_issued_grant :
      ℕ → SignedVc → Bool → Action (State caches platform) ReconcileResult
  register_issued_grant now vc revoke_existing = do
    call (ensure_subject caches platform (body vc).subject.id "agent")
    on_store caches platform (
        create_vc now (
          registered_row vc (body vc).subject.scopes
            (integer_or_zero (index_or_zero (body vc).credential_status))
            (date_of platform.date_ms (body vc).valid_until)))
    audit caches platform (consent_granted (body vc).id)
    reconcile_active caches platform now vc revoke_existing
