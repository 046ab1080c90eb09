-- ===== src/VcService/Issue.antt =====
-- services/vc/vc.service.ts: `issueVC` and what it calls.
use Prim.Native.String.{◌++◌ as ◌<>◌}
use helix_core.Prelude.{ℕ, String, none, some, List, [], ◌∷◌, ◌===◌, if◌then◌else◌}
use helix_core.Result.{Result, ok, throw}
use helix_core.Action.{Action, resolve, call, ◌>>=◌, ◌>>◌}
use helix_core.Base58
use helix_core.Cache.{ICache}
use helix_core.Credential.{CredentialStatus, CredentialSubject, VcBody, SignedVc, body}
use helix_core.DidDocument.{DidDocument}
use helix_core.Verifier.Host.{index}
use helix_core.VcLookup.{vc_lookup_columns}
use helix_core.VcStore.{CreateVcParams, create_vc, claim_next_index}
use helix_core.VcService.{
  Platform, Stamp, vc_issued, helix_error, is_did_not_found, default_status_list_id, State,
  on_store, audit, status_list_url, ensure_default_list, check_capacity,
}
use helix_core.VcService.Reconcile.{reconcile_active}
use helix_core.VcService.Request.{
  IssueVcParams, IssueVcResult, extract_ed25519_public_key, same_key, unless_empty, expiry, date,
  iso_of, check_kind, check_scopes,
}

module _ (caches : ICache (List ℕ)) (platform : Platform) where
  abbrev register_if_resolved : String → String → Result DidDocument → Result (Unit {0})
  register_if_resolved did subject_type (throw e) =
      throw (helix_error "VC_SUBJECT_DID_NOT_FOUND" "Subject DID not found" 404)
  register_if_resolved did subject_type (ok document) =
      platform.register_resolved_did did document subject_type

  -- step 1 of `issueVC`, the same lines of `registerExternalVC`, and `ensureSubjectDidRegistered`
  unfoldable pub ensure_subject : String → String → Result (Unit {0})
  ensure_subject did subject_type = elim (platform.resolve_did did) [
    | ok document ↦ ok tt
    | throw e ↦
        if is_did_not_found e
        then register_if_resolved did subject_type (platform.resolve_did_core did)
        else throw e
  ]

  abbrev compare_keys : Result (List ℕ) → Result (List ℕ) → Result (Unit {0})
  compare_keys (throw e) key = throw e
  compare_keys (ok expected) (throw e) = throw e
  compare_keys (ok expected) (ok key) =
      if same_key key expected
      then ok tt
      else throw (
          helix_error "ISSUER_SIGNING_KEY_MISMATCH"
            "Configured issuer DID public key does not match HELIX_SIGNING_KEY" 500)

  -- `assertIssuerSigningKeyMatches`
  unfoldable pub assert_issuer_signing_key_matches : Result (Unit {0})
  assert_issuer_signing_key_matches = elim (platform.resolve_did platform.issuer_did) [
    | throw e ↦
        throw (helix_error "VC_ISSUER_NOT_FOUND" "Configured issuer DID could not be resolved" 500)
    | ok document ↦ compare_keys platform.signing_public_key (extract_ed25519_public_key document)
  ]

  unfoldable pub status_entry : ℕ → CredentialStatus
  status_entry claimed_index = record {
    id =
        ◌<>◌ (status_list_url caches platform default_status_list_id)
          (◌<>◌ "#" (platform.index_text claimed_index));
    type = "BitstringStatusListEntry";
    status_purpose = "revocation";
    status_list_index = platform.index_text claimed_index;
    status_list_credential = status_list_url caches platform default_status_list_id;
  }

  unfoldable pub agent_subject : IssueVcParams → CredentialSubject
  agent_subject params = record {
    id = params.subject_did;
    type = "HelixAgent";
    privilege_scopes = params.privilege_scopes;
    agent_name = params.agent_name;
    delegated_from = unless_empty params.delegated_from;
    delegation_depth = params.delegation_depth;
    max_delegation_depth = params.max_delegation_depth;
    parent_vc_id = unless_empty params.parent_vc_id;
    user_id = none;
    user_did = none;
    scopes = none;
    durability = none;
    service_did = none;
    allow_delegation = none;
  }

  unfoldable pub user_subject : IssueVcParams → CredentialSubject
  user_subject params = record {
    id = params.subject_did;
    type = "HelixUser";
    privilege_scopes = none;
    agent_name = none;
    delegated_from = none;
    delegation_depth = none;
    max_delegation_depth = none;
    parent_vc_id = none;
    user_id = params.user_id;
    user_did = none;
    scopes = none;
    durability = none;
    service_did = none;
    allow_delegation = none;
  }

  -- the credential of step 4
  unfoldable pub build_credential : Stamp → IssueVcParams → ℕ → VcBody
  build_credential stamp params claimed_index = record {
    context = "https://www.w3.org/ns/credentials/v2" ∷ "https://helixid.io/contexts/v1" ∷ [];
    id = ◌<>◌ "vc:helix:" stamp.cuid;
    types =
        "VerifiableCredential"
        ∷ (if params.subject_type === "agent"
            then "HelixAgentCredential"
            else "HelixUserCredential")
        ∷ [];
    issuer = platform.issuer_did;
    valid_from = platform.iso stamp.now;
    valid_until = iso_of platform.iso (expiry stamp.now params);
    credential_status = some (status_entry claimed_index);
    proof = none;
    subject = if params.subject_type === "agent" then agent_subject params else user_subject params;
    target_service = none;
  }

  abbrev with_proof : Stamp → VcBody → Result (List ℕ) → Result SignedVc
  with_proof stamp credential (throw e) = throw e
  with_proof stamp credential (ok signature) = ok (
      SignedVc.plain (record credential {
        proof = some (record {
          type = "Ed25519Signature2020";
          created = platform.iso stamp.now;
          verification_method = ◌<>◌ platform.issuer_did "#key-1";
          proof_purpose = "assertionMethod";
          proof_value = platform.text_of (Base58.encode signature);
        });
      }))

  -- `signCredential`
  unfoldable pub sign_credential : Stamp → VcBody → Result SignedVc
  sign_credential stamp credential =
      with_proof stamp credential
        (platform.sign_bytes (platform.hash_vc (SignedVc.plain credential)))

  -- the row of step 6
  unfoldable pub issued_row : ℕ → IssueVcParams → SignedVc → ℕ → CreateVcParams
  issued_row now params vc claimed_index =
      let columns = vc_lookup_columns vc in
      record {
        vc_id = (body vc).id;
        subject_did = params.subject_did;
        subject_type = params.subject_type;
        vc_json = vc;
        privilege_scopes = params.privilege_scopes;
        status_list_index = index claimed_index;
        expires_at = date (expiry now params);
        delegated_from = params.delegated_from;
        delegation_depth = params.delegation_depth;
        max_delegation_depth = params.max_delegation_depth;
        parent_vc_id = params.parent_vc_id;
        vc_type = columns.vc_type;
        issuer_did = columns.issuer_did;
        user_did = columns.user_did;
        scope_key = columns.scope_key;
      }

  -- steps 4 to 7 of `issueVC`
  unfoldable pub store_issued :
      Stamp → IssueVcParams → ℕ → Action (State caches platform) IssueVcResult
  store_issued stamp params claimed_index = do
    vc ← call (sign_credential stamp (build_credential stamp params claimed_index))
    on_store caches platform (create_vc stamp.now (issued_row stamp.now params vc claimed_index))
    audit caches platform (vc_issued (body vc).id)
    reconciled ← reconcile_active caches platform stamp.now vc params.revoke_existing
    resolve (record {
      vc_id = (body vc).id;
      vc = vc;
      status_list_index = claimed_index;
      expires_at = iso_of platform.iso (expiry stamp.now params);
      reconciled = reconciled;
    })

  -- `issueVC`
  unfoldable pub issue_vc : Stamp → IssueVcParams → Action (State caches platform) IssueVcResult
  issue_vc stamp params = do
    call (ensure_subject params.subject_did params.subject_type)
    call (check_kind params)
    call (check_scopes params)
    list ← ensure_default_list caches platform stamp.now
    check_capacity caches platform list.1
    call assert_issuer_signing_key_matches
    claimed ← on_store caches platform (claim_next_index stamp.now default_status_list_id)
    store_issued stamp params claimed.1
