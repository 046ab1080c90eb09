-- ===== src/VcService/Request.antt =====
-- services/vc/vc.service.ts: what `issueVC` is asked for and the checks that need nothing else;
-- services/did/publicKey.ts.
use Prim.Native.String.{◌++◌ as ◌<>◌}
use helix_core.Prelude.{
  ℕ, zero, suc, ◌+◌, ◌*◌, String, Option, none, some, List, [], ◌∷◌, Bool, true, false, not, ◌&&◌,
  ◌||◌, ◌==◌, ◌===◌, if◌then◌else◌, find,
}
use helix_core.Text.{codes, truthy}
use helix_core.Result.{Result, ok, throw}
use helix_core.Scopes.{find_scope_problem}
use helix_core.Credential.{SignedVc}
use helix_core.DidDocument.{DidDocument, VerificationMethod, multibase_to_public_key}
use helix_core.VcStore.{JsDate, at}
use helix_core.VcService.{helix_error}
use helix_core.VcService.Reconcile.{ReconcileResult}

-- `IssueVCParams`; an explicit `expiresAt` of `null` is `some none`
pub record IssueVcParams : Type 0 where
  pub subject_did : String
  pub subject_type : String
  pub privilege_scopes : Option (List String)
  pub agent_name : Option String
  pub user_id : Option String
  pub expires_in_seconds : Option ℕ
  pub expires_at : Option (Option ℕ)
  pub delegated_from : Option String
  pub delegation_depth : Option ℕ
  pub max_delegation_depth : Option ℕ
  pub parent_vc_id : Option String
  pub revoke_existing : Bool

-- `IssueVCResult`
pub record IssueVcResult : Type 0 where
  pub vc_id : String
  pub vc : SignedVc
  pub status_list_index : ℕ
  pub expires_at : Option String
  pub reconciled : ReconcileResult

starts_with : List ℕ → List ℕ → Bool
starts_with [] text = true
starts_with (c ∷ cs) [] = false
starts_with (c ∷ cs) (d ∷ ds) = c == d && starts_with cs ds

-- `text.includes(part)`
pub contains : List ℕ → List ℕ → Bool
unfolding starts_with
contains part [] = starts_with part []
contains part (c ∷ text) = starts_with part (c ∷ text) || contains part text

-- `extractEd25519PublicKeyHexFromDIDDocument`, of a document whose methods have `publicKeyMultibase`
unfoldable pub extract_ed25519_public_key : DidDocument → Result (List ℕ)
unfolding contains
extract_ed25519_public_key document =
    elim (find (λ (m : VerificationMethod). contains (codes "Ed25519") (codes m.type))
      document.verification_method) [
        | none ↦ throw (
            helix_error "VC_ISSUER_NOT_FOUND"
              "Issuer DID document does not contain an Ed25519 verification method" 500)
        | some method ↦ multibase_to_public_key (codes method.public_key_multibase)
      ]

abbrev pub same_key : List ℕ → List ℕ → Bool
same_key [] [] = true
same_key [] (d ∷ ds) = false
same_key (c ∷ cs) [] = false
same_key (c ∷ cs) (d ∷ ds) = c == d && same_key cs ds

abbrev pub or_empty : Option (List String) → List String
or_empty none = []
or_empty (some scopes) = scopes

abbrev pub has_any : Option (List String) → Bool
has_any none = false
has_any (some []) = false
has_any (some (s ∷ ss)) = true

abbrev pub is_array : Option (List String) → Bool
is_array none = false
is_array (some scopes) = true

-- `text ? { field: text } : {}`
abbrev pub unless_empty : Option String → Option String
unless_empty text = if truthy text then text else none

-- `expiresInSeconds || 7776000`
abbrev pub seconds_or_default : Option ℕ → ℕ
seconds_or_default none = 7776000
seconds_or_default (some zero) = 7776000
seconds_or_default (some (suc seconds)) = suc seconds

-- the instant at which a new credential expires
unfoldable pub expiry : ℕ → IssueVcParams → Option ℕ
expiry now params = elim params.expires_at [
  | none ↦ some (now + seconds_or_default params.expires_in_seconds * 1000)
  | some explicit ↦ explicit
]

abbrev pub date : Option ℕ → Option JsDate
date none = none
date (some t) = some (at t)

abbrev pub iso_of : (ℕ → String) → Option ℕ → Option String
iso_of iso none = none
iso_of iso (some t) = some (iso t)

-- step 2 of `issueVC`, up to the scopes
unfoldable pub check_kind : IssueVcParams → Result (Unit {0})
check_kind params =
    if params.subject_type === "agent"
      && (not (is_array params.privilege_scopes) || not (truthy params.agent_name))
    then throw
        (helix_error "VALIDATION_ERROR" "Agent VCs require privilegeScopes and agentName" 400)
    else if params.subject_type === "user"
        && (not (truthy params.user_id) || has_any params.privilege_scopes)
    then throw (
        helix_error "VALIDATION_ERROR"
          "User VCs require userId and must not include privilegeScopes" 400)
    else ok tt

unfoldable pub check_scopes : IssueVcParams → Result (Unit {0})
check_scopes params = elim (find_scope_problem (or_empty params.privilege_scopes)) [
  | none ↦ ok tt
  | some problem ↦
      throw (helix_error "VC_INVALID_PRIVILEGE_SCOPE" (◌<>◌ "Invalid scopes: " problem) 400)
]
