-- ===== src/VcService.antt =====
-- services/vc/vc.service.ts: `VCService`. Its state is the rows of the repository, the cache of status
-- lists and the audit log; what it calls beside these is a `Platform`.
pub mod Reconcile
pub mod Request
pub mod Issue
pub mod Issued
pub mod Register
pub mod Manage
pub mod Listing
pub mod Allotment
pub mod Revocation
pub mod Rejections
pub mod Coherence
pub mod Steps
pub mod Reached
pub mod Race
pub mod Replacement
pub mod Statuses
pub mod Fixture
mod Tests
use Prim.Native.String.{◌++◌ as ◌<>◌}
use helix_core.Prelude.{
  ℕ, ◌+◌, String, Option, none, some, List, [], ◌∷◌, ◌++◌, Bool, true, false, leb, ◌===◌,
  if◌then◌else◌, at_key,
}
use helix_core.Errors.{Thrown, helix, coded, plain, undefined, code}
use helix_core.Result.{Result, ok, throw}
use helix_core.Action.{Action, resolve, reject, reject_if, call, read, write, continue, ◌>>=◌, ◌>>◌}
use helix_core.Cache.{ICache}
use helix_core.Credential.{Proof, VcBody, SignedVc, body}
use helix_core.DidDocument.{DidDocument}
use helix_core.StatusList.{Codec, Bit, create_status_list, set_bit}
use helix_core.Verifier.Host.{JsNumber}
use helix_core.VcStore.{
  VcRecord, StatusListEntryRecord, VcStore, or_fail, find_status_list_by_id, create_status_list_row,
  claim_next_index,
}

-- What the service is given: its configuration, the DID service, the signing key, and what the
-- verifier's `Host` also takes from outside.
pub record Platform : Type 0 where
  pub issuer_did : String
  pub api_base_url : String
  pub status_list_cache_ttl_seconds : ℕ
  pub codec : Codec
  -- `toISOString()`, `new Date(s).getTime()`, `Number(s)` and the decimal text of an index
  pub iso : ℕ → String
  pub date_ms : String → Option ℕ
  pub number_of : String → JsNumber
  pub index_text : ℕ → String
  -- the text of a list of code points
  pub text_of : List ℕ → String
  -- `signBytes(hash, signingKeyHex)`, `derivePublicKey(signingKeyHex)` and `hashCanonicalPayload`
  pub sign_bytes : List ℕ → Result (List ℕ)
  pub signing_public_key : Result (List ℕ)
  pub hash_vc : SignedVc → List ℕ
  pub ed25519_verify : List ℕ → List ℕ → List ℕ → Result Bool
  -- `didService.resolveDID`, `didService.registerResolvedDID` and core's `resolveDID`
  pub resolve_did : String → Result DidDocument
  pub register_resolved_did : String → DidDocument → String → Result (Unit {0})
  pub resolve_did_core : String → Result DidDocument

-- the events of the audit log, with the credential they are about
pub data AuditEvent : Type 0 where
  vc_issued vc_revoked vc_superseded consent_granted : String → AuditEvent
  vc_renewed : String → String → AuditEvent

-- What the service reads and writes.
pub record World (Cache : Type 0) : Type 0 where
  pub store : VcStore
  pub cache : Cache
  pub log : List AuditEvent

-- the clock and the random id of one call
pub record Stamp : Type 0 where
  pub now : ℕ
  pub cuid : String

-- `new HelixError(code, message, status)`
abbrev pub helix_error : String → String → ℕ → Thrown
helix_error code message status = coded code message status

-- `err instanceof HelixError && err.code === 'DID_NOT_FOUND'`
unfoldable pub is_did_not_found : Thrown → Bool
is_did_not_found (helix e) = code e.class === "DID_NOT_FOUND"
is_did_not_found (coded c message status) = c === "DID_NOT_FOUND"
is_did_not_found (plain message) = false
is_did_not_found undefined = false

-- `DEFAULT_STATUS_LIST_ID`
abbrev pub default_status_list_id : String
default_status_list_id = "helix-status-list-1"

-- the capacity that `issueVC` and `claimStatusListEntry` test for
abbrev pub capacity : ℕ
capacity = 131072

module _ (caches : ICache (List ℕ)) (platform : Platform) where
  abbrev pub State : Type 0
  State = World caches.Cache

  abbrev pub put_back {ℓ} : {Value : Type ℓ} → State → Result Value × VcStore → Result Value × State
  put_back state (outcome, store) = (outcome, record state { store = store })

  -- a call of the repository
  abbrev pub on_store {ℓ} : {Value : Type ℓ} → Action VcStore Value → Action State Value
  on_store action state = put_back state (action state.store)

  -- `statusListCache.delete`, `set` and `get`
  abbrev pub cache_delete : String → Action State (Unit {0})
  cache_delete key =
      write (λ (state : State). record state { cache = caches.delete key state.cache })

  abbrev pub cache_set : ℕ → String → List ℕ → Action State (Unit {0})
  cache_set now key list = write (λ (state : State). record state {
    cache = caches.set now key list platform.status_list_cache_ttl_seconds state.cache;
  })

  abbrev pub cache_get : ℕ → String → Action State (Option (List ℕ))
  cache_get now key state = (
    ok (caches.get now key state.cache).0,
    record state { cache = (caches.get now key state.cache).1 },
  )

  -- `audit.log`
  abbrev pub audit : AuditEvent → Action State (Unit {0})
  audit event = write (λ (state : State). record state { log = state.log ++ event ∷ [] })

  -- the URL of a status list
  abbrev pub status_list_url : String → String
  status_list_url list_id = ◌<>◌ platform.api_base_url (◌<>◌ "/v1/status-list/" list_id)

  -- `pointsAtDefaultList`, of a credential as an object
  unfoldable pub points_at_default_list : SignedVc → Bool
  points_at_default_list vc = elim (body vc).credential_status [
    | none ↦ false
    | some status ↦ status.status_list_credential === status_list_url default_status_list_id
  ]

  -- `createStatusList`: what it returns is built from the encoded list
  unfoldable pub make_status_list : ℕ → String → ℕ → Action State (List ℕ)
  make_status_list now list_id length = do
    let encoded_list = create_status_list platform.codec length
    on_store (create_status_list_row now list_id encoded_list)
    cache_set now list_id encoded_list
    resolve encoded_list

  abbrev pub or_new_list : ℕ → Option StatusListEntryRecord → Action State (List ℕ × ℕ)
  or_new_list now none = do
    encoded_list ← make_status_list now default_status_list_id capacity
    resolve (encoded_list, 0)
  or_new_list now (some list) = resolve (list.encoded_list, list.next_index)

  -- the first lines of `issueVC` step 3 and of `claimStatusListEntry`
  unfoldable pub ensure_default_list : ℕ → Action State (List ℕ × ℕ)
  ensure_default_list now = do
    list ← on_store (find_status_list_by_id default_status_list_id)
    or_new_list now list

  unfoldable pub check_capacity : ℕ → Action State (Unit {0})
  check_capacity next_index =
      reject_if (leb capacity next_index)
        (helix_error "STATUS_LIST_INDEX_EXHAUSTED" "Default status list is full" 503)

  -- `claimStatusListEntry`
  unfoldable pub claim_status_list_entry : ℕ → Action State (List ℕ × ℕ)
  claim_status_list_entry now = do
    list ← ensure_default_list now
    check_capacity list.1
    claimed ← on_store (claim_next_index now default_status_list_id)
    resolve (list.0, claimed.1)

  -- `getStatusList` after the repository has answered
  abbrev pub from_row : ℕ → String → Option StatusListEntryRecord → Action State (List ℕ)
  from_row now list_id none =
      reject (helix_error "STATUS_LIST_NOT_FOUND" "Status list not found" 404)
  from_row now list_id (some list) = do
    cache_set now list_id list.encoded_list
    resolve list.encoded_list

  -- and after the cache has: an empty text counts as no answer
  abbrev pub from_cache : ℕ → String → Option (List ℕ) → Action State (List ℕ)
  from_cache now list_id none = do
    from_row now list_id (← on_store (find_status_list_by_id list_id))
  from_cache now list_id (some []) = do
    from_row now list_id (← on_store (find_status_list_by_id list_id))
  from_cache now list_id (some (c ∷ cached)) = resolve (c ∷ cached)

  -- `getStatusList`: the encoded list that the credential is built from
  unfoldable pub get_status_list : ℕ → String → Action State (List ℕ)
  get_status_list now list_id = do cached ← cache_get now list_id; from_cache now list_id cached
