-- ===== src/VcStore.antt =====
-- repositories/vc.repository.ts and `InMemoryVcStorageDriver` of repositories/drivers/vc.drivers.ts: the
-- rows of issued credentials and of status lists. The clock is an argument of each call.
pub mod Listing
use Prim.Native.String.{◌++◌ as ◌<>◌}
use helix_core.Prelude.{
  ℕ, ◌+◌, String, Option, none, some, List, [], ◌∷◌, Bool, true, false, ◌&&◌, ltb, leb, ◌===◌,
  if◌then◌else◌, ◌||◌, includes, select, at_key, put, values,
}
use helix_core.Errors.{plain}
use helix_core.Action.{Action, resolve, reject, read, write, ◌>>=◌, ◌>>◌}
use helix_core.Credential.{SignedVc, body}
use helix_core.Verifier.Host.{JsNumber}

-- a `Date` that was made from a text: its `getTime()` may be NaN
pub data JsDate : Type 0 where
  at : ℕ → JsDate
  invalid_date : JsDate

-- `VCRecord`
pub record VcRecord : Type 0 where
  pub vc_id : String
  pub subject_did : String
  pub subject_type : String
  pub vc_json : SignedVc
  pub privilege_scopes : Option (List String)
  pub status_list_index : JsNumber
  pub expires_at : Option JsDate
  pub revoked_at : Option ℕ
  pub renewed_by_vc_id : Option String
  pub delegated_from : Option String
  pub delegation_depth : Option ℕ
  pub max_delegation_depth : Option ℕ
  pub parent_vc_id : Option String
  pub vc_type : Option String
  pub issuer_did : Option String
  pub user_did : Option String
  pub scope_key : Option String
  pub created_at : ℕ
  pub updated_at : ℕ

-- `VcIdentity`
pub record VcIdentity : Type 0 where
  pub vc_type : String
  pub issuer_did : String
  pub subject_did : String
  pub user_did : Option String

-- `StatusListEntryRecord`
pub record StatusListEntryRecord : Type 0 where
  pub list_id : String
  pub encoded_list : List ℕ
  pub next_index : ℕ
  pub updated_at : ℕ

-- `CreateVcParams`
pub record CreateVcParams : Type 0 where
  pub vc_id : String
  pub subject_did : String
  pub subject_type : String
  pub vc_json : SignedVc
  pub privilege_scopes : Option (List String)
  pub status_list_index : JsNumber
  pub expires_at : Option JsDate
  pub delegated_from : Option String
  pub delegation_depth : Option ℕ
  pub max_delegation_depth : Option ℕ
  pub parent_vc_id : Option String
  pub vc_type : Option String
  pub issuer_did : Option String
  pub user_did : Option String
  pub scope_key : Option String

-- the two maps of `InMemoryVcStorageDriver`
pub record VcStore : Type 0 where
  pub vcs : List (String × VcRecord)
  pub status_lists : List (String × StatusListEntryRecord)

-- the record that `createVc` makes
abbrev pub new_record : ℕ → CreateVcParams → VcRecord
new_record now params = record {
  vc_id = params.vc_id;
  subject_did = params.subject_did;
  subject_type = params.subject_type;
  vc_json = params.vc_json;
  privilege_scopes = params.privilege_scopes;
  status_list_index = params.status_list_index;
  expires_at = params.expires_at;
  revoked_at = none;
  renewed_by_vc_id = none;
  delegated_from = params.delegated_from;
  delegation_depth = params.delegation_depth;
  max_delegation_depth = params.max_delegation_depth;
  parent_vc_id = params.parent_vc_id;
  vc_type = params.vc_type;
  issuer_did = params.issuer_did;
  user_did = params.user_did;
  scope_key = params.scope_key;
  created_at = now;
  updated_at = now;
}

abbrev pub set_vc : String → VcRecord → VcStore → VcStore
set_vc key row store = record store { vcs = put key row store.vcs }

abbrev pub set_list : String → StatusListEntryRecord → VcStore → VcStore
set_list key entry store = record store { status_lists = put key entry store.status_lists }

-- `createVc`
unfoldable pub create_vc : ℕ → CreateVcParams → Action VcStore VcRecord
create_vc now params = do
  write (set_vc params.vc_id (new_record now params))
  resolve (new_record now params)

-- `findByVcId`
unfoldable pub find_by_vc_id : String → Action VcStore (Option VcRecord)
find_by_vc_id vc_id = read (λ (store : VcStore). at_key vc_id store.vcs)

-- `!r.revokedAt && (r.expiresAt === null || r.expiresAt.getTime() > now)`
abbrev pub not_past : Option JsDate → ℕ → Bool
not_past none now = true
not_past (some (at t)) now = ltb now t
not_past (some invalid_date) now = false

abbrev pub is_null {ℓ} : {A : Type ℓ} → Option A → Bool
is_null none = true
is_null (some a) = false

unfoldable pub is_active : ℕ → VcRecord → Bool
is_active now row = is_null row.revoked_at && not_past row.expires_at now

-- one step of a stable sort by `createdAt`, oldest first
insert_row : VcRecord → List VcRecord → List VcRecord
insert_row row [] = row ∷ []
insert_row row (other ∷ rows) =
    if leb row.created_at other.created_at then row ∷ other ∷ rows else other ∷ insert_row row rows

unfoldable pub sort_rows : List VcRecord → List VcRecord
unfolding insert_row
sort_rows [] = []
sort_rows (row ∷ rows) = insert_row row (sort_rows rows)

-- `activeSorted`
unfoldable pub active_sorted : ℕ → (VcRecord → Bool) → VcStore → List VcRecord
active_sorted now predicate store =
    sort_rows (select (λ row. predicate row && is_active now row) (values store.vcs))

-- `===` between strings that may be null
abbrev pub same_text : Option String → Option String → Bool
same_text none none = true
same_text (some s) (some t) = s === t
same_text s t = false

unfoldable pub has_identity : VcIdentity → VcRecord → Bool
has_identity identity row =
    row.subject_did === identity.subject_did
    && same_text row.vc_type (some identity.vc_type)
    && same_text row.issuer_did (some identity.issuer_did)
    && same_text row.user_did identity.user_did

-- `findActiveByIdentity`
unfoldable pub find_active_by_identity : ℕ → VcIdentity → Action VcStore (List VcRecord)
find_active_by_identity now identity = read (active_sorted now (has_identity identity))

unfoldable pub is_child : String → VcRecord → Bool
is_child parent_vc_id row = same_text row.parent_vc_id (some parent_vc_id)

-- `findActiveChildren`
unfoldable pub find_active_children : ℕ → String → Action VcStore (List VcRecord)
find_active_children now parent_vc_id = read (active_sorted now (is_child parent_vc_id))

-- `findActiveBySubjectDid` and `filterByType`; an empty `vcType` filters nothing
unfoldable pub of_type : Option String → SignedVc → Bool
of_type none vc = true
of_type (some type) vc = type === "" || includes (body vc).types type

unfoldable pub find_active_by_subject_did :
    ℕ → String → Option String → Action VcStore (List VcRecord)
find_active_by_subject_did now subject_did vc_type = read (λ store.
    select (λ (row : VcRecord). of_type vc_type row.vc_json)
      (active_sorted now (λ row. row.subject_did === subject_did) store))

-- `findStatusListById`
unfoldable pub find_status_list_by_id : String → Action VcStore (Option StatusListEntryRecord)
find_status_list_by_id list_id = read (λ (store : VcStore). at_key list_id store.status_lists)

-- `createStatusList`: an entry that is there is replaced, its index too
unfoldable pub create_status_list_row : ℕ → String → List ℕ → Action VcStore StatusListEntryRecord
create_status_list_row now list_id encoded_list = do
  let row : StatusListEntryRecord = record {
    list_id = list_id;
    encoded_list = encoded_list;
    next_index = 0;
    updated_at = now;
  }
  write (set_list list_id row)
  resolve row

-- `if (!x) throw new Error(…)`
abbrev pub or_fail {ℓ} : {A : Type ℓ} → String → Option A → Action VcStore A
or_fail message none = reject (plain message)
or_fail message (some a) = resolve a

-- `claimNextIndex`
unfoldable pub claim_next_index : ℕ → String → Action VcStore (StatusListEntryRecord × ℕ)
claim_next_index now list_id = do
  existing ← find_status_list_by_id list_id >>= or_fail (◌<>◌ "Status list not found: " list_id)
  let updated = record existing { next_index = existing.next_index + 1; updated_at = now }
  write (set_list list_id updated)
  resolve (updated, existing.next_index)

-- `revokeVc`: the list is written before the row is looked up
unfoldable pub revoke_vc_row : ℕ → String → String → List ℕ → Action VcStore VcRecord
revoke_vc_row now vc_id list_id new_encoded_list = do
  list ← find_status_list_by_id list_id >>= or_fail (◌<>◌ "Status list not found: " list_id)
  write (set_list list_id (record list { encoded_list = new_encoded_list; updated_at = now }))
  row ← find_by_vc_id vc_id >>= or_fail (◌<>◌ "VC not found: " vc_id)
  let updated = record row { revoked_at = some now; updated_at = now }
  write (set_vc vc_id updated)
  resolve updated

-- `markAsRenewed`
unfoldable pub mark_as_renewed : ℕ → String → String → Action VcStore VcRecord
mark_as_renewed now old_vc_id new_vc_id = do
  row ← find_by_vc_id old_vc_id >>= or_fail (◌<>◌ "VC not found: " old_vc_id)
  let updated = record row { renewed_by_vc_id = some new_vc_id; updated_at = now }
  write (set_vc old_vc_id updated)
  resolve updated
