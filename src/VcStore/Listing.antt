-- ===== src/VcStore/Listing.antt =====
-- repositories/drivers/vc.drivers.ts: `listVcs` and `findMany` of the driver in memory, newest rows first.
use Prim.Native.Nat.{ℕ, zero, suc}
use helix_core.Prelude.{
  String, Option, none, some, List, [], ◌∷◌, Bool, true, false, not, ◌&&◌, leb, ◌===◌,
  if◌then◌else◌, select, values,
}
use helix_core.Text.{truthy}
use helix_core.Action.{Action, read}
use helix_core.VcStore.{JsDate, at, invalid_date, VcRecord, VcStore, is_null, same_text, is_active}

-- one step of a stable sort by `createdAt`, newest first
insert_newest : VcRecord → List VcRecord → List VcRecord
insert_newest row [] = row ∷ []
insert_newest row (other ∷ rows) =
    if leb other.created_at row.created_at
    then row ∷ other ∷ rows
    else other ∷ insert_newest row rows

unfoldable pub newest_first : List VcRecord → List VcRecord
unfolding insert_newest
newest_first [] = []
newest_first (row ∷ rows) = insert_newest row (newest_first rows)

-- `.slice(0, limit)`
abbrev pub first_rows {ℓ} : {A : Type ℓ} → ℕ → List A → List A
first_rows zero rows = []
first_rows (suc n) [] = []
first_rows (suc n) (row ∷ rows) = row ∷ first_rows n rows

-- `filter ? field === filter : true`
abbrev pub matches : Option String → Option String → Bool
matches filter field = if truthy filter then same_text field filter else true

-- `record.expiresAt !== null && record.expiresAt.getTime() <= now`
abbrev pub not_after : Option JsDate → ℕ → Bool
not_after none now = false
not_after (some (at t)) now = leb t now
not_after (some invalid_date) now = false

-- `matchesStatus`, of a text that is one of the three statuses when it is there
unfoldable pub matches_status : ℕ → Option String → VcRecord → Bool
matches_status now none row = true
matches_status now (some status) row =
    if status === ""
    then true
    else if status === "revoked"
    then not (is_null row.revoked_at)
    else if status === "expired"
    then is_null row.revoked_at && not_after row.expires_at now
    else is_active now row

-- `listVcs`
unfoldable pub list_rows : ℕ → Option String → Option String → ℕ → Action VcStore (List VcRecord)
list_rows now subject_did status limit = read (λ (store : VcStore). first_rows limit (
    newest_first (
      select (matches_status now status) (
        select (λ (row : VcRecord). matches subject_did (some row.subject_did))
          (values store.vcs)))))

-- `findMany`
unfoldable pub find_many : Option String → Option String → Action VcStore (List VcRecord)
find_many subject_did issuer_did = read (λ (store : VcStore). newest_first (
    select (λ (row : VcRecord). matches issuer_did row.issuer_did)
      (select (λ (row : VcRecord). matches subject_did (some row.subject_did)) (values store.vcs))))
