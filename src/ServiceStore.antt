-- ===== src/ServiceStore.antt =====
-- repositories/service.repository.ts and `InMemoryServiceStorageDriver` of
-- repositories/drivers/service.drivers.ts. The clock is an argument of a call. Rows are values: the model
-- does not follow a row that was handed out earlier.
use helix_core.Prelude.{
  ℕ, String, Option, none, some, List, [], ◌∷◌, ◌===◌, leb, if◌then◌else◌, find, at_key, put,
  values,
}
use helix_core.Action.{Action, resolve, read, write, ◌>>◌}

-- `ServiceRecord`
pub record ServiceRecord : Type 0 where
  pub id : String
  pub did : String
  pub name : String
  pub domain : String
  pub required_scopes : List String
  pub description : Option String
  pub framework : Option String
  pub created_at : ℕ
  pub revoked_at : Option ℕ

-- `ServiceCreateData`
pub record ServiceCreateData : Type 0 where
  pub id : String
  pub did : String
  pub name : String
  pub domain : String
  pub required_scopes : List String
  pub description : Option String
  pub framework : Option String

-- `rows`
abbrev pub ServiceRows : Type 0
ServiceRows = List (String × ServiceRecord)

-- `create`
unfoldable pub create_service : ℕ → ServiceCreateData → Action ServiceRows ServiceRecord
create_service now fields = do
  let row : ServiceRecord = record {
    id = fields.id;
    did = fields.did;
    name = fields.name;
    domain = fields.domain;
    required_scopes = fields.required_scopes;
    description = fields.description;
    framework = fields.framework;
    created_at = now;
    revoked_at = none;
  }
  write (put row.id row)
  resolve row

-- `findById`, `findByDid` and `findByName`
unfoldable pub find_service_by_id : String → Action ServiceRows (Option ServiceRecord)
find_service_by_id id = read (at_key id)

unfoldable pub find_service_by_did : String → Action ServiceRows (Option ServiceRecord)
find_service_by_did did =
    read (λ rows. find (λ (row : ServiceRecord). row.did === did) (values rows))

unfoldable pub find_service_by_name : String → Action ServiceRows (Option ServiceRecord)
find_service_by_name name =
    read (λ rows. find (λ (row : ServiceRecord). row.name === name) (values rows))

-- one step of a stable sort by `createdAt`, newest first
insert_service : ServiceRecord → List ServiceRecord → List ServiceRecord
insert_service row [] = row ∷ []
insert_service row (other ∷ rows) =
    if leb other.created_at row.created_at
    then row ∷ other ∷ rows
    else other ∷ insert_service row rows

unfoldable pub sort_services : List ServiceRecord → List ServiceRecord
unfolding insert_service
sort_services [] = []
sort_services (row ∷ rows) = insert_service row (sort_services rows)

-- `list`
unfoldable pub list_services : Action ServiceRows (List ServiceRecord)
list_services = read (λ rows. sort_services (values rows))

-- `if (row && !row.revokedAt) row.revokedAt = new Date()`
abbrev revoke_row : ℕ → String → Option ServiceRecord → ServiceRows → ServiceRows
revoke_row now id none rows = rows
revoke_row now id (some row) rows = elim row.revoked_at [
  | some t ↦ rows
  | none ↦ put id (record row { revoked_at = some now }) rows
]

-- `revoke`
unfoldable pub revoke_service : ℕ → String → Action ServiceRows (Unit {0})
revoke_service now id = write (λ rows. revoke_row now id (at_key id rows) rows)
