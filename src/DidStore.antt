-- ===== src/DidStore.antt =====
-- repositories/did.repository.ts and `InMemoryDidStorageDriver` of repositories/drivers/did.drivers.ts. The
-- clock is an argument of a call.
use helix_core.Prelude.{
  ℕ, String, Option, none, some, List, Bool, false, ◌===◌, find, at_key, put, values,
}
use helix_core.Errors.{plain}
use helix_core.Action.{Action, resolve, reject, read, write, ◌>>=◌, ◌>>◌}
use helix_core.DidDocument.{DidDocument}

-- `DIDRecord`
pub record DidRecord : Type 0 where
  pub id : String
  pub subject_type : String
  pub controller : String
  pub public_key : String
  pub public_key_multibase : Option String
  pub hedera_topic_id : Option String
  pub hedera_sequence_number : Option ℕ
  pub hedera_transaction_id : String
  pub did_document : DidDocument
  pub deactivated_at : Option ℕ
  pub created_at : ℕ
  pub updated_at : ℕ

-- `CreateDIDRecordParams`
pub record CreateDidRecordParams : Type 0 where
  pub id : String
  pub subject_type : String
  pub controller : String
  pub public_key : String
  pub public_key_multibase : Option String
  pub hedera_topic_id : Option String
  pub hedera_sequence_number : Option ℕ
  pub hedera_transaction_id : String
  pub did_document : DidDocument

-- `dids`
abbrev pub DidRows : Type 0
DidRows = List (String × DidRecord)

-- `createDid`
unfoldable pub create_did : ℕ → CreateDidRecordParams → Action DidRows DidRecord
create_did now params = do
  let row : DidRecord = record {
    id = params.id;
    subject_type = params.subject_type;
    controller = params.controller;
    public_key = params.public_key;
    public_key_multibase = params.public_key_multibase;
    hedera_topic_id = params.hedera_topic_id;
    hedera_sequence_number = params.hedera_sequence_number;
    hedera_transaction_id = params.hedera_transaction_id;
    did_document = params.did_document;
    deactivated_at = none;
    created_at = now;
    updated_at = now;
  }
  write (put row.id row)
  resolve row

-- `findDidById`
unfoldable pub find_did_by_id : String → Action DidRows (Option DidRecord)
find_did_by_id id = read (at_key id)

-- `findDidByPublicKey`
unfoldable pub find_did_by_public_key : String → Action DidRows (Option DidRecord)
find_did_by_public_key public_key =
    read (λ rows. find (λ (row : DidRecord). row.public_key === public_key) (values rows))

abbrev has_text_of : Option String → String → Bool
has_text_of none text = false
has_text_of (some own) text = own === text

-- `findByPublicKeyMultibase`
unfoldable pub find_by_public_key_multibase : String → Action DidRows (Option DidRecord)
find_by_public_key_multibase multibase = read (λ rows.
    find (λ (row : DidRecord). has_text_of row.public_key_multibase multibase) (values rows))

-- `if (!existing) throw …`, and the row that takes its place
abbrev replace_found :
    String → (DidRecord → DidRecord) → Option DidRecord → Action DidRows DidRecord
replace_found id change none = reject (plain "DID not found")
replace_found id change (some existing) = do
  write (put id (change existing))
  resolve (change existing)

-- `updateDidDocument`: the row of what it resolves to
unfoldable pub update_did_document : ℕ → String → DidDocument → Action DidRows DidRecord
update_did_document now id did_document = do
  existing ← find_did_by_id id
  replace_found id (λ row. record row { did_document = did_document; updated_at = now }) existing

-- `deactivateDid`
unfoldable pub deactivate_did : ℕ → String → ℕ → Action DidRows DidRecord
deactivate_did now id deactivated_at = do
  existing ← find_did_by_id id
  replace_found id (λ row. record row { deactivated_at = some deactivated_at; updated_at = now })
      existing
