-- ===== src/KeyStore.antt =====
-- repositories/did-key.repository.ts and `InMemoryDidKeyStorageDriver` of
-- repositories/drivers/did-key.drivers.ts: the keys in custody. The clock and the random id are arguments of a
-- call.
use helix_core.Prelude.{ℕ, String, Option, List, at_key, put}
use helix_core.Action.{Action, resolve, read, write, ◌>>◌}

-- `EncryptedKeyMaterial`
pub record EncryptedKey : Type 0 where
  pub encrypted_private_key : String
  pub iv : String
  pub auth_tag : String
  pub algorithm : String

-- `DidKeyRecord`
pub record DidKeyRecord : Type 0 where
  pub id : String
  pub did : String
  pub subject_type : String
  pub encrypted : EncryptedKey
  pub created_at : ℕ

-- `keys`
abbrev pub KeyRows : Type 0
KeyRows = List (String × DidKeyRecord)

-- `create`
unfoldable pub create_key :
    ℕ → String → String → String → EncryptedKey → Action KeyRows DidKeyRecord
create_key now id did subject_type encrypted = do
  let row : DidKeyRecord = record {
    id = id;
    did = did;
    subject_type = subject_type;
    encrypted = encrypted;
    created_at = now;
  }
  write (put row.did row)
  resolve row

-- `findByDid`
unfoldable pub find_key_by_did : String → Action KeyRows (Option DidKeyRecord)
find_key_by_did did = read (at_key did)
