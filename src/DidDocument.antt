-- ===== src/DidDocument.antt =====
-- core/crypto/did.ts and keys.ts: DID documents and the key that a document holds. A key is the list
-- of its bytes; the source passes it as a hexadecimal string of the same bytes.
pub mod Laws
pub mod Build
pub mod Services
use helix_core.Prelude.{ℕ, String, Option, none, some, List, [], ◌∷◌, Bool, ◌===◌, find}
use helix_core.Text.{codes, after_z}
use helix_core.Errors.{plain}
use helix_core.Result.{Result, ok, throw, ◌>>=◌}
use helix_core.Base58

pub record VerificationMethod : Type 0 where
  pub id : String
  pub type : String
  pub controller : String
  pub public_key_multibase : String

pub record ServiceEndpoint : Type 0 where
  pub id : String
  pub type : String
  pub service_endpoint : String

pub record DidDocument : Type 0 where
  pub context : List String
  pub id : String
  pub controller : String
  pub verification_method : List VerificationMethod
  pub authentication : List String
  pub assertion_method : List String
  pub service : Option (List ServiceEndpoint)

-- `decoded.slice(2)`
abbrev pub drop_prefix : List ℕ → List ℕ
drop_prefix [] = []
drop_prefix (a ∷ []) = []
drop_prefix (a ∷ b ∷ bytes) = bytes

-- the copy of base58 in keys.ts gives the same bytes here as that of vp.ts, since the prefix is dropped, also of
-- the empty text; the text of its error names the character
multibase_key : Option (List ℕ) → Result (List ℕ)
multibase_key none = throw (plain "Only base58btc multibase values are supported")
multibase_key (some text) = do ok (drop_prefix (← Base58.decode text))

-- `multibaseToPublicKeyHex`
unfoldable pub multibase_to_public_key : List ℕ → Result (List ℕ)
unfolding multibase_key
multibase_to_public_key multibase = multibase_key (after_z multibase)

-- `publicKeyToMultibase`
unfoldable pub public_key_to_multibase : List ℕ → List ℕ
public_key_to_multibase key = b'z' ∷ Base58.encode (0xed ∷ 0x01 ∷ key)

abbrev is_ed25519 : VerificationMethod → Bool
is_ed25519 vm = vm.type === "Ed25519VerificationKey2020"

-- `extractPublicKeyFromDIDDocument`
unfoldable pub extract_public_key : DidDocument → Result (List ℕ)
extract_public_key document = elim (find is_ed25519 document.verification_method) [
  | none ↦ throw (plain "DID document contains no Ed25519VerificationKey2020 verification method")
  | some method ↦ multibase_to_public_key (codes method.public_key_multibase)
]
