-- ===== src/DidResolver/Key.antt =====
-- core/did-resolver.ts: `resolveDidKey`, which reads the document off the DID itself.
use Prim.Native.String.{◌++◌ as ◌<>◌}
use helix_core.Prelude.{
  ℕ, zero, suc, String, Option, none, some, List, [], ◌∷◌, Bool, false, ◌&&◌, ◌==◌, length,
  if◌then◌else◌,
}
use helix_core.Text.{codes, after_z}
use helix_core.Errors.{validation}
use helix_core.Result.{Result, ok, throw, ◌>>=◌}
use helix_core.Base58
use helix_core.DidDocument.{DidDocument, drop_prefix}
use helix_core.DidDocument.Build.{build_did_document}
use helix_core.Verifier.Host.{error}

-- `did.slice('did:key:'.length)`
abbrev pub slice_from : ℕ → List ℕ → List ℕ
slice_from zero s = s
slice_from (suc n) [] = []
slice_from (suc n) (c ∷ s) = slice_from n s

-- the two bytes of the multicodec prefix, and 34 bytes in all
abbrev pub is_ed25519_key : List ℕ → Bool
is_ed25519_key [] = false
is_ed25519_key (a ∷ []) = false
is_ed25519_key (a ∷ b ∷ key) = a == 0xed && b == 0x01 && length (a ∷ b ∷ key) == 34

-- what is made of the decoded fingerprint
unfoldable pub key_document : (List ℕ → String) → String → List ℕ → Result DidDocument
key_document text_of did decoded =
    if is_ed25519_key decoded
    then ok (build_did_document text_of did (drop_prefix decoded) [])
    else throw (error validation (◌<>◌ "Only Ed25519 did:key documents are supported: " did ∷ []))

abbrev pub of_fingerprint : (List ℕ → String) → String → Option (List ℕ) → Result DidDocument
of_fingerprint text_of did none =
    throw (error validation (◌<>◌ "Invalid did:key fingerprint: " did ∷ []))
of_fingerprint text_of did (some text) = Base58.decode text >>= key_document text_of did

-- `resolveDidKey`
unfoldable pub resolve_did_key : (List ℕ → String) → String → Result DidDocument
unfolding key_document
resolve_did_key text_of did = of_fingerprint text_of did (after_z (slice_from 8 (codes did)))
