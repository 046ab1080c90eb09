-- ===== src/DidDocument/Laws.antt =====
-- The multibase form of a key (core/crypto/keys.ts).
use helix_core.Prelude.{ℕ, ◌<◌, ◌≡◌, ap, List, ◌∷◌, All, inl, inr, arith}
use helix_core.Result.{ok, ◌>>=◌}
use helix_core.Base58.RoundTrip.{decode-encode}
use helix_core.DidDocument.{drop_prefix, multibase_to_public_key, public_key_to_multibase}

-- The multibase text of a key of bytes reads back as the key.
pub multibase_to_public_key-public_key_to_multibase :
    (key : List ℕ)
    → All (λ byte. byte < 256) key
    → multibase_to_public_key (public_key_to_multibase key) ≡ ok key
unfolding multibase_to_public_key public_key_to_multibase
multibase_to_public_key-public_key_to_multibase key bytes =
    ap (λ r. r >>= λ decoded. ok (drop_prefix decoded))
      (decode-encode (0xed ∷ 0x01 ∷ key) (omega arith, (omega arith, bytes))
        (inr (inl (omega arith))))
