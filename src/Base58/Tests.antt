-- ===== src/Base58/Tests.antt =====
-- Runs of the base58 codec.
use helix_core.Prelude.{◌≡◌, refl, [], ◌∷◌, arith, inr, inl}
use helix_core.Text.{codes}
use helix_core.Result.{ok}
use helix_core.Base58.{encode, decode}
use helix_core.Base58.RoundTrip.{decode-encode}

encode_run : encode (0 ∷ 5 ∷ 255 ∷ []) ≡ codes "1TU"
unfolding encode
encode_run = refl

decode_run : decode (codes "1TU") ≡ ok (0 ∷ 5 ∷ 255 ∷ [])
unfolding decode
decode_run = refl

decode-encode_example : decode (encode (0 ∷ 5 ∷ 255 ∷ [])) ≡ ok (0 ∷ 5 ∷ 255 ∷ [])
decode-encode_example =
    decode-encode (0 ∷ 5 ∷ 255 ∷ []) (omega arith) (inr (inr (inl (omega arith))))
