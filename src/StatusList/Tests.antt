-- ===== src/StatusList/Tests.antt =====
-- Runs of the status list, over a codec whose gzip does nothing and whose base64 writes a letter a byte.
use helix_core.Prelude.{
  ℕ, ◌+◌, ◌-◌, ◌≡◌, ◌≢◌, refl, ap, ◌∙◌, List, [], ◌∷◌, map, select, not, ◌==◌, some, All, arith,
  Bool, true,
}
use helix_core.Errors.{plain}
use helix_core.Result.{ok, throw}
use helix_core.StatusList.{
  Codec, bit_1, set_bit, get_bit, base64url_encode, base64url_decode, read_buffer, write_buffer,
  to_url, from_url,
}
use helix_core.StatusList.Laws.{
  base64url_decode-encode, IsList, IsWritten, set_bit-IsWritten, bit_out_of_bounds,
}

abbrev letter : ℕ → ℕ
letter byte = byte + 192

pub letters_standard : (buffer : List ℕ) → All (λ c. (c ≢ b'-') × (c ≢ b'_')) (map letter buffer)
letters_standard [] = tt
letters_standard (b ∷ bs) = ((λ e. omega arith, λ e. omega arith), letters_standard bs)

select-All : (q : ℕ → Bool) (xs : List ℕ) → All (λ x. q x ≡ true) xs → select q xs ≡ xs
select-All q [] h = refl
select-All q (x ∷ xs) h = rw (h.0, select) (ap (λ ys. x ∷ ys) (select-All q xs h.1))

no_padding : (buffer : List ℕ) → All (λ c. not (c == b'=') ≡ true) (map letter buffer)
no_padding [] = tt
no_padding (b ∷ bs) = (ground arith, no_padding bs)

letters_back : (buffer : List ℕ) → map (λ c. c - 192) (map letter buffer) ≡ buffer
letters_back [] = refl
letters_back (b ∷ bs) = cons b ((b + 192) - 192) (omega arith) (letters_back bs)
  where
    cons : (b c : ℕ) {xs ys : List ℕ} → c ≡ b → xs ≡ ys → c ∷ xs ≡ b ∷ ys
    cons b c e f = cc

pub letters_unpadded :
    (buffer : List ℕ)
    → map (λ c. c - 192) (select (λ c. not (c == b'=')) (map letter buffer)) ≡ buffer
letters_unpadded buffer =
    ap (map (λ c. c - 192))
      (select-All (λ c. not (c == b'=')) (map letter buffer) (no_padding buffer))
    ∙ letters_back buffer

abbrev pub letters : Codec
letters = record {
  gzip = λ buffer. buffer;
  gunzip = λ buffer. some buffer;
  to_base64 = λ buffer. map letter buffer;
  from_base64 = λ text. map (λ c. c - 192) text;
  gunzip-gzip = λ buffer. refl;
  standard = letters_standard;
  unpadded = letters_unpadded;
}

abbrev two_bytes : List ℕ
two_bytes = 192 ∷ 192 ∷ []

two_bytes-IsList : IsList letters two_bytes (0 ∷ 0 ∷ [])
unfolding read_buffer base64url_decode from_url
two_bytes-IsList = record { reads = refl; bytes = (omega arith, (omega arith, tt)) }

set_run : set_bit letters two_bytes 9 bit_1 ≡ ok (192 ∷ 256 ∷ [])
unfolding set_bit read_buffer base64url_decode write_buffer base64url_encode to_url from_url
set_run = refl

base64url_decode-encode_example :
    base64url_decode letters (base64url_encode letters (1 ∷ 2 ∷ [])) ≡ 1 ∷ 2 ∷ []
base64url_decode-encode_example = base64url_decode-encode letters (1 ∷ 2 ∷ [])

set_bit-IsWritten_example :
    (result : List ℕ) × (set_bit letters two_bytes 9 bit_1 ≡ ok result)
    × IsWritten letters two_bytes 9 bit_1 result
set_bit-IsWritten_example =
    set_bit-IsWritten letters two_bytes (0 ∷ 0 ∷ []) 9 bit_1 two_bytes-IsList (omega arith)

bit_out_of_bounds_example :
    (set_bit letters two_bytes 16 bit_1 ≡ throw (plain "Status list index out of bounds"))
    × (get_bit letters two_bytes 16 ≡ throw (plain "Status list index out of bounds"))
bit_out_of_bounds_example =
    bit_out_of_bounds letters two_bytes (0 ∷ 0 ∷ []) 16 bit_1 two_bytes-IsList (omega arith)
