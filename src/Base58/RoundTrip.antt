-- ===== src/Base58/RoundTrip.antt =====
-- Decoding the base58 text of bytes gives the bytes back when some byte is not 0, and two bytes more
-- when there is none.
use mathlib.Core.List.{reverse, reverse-reverse, map-append}
use helix_core.Prelude.{
  ℕ, ◌<◌, ◌≡◌, refl, List, [], ◌∷◌, ◌++◌, map, arith, ap, sym, ◌∙◌, inl, inr, All, All-append, some,
  suc, ◌+◌, ◌*◌, replicate, subst, zero, ◌≢◌, ◌⊎◌, Bool-cases, ◌==◌,
}
use helix_core.Result.{Result, ok}
use helix_core.Base58.{
  digit_char, index_of, leading, encode_loop, decode_loop, encode, decode, finish,
}
use helix_core.Base58.Digits.{value, IsCanonical, IsCanonical-unique}
use helix_core.Base58.Loops.{
  number, number-reverse, IsNumeral, encode_loop_lem, push_digits, push_digits_lem,
  decode_loop_chars,
}
use helix_core.Base58.Leading.{
  index_of-digit_char, leading-digit_char, leading-chars, strip, leading-append-strip, number-strip,
  number-leading, leading_of_StartsPositive, reverse-StartsPositive, IsCanonical-below,
  reverse-strip-IsCanonical, All-reverse,
}

encode_lem :
    (b : ℕ) (bs : List ℕ)
    → encode (b ∷ bs)
      ≡ leading 0 (digit_char 0) (b ∷ bs)
        ++ map digit_char (reverse (encode_loop (0 ∷ []) (b ∷ bs)))
unfolding encode
encode_lem b bs = refl

decode_lem :
    (c : ℕ) (cs : List ℕ)
    → decode (c ∷ cs) ≡ finish (leading (digit_char 0) 0 (c ∷ cs)) (decode_loop (0 ∷ []) (c ∷ cs))
unfolding decode
decode_lem c cs = refl

-- The digits that the text of `bs` stands for, highest first.
abbrev digits : List ℕ → List ℕ
digits bs = leading 0 0 bs ++ reverse (encode_loop (0 ∷ []) bs)

encode-digits : (b : ℕ) (bs : List ℕ) → encode (b ∷ bs) ≡ map digit_char (digits (b ∷ bs))
encode-digits b bs = encode_lem b bs ∙ rw (map-append, leading-chars)

finish_ok : (zeroes bytes : List ℕ) → finish zeroes (ok bytes) ≡ ok (zeroes ++ reverse bytes)
unfolding finish
finish_ok zeroes bytes = refl

indexed : (ds : List ℕ) → All (λ e. e < 58) ds → All (λ d. index_of (digit_char d) ≡ some d) ds
indexed [] h = tt
indexed (d ∷ ds) h = (index_of-digit_char d h.0, indexed ds h.1)

-- Decoding the text of digits, whatever they are.
decode_digits :
    (ds : List ℕ)
    → ds ≢ []
    → All (λ e. e < 58) ds
    → decode (map digit_char ds) ≡ ok (leading 0 0 ds ++ reverse (push_digits (0 ∷ []) ds))
decode_digits [] ne h = absurd (ne refl)
decode_digits (d ∷ ds) ne h =
    decode_lem (digit_char d) (map digit_char ds)
    ∙ rw (leading-digit_char (d ∷ ds) h, decode_loop_chars (0 ∷ []) (d ∷ ds) (indexed (d ∷ ds) h))
        (finish_ok _ _)

-- A numeral above 0 is not the single digit 0.
IsNumeral-IsCanonical :
    (base : ℕ) (ds : List ℕ) → IsNumeral base ds → 0 < value base ds → IsCanonical base ds
IsNumeral-IsCanonical base ds (inl e) p =
    absurd (omega (arith, subst (λ xs. 0 < value base xs) e p))
IsNumeral-IsCanonical base ds (inr h) p = h.0

IsNumeral-zero : (base : ℕ) (ds : List ℕ) → IsNumeral base ds → value base ds ≡ 0 → ds ≡ 0 ∷ []
IsNumeral-zero base ds (inl e) z = e
IsNumeral-zero base ds (inr h) z = absurd (omega arith)

leading-below : (bs : List ℕ) → All (λ e. e < 58) (leading 0 0 bs)
unfolding leading
leading-below [] = tt
leading-below (b ∷ bs) = elim (Bool-cases (b == 0)) [
  | inl e ↦ rw e (omega arith, leading-below bs)
  | inr e ↦ rw e tt
]

leading-append :
    (bs ds : List ℕ) → leading 0 0 ds ≡ [] → leading 0 0 (leading 0 0 bs ++ ds) ≡ leading 0 0 bs
unfolding leading
leading-append [] ds h = h
leading-append (b ∷ bs) ds h = elim (Bool-cases (b == 0)) [
  | inl e ↦ rw e (ap (◌∷◌ 0) (leading-append bs ds h))
  | inr e ↦ rw e h
]

-- Some byte is not 0.
abbrev pub HasNonzero : List ℕ → Type 0
HasNonzero [] = ⊥
HasNonzero (b ∷ bs) = (0 < b) ⊎ HasNonzero bs

number_pos : (n : ℕ) (bs : List ℕ) → 0 < n → 0 < number 256 n bs
number_pos n [] p = p
number_pos n (b ∷ bs) p = number_pos (n * 256 + b) bs (omega arith)

HasNonzero-number : (n : ℕ) (bs : List ℕ) → HasNonzero bs → 0 < number 256 n bs
HasNonzero-number n [] h = absurd h
HasNonzero-number n (b ∷ bs) (inl p) = number_pos (n * 256 + b) bs (omega arith)
HasNonzero-number n (b ∷ bs) (inr h) = HasNonzero-number (n * 256 + b) bs h

module _ (bs : List ℕ) (bytes : All (λ b. b < 256) bs) (pos : 0 < number 256 0 bs) where
  text_value : value 58 (encode_loop (0 ∷ []) bs) ≡ number 256 0 bs
  text_value = (encode_loop_lem bs).1

  text-IsCanonical : IsCanonical 58 (encode_loop (0 ∷ []) bs)
  text-IsCanonical = IsNumeral-IsCanonical 58 _ (encode_loop_lem bs).0 (rw text_value pos)

  number-digits : number 58 0 (digits bs) ≡ number 256 0 bs
  number-digits = rw (number-leading, number-reverse) text_value

  digits-ne-nil : digits bs ≢ []
  digits-ne-nil e =
      absurd (omega (arith, subst (λ n. 0 < n) (sym number-digits ∙ ap (number 58 0) e) pos))

  digits-below : All (λ e. e < 58) (digits bs)
  digits-below =
      All-append _ (leading 0 0 bs) _ (leading-below bs)
        (All-reverse 58 _ (IsCanonical-below 58 _ text-IsCanonical))

  leading-digits : leading 0 0 (digits bs) ≡ leading 0 0 bs
  leading-digits = leading-append bs _ (
      leading_of_StartsPositive _
        (reverse-StartsPositive 58 _ text-IsCanonical (rw text_value pos)))

  decoded_value : value 256 (push_digits (0 ∷ []) (digits bs)) ≡ number 256 0 bs
  decoded_value = (push_digits_lem (digits bs)).1 ∙ number-digits

  -- The decoder's bytes are the given ones after the leading zeros, lowest first.
  decoded : push_digits (0 ∷ []) (digits bs) ≡ reverse (strip bs)
  decoded =
      IsCanonical-unique 256 (omega arith) _ _
        (IsNumeral-IsCanonical 256 _ (push_digits_lem (digits bs)).0 (rw decoded_value pos))
        (reverse-strip-IsCanonical bs bytes)
        (decoded_value
          ∙ sym (number-strip 256 bs)
          ∙ ap (number 256 0) (sym (reverse-reverse (strip bs)))
          ∙ number-reverse 256 (reverse (strip bs)))

  decode-digits_chars : decode (map digit_char (digits bs)) ≡ ok bs
  decode-digits_chars =
      decode_digits (digits bs) digits-ne-nil digits-below
      ∙ rw (leading-digits, decoded, reverse-reverse, leading-append-strip)

-- Decoding the base58 text of a byte string gives the byte string back, if it is empty or holds a byte
-- that is not 0.
pub decode-encode :
    (bs : List ℕ) → All (λ b. b < 256) bs → (bs ≡ []) ⊎ HasNonzero bs → decode (encode bs) ≡ ok bs
unfolding encode decode
decode-encode [] h k = refl
decode-encode (b ∷ bs) h (inl e) = cc
decode-encode (b ∷ bs) h (inr k) =
    ap decode (encode-digits b bs) ∙ decode-digits_chars (b ∷ bs) h (HasNonzero-number 0 (b ∷ bs) k)

abbrev pub zeros : ℕ → List ℕ
zeros n = replicate n 0

number-zeros : (n : ℕ) → number 256 0 (zeros n) ≡ 0
number-zeros zero = refl
number-zeros (suc n) = ap (λ k. number 256 k (zeros n)) (omega arith) ∙ number-zeros n

leading-zeros : (n : ℕ) → leading 0 0 (zeros n) ≡ zeros n
unfolding leading
leading-zeros zero = refl
leading-zeros (suc n) = ap (◌∷◌ 0) (leading-zeros n)

zeros_snoc : (n : ℕ) → zeros n ++ 0 ∷ [] ≡ zeros (suc n)
zeros_snoc zero = refl
zeros_snoc (suc n) = ap (◌∷◌ 0) (zeros_snoc n)

digits-zeros : (n : ℕ) → digits (zeros n) ≡ zeros (suc n)
digits-zeros n =
    let (k, v) = encode_loop_lem (zeros n) in
    rw (IsNumeral-zero 58 _ k (v ∙ number-zeros n), leading-zeros n) (zeros_snoc n)

zeros_below : (n : ℕ) → All (λ e. e < 58) (zeros n)
zeros_below zero = tt
zeros_below (suc n) = (omega arith, zeros_below n)

number58_zeros : (n : ℕ) → number 58 0 (zeros n) ≡ 0
number58_zeros zero = refl
number58_zeros (suc n) = ap (λ k. number 58 k (zeros n)) (omega arith) ∙ number58_zeros n

pushed_zeros : (n : ℕ) → push_digits (0 ∷ []) (zeros n) ≡ 0 ∷ []
pushed_zeros n =
    let (k, v) = push_digits_lem (zeros n) in IsNumeral-zero 256 _ k (v ∙ number58_zeros n)

zeros-ne-nil : (n : ℕ) → zeros (suc n) ≢ []
zeros-ne-nil n h = cc

-- A non-empty byte string of zeros comes back with two zeros more.
pub decode-encode-zeros : (n : ℕ) → decode (encode (zeros (suc n))) ≡ ok (zeros (suc n + 2))
decode-encode-zeros n =
    ap decode (encode-digits 0 (zeros n) ∙ ap (map digit_char) (digits-zeros (suc n)))
    ∙ decode_digits (zeros (suc (suc n))) (zeros-ne-nil (suc n)) (zeros_below (suc (suc n)))
    ∙ rw (leading-zeros (suc (suc n)), pushed_zeros (suc (suc n)), zeros_snoc (suc (suc n)))
        (same_length (suc (suc (suc n))) (suc n + 2) (omega arith))
  where
    same_length : (a b : ℕ) → a ≡ b → ◌≡◌ {A = Result (List ℕ)} (ok (zeros a)) (ok (zeros b))
    same_length a b e = ap (λ k. ok (zeros k)) e
