-- ===== src/Base58/Loops.antt =====
-- What the loops of `base58btcEncode` and `base58btcDecode` compute: the number that the digits read
-- so far write, in canonical digits or as the single digit 0.
use mathlib.Core.List.{reverse, reverse-cons}
use native.Mathlib.Nat.{mod-lt, mul-le-mul_left}
use helix_core.Prelude.{
  ℕ, zero, suc, ◌+◌, ◌*◌, ◌/◌, ◌<◌, ◌≡◌, refl, List, [], ◌∷◌, ◌++◌, map, some, arith, ap, ◌∙◌, ◌⊎◌,
  inl, inr, All,
}
use helix_core.Result.{ok}
use helix_core.Base58.{mul_add, digit_char, index_of, encode_loop, decode_loop}
use helix_core.Base58.Digits.{value, IsCanonical, value-mul_add, mul_add-IsCanonical}

-- The number that digits write, highest first, after a number that was read before them.
abbrev pub number : ℕ → ℕ → List ℕ → ℕ
number base n [] = n
number base n (d ∷ ds) = number base (n * base + d) ds

pub number-append :
    (base n : ℕ) (xs ys : List ℕ) → number base n (xs ++ ys) ≡ number base (number base n xs) ys
number-append base n [] ys = refl
number-append base n (x ∷ xs) ys = number-append base (n * base + x) xs ys

pub number-reverse : (base : ℕ) (ds : List ℕ) → number base 0 (reverse ds) ≡ value base ds
number-reverse base [] = refl
number-reverse base (d ∷ ds) =
    rw (reverse-cons, number-append, number-reverse base ds) (omega arith)

-- Either the digit 0 alone, or canonical digits of a number above 0.
abbrev pub IsNumeral : ℕ → List ℕ → Type 0
IsNumeral base ds = (ds ≡ 0 ∷ []) ⊎ (IsCanonical base ds × (0 < value base ds))

mul_add_zero-IsNumeral :
    (base mult c : ℕ)
    → 1 < base
    → 0 < mult
    → mul_add base mult (0 ∷ []) 0 ≡ 0 ∷ []
    → IsNumeral base (mul_add base mult (0 ∷ []) c)
unfolding mul_add
mul_add_zero-IsNumeral base mult zero big m z = inl z
mul_add_zero-IsNumeral base mult (suc c) big m z =
    let positive : 0 < value base (mul_add base mult (0 ∷ []) (suc c)) =
      omega (arith, value-mul_add base big mult (0 ∷ []) (suc c)) in
    let x = 0 * mult + suc c in
    inr (
      (mod-lt x (omega arith), positive, mul_add-IsCanonical base big mult [] (x / base) m tt),
      positive,
    )

pub mul_add-IsNumeral :
    (base mult c : ℕ) (ds : List ℕ)
    → 1 < base
    → 0 < mult
    → mul_add base mult (0 ∷ []) 0 ≡ 0 ∷ []
    → IsNumeral base ds
    → IsNumeral base (mul_add base mult ds c)
mul_add-IsNumeral base mult c ds big m z (inl e) = rw e (mul_add_zero-IsNumeral base mult c big m z)
mul_add-IsNumeral base mult c ds big m z (inr (k, p)) = inr (
  mul_add-IsCanonical base big mult ds c m k,
  omega (arith, value-mul_add base big mult ds c, mul-le-mul_left (value base ds) m),
)

encode_loop-IsNumeral : (ds bytes : List ℕ) → IsNumeral 58 ds → IsNumeral 58 (encode_loop ds bytes)
unfolding encode_loop
encode_loop-IsNumeral ds [] h = h
encode_loop-IsNumeral ds (b ∷ bytes) h =
    encode_loop-IsNumeral (mul_add 58 256 ds b) bytes
      (mul_add-IsNumeral 58 256 b ds (omega arith) (omega arith) zero_step h)
  where
    zero_step : mul_add 58 256 (0 ∷ []) 0 ≡ 0 ∷ []
    zero_step = refl

value-encode_loop :
    (ds bytes : List ℕ) → value 58 (encode_loop ds bytes) ≡ number 256 (value 58 ds) bytes
unfolding encode_loop
value-encode_loop ds [] = refl
value-encode_loop ds (b ∷ bytes) =
    value-encode_loop (mul_add 58 256 ds b) bytes
    ∙ ap (λ n. number 256 n bytes) (value-mul_add 58 (omega arith) 256 ds b)

-- The digits that the encoder's loop ends with.
pub encode_loop_lem :
    (bytes : List ℕ)
    → IsNumeral 58 (encode_loop (0 ∷ []) bytes)
      × (value 58 (encode_loop (0 ∷ []) bytes) ≡ number 256 0 bytes)
encode_loop_lem bytes =
    (encode_loop-IsNumeral (0 ∷ []) bytes (inl refl), value-encode_loop (0 ∷ []) bytes)

-- `decode_loop` over the characters of digits, as a loop over the digits.
pub push_digits : List ℕ → List ℕ → List ℕ
push_digits bytes [] = bytes
push_digits bytes (d ∷ ds) = push_digits (mul_add 256 58 bytes d) ds

pub decode_loop_chars :
    (bytes ds : List ℕ)
    → All (λ d. index_of (digit_char d) ≡ some d) ds
    → decode_loop bytes (map digit_char ds) ≡ ok (push_digits bytes ds)
unfolding decode_loop push_digits
decode_loop_chars bytes [] h = refl
decode_loop_chars bytes (d ∷ ds) h =
    ground (arith, h.0, decode_loop_chars (mul_add 256 58 bytes d) ds h.1)

push_digits-IsNumeral :
    (bytes ds : List ℕ) → IsNumeral 256 bytes → IsNumeral 256 (push_digits bytes ds)
unfolding push_digits mul_add
push_digits-IsNumeral bytes [] h = h
push_digits-IsNumeral bytes (d ∷ ds) h =
    push_digits-IsNumeral (mul_add 256 58 bytes d) ds
      (mul_add-IsNumeral 256 58 d bytes (omega arith) (omega arith) zero_step h)
  where
    zero_step : mul_add 256 58 (0 ∷ []) 0 ≡ 0 ∷ []
    zero_step = refl

value-push_digits :
    (bytes ds : List ℕ) → value 256 (push_digits bytes ds) ≡ number 58 (value 256 bytes) ds
unfolding push_digits
value-push_digits bytes [] = refl
value-push_digits bytes (d ∷ ds) =
    value-push_digits (mul_add 256 58 bytes d) ds
    ∙ ap (λ n. number 58 n ds) (value-mul_add 256 (omega arith) 58 bytes d)

-- The bytes that the decoder's loop ends with.
pub push_digits_lem :
    (ds : List ℕ)
    → IsNumeral 256 (push_digits (0 ∷ []) ds)
      × (value 256 (push_digits (0 ∷ []) ds) ≡ number 58 0 ds)
push_digits_lem ds = (push_digits-IsNumeral (0 ∷ []) ds (inl refl), value-push_digits (0 ∷ []) ds)
