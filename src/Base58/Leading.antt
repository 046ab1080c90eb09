-- ===== src/Base58/Leading.antt =====
-- Leading zeros and the digits that follow them, and the alphabet as a bijection on the digits.
use mathlib.Core.List.{reverse, reverse-cons}
use native.Mathlib.Nat.{one-le-mul}
use helix_core.Prelude.{
  ℕ, ◌+◌, ◌*◌, ◌<◌, ◌≡◌, refl, List, [], ◌∷◌, ◌++◌, map, Option, none, some, arith, ap, sym, ◌∙◌,
  inl, inr, All, All-append, Bool, true, false, ◌==◌, Bool-cases, ==→eq, all_below, all_below_sound,
  if◌then◌else◌,
}
use helix_core.Base58.{digit_char, index_of, leading}
use helix_core.Base58.Digits.{value, IsCanonical}
use helix_core.Base58.Loops.{number}

-- Every digit's character is found at the digit, and only the digit 0 has the character of 0.
found : Option ℕ → ℕ → Bool
found none d = false
found (some i) d = i == d

found→eq : (o : Option ℕ) (d : ℕ) → found o d ≡ true → o ≡ some d
unfolding found
found→eq none d h = cc
found→eq (some i) d h = ground arith

comes_back : ℕ → Bool
unfolding found index_of digit_char
comes_back d = found (index_of (digit_char d)) d

table : all_below 58 comes_back ≡ true
unfolding all_below comes_back
table = refl

comes_back_lem : (d : ℕ) → comes_back d ≡ found (index_of (digit_char d)) d
unfolding comes_back
comes_back_lem d = refl

pub index_of-digit_char : (d : ℕ) → d < 58 → index_of (digit_char d) ≡ some d
index_of-digit_char d h =
    found→eq _ d (sym (comes_back_lem d) ∙ all_below_sound 58 comes_back d table h)

digit_char-eq-zero : (d : ℕ) → d < 58 → digit_char d ≡ digit_char 0 → d ≡ 0
digit_char-eq-zero d h e =
    cc (ap index_of e, index_of-digit_char d h, index_of-digit_char 0 (omega arith))

pub leading-digit_char :
    (ds : List ℕ)
    → All (λ d. d < 58) ds
    → leading (digit_char 0) 0 (map digit_char ds) ≡ leading 0 0 ds
unfolding leading
leading-digit_char [] h = refl
leading-digit_char (d ∷ ds) h = ground (arith, leading-digit_char ds h.1, digit_char-eq-zero d h.0)

pub leading-chars :
    (bytes : List ℕ) → leading 0 (digit_char 0) bytes ≡ map digit_char (leading 0 0 bytes)
unfolding leading
leading-chars [] = refl
leading-chars (b ∷ bytes) = ground (arith, leading-chars bytes)

-- What follows the leading zeros.
pub strip : List ℕ → List ℕ
strip [] = []
strip (b ∷ bs) = let more = strip bs in if b == 0 then more else b ∷ bs

pub leading-append-strip : (bs : List ℕ) → leading 0 0 bs ++ strip bs ≡ bs
unfolding leading strip
leading-append-strip [] = refl
leading-append-strip (b ∷ bs) = ground (arith, leading-append-strip bs)

pub number-strip : (base : ℕ) (bs : List ℕ) → number base 0 (strip bs) ≡ number base 0 bs
unfolding strip
number-strip base [] = refl
number-strip base (b ∷ bs) = elim (Bool-cases (b == 0)) [
  | inl e ↦ rw (e, ==→eq b 0 e) (number-strip base bs ∙ ap (λ n. number base n bs) (omega arith))
  | inr e ↦ rw e
]

pub number-leading :
    (base : ℕ) (bs ds : List ℕ) → number base 0 (leading 0 0 bs ++ ds) ≡ number base 0 ds
unfolding leading
number-leading base [] ds = refl
number-leading base (b ∷ bs) ds = elim (Bool-cases (b == 0)) [
  | inl e ↦
      rw e
        (ap (λ n. number base n (leading 0 0 bs ++ ds)) (omega arith) ∙ number-leading base bs ds)
  | inr e ↦ rw e
]

pub All-reverse : (n : ℕ) (xs : List ℕ) → All (λ d. d < n) xs → All (λ d. d < n) (reverse xs)
All-reverse n [] h = tt
All-reverse n (x ∷ xs) h =
    rw reverse-cons (All-append _ (reverse xs) (x ∷ []) (All-reverse n xs h.1) (h.0, tt))

-- The first element is there, and is not 0.
pub StartsPositive : List ℕ → Type 0
StartsPositive [] = ⊥
StartsPositive (x ∷ xs) = 0 < x

pub StartsPositive-append : (xs ys : List ℕ) → StartsPositive xs → StartsPositive (xs ++ ys)
unfolding StartsPositive
StartsPositive-append [] ys h = absurd h
StartsPositive-append (x ∷ xs) ys h = h

pub leading_of_StartsPositive : (xs : List ℕ) → StartsPositive xs → leading 0 0 xs ≡ []
unfolding leading StartsPositive
leading_of_StartsPositive [] h = refl
leading_of_StartsPositive (x ∷ xs) h = ground arith

-- The highest digit of a canonical numeral is not 0.
pub reverse-StartsPositive :
    (base : ℕ) (ds : List ℕ) → IsCanonical base ds → 0 < value base ds → StartsPositive (reverse ds)
unfolding StartsPositive
reverse-StartsPositive base [] k h = absurd (omega arith)
reverse-StartsPositive base (d ∷ []) k h = omega arith
reverse-StartsPositive base (d ∷ e ∷ ds) k h = rw reverse-cons (
    StartsPositive-append (reverse (e ∷ ds)) (d ∷ [])
      (reverse-StartsPositive base (e ∷ ds) k.2 k.2.1))

pub IsCanonical-below : (base : ℕ) (ds : List ℕ) → IsCanonical base ds → All (λ d. d < base) ds
IsCanonical-below base [] k = tt
IsCanonical-below base (d ∷ ds) k = (k.0, IsCanonical-below base ds k.2)

-- Digits in range with a digit above 0 on top are canonical.
snoc-IsCanonical :
    (base : ℕ) (ds : List ℕ) (x : ℕ)
    → 0 < base
    → All (λ d. d < base) ds
    → 0 < x
    → x < base
    → IsCanonical base (ds ++ x ∷ []) × (0 < value base (ds ++ x ∷ []))
snoc-IsCanonical base [] x b h p lt = ((lt, omega arith, tt), omega arith)
snoc-IsCanonical base (d ∷ ds) x b h p lt =
    let (k, q) = snoc-IsCanonical base ds x b h.1 p lt in
    let positive : 0 < d + base * value base (ds ++ x ∷ []) = omega (arith, one-le-mul b q) in
    ((h.0, positive, k), positive)

pub strip-below : (n : ℕ) (bs : List ℕ) → All (λ b. b < n) bs → All (λ b. b < n) (strip bs)
unfolding strip
strip-below n [] h = tt
strip-below n (b ∷ bs) h = elim (Bool-cases (b == 0)) [
  | inl e ↦ rw e (strip-below n bs h.1)
  | inr e ↦ rw e h
]

-- The stripped bytes, lowest first, are the canonical numeral of their number.
pub reverse-strip-IsCanonical :
    (bs : List ℕ) → All (λ b. b < 256) bs → IsCanonical 256 (reverse (strip bs))
unfolding strip
reverse-strip-IsCanonical [] h = tt
reverse-strip-IsCanonical (b ∷ bs) h = elim (Bool-cases (b == 0)) [
  | inl e ↦ rw e (reverse-strip-IsCanonical bs h.1)
  | inr e ↦
      rw (e, reverse-cons)
        (snoc-IsCanonical 256 (reverse bs) b (omega arith) (All-reverse 256 bs h.1) (ground arith)
          h.0).0
]
