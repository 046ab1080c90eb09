-- ===== src/Base58/Digits.antt =====
-- The digit loops of `base58btcEncode` and `base58btcDecode` compute with the number that the digits
-- write, and keep the digits canonical; canonical digits are determined by their number.
use helix_core.Prelude.{
  ℕ, zero, suc, ◌+◌, ◌*◌, ◌/◌, ◌%◌, ◌≤◌, ◌<◌, ◌≡◌, refl, List, [], ◌∷◌, ◌≢◌, arith, ◌==◌, ap,
  Bool-cases, inl, inr, false, sym, ◌∙◌,
}
use native.Mathlib.Nat.{
  div-add-mod, mod-lt, mul-le-mul_left, mul-le-mul_right, add-mul-div_left, div-eq_of_lt,
}
use helix_core.Base58.{carry_out, mul_add}

-- The number that the digits write, lowest first.
abbrev pub value : ℕ → List ℕ → ℕ
value base [] = 0
value base (d ∷ ds) = d + base * value base ds

-- Digits in range with no zero on top.
abbrev pub IsCanonical : ℕ → List ℕ → Type 0
IsCanonical base [] = Unit
IsCanonical base (d ∷ ds) = (d < base) × (0 < d + base * value base ds) × IsCanonical base ds

module _ (base : ℕ) (big : 1 < base) where
  split : (x : ℕ) → base * (x / base) + x % base ≡ x
  split x = div-add-mod x base

  below : (x : ℕ) → x % base < base
  below x = mod-lt x (omega arith)

  quotient_falls : (f c : ℕ) → c ≤ suc f → c ≢ 0 → c / base ≤ f
  quotient_falls f c h n = grind (arith, split c)

  value-carry_out : (f c : ℕ) → c ≤ f → value base (carry_out base f c) ≡ c
  unfolding carry_out
  value-carry_out zero c h = omega arith
  value-carry_out (suc f) c h =
      grind (arith, value-carry_out f (c / base), quotient_falls f c h, split c)

  nonzero : (c : ℕ) → (c == 0) ≡ false → c ≢ 0
  nonzero c h = ground arith

  carry_out-IsCanonical : (f c : ℕ) → c ≤ f → IsCanonical base (carry_out base f c)
  unfolding carry_out
  carry_out-IsCanonical zero c h = tt
  carry_out-IsCanonical (suc f) c h = elim (Bool-cases (c == 0)) [
    | inl done ↦ rw done tt
    | inr more ↦ rw more (
      below c,
      omega (
        arith,
        split c,
        nonzero c more,
        ap (λ (t : ℕ). base * t) (value-carry_out f (c / base) (falls more)),
      ),
      carry_out-IsCanonical f (c / base) (falls more),
    )
  ]
    where
      falls : (c == 0) ≡ false → c / base ≤ f
      falls more = quotient_falls f c h (nonzero c more)

  pub value-mul_add :
      (mult : ℕ) (ds : List ℕ) (c : ℕ)
      → value base (mul_add base mult ds c) ≡ value base ds * mult + c
  unfolding mul_add
  value-mul_add mult [] c = rw (value-carry_out c c (omega arith)) (omega arith)
  value-mul_add mult (d ∷ ds) c =
      let x = d * mult + c in
      omega (arith, split x, ap (λ (t : ℕ). base * t) (value-mul_add mult ds (x / base)))

  pub mul_add-IsCanonical :
      (mult : ℕ) (ds : List ℕ) (c : ℕ)
      → 0 < mult
      → IsCanonical base ds
      → IsCanonical base (mul_add base mult ds c)
  unfolding mul_add
  mul_add-IsCanonical mult [] c m k = carry_out-IsCanonical c c (omega arith)
  mul_add-IsCanonical mult (d ∷ ds) c m k =
      let x = d * mult + c in
      (
        below x,
        omega (
          arith,
          split x,
          mul-le-mul_right (d + base * value base ds) m,
          ap (λ (t : ℕ). base * t) (value-mul_add mult ds (x / base)),
          mul-le-mul_left (d + base * value base ds) m,
        ),
        mul_add-IsCanonical mult ds (x / base) m k.2,
      )

  digit_quotient : (d m : ℕ) → d < base → (d + base * m) / base ≡ m
  digit_quotient d m h = add-mul-div_left d m (omega arith) ∙ rw (div-eq_of_lt h) (omega arith)

  digit_tail : (d e m n : ℕ) → d < base → e < base → d + base * m ≡ e + base * n → m ≡ n
  digit_tail d e m n h k eq =
      sym (digit_quotient d m h) ∙ ap (λ (t : ℕ). t / base) eq ∙ digit_quotient e n k

  pub IsCanonical-unique :
      (ds es : List ℕ)
      → IsCanonical base ds
      → IsCanonical base es
      → value base ds ≡ value base es
      → ds ≡ es
  IsCanonical-unique [] [] k l e = refl
  IsCanonical-unique [] (y ∷ es) k l e = absurd (omega arith)
  IsCanonical-unique (x ∷ ds) [] k l e = absurd (omega arith)
  IsCanonical-unique (x ∷ ds) (y ∷ es) k l e =
      let tails = digit_tail x y (value base ds) (value base es) k.0 l.0 e in
      let heads : x ≡ y = omega (arith, e, ap (λ (t : ℕ). base * t) tails) in
      rw (heads, IsCanonical-unique ds es k.2 l.2 tails)
