-- ===== src/StatusList/Bits.antt =====
-- The bits of a byte, for core/status-list/index.ts: writing one and reading one, by a table of every
-- byte and every position.
use helix_core.Prelude.{
  ℕ, ◌-◌, ◌%◌, ◌^◌, ◌<◌, ◌≡◌, ◌≢◌, refl, Bool, true, false, ◌&&◌, ltb, ◌==◌, if◌then◌else◌, ltb→lt,
  all_below, all_below_sound, arith, ==→eq,
}
use helix_core.StatusList.{Bit, bit_0, bit_1, mask, write_bit, read_bit}

abbrev same : Bit → Bit → Bool
same bit_0 bit_0 = true
same bit_1 bit_1 = true
same a b = false

same→eq : (a b : Bit) → same a b ≡ true → a ≡ b
same→eq bit_0 bit_0 h = refl
same→eq bit_1 bit_1 h = refl
same→eq bit_0 bit_1 h = cc
same→eq bit_1 bit_0 h = cc

and_left : (a b : Bool) → (a && b) ≡ true → a ≡ true
and_left true b h = refl
and_left false b h = cc

and_right : (a b : Bool) → (a && b) ≡ true → b ≡ true
and_right true b h = h
and_right false b h = cc

abbrev at_position : ℕ → ℕ
at_position i = 2 ^ (7 - i)

-- What is written at a position is read there, and the result is a byte.
abbrev written : Bit → ℕ → ℕ → Bool
written v i b =
    let byte = write_bit v b (at_position i) in
    same (read_bit byte (at_position i)) v && ltb byte 256

-- What is read at another position stays.
abbrev kept : Bit → ℕ → ℕ → ℕ → Bool
kept v j i b =
    if i == j
    then true
    else same (read_bit (write_bit v b (at_position i)) (at_position j))
        (read_bit b (at_position j))

written_table : (v : Bit) → all_below 8 (λ i. all_below 256 (written v i)) ≡ true
unfolding all_below
written_table bit_0 = refl
written_table bit_1 = refl

kept_table : (v : Bit) → all_below 8 (λ j. all_below 8 (λ i. all_below 256 (kept v j i))) ≡ true
unfolding all_below
kept_table bit_0 = refl
kept_table bit_1 = refl

in_table :
    (p : ℕ → ℕ → Bool) (i b : ℕ)
    → all_below 8 (λ i. all_below 256 (p i)) ≡ true
    → b < 256
    → p (i % 8) b ≡ true
in_table p i b table byte =
    all_below_sound 256 (p (i % 8)) b
      (all_below_sound 8 (λ i. all_below 256 (p i)) (i % 8) table (omega arith)) byte

written_lem : (v : Bit) (i b : ℕ) → b < 256 → written v (i % 8) b ≡ true
written_lem v i b byte = in_table (written v) i b (written_table v) byte

pub read_bit-write_bit :
    (v : Bit) (i b : ℕ) → b < 256 → read_bit (write_bit v b (mask i)) (mask i) ≡ v
read_bit-write_bit v i b byte = same→eq _ _ (and_left _ _ (written_lem v i b byte))

pub write_bit_byte : (v : Bit) (i b : ℕ) → b < 256 → write_bit v b (mask i) < 256
write_bit_byte v i b byte = ltb→lt _ _ (and_right _ _ (written_lem v i b byte))

kept_lem : (v : Bit) (j i b : ℕ) → b < 256 → kept v (j % 8) (i % 8) b ≡ true
kept_lem v j i b byte =
    in_table (kept v (j % 8)) i b
      (all_below_sound 8 (λ j. all_below 8 (λ i. all_below 256 (kept v j i))) (j % 8) (kept_table v)
        (omega arith))
      byte

pub read_bit-write_bit_other :
    (v : Bit) (i j b : ℕ)
    → b < 256
    → i % 8 ≢ j % 8
    → read_bit (write_bit v b (mask i)) (mask j) ≡ read_bit b (mask j)
read_bit-write_bit_other v i j b byte apart =
    same→eq _ _ (other (i % 8 == j % 8) refl (kept_lem v j i b byte))
  where
    other :
        (t : Bool)
        → (i % 8 == j % 8) ≡ t
        → (if t
            then true
            else same (read_bit (write_bit v b (mask i)) (mask j)) (read_bit b (mask j)))
          ≡ true
        → same (read_bit (write_bit v b (mask i)) (mask j)) (read_bit b (mask j)) ≡ true
    other true e h = absurd (apart (==→eq _ _ e))
    other false e h = h

zero_table : all_below 8 (λ i. same (read_bit 0 (at_position i)) bit_0) ≡ true
unfolding all_below
zero_table = refl

pub read_bit_zero : (i : ℕ) → read_bit 0 (mask i) ≡ bit_0
read_bit_zero i = same→eq _ _ (
    all_below_sound 8 (λ i. same (read_bit 0 (at_position i)) bit_0) (i % 8) zero_table
      (omega arith))
