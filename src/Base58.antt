-- ===== src/Base58.antt =====
-- core/crypto/vp.ts: `base58btcEncode` and `base58btcDecode`. Bytes and characters are numbers; a
-- `Uint8Array` is a list of numbers below 256. The digits of both loops stand lowest first.
mod Digits
mod Loops
mod Leading
pub mod RoundTrip
mod Tests
use mathlib.Core.List.{reverse}
use helix_core.Prelude.{
  ℕ, zero, suc, ◌+◌, ◌*◌, ◌/◌, ◌%◌, List, [], ◌∷◌, ◌++◌, map, Option, none, some, ◌==◌,
  if◌then◌else◌,
}
use helix_core.Text.{codes}
use helix_core.Errors.{plain}
use helix_core.Result.{Result, ok, throw}

-- `ALPHABET`
abbrev alphabet : List ℕ
alphabet = codes "123456789ABCDEFGHJKLMNPQRSTUVWXYZabcdefghijkmnopqrstuvwxyz"

char_at : List ℕ → ℕ → ℕ
char_at [] i = 0
char_at (c ∷ cs) zero = c
char_at (c ∷ cs) (suc i) = char_at cs i

position : List ℕ → ℕ → ℕ → Option ℕ
position [] i c = none
position (a ∷ as') i c = let rest = position as' (i + 1) c in if a == c then some i else rest

-- `ALPHABET[d]`
pub digit_char : ℕ → ℕ
unfolding char_at
digit_char d = char_at alphabet d

-- `ALPHABET.indexOf(char)`, `none` for a negative result
pub index_of : ℕ → Option ℕ
unfolding position
index_of c = position alphabet 0 c

-- `while (carry > 0) { digits.push(carry % base); carry = Math.floor(carry / base); }`, on fuel
pub carry_out : ℕ → ℕ → ℕ → List ℕ
carry_out base zero carry = []
carry_out base (suc fuel) carry =
    let more = (carry % base) ∷ carry_out base fuel (carry / base) in
    if carry == 0 then [] else more

-- One round of the outer loops: every digit times `mult` plus the carry, then the carry itself.
pub mul_add : ℕ → ℕ → List ℕ → ℕ → List ℕ
unfolding carry_out
mul_add base mult [] carry = carry_out base carry carry
mul_add base mult (d ∷ ds) carry =
    let x = d * mult + carry in (x % base) ∷ mul_add base mult ds (x / base)

-- `for (const byte of bytes)`
pub encode_loop : List ℕ → List ℕ → List ℕ
unfolding mul_add
encode_loop digits [] = digits
encode_loop digits (byte ∷ bytes) = encode_loop (mul_add 58 256 digits byte) bytes

-- One `c` for each leading element that equals `z`.
pub leading : ℕ → ℕ → List ℕ → List ℕ
leading z c [] = []
leading z c (b ∷ bs) = let more = c ∷ leading z c bs in if b == z then more else []

-- `base58btcEncode`
unfoldable pub encode : List ℕ → List ℕ
unfolding encode_loop leading digit_char
encode [] = []
encode (b ∷ bs) =
    leading 0 (digit_char 0) (b ∷ bs) ++ map digit_char (reverse (encode_loop (0 ∷ []) (b ∷ bs)))

-- `for (const char of value)`
pub decode_loop : List ℕ → List ℕ → Result (List ℕ)
unfolding mul_add index_of
decode_loop bytes [] = ok bytes
decode_loop bytes (c ∷ cs) = elim (index_of c) [
  | none ↦ throw (plain "Invalid base58 string")
  | some index ↦ decode_loop (mul_add 256 58 bytes index) cs
]

-- The array of `leadingZeroes` zero bytes, then the bytes highest first.
pub finish : List ℕ → Result (List ℕ) → Result (List ℕ)
finish zeroes (throw e) = throw e
finish zeroes (ok bytes) = ok (zeroes ++ reverse bytes)

-- `base58btcDecode`
unfoldable pub decode : List ℕ → Result (List ℕ)
unfolding decode_loop leading digit_char finish
decode [] = ok []
decode (c ∷ cs) = finish (leading (digit_char 0) 0 (c ∷ cs)) (decode_loop (0 ∷ []) (c ∷ cs))
