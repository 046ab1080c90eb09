-- ===== src/Text.antt =====
-- Text that the program walks through, as the list of its code points.
use Prim.Native.Char.{code}
use mathlib.Core.List.{reverse}
use helix_core.Prelude.{
  ℕ, ◌+◌, String, List, [], ◌∷◌, ◌++◌, Bool, true, false, ◌&&◌, Option, none, some, ◌==◌, leb,
  every, if◌then◌else◌,
}

abbrev pub codes : String → List ℕ
codes String.[] = []
codes (String.◌∷◌ c s) = code c ∷ codes s

-- `s.startsWith('z')` and what follows that letter
abbrev pub after_z : List ℕ → Option (List ℕ)
after_z [] = none
after_z (c ∷ s) = if c == b'z' then some s else none

-- `optional && …` on an optional string: present and not empty
abbrev pub truthy : Option String → Bool
truthy none = false
truthy (some String.[]) = false
truthy (some (String.◌∷◌ c s)) = true

-- `s.startsWith(prefix)` and what follows the prefix
abbrev pub after_prefix : List ℕ → List ℕ → Option (List ℕ)
after_prefix [] s = some s
after_prefix (p ∷ prefix) [] = none
after_prefix (p ∷ prefix) (c ∷ s) =
    let rest = after_prefix prefix s in if c == p then rest else none

-- `s === t`
abbrev pub equal_text : List ℕ → List ℕ → Bool
equal_text [] [] = true
equal_text [] (d ∷ t) = false
equal_text (c ∷ s) [] = false
equal_text (c ∷ s) (d ∷ t) = c == d && equal_text s t

-- `s.split(separator)` of one character, given the piece that has been begun, its characters in reverse
abbrev pub split_from : ℕ → List ℕ → List ℕ → List (List ℕ)
split_from separator piece [] = reverse piece ∷ []
split_from separator piece (c ∷ s) =
    let closed = split_from separator [] s in
    let longer = split_from separator (c ∷ piece) s in
    if c == separator then reverse piece ∷ closed else longer

abbrev pub split : ℕ → List ℕ → List (List ℕ)
split separator s = split_from separator [] s

-- `pieces.join(separator)`
abbrev pub join_pieces : List ℕ → List (List ℕ) → List ℕ
join_pieces separator [] = []
join_pieces separator (s ∷ []) = s
join_pieces separator (s ∷ t ∷ more) = s ++ separator ++ join_pieces separator (t ∷ more)

-- `c` of `s.toLowerCase()`, for the letters of ASCII
abbrev pub lower : ℕ → ℕ
lower c = if leb b'A' c && leb c b'Z' then c + 32 else c

-- `/^\d+$/.test(s)`
abbrev pub is_digit : ℕ → Bool
is_digit c = leb b'0' c && leb c b'9'

abbrev pub is_number : List ℕ → Bool
is_number [] = false
is_number (c ∷ s) = every is_digit (c ∷ s)
