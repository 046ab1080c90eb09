-- ===== src/Scopes.antt =====
-- core/schemas/privilegeScopes.ts: which lists of scopes a credential may name. Lengths are in UTF-16
-- units.
mod Laws
mod Tests
use Prim.Native.String.{◌++◌ as ◌<>◌}
use helix_core.Prelude.{
  ℕ, zero, suc, ◌+◌, String, Option, none, some, List, [], ◌∷◌, Bool, true, false, ◌||◌, ◌&&◌, ltb,
  leb, ◌==◌, if◌then◌else◌, length,
}
use helix_core.Text.{codes}

-- `MAX_SCOPE_LENGTH` and `MAX_SCOPES`
abbrev pub max_scope_length : ℕ
max_scope_length = 255

abbrev pub max_scopes : ℕ
max_scopes = 50

-- `/[\s,]/` at one character
unfoldable pub is_separator : ℕ → Bool
is_separator c =
    c == b','
    || c == b' '
    || (leb 9 c && leb c 13)
    || c == 0xa0
    || c == 0x1680
    || (leb 0x2000 c && leb c 0x200a)
    || c == 0x2028
    || c == 0x2029
    || c == 0x202f
    || c == 0x205f
    || c == 0x3000
    || c == 0xfeff

-- `/[\s,]/.test(scope)`
unfoldable pub has_separator : List ℕ → Bool
has_separator [] = false
has_separator (c ∷ cs) = is_separator c || has_separator cs

-- `scope.length`
unfoldable pub units : List ℕ → ℕ
units [] = 0
units (c ∷ cs) = (if ltb 0xffff c then 2 else 1) + units cs

-- `scope.slice(0, n)`, of characters of one unit
beginning : ℕ → String → String
beginning zero s = ""
beginning (suc n) String.[] = ""
beginning (suc n) (String.◌∷◌ c s) = String.◌∷◌ c (beginning n s)

-- the tests of one scope
unfoldable pub scope_problem : String → Option String
unfolding has_separator units beginning
scope_problem scope =
    if units (codes scope) == 0
    then some "a scope must be a non-empty string"
    else if has_separator (codes scope)
    then some
        (◌<>◌ "scope \"" (◌<>◌ scope "\" contains whitespace or a comma, which separate scopes"))
    else if ltb max_scope_length (units (codes scope))
    then some (◌<>◌ "scope \"" (◌<>◌ (beginning 40 scope) "…\" is longer than 255 characters"))
    else none

-- `for (const scope of scopes)`
unfoldable pub first_problem : List String → Option String
first_problem [] = none
first_problem (scope ∷ scopes) = elim (scope_problem scope) [
  | none ↦ first_problem scopes
  | some problem ↦ some problem
]

-- `findScopeProblem`
unfoldable pub find_scope_problem : List String → Option String
find_scope_problem scopes =
    if ltb max_scopes (length scopes)
    then some "at most 50 scopes are allowed"
    else first_problem scopes
