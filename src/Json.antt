-- ===== src/Json.antt =====
-- JSON values, as `JSON.parse` and `response.json()` return them. A number is kept as its numeral.
use helix_core.Prelude.{String, Option, none, some, List, [], ◌∷◌, Bool, ◌===◌, if◌then◌else◌}

mutual
  pub data Json : Type 0 where
    null : Json
    bool : Bool → Json
    num : String → Json
    str : String → Json
    arr : Items → Json
    obj : Members → Json

  pub data Items : Type 0 where
    nil : Items
    cons : Json → Items → Items

  pub data Members : Type 0 where
    end : Members
    member : String → Json → Members → Members

-- `z.string()`
abbrev pub as_string : Json → Option String
as_string (str s) = some s
as_string j = none

-- The members of `z.object(…)`'s input.
abbrev pub as_object : Json → Option Members
as_object (obj ms) = some ms
as_object j = none

-- The value of a key, `none` for `undefined`.
unfoldable pub lookup : String → Members → Option Json
lookup key end = none
lookup key (member k v ms) = if k === key then some v else lookup key ms

strings : Items → Option (List String)
strings nil = some []
strings (cons (str s) xs) = elim (strings xs) [ none ↦ none | some ss ↦ some (s ∷ ss) ]
strings (cons j xs) = none

-- `z.array(z.string())`
unfoldable pub as_strings : Json → Option (List String)
unfolding strings
as_strings (arr xs) = strings xs
as_strings j = none
