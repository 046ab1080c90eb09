-- ===== src/Prelude/Sets.antt =====
-- A JavaScript `Set<string>`, as the list of its members in insertion order, and `includes`.
use Prim.Native.String.{String}
use mathlib.Core.Path.{◌≡◌, refl, sym, subst}
use mathlib.Core.Logic.{◌⊎◌, inl, inr}
use mathlib.Core.Bool.{Bool, true, false, ◌||◌}
use mathlib.Core.List.{List, [], ◌∷◌, ◌++◌}
use mathlib.Core.Option.{none, some}
use native.Mathlib.Omega.{arith}
use helix_core.Prelude.Lists.{select, find}
use helix_core.Prelude.Tests.{◌===◌, if◌then◌else◌, ===→eq, ===_refl, Bool-cases}

-- `xs.includes(a)`, `set.has(a)`
unfoldable pub includes : List String → String → Bool
includes [] a = false
includes (x ∷ xs) a = (x === a) || includes xs a

-- `set.add(a)`
unfoldable pub add : String → List String → List String
add a xs = if includes xs a then xs else xs ++ a ∷ []

-- `for (const x of xs) set.add(x)`
unfoldable pub add_all : List String → List String → List String
unfolding add
add_all [] s = s
add_all (x ∷ xs) s = add_all xs (add x s)

abbrev pub Has : List String → String → Type 0
Has xs a = includes xs a ≡ true

pub or_cases : (b c : Bool) → (b || c) ≡ true → (b ≡ true) ⊎ (c ≡ true)
or_cases true c h = inl refl
or_cases false c h = inr h

pub Has-cons : (x : String) (xs : List String) (a : String) → Has (x ∷ xs) a → (x ≡ a) ⊎ Has xs a
unfolding includes
Has-cons x xs a h = elim (or_cases (x === a) (includes xs a) h) [
  | inl here ↦ inl (===→eq x a here)
  | inr later ↦ inr later
]

pub Has-head : (x : String) (xs : List String) → Has (x ∷ xs) x
unfolding includes
Has-head x xs = rw (===_refl x)

pub Has-tail : (x : String) (xs : List String) (a : String) → Has xs a → Has (x ∷ xs) a
unfolding includes
Has-tail x xs a h = ground arith

pub not-Has-nil : (a : String) → ¬ (Has [] a)
unfolding includes
not-Has-nil a h = cc

pub includes-append :
    (xs ys : List String) (a : String) → includes (xs ++ ys) a ≡ (includes xs a || includes ys a)
unfolding includes
includes-append [] ys a = refl
includes-append (x ∷ xs) ys a = ground (arith, includes-append xs ys a)

pub Has-append_left : (xs ys : List String) (a : String) → Has xs a → Has (xs ++ ys) a
Has-append_left xs ys a h = rw (includes-append, h)

pub Has-append : (xs ys : List String) (a : String) → Has (xs ++ ys) a → Has xs a ⊎ Has ys a
Has-append xs ys a h = or_cases (includes xs a) (includes ys a) (rw includes-append at h)

pub Has-append_right : (xs ys : List String) (a : String) → Has ys a → Has (xs ++ ys) a
Has-append_right xs ys a h = elim (Bool-cases (includes xs a)) [
  | inl e ↦ rw (includes-append, e)
  | inr e ↦ rw (includes-append, e, h)
]

pub Has-add_self : (a : String) (xs : List String) → Has (add a xs) a
unfolding add
Has-add_self a xs = elim (Bool-cases (includes xs a)) [
  | inl e ↦ rw e e
  | inr e ↦ rw e (Has-append_right xs (a ∷ []) a (Has-head a []))
]

pub Has-add_of : (a b : String) (xs : List String) → Has xs b → Has (add a xs) b
unfolding add
Has-add_of a b xs h = elim (Bool-cases (includes xs a)) [
  | inl e ↦ rw e h
  | inr e ↦ rw e (Has-append_left xs (a ∷ []) b h)
]

pub Has-add : (a b : String) (xs : List String) → Has (add a xs) b → (a ≡ b) ⊎ Has xs b
unfolding add
Has-add a b xs h = elim (Bool-cases (includes xs a)) [
  | inl e ↦ inr (rw e at h)
  | inr e ↦ elim (Has-append xs (a ∷ []) b (rw e at h)) [
    | inl old ↦ inr old
    | inr new ↦ elim (Has-cons a [] b new) [
      | inl same ↦ inl same
      | inr none_left ↦ absurd (not-Has-nil b none_left)
    ]
  ]
]

pub Has-add_all : (xs s : List String) (a : String) → Has (add_all xs s) a → Has xs a ⊎ Has s a
unfolding add_all
Has-add_all [] s a h = inr h
Has-add_all (x ∷ xs) s a h = elim (Has-add_all xs (add x s) a h) [
  | inl later ↦ inl (Has-tail x xs a later)
  | inr now ↦ elim (Has-add x a s now) [
    | inl same ↦ inl (subst (Has (x ∷ xs)) same (Has-head x xs))
    | inr old ↦ inr old
  ]
]

pub Has-add_all_of : (xs s : List String) (a : String) → Has s a → Has (add_all xs s) a
unfolding add_all
Has-add_all_of [] s a h = h
Has-add_all_of (x ∷ xs) s a h = Has-add_all_of xs (add x s) a (Has-add_of x a s h)

pub Has-add_all_new : (xs s : List String) (a : String) → Has xs a → Has (add_all xs s) a
unfolding add_all
Has-add_all_new [] s a h = absurd (not-Has-nil a h)
Has-add_all_new (x ∷ xs) s a h = elim (Has-cons x xs a h) [
  | inl same ↦ Has-add_all_of xs (add x s) a (subst (Has (add x s)) same (Has-add_self x s))
  | inr later ↦ Has-add_all_new xs (add x s) a later
]

-- No member stands twice.
abbrev pub IsUnique : List String → Type 0
IsUnique [] = Unit
IsUnique (x ∷ xs) = (includes xs x ≡ false) × IsUnique xs

not-Has_snoc :
    (xs : List String) (a x : String)
    → includes xs x ≡ false
    → includes (x ∷ xs) a ≡ false
    → includes (xs ++ a ∷ []) x ≡ false
not-Has_snoc xs a x h k = elim (Bool-cases (includes (xs ++ a ∷ []) x)) [
  | inr e ↦ e
  | inl e ↦ elim (Has-append xs (a ∷ []) x e) [
    | inl old ↦ cc
    | inr new ↦ elim (Has-cons a [] x new) [
      | inl same ↦ cc (subst (λ y. Has (x ∷ xs) y) (sym same) (Has-head x xs))
      | inr none_left ↦ absurd (not-Has-nil x none_left)
    ]
  ]
]

not-Has_tail :
    (x : String) (xs : List String) (a : String)
    → includes (x ∷ xs) a ≡ false
    → includes xs a ≡ false
not-Has_tail x xs a h = elim (Bool-cases (includes xs a)) [
  | inl e ↦ cc (Has-tail x xs a e)
  | inr e ↦ e
]

snoc-IsUnique :
    (xs : List String) (a : String) → IsUnique xs → includes xs a ≡ false → IsUnique (xs ++ a ∷ [])
unfolding includes
snoc-IsUnique [] a u h = (refl, tt)
snoc-IsUnique (x ∷ xs) a u h =
    (not-Has_snoc xs a x u.0 h, snoc-IsUnique xs a u.1 (not-Has_tail x xs a h))

pub add-IsUnique : (a : String) (xs : List String) → IsUnique xs → IsUnique (add a xs)
unfolding add
add-IsUnique a xs u = elim (Bool-cases (includes xs a)) [
  | inl e ↦ rw e u
  | inr e ↦ rw e (snoc-IsUnique xs a u e)
]

pub add_all-IsUnique : (xs s : List String) → IsUnique s → IsUnique (add_all xs s)
unfolding add_all
add_all-IsUnique [] s u = u
add_all-IsUnique (x ∷ xs) s u = add_all-IsUnique xs (add x s) (add-IsUnique x s u)

find_tail :
    (q : String → Bool) (x : String) (xs : List String)
    → find q (x ∷ xs) ≡ none
    → (q x ≡ false) × (find q xs ≡ none)
find_tail q x xs h = ground arith

-- `find` returns nothing: no element passes the test.
pub find-eq-none :
    (q : String → Bool) (xs : List String) (s : String) → find q xs ≡ none → Has xs s → q s ≡ false
find-eq-none q [] s h m = absurd (not-Has-nil s m)
find-eq-none q (x ∷ xs) s h m =
    let (head, later) = find_tail q x xs h in
    elim (Has-cons x xs s m) [
      | inl same ↦ subst (λ y. q y ≡ false) same head
      | inr m' ↦ find-eq-none q xs s later m'
    ]

-- `find` returns an element that passes the test.
pub find-eq-some :
    (q : String → Bool) (xs : List String) (d : String)
    → find q xs ≡ some d
    → Has xs d × (q d ≡ true)
find-eq-some q [] d h = cc
find-eq-some q (x ∷ xs) d h = elim (Bool-cases (q x)) [
  | inl e ↦
      let same : x ≡ d = ground (arith, h) in
      (subst (Has (x ∷ xs)) same (Has-head x xs), subst (λ y. q y ≡ true) same e)
  | inr e ↦
      let later : find q xs ≡ some d = ground (arith, h) in
      let (m, t) = find-eq-some q xs d later in (Has-tail x xs d m, t)
]

-- An element of a filtered list is an element that passes the test, and the other way round.
pub Has-select :
    (q : String → Bool) (xs : List String) (s : String)
    → Has (select q xs) s
    → Has xs s × (q s ≡ true)
Has-select q [] s m = absurd (not-Has-nil s m)
Has-select q (x ∷ xs) s m = elim (Bool-cases (q x)) [
  | inl e ↦ elim (Has-cons x (select q xs) s (rw (e, select) at m)) [
    | inl same ↦ (subst (Has (x ∷ xs)) same (Has-head x xs), subst (λ y. q y ≡ true) same e)
    | inr m' ↦ let (k, t) = Has-select q xs s m' in (Has-tail x xs s k, t)
  ]
  | inr e ↦ let (k, t) = Has-select q xs s (rw (e, select) at m) in (Has-tail x xs s k, t)
]

not-Has_select :
    (q : String → Bool) (xs : List String) (s : String)
    → includes xs s ≡ false
    → includes (select q xs) s ≡ false
not-Has_select q xs s h = elim (Bool-cases (includes (select q xs) s)) [
  | inl e ↦ cc ((Has-select q xs s e).0)
  | inr e ↦ e
]

pub select-IsUnique : (q : String → Bool) (xs : List String) → IsUnique xs → IsUnique (select q xs)
select-IsUnique q [] u = tt
select-IsUnique q (x ∷ xs) u = elim (Bool-cases (q x)) [
  | inl e ↦ rw (e, select) (not-Has_select q xs x u.0, select-IsUnique q xs u.1)
  | inr e ↦ rw (e, select) (select-IsUnique q xs u.1)
]
