-- ===== src/Scopes/Laws.antt =====
-- Which lists of scopes core/schemas/privilegeScopes.ts accepts.
use helix_core.Prelude.{
  ℕ, ◌≤◌, ◌<◌, ◌≡◌, ◌↔◌, refl, String, Option, none, some, List, [], ◌∷◌, Bool, true, false, ltb,
  ◌==◌, length, All, Bool-cases, Option-cases, inl, inr, arith,
}
use helix_core.Text.{codes}
use helix_core.Scopes.{
  max_scopes, max_scope_length, is_separator, has_separator, units, scope_problem, first_problem,
  find_scope_problem,
}

-- A scope that can stand in a list: not empty, no white space or comma, at most 255 UTF-16 units.
pub record IsScope (scope : String) : Type 0 where
  pub has_text : 0 < units (codes scope)
  pub unseparated : All (λ c. is_separator c ≡ false) (codes scope)
  pub short : units (codes scope) ≤ max_scope_length

separated-All : (cs : List ℕ) → (has_separator cs ≡ false) ↔ All (λ c. is_separator c ≡ false) cs
unfolding has_separator
separated-All [] = (λ h. tt, λ h. refl)
separated-All (c ∷ cs) = elim (Bool-cases (is_separator c)) [
  | inl e ↦ rw e (λ h. cc h, λ h. cc h.0)
  | inr e ↦ rw e (λ h. (refl, (separated-All cs).0 h), λ h. (separated-All cs).1 h.1)
]

no_text : {n : ℕ} → (n == 0) ≡ true → 0 < n → ⊥
no_text e h = ground arith

some_text : {n : ℕ} → (n == 0) ≡ false → 0 < n
some_text e = ground arith

too_long : {n m : ℕ} → ltb m n ≡ true → n ≤ m → ⊥
too_long e h = ground arith

fits : {n m : ℕ} → ltb m n ≡ false → n ≤ m
fits e = ground arith

differ : {b : Bool} → b ≡ true → b ≡ false → ⊥
differ e h = cc (e, h)

scope_problem-IsScope : (scope : String) → (scope_problem scope ≡ none) ↔ IsScope scope
unfolding scope_problem
scope_problem-IsScope scope = elim (Bool-cases (units (codes scope) == 0)) [
  | inl e ↦ rw e (λ h. cc h, λ s. absurd (no_text e s.has_text))
  | inr e ↦ rw e (elim (Bool-cases (has_separator (codes scope))) [
    | inl f ↦
        rw f (λ h. cc h, λ s. absurd (differ f ((separated-All (codes scope)).1 s.unseparated)))
    | inr f ↦ rw f (elim (Bool-cases (ltb max_scope_length (units (codes scope)))) [
      | inl g ↦ rw g (λ h. cc h, λ s. absurd (too_long g s.short))
      | inr g ↦ rw g (
        λ h. record {
          has_text = some_text e;
          unseparated = (separated-All (codes scope)).0 f;
          short = fits g;
        },
        λ s. refl,
      )
    ])
  ])
]

first_problem-All : (scopes : List String) → (first_problem scopes ≡ none) ↔ All IsScope scopes
unfolding first_problem
first_problem-All [] = (λ h. tt, λ h. refl)
first_problem-All (scope ∷ scopes) = elim (Option-cases (scope_problem scope)) [
  | inl e ↦
      rw (e, first_problem)
        (
          λ h. ((scope_problem-IsScope scope).0 e, (first_problem-All scopes).0 h),
          λ h. (first_problem-All scopes).1 h.1,
        )
  | inr (problem, e) ↦
      rw (e, first_problem)
        (λ h. cc h, λ h. absurd (some_none e ((scope_problem-IsScope scope).1 h.0)))
]
  where
    some_none : {found : Option String} {problem : String} → found ≡ some problem → found ≡ none → ⊥
    some_none e h = cc (e, h)

-- A list of scopes is accepted exactly when it has at most 50 scopes and each of them is a text without
-- white space and commas of 1 to 255 UTF-16 units.
pub find_scope_problem-All :
    (scopes : List String)
    → (find_scope_problem scopes ≡ none) ↔ ((length scopes ≤ max_scopes) × All IsScope scopes)
unfolding find_scope_problem
find_scope_problem-All scopes = elim (Bool-cases (ltb max_scopes (length scopes))) [
  | inl e ↦ rw e (λ h. cc h, λ h. absurd (too_long e h.0))
  | inr e ↦
      rw e (λ h. (fits e, (first_problem-All scopes).0 h), λ h. (first_problem-All scopes).1 h.1)
]
