-- ===== src/Prelude/Dict.antt =====
-- A JavaScript `Map<string, V>`: its entries in insertion order; a write to a key that is there keeps its
-- place.
use Prim.Native.String.{String}
use mathlib.Core.Path.{◌≡◌, refl, subst}
use mathlib.Core.Logic.{inl, inr, ◌≢◌}
use mathlib.Core.List.{List, [], ◌∷◌}
use mathlib.Core.Option.{Option, none, some}
use native.Mathlib.Omega.{arith}
use helix_core.Prelude.Tests.{◌===◌, if◌then◌else◌, ===→eq, ===_refl, ===_ne, Bool-cases}

module _ {ℓ} {V : Type ℓ} where
  -- `map.get(key)`
  unfoldable pub at_key : String → List (String × V) → Option V
  at_key k [] = none
  at_key k ((j, v) ∷ m) = if j === k then some v else at_key k m

  -- `map.set(key, value)`
  unfoldable pub put : String → V → List (String × V) → List (String × V)
  put k v [] = (k, v) ∷ []
  put k v ((j, w) ∷ m) = if j === k then (k, v) ∷ m else (j, w) ∷ put k v m

  -- `map.delete(key)`
  unfoldable pub drop_key : String → List (String × V) → List (String × V)
  drop_key k [] = []
  drop_key k ((j, w) ∷ m) = if j === k then drop_key k m else (j, w) ∷ drop_key k m

  -- `[...map.values()]`
  unfoldable pub values : List (String × V) → List V
  values [] = []
  values ((j, v) ∷ m) = v ∷ values m

  pub at_key-put_self : (k : String) (v : V) (m : List (String × V)) → at_key k (put k v m) ≡ some v
  unfolding at_key put
  at_key-put_self k v [] = rw (===_refl k)
  at_key-put_self k v ((j, w) ∷ m) = elim (Bool-cases (j === k)) [
    | inl e ↦ rw (e, put) (rw (===_refl k))
    | inr e ↦ rw (e, put) (rw e (at_key-put_self k v m))
  ]

  pub at_key-put_ne :
      (k j : String) (v : V) (m : List (String × V)) → k ≢ j → at_key j (put k v m) ≡ at_key j m
  unfolding at_key put
  at_key-put_ne k j v [] h = rw (===_ne k j h)
  at_key-put_ne k j v ((i, w) ∷ m) h = elim (Bool-cases (i === k)) [
    | inl e ↦ rw (e, put) (rw (===_ne k j h, ===_ne i j (λ q. h (cc (===→eq i k e, q)))))
    | inr e ↦ rw (e, put) (ground (arith, at_key-put_ne k j v m h))
  ]

  pub at_key-drop_self : (k : String) (m : List (String × V)) → at_key k (drop_key k m) ≡ none
  unfolding at_key drop_key
  at_key-drop_self k [] = refl
  at_key-drop_self k ((j, w) ∷ m) = elim (Bool-cases (j === k)) [
    | inl e ↦ rw (e, drop_key) (at_key-drop_self k m)
    | inr e ↦ rw (e, drop_key) (rw e (at_key-drop_self k m))
  ]

  pub at_key-drop_ne :
      (k j : String) (m : List (String × V)) → k ≢ j → at_key j (drop_key k m) ≡ at_key j m
  unfolding at_key drop_key
  at_key-drop_ne k j [] h = refl
  at_key-drop_ne k j ((i, w) ∷ m) h = elim (Bool-cases (i === k)) [
    | inl e ↦
        rw (e, drop_key) (rw (===_ne i j (λ q. h (cc (===→eq i k e, q)))) (at_key-drop_ne k j m h))
    | inr e ↦ rw (e, drop_key) (ground (arith, at_key-drop_ne k j m h))
  ]

  pub at_key-put :
      (k j : String) (v : V) (m : List (String × V))
      → at_key j (put k v m) ≡ (if k === j then some v else at_key j m)
  at_key-put k j v m = elim (Bool-cases (k === j)) [
    | inl e ↦
        rw e (subst (λ i. at_key i (put k v m) ≡ some v) (===→eq k j e) (at_key-put_self k v m))
    | inr e ↦ rw e (at_key-put_ne k j v m (λ q. cc (===_refl k, e, q)))
  ]

  pub at_key-drop :
      (k j : String) (m : List (String × V))
      → at_key j (drop_key k m) ≡ (if k === j then none else at_key j m)
  at_key-drop k j m = elim (Bool-cases (k === j)) [
    | inl e ↦
        rw e (subst (λ i. at_key i (drop_key k m) ≡ none) (===→eq k j e) (at_key-drop_self k m))
    | inr e ↦ rw e (at_key-drop_ne k j m (λ q. cc (===_refl k, e, q)))
  ]
