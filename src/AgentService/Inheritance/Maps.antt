-- ===== src/AgentService/Inheritance/Maps.antt =====
-- The maps of `findDelegatorGrants` (services/agent/agent.service.ts): the grants of each holder, and the grants by
-- their ids.
use helix_core.Prelude.{
  ◌≡◌, refl, sym, subst, String, some, List, [], ◌∷◌, ◌===◌, Bool-cases, inl, inr, All, put, values,
  at_key, at_key-put_self, at_key-put, ===→eq, Memᴰ, ◌∙◌,
}
use helix_core.Credential.{SignedVc, body}
use helix_core.AgentService.Presenting.{GrantsByHolder, add_grants, all_grants}

module _ {V : Type 0} (P : String → V → Type 0) where
  -- `P` holds of each key and its value.
  abbrev pub Entries : List (String × V) → Type 0
  Entries m = All (λ (entry : String × V). P entry.0 entry.1) m

  pub put-Entries :
      (k : String) (v : V) (m : List (String × V)) → P k v → Entries m → Entries (put k v m)
  unfolding put
  put-Entries k v [] h all = (h, tt)
  put-Entries k v ((j, w) ∷ m) h all = elim (Bool-cases (j === k)) [
    | inl e ↦ rw (e, put) (h, all.1)
    | inr e ↦ rw (e, put) (all.0, put-Entries k v m h all.1)
  ]

  pub at_key-Entries :
      (k : String) (v : V) (m : List (String × V)) → Entries m → at_key k m ≡ some v → P k v
  unfolding at_key
  at_key-Entries k v [] all h = cc h
  at_key-Entries k v ((j, w) ∷ m) all h = elim (Bool-cases (j === k)) [
    | inl e ↦
        let found : some w ≡ some v = rw e at h in
        subst (λ i. P i v) (===→eq j k e) (subst (P j) (some_injective found) all.0)
    | inr e ↦ at_key-Entries k v m all.1 (rw e at h)
  ]
    where
      some_injective : {a b : V} → some a ≡ some b → a ≡ b
      some_injective same = cc same

  pub values-All :
      (Q : V → Type 0) (m : List (String × V))
      → ((k : String) (v : V) → P k v → Q v)
      → Entries m
      → All Q (values m)
  unfolding values
  values-All Q [] each all = tt
  values-All Q ((k, v) ∷ m) each all = (each k v all.0, values-All Q m each all.1)

-- A grant is stored under this id.
abbrev pub Presents : List (String × SignedVc) → String → Type 0
Presents grants id = (grant : SignedVc) × (at_key id grants ≡ some grant)

put-Presents_self :
    (id : String) (grant : SignedVc) (grants : List (String × SignedVc))
    → Presents (put id grant grants) id
put-Presents_self id grant grants = (grant, at_key-put_self id grant grants)

put-Presents :
    (id : String) (grant : SignedVc) (grants : List (String × SignedVc)) (other : String)
    → Presents grants other
    → Presents (put id grant grants) other
put-Presents id grant grants other (found, here) = elim (Bool-cases (id === other)) [
  | inl e ↦ (grant, at_key-put id other grant grants ∙ rw e refl)
  | inr e ↦ (found, at_key-put id other grant grants ∙ rw e here)
]

add_grants-Presents :
    (found : List SignedVc) (grants : List (String × SignedVc)) (id : String)
    → Presents grants id
    → Presents (add_grants found grants) id
add_grants-Presents [] grants id h = h
add_grants-Presents (grant ∷ more) grants id h =
    add_grants-Presents more (put (body grant).id grant grants) id
      (put-Presents (body grant).id grant grants id h)

add_grants-All :
    (found : List SignedVc) (grants : List (String × SignedVc))
    → All (λ grant. Presents (add_grants found grants) (body grant).id) found
add_grants-All [] grants = tt
add_grants-All (grant ∷ more) grants =
    let shown = put (body grant).id grant grants in
    (
      add_grants-Presents more shown (body grant).id
          (put-Presents_self (body grant).id grant grants),
      add_grants-All more shown,
    )

all_grants-Presents :
    (holders : GrantsByHolder) (grants : List (String × SignedVc)) (id : String)
    → Presents grants id
    → Presents (all_grants holders grants) id
all_grants-Presents [] grants id h = h
all_grants-Presents ((did, found) ∷ more) grants id h =
    all_grants-Presents more (add_grants found grants) id (add_grants-Presents found grants id h)

-- Each grant of a holder is stored under its id in the end.
pub all_grants-Presents_held :
    (holders : GrantsByHolder) (grants : List (String × SignedVc)) (did : String) (grant : SignedVc)
    (more : List SignedVc)
    → at_key did holders ≡ some (grant ∷ more)
    → Presents (all_grants holders grants) (body grant).id
unfolding at_key
all_grants-Presents_held [] grants did grant more h = cc h
all_grants-Presents_held ((j, found) ∷ holders) grants did grant more h =
    elim (Bool-cases (j === did)) [
      | inl e ↦
          let same : some found ≡ some (grant ∷ more) = rw e at h in
          all_grants-Presents holders (add_grants found grants) (body grant).id (
            subst (λ f. Presents (add_grants f grants) (body grant).id) (sym (some_injective same))
              (add_grants-All (grant ∷ more) grants).0)
      | inr e ↦
          all_grants-Presents_held holders (add_grants found grants) did grant more (rw e at h)
    ]
  where
    some_injective : {a b : List SignedVc} → some a ≡ some b → a ≡ b
    some_injective same = cc same

pub at_key-values :
    (id : String) (grant : SignedVc) (grants : List (String × SignedVc))
    → at_key id grants ≡ some grant
    → Memᴰ grant (values grants)
unfolding at_key values
at_key-values id grant [] h = cc h
at_key-values id grant ((j, other) ∷ more) h = elim (Bool-cases (j === id)) [
  | inl e ↦ let same : some other ≡ some grant = rw e at h in Memᴰ.head (sym (some_injective same))
  | inr e ↦ Memᴰ.tail (at_key-values id grant more (rw e at h))
]
  where
    some_injective : {a b : SignedVc} → some a ≡ some b → a ≡ b
    some_injective same = cc same
