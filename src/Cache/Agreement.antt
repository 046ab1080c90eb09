-- ===== src/Cache/Agreement.antt =====
-- A cache in front of rows, under the same keys (src/cache/ICache.ts as the services use it): what it means
-- that the cache agrees with the rows, and which pairs of writes keep that.
use helix_core.Prelude.{
  ℕ, ◌≡◌, ◌≢◌, sym, ◌∙◌, subst, String, Option, some, List, true, false, ◌===◌, ===→eq, ===_refl,
  Bool-cases, inl, inr, at_key, put, at_key-put_self, at_key-put_ne,
}
use helix_core.Cache.{ICache}

-- `view` is the part of a row that is cached.
module _ {Value Row : Type 0} (caches : ICache Value) (view : Row → Value) where
  -- Whatever the cache might answer for a key is what the row of that key shows.
  abbrev pub Agree : List (String × Row) → caches.Cache → Type 0
  Agree rows cache =
      (key : String) (value : Value)
      → caches.MayHold cache key value
      → (entry : Row) × (at_key key rows ≡ some entry) × (view entry ≡ value)

  moved :
      (key other : String) (cache : caches.Cache) (value : Value)
      → (key === other) ≡ true
      → caches.MayHold cache other value
      → caches.MayHold cache key value
  moved key other cache value e h =
      subst (λ k. caches.MayHold cache k value) (sym (===→eq key other e)) h

  found_at :
      (key other : String) (rows : List (String × Row)) (entry : Row)
      → (key === other) ≡ true
      → at_key key rows ≡ some entry
      → at_key other rows ≡ some entry
  found_at key other rows entry e h = subst (λ k. at_key k rows ≡ some entry) (===→eq key other e) h

  differ : (key other : String) → (key === other) ≡ false → key ≢ other
  differ key other e q = cc (===_refl key, e, q)

  -- A row is written and what it shows is put into the cache.
  pub set_Agree :
      (now : ℕ) (key : String) (entry : Row) (ttl : ℕ) (rows : List (String × Row))
      (cache : caches.Cache)
      → Agree rows cache
      → Agree (put key entry rows) (caches.set now key (view entry) ttl cache)
  set_Agree now key entry ttl rows cache agree other value h = elim (Bool-cases (key === other)) [
    | inl e ↦ (
      entry,
      found_at key other (put key entry rows) entry e (at_key-put_self key entry rows),
      sym (caches.set_self now key (view entry) ttl cache value (moved key other _ value e h)),
    )
    | inr e ↦
        let apart = differ key other e in
        let (old, finds, same) =
          agree other value (caches.set_rest now key (view entry) ttl cache other value apart h) in
        (old, at_key-put_ne key other entry rows apart ∙ finds, same)
  ]

  -- What a row shows is put into the cache.
  pub refresh_Agree :
      (now : ℕ) (key : String) (entry : Row) (ttl : ℕ) (rows : List (String × Row))
      (cache : caches.Cache)
      → at_key key rows ≡ some entry
      → Agree rows cache
      → Agree rows (caches.set now key (view entry) ttl cache)
  refresh_Agree now key entry ttl rows cache finds agree other value h =
      elim (Bool-cases (key === other)) [
        | inl e ↦ (
          entry,
          found_at key other rows entry e finds,
          sym (caches.set_self now key (view entry) ttl cache value (moved key other _ value e h)),
        )
        | inr e ↦
            agree other value
              (caches.set_rest now key (view entry) ttl cache other value (differ key other e) h)
      ]

  -- A row is written and its key leaves the cache.
  pub delete_Agree :
      (key : String) (entry : Row) (rows : List (String × Row)) (cache : caches.Cache)
      → Agree rows cache
      → Agree (put key entry rows) (caches.delete key cache)
  delete_Agree key entry rows cache agree other value h = elim (Bool-cases (key === other)) [
    | inl e ↦ absurd (caches.delete_self key cache value (moved key other _ value e h))
    | inr e ↦
        let (old, finds, same) = agree other value (caches.delete_rest key cache other value h) in
        (old, at_key-put_ne key other entry rows (differ key other e) ∙ finds, same)
  ]

  -- A row is written and what it shows stays.
  pub same_Agree :
      (key : String) (entry old : Row) (rows : List (String × Row)) (cache : caches.Cache)
      → at_key key rows ≡ some old
      → view entry ≡ view old
      → Agree rows cache
      → Agree (put key entry rows) cache
  same_Agree key entry old rows cache finds text agree other value h =
      let (known, found, same) = agree other value h in
      elim (Bool-cases (key === other)) [
        | inl e ↦ (
          entry,
          found_at key other (put key entry rows) entry e (at_key-put_self key entry rows),
          text ∙ one_row (found_at key other rows old e finds) found ∙ same,
        )
        | inr e ↦ (known, at_key-put_ne key other entry rows (differ key other e) ∙ found, same)
      ]
    where
      one_row : {row : Option Row} {a b : Row} → row ≡ some a → row ≡ some b → view a ≡ view b
      one_row h g = cc

  -- A key leaves the cache.
  pub forget_Agree :
      (key : String) (rows : List (String × Row)) (cache : caches.Cache)
      → Agree rows cache
      → Agree rows (caches.delete key cache)
  forget_Agree key rows cache agree other value h =
      agree other value (caches.delete_rest key cache other value h)

  pub get_Agree :
      (now : ℕ) (key : String) (rows : List (String × Row)) (cache : caches.Cache)
      → Agree rows cache
      → Agree rows (caches.get now key cache).1
  get_Agree now key rows cache agree other value h =
      agree other value (caches.get_rest now key cache other value h)
