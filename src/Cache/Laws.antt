-- ===== src/Cache/Laws.antt =====
-- `InProcessCache` and `NoopCache` (src/cache) do what `ICache` asks.
use helix_core.Prelude.{
  ℕ, ◌≡◌, ◌≢◌, sym, ◌∙◌, ap, ◌⊎◌, inl, inr, String, none, some, true, false, ltb, leb, Bool-cases,
  Option-cases, at_key, put, drop_key, at_key-put, at_key-drop, ◌===◌, ===→eq, ===_refl, arith,
}
use helix_core.Cache.{answer, ICache, CacheEntry, Store, get, set, delete}

module _ {Value : Type 0} where
  -- An entry for the key is stored, expired or not.
  abbrev pub Holds : Store Value → String → Value → Type 0
  Holds store key value =
      (entry : CacheEntry Value) × (at_key key store ≡ some entry) × (entry.value ≡ value)

  drop_Holds :
      (key : String) (store : Store Value) (other : String) (value : Value)
      → Holds (drop_key key store) other value
      → ((key === other) ≡ false) × Holds store other value
  drop_Holds key store other value (entry, found, same) = elim (Bool-cases (key === other)) [
    | inl e ↦ cc (found, at_key-drop key other store, e)
    | inr e ↦ (e, (entry, ground (arith, found, at_key-drop key other store, e), same))
  ]

  put-Holds :
      (key : String) (entry : CacheEntry Value) (store : Store Value) (other : String)
      (value : Value)
      → Holds (put key entry store) other value
      → (((key === other) ≡ true) × (entry.value ≡ value))
        ⊎ (((key === other) ≡ false) × Holds store other value)
  put-Holds key entry store other value (e', found, same) = elim (Bool-cases (key === other)) [
    | inl e ↦
        inl (
          e,
          ap (λ (x : CacheEntry Value). x.value) (first e' (rw (at_key-put, e) at found)) ∙ same,
        )
    | inr e ↦ inr (e, (e', rw (at_key-put, e) at found, same))
  ]
    where
      first : (e' : CacheEntry Value) → some entry ≡ some e' → entry ≡ e'
      first e' h = cc

unequal : (key other : String) → key ≢ other → (key === other) ≡ true → ⊥
unequal key other h e = h (===→eq key other e)

self_true : (key : String) → (key === key) ≡ false → ⊥
self_true key e = cc (===_refl key, e)

module _ {Value : Type 0} where
  pub set_Holds :
      (now : ℕ) (key : String) (new : Value) (ttl : ℕ) (store : Store Value) (other : String)
      (value : Value)
      → Holds (set now key new ttl store) other value
      → (((key === other) ≡ true) × (value ≡ new))
        ⊎ (((key === other) ≡ false) × Holds store other value)
  unfolding set
  set_Holds now key new ttl store other value h = elim (Bool-cases (leb ttl 0)) [
    | inl e ↦ inr (drop_Holds key store other value (rw e at h))
    | inr e ↦ elim (put-Holds key _ store other value (rw e at h)) [
      | inl (same, v) ↦ inl (same, sym v)
      | inr old ↦ inr old
    ]
  ]

  get_Holds :
      (now : ℕ) (key : String) (store : Store Value)
      → ((value : Value) → (get now key store).0 ≡ some value → Holds store key value)
        × ((other : String) (value : Value)
            → Holds (get now key store).1 other value
            → Holds store other value)
  unfolding get
  get_Holds now key store = elim (Option-cases (at_key key store)) [
    | inl absent ↦
        (λ value h. cc (rw (absent, answer) at h), λ other value h. rw (absent, answer) at h)
    | inr (entry, found) ↦ elim (Bool-cases (ltb entry.expires_at now)) [
      | inl late ↦ (
        λ value h. cc (rw (found, late) at h),
        λ other value h. (drop_Holds key store other value (rw (found, late) at h)).1,
      )
      | inr live ↦ (
        λ value h. (entry, found, some_eq entry.value value (rw (found, live) at h)),
        λ other value h. rw (found, live) at h,
      )
    ]
  ]
    where
      some_eq : (a b : Value) → some a ≡ some b → a ≡ b
      some_eq a b h = cc

module _ {Value : Type 0} where
  pub in_process_answer :
      (now : ℕ) (key : String) (store : Store Value) (value : Value)
      → (get now key store).0 ≡ some value
      → Holds store key value
  in_process_answer now key store = (get_Holds now key store).0

  pub in_process_rest :
      (now : ℕ) (key : String) (store : Store Value) (other : String) (value : Value)
      → Holds (get now key store).1 other value
      → Holds store other value
  in_process_rest now key store = (get_Holds now key store).1

  pub in_process_set_self :
      (now : ℕ) (key : String) (new : Value) (ttl : ℕ) (store : Store Value) (value : Value)
      → Holds (set now key new ttl store) key value
      → value ≡ new
  in_process_set_self now key new ttl store value h =
      elim (set_Holds now key new ttl store key value h) [
        | inl (e, v) ↦ v
        | inr (e, old) ↦ absurd (self_true key e)
      ]

  pub in_process_set_rest :
      (now : ℕ) (key : String) (new : Value) (ttl : ℕ) (store : Store Value) (other : String)
      (value : Value)
      → key ≢ other
      → Holds (set now key new ttl store) other value
      → Holds store other value
  in_process_set_rest now key new ttl store other value apart h =
      elim (set_Holds now key new ttl store other value h) [
        | inl (e, v) ↦ absurd (unequal key other apart e)
        | inr (e, old) ↦ old
      ]

  pub in_process_delete_self :
      (key : String) (store : Store Value) (value : Value) → Holds (delete key store) key value → ⊥
  unfolding delete
  in_process_delete_self key store value h = self_true key (drop_Holds key store key value h).0

  pub in_process_delete_rest :
      (key : String) (store : Store Value) (other : String) (value : Value)
      → Holds (delete key store) other value
      → Holds store other value
  unfolding delete
  in_process_delete_rest key store other value h = (drop_Holds key store other value h).1

  -- `InProcessCache`
  abbrev pub in_process : ICache Value
  in_process = record {
    Cache = Store Value;
    get = get;
    set = set;
    delete = delete;
    MayHold = Holds;
    get_answer = in_process_answer;
    get_rest = in_process_rest;
    set_self = in_process_set_self;
    set_rest = in_process_set_rest;
    delete_self = in_process_delete_self;
    delete_rest = in_process_delete_rest;
  }

  pub no_answer : (value : Value) → none ≡ some value → ⊥
  no_answer value h = cc

  -- `NoopCache`
  abbrev pub no_op : ICache Value
  no_op = record {
    Cache = Unit {0};
    get = λ now key cache. (none, cache);
    set = λ now key value ttl cache. cache;
    delete = λ key cache. cache;
    MayHold = λ cache key value. ⊥;
    get_answer = λ now key cache value h. no_answer value h;
    get_rest = λ now key cache other value h. h;
    set_self = λ now key new ttl cache value h. absurd h;
    set_rest = λ now key new ttl cache other value apart h. h;
    delete_self = λ key cache value h. h;
    delete_rest = λ key cache other value h. h;
  }
