-- ===== src/Cache/Refinement.antt =====
-- A cache against the map that it stands in for, over any sequence of calls (src/cache).
use helix_core.Prelude.{
  ℕ, ◌≡◌, sym, ap, subst, String, some, List, [], ◌∷◌, Bool-cases, at_key, put, drop_key,
  at_key-put, at_key-drop, inl, inr, ◌===◌, ===→eq, ===_refl,
}
use helix_core.Cache.{ICache}

-- A call of a cache, with its time.
pub data Call (Value : Type 0) : Type 0 where
  gets : ℕ → String → Call Value
  sets : ℕ → String → Value → ℕ → Call Value
  deletes : String → Call Value

-- the cache after a sequence of calls
unfoldable pub run :
    {Value : Type 0} (cache_of : ICache Value) → List (Call Value) → cache_of.Cache → cache_of.Cache
run cache_of [] c = c
run cache_of (gets now key ∷ calls) c = run cache_of calls (cache_of.get now key c).1
run cache_of (sets now key value ttl ∷ calls) c =
    run cache_of calls (cache_of.set now key value ttl c)
run cache_of (deletes key ∷ calls) c = run cache_of calls (cache_of.delete key c)

-- the map after the same calls, in which nothing expires
unfoldable pub run_map :
    {Value : Type 0} → List (Call Value) → List (String × Value) → List (String × Value)
run_map [] m = m
run_map (gets now key ∷ calls) m = run_map calls m
run_map (sets now key value ttl ∷ calls) m = run_map calls (put key value m)
run_map (deletes key ∷ calls) m = run_map calls (drop_key key m)

module _ {Value : Type 0} (cache_of : ICache Value) where
  -- Whatever the cache might answer with, the map holds.
  abbrev pub Refines : cache_of.Cache → List (String × Value) → Type 0
  Refines c m =
      (key : String) (value : Value) → cache_of.MayHold c key value → at_key key m ≡ some value

  set_Refines :
      (now : ℕ) (key : String) (new : Value) (ttl : ℕ) (c : cache_of.Cache)
      (m : List (String × Value))
      → Refines c m
      → Refines (cache_of.set now key new ttl c) (put key new m)
  set_Refines now key new ttl c m refines other value h = elim (Bool-cases (key === other)) [
    | inl e ↦
        rw (at_key-put, e)
          (ap some (
            sym (
              cache_of.set_self now key new ttl c value (
                subst (λ k. cache_of.MayHold (cache_of.set now key new ttl c) k value)
                  (sym (===→eq key other e)) h))))
    | inr e ↦
        rw (at_key-put, e)
          (refines other value
            (cache_of.set_rest now key new ttl c other value (λ q. cc (===_refl key, e, q)) h))
  ]

  delete_Refines :
      (key : String) (c : cache_of.Cache) (m : List (String × Value))
      → Refines c m
      → Refines (cache_of.delete key c) (drop_key key m)
  delete_Refines key c m refines other value h = elim (Bool-cases (key === other)) [
    | inl e ↦ absurd (
        cache_of.delete_self key c value (
          subst (λ k. cache_of.MayHold (cache_of.delete key c) k value) (sym (===→eq key other e))
            h))
    | inr e ↦ rw (at_key-drop, e) (refines other value (cache_of.delete_rest key c other value h))
  ]

  run-Refines :
      (calls : List (Call Value)) (c : cache_of.Cache) (m : List (String × Value))
      → Refines c m
      → Refines (run cache_of calls c) (run_map calls m)
  unfolding run run_map
  run-Refines [] c m h = h
  run-Refines (gets now key ∷ calls) c m h =
      run-Refines calls _ m
        (λ other value may. h other value (cache_of.get_rest now key c other value may))
  run-Refines (sets now key value ttl ∷ calls) c m h =
      run-Refines calls _ _ (set_Refines now key value ttl c m h)
  run-Refines (deletes key ∷ calls) c m h = run-Refines calls _ _ (delete_Refines key c m h)

  -- After any calls, at any time, what a cache answers is what a map would hold after the same calls: the
  -- value last set for the key and not deleted since.
  pub get-Refines :
      (calls : List (Call Value)) (c : cache_of.Cache) (m : List (String × Value)) (now : ℕ)
      (key : String) (value : Value)
      → Refines c m
      → (cache_of.get now key (run cache_of calls c)).0 ≡ some value
      → at_key key (run_map calls m) ≡ some value
  get-Refines calls c m now key value h answered =
      run-Refines calls c m h key value
        (cache_of.get_answer now key (run cache_of calls c) value answered)
