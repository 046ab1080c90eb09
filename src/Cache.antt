-- ===== src/Cache.antt =====
-- src/cache: what the services ask of a cache, and the implementations. Time is an argument of each call.
pub mod Laws
pub mod Layers
pub mod Refinement
pub mod Agreement
mod Tests
use helix_core.Prelude.{
  ℕ, ◌+◌, ◌*◌, ◌≡◌, ◌≢◌, String, Option, none, some, List, [], ◌∷◌, Bool, true, false, ltb, leb,
  if◌then◌else◌, min, at_key, put, drop_key,
}

-- `ICache<T>`, over any state: `MayHold` says which values a cache might still answer with. An entry may
-- vanish at any time, but a cache answers with nothing else than what was last set and not deleted.
pub record ICache (Value : Type 0) : Type 1 where
  pub Cache : Type 0
  pub get : ℕ → String → Cache → Option Value × Cache
  pub set : ℕ → String → Value → ℕ → Cache → Cache
  pub delete : String → Cache → Cache
  pub MayHold : Cache → String → Value → Type 0
  pub get_answer :
      (now : ℕ) (key : String) (cache : Cache) (value : Value)
      → (get now key cache).0 ≡ some value
      → MayHold cache key value
  pub get_rest :
      (now : ℕ) (key : String) (cache : Cache) (other : String) (value : Value)
      → MayHold (get now key cache).1 other value
      → MayHold cache other value
  pub set_self :
      (now : ℕ) (key : String) (new : Value) (ttl : ℕ) (cache : Cache) (value : Value)
      → MayHold (set now key new ttl cache) key value
      → value ≡ new
  pub set_rest :
      (now : ℕ) (key : String) (new : Value) (ttl : ℕ) (cache : Cache) (other : String)
      (value : Value)
      → key ≢ other
      → MayHold (set now key new ttl cache) other value
      → MayHold cache other value
  pub delete_self :
      (key : String) (cache : Cache) (value : Value) → MayHold (delete key cache) key value → ⊥
  pub delete_rest :
      (key : String) (cache : Cache) (other : String) (value : Value)
      → MayHold (delete key cache) other value
      → MayHold cache other value

-- `CacheEntry<T>`
pub record CacheEntry (Value : Type 0) : Type 0 where
  pub value : Value
  pub expires_at : ℕ

-- `InProcessCache`: its `store`
abbrev pub Store : Type 0 → Type 0
Store Value = List (String × CacheEntry Value)

module _ {Value : Type 0} where
  -- the rest of `InProcessCache.get`, given `store.get(key)`
  answer : ℕ → String → Option (CacheEntry Value) → Store Value → Option Value × Store Value
  answer now key none store = (none, store)
  answer now key (some entry) store =
      if ltb entry.expires_at now then (none, drop_key key store) else (some entry.value, store)

  -- `InProcessCache.get`
  unfoldable pub get : ℕ → String → Store Value → Option Value × Store Value
  unfolding answer
  get now key store = answer now key (at_key key store) store

  -- `InProcessCache.set`
  unfoldable pub set : ℕ → String → Value → ℕ → Store Value → Store Value
  set now key value ttl_seconds store =
      if leb ttl_seconds 0
      then drop_key key store
      else put key (record { value = value; expires_at = now + ttl_seconds * 1000 }) store

  -- `InProcessCache.delete`
  unfoldable pub delete : String → Store Value → Store Value
  delete key store = drop_key key store

-- The fields of a `TwoLayerCache`: its own store, the shared cache behind it, and the two lifetimes.
module _ {Value : Type 0} (shared : ICache Value) (l1_ttl_seconds l2_ttl_seconds : ℕ) where
  abbrev pub Layers : Type 0
  Layers = Store Value × Option shared.Cache

  -- what `TwoLayerCache.get` makes of the second layer's answer
  refill : ℕ → String → Store Value → Option Value × shared.Cache → Option Value × Layers
  refill now key l1 (none, l2) = (none, (l1, some l2))
  refill now key l1 (some value, l2) = (some value, (set now key value l1_ttl_seconds l1, some l2))

  -- the second layer is asked, if there is one
  ask_second : ℕ → String → Store Value → Option shared.Cache → Option Value × Layers
  unfolding refill
  ask_second now key l1 none = (none, (l1, none))
  ask_second now key l1 (some l2) = refill now key l1 (shared.get now key l2)

  -- what `TwoLayerCache.get` makes of the first layer's answer
  after_first :
      ℕ → String → Option Value × Store Value → Option shared.Cache → Option Value × Layers
  unfolding ask_second
  after_first now key (some value, l1) l2 = (some value, (l1, l2))
  after_first now key (none, l1) l2 = ask_second now key l1 l2

  -- `TwoLayerCache.get`
  unfoldable pub get_layered : ℕ → String → Layers → Option Value × Layers
  unfolding after_first get
  get_layered now key (l1, l2) = after_first now key (get now key l1) l2

  -- `TwoLayerCache.set` and `delete` on the second layer
  set_second : ℕ → String → Value → ℕ → Option shared.Cache → Option shared.Cache
  set_second now key value ttl none = none
  set_second now key value ttl (some l2) =
      some (shared.set now key value (min ttl l2_ttl_seconds) l2)

  delete_second : String → Option shared.Cache → Option shared.Cache
  delete_second key none = none
  delete_second key (some l2) = some (shared.delete key l2)

  -- `TwoLayerCache.set`
  unfoldable pub set_layered : ℕ → String → Value → ℕ → Layers → Layers
  unfolding set_second set
  set_layered now key value ttl (l1, l2) =
      (set now key value (min ttl l1_ttl_seconds) l1, set_second now key value ttl l2)

  -- `TwoLayerCache.delete`
  unfoldable pub delete_layered : String → Layers → Layers
  unfolding delete_second delete
  delete_layered key (l1, l2) = (delete key l1, delete_second key l2)
