-- ===== src/Cache/Layers.antt =====
-- `TwoLayerCache` (src/cache) does what `ICache` asks, over any second layer that does.
use helix_core.Prelude.{
  subst, ℕ, ◌≡◌, ◌≢◌, sym, ap, ◌⊎◌, inl, inr, String, Option, none, some, ===→eq, min,
}
use helix_core.Cache.{
  after_first, refill, ask_second, ICache, Store, get, Layers, get_layered, set_layered,
  delete_layered,
}
use helix_core.Cache.Laws.{
  Holds, set_Holds, in_process_answer, in_process_rest, in_process_set_self, in_process_set_rest,
  in_process_delete_self, in_process_delete_rest,
}

module _ {Value : Type 0} (shared : ICache Value) (l1_ttl l2_ttl : ℕ) where
  abbrev pub SecondHolds : Option shared.Cache → String → Value → Type 0
  SecondHolds none key value = ⊥
  SecondHolds (some l2) key value = shared.MayHold l2 key value

  abbrev pub LayersHold : Layers shared l1_ttl l2_ttl → String → Value → Type 0
  LayersHold (l1, l2) key value = Holds l1 key value ⊎ SecondHolds l2 key value

  refill_Holds :
      (now : ℕ) (key : String) (l1 : Store Value) (l2 : shared.Cache)
      (asked : Option Value × shared.Cache)
      → ((value : Value) → asked.0 ≡ some value → shared.MayHold l2 key value)
      → ((other : String) (value : Value)
          → shared.MayHold asked.1 other value
          → shared.MayHold l2 other value)
      → ((value : Value)
          → (refill shared l1_ttl l2_ttl now key l1 asked).0 ≡ some value
          → LayersHold (l1, some l2) key value)
        × ((other : String) (value : Value)
            → LayersHold (refill shared l1_ttl l2_ttl now key l1 asked).1 other value
            → LayersHold (l1, some l2) other value)
  unfolding refill
  refill_Holds now key l1 l2 (none, l2') answered rest = (
    λ value h. cc h,
    λ other value h. elim h [ inl first ↦ inl first | inr second ↦ inr (rest other value second) ],
  )
  refill_Holds now key l1 l2 (some v, l2') answered rest = (
    λ value h. inr (answered value h),
    λ other value h. elim h [
      | inl first ↦ elim (set_Holds now key v l1_ttl l1 other value first) [
        | inl (e, same) ↦ inr (
            subst (λ k. shared.MayHold l2 k value) (===→eq key other e)
              (answered value (ap some (sym same))))
        | inr (e, old) ↦ inl old
      ]
      | inr second ↦ inr (rest other value second)
    ],
  )

  ask_second_Holds :
      (now : ℕ) (key : String) (l1 : Store Value) (l2 : Option shared.Cache)
      → ((value : Value)
          → (ask_second shared l1_ttl l2_ttl now key l1 l2).0 ≡ some value
          → LayersHold (l1, l2) key value)
        × ((other : String) (value : Value)
            → LayersHold (ask_second shared l1_ttl l2_ttl now key l1 l2).1 other value
            → LayersHold (l1, l2) other value)
  unfolding ask_second
  ask_second_Holds now key l1 none = (λ value h. cc h, λ other value h. h)
  ask_second_Holds now key l1 (some l2) =
      refill_Holds now key l1 l2 (shared.get now key l2) (shared.get_answer now key l2)
        (shared.get_rest now key l2)

  after_first-Holds :
      (now : ℕ) (key : String) (l1 : Store Value) (l2 : Option shared.Cache)
      (asked : Option Value × Store Value)
      → ((value : Value) → asked.0 ≡ some value → Holds l1 key value)
      → ((other : String) (value : Value) → Holds asked.1 other value → Holds l1 other value)
      → ((value : Value)
          → (after_first shared l1_ttl l2_ttl now key asked l2).0 ≡ some value
          → LayersHold (l1, l2) key value)
        × ((other : String) (value : Value)
            → LayersHold (after_first shared l1_ttl l2_ttl now key asked l2).1 other value
            → LayersHold (l1, l2) other value)
  unfolding after_first
  after_first-Holds now key l1 l2 (some v, l1') answered rest = (
    λ value h. inl (answered value h),
    λ other value h. elim h [ inl first ↦ inl (rest other value first) | inr second ↦ inr second ],
  )
  after_first-Holds now key l1 l2 (none, l1') answered rest =
      let (ans, others) = ask_second_Holds now key l1' l2 in
      (
        λ value h. widen key value (ans value h),
        λ other value h. widen other value (others other value h),
      )
    where
      widen :
          (k : String) (value : Value) → LayersHold (l1', l2) k value → LayersHold (l1, l2) k value
      widen k value (inl first) = inl (rest k value first)
      widen k value (inr second) = inr second

  get_layered_Holds :
      (now : ℕ) (key : String) (layers : Layers shared l1_ttl l2_ttl)
      → ((value : Value)
          → (get_layered shared l1_ttl l2_ttl now key layers).0 ≡ some value
          → LayersHold layers key value)
        × ((other : String) (value : Value)
            → LayersHold (get_layered shared l1_ttl l2_ttl now key layers).1 other value
            → LayersHold layers other value)
  unfolding get_layered
  get_layered_Holds now key (l1, l2) =
      after_first-Holds now key l1 l2 (get now key l1) (in_process_answer now key l1)
        (in_process_rest now key l1)

  pub layers_answer :
      (now : ℕ) (key : String) (layers : Layers shared l1_ttl l2_ttl) (value : Value)
      → (get_layered shared l1_ttl l2_ttl now key layers).0 ≡ some value
      → LayersHold layers key value
  layers_answer now key layers = (get_layered_Holds now key layers).0

  pub layers_rest :
      (now : ℕ) (key : String) (layers : Layers shared l1_ttl l2_ttl) (other : String)
      (value : Value)
      → LayersHold (get_layered shared l1_ttl l2_ttl now key layers).1 other value
      → LayersHold layers other value
  layers_rest now key layers = (get_layered_Holds now key layers).1

  pub layers_set_self :
      (now : ℕ) (key : String) (new : Value) (ttl : ℕ) (layers : Layers shared l1_ttl l2_ttl)
      (value : Value)
      → LayersHold (set_layered shared l1_ttl l2_ttl now key new ttl layers) key value
      → value ≡ new
  unfolding set_layered
  layers_set_self now key new ttl (l1, l2) value (inl first) =
      in_process_set_self now key new (min ttl l1_ttl) l1 value first
  layers_set_self now key new ttl (l1, none) value (inr second) = absurd second
  layers_set_self now key new ttl (l1, some l2) value (inr second) =
      shared.set_self now key new (min ttl l2_ttl) l2 value second

  pub layers_set_rest :
      (now : ℕ) (key : String) (new : Value) (ttl : ℕ) (layers : Layers shared l1_ttl l2_ttl)
      (other : String) (value : Value)
      → key ≢ other
      → LayersHold (set_layered shared l1_ttl l2_ttl now key new ttl layers) other value
      → LayersHold layers other value
  unfolding set_layered
  layers_set_rest now key new ttl (l1, l2) other value apart (inl first) =
      inl (in_process_set_rest now key new (min ttl l1_ttl) l1 other value apart first)
  layers_set_rest now key new ttl (l1, none) other value apart (inr second) = inr second
  layers_set_rest now key new ttl (l1, some l2) other value apart (inr second) =
      inr (shared.set_rest now key new (min ttl l2_ttl) l2 other value apart second)

  pub layers_delete_self :
      (key : String) (layers : Layers shared l1_ttl l2_ttl) (value : Value)
      → LayersHold (delete_layered shared l1_ttl l2_ttl key layers) key value
      → ⊥
  unfolding delete_layered
  layers_delete_self key (l1, l2) value (inl first) = in_process_delete_self key l1 value first
  layers_delete_self key (l1, none) value (inr second) = second
  layers_delete_self key (l1, some l2) value (inr second) = shared.delete_self key l2 value second

  pub layers_delete_rest :
      (key : String) (layers : Layers shared l1_ttl l2_ttl) (other : String) (value : Value)
      → LayersHold (delete_layered shared l1_ttl l2_ttl key layers) other value
      → LayersHold layers other value
  unfolding delete_layered
  layers_delete_rest key (l1, l2) other value (inl first) =
      inl (in_process_delete_rest key l1 other value first)
  layers_delete_rest key (l1, none) other value (inr second) = inr second
  layers_delete_rest key (l1, some l2) other value (inr second) =
      inr (shared.delete_rest key l2 other value second)

  -- `TwoLayerCache`
  abbrev pub two_layer : ICache Value
  two_layer = record {
    Cache = Layers shared l1_ttl l2_ttl;
    get = get_layered shared l1_ttl l2_ttl;
    set = set_layered shared l1_ttl l2_ttl;
    delete = delete_layered shared l1_ttl l2_ttl;
    MayHold = LayersHold;
    get_answer = layers_answer;
    get_rest = layers_rest;
    set_self = layers_set_self;
    set_rest = layers_set_rest;
    delete_self = layers_delete_self;
    delete_rest = layers_delete_rest;
  }
