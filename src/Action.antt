-- ===== src/Action.antt =====
-- An `async` method of a service over its state: what it resolves to or is rejected with, and the state
-- that it leaves. What was written before a rejection stays written.
use helix_core.Prelude.{◌≡◌, refl, Bool, true, false}
use helix_core.Errors.{Thrown}
use helix_core.Result.{Result, ok, throw}

abbrev pub Action {ℓ} : Type 0 → Type ℓ → Type ℓ
Action State Value = State → Result Value × State

abbrev pub resolve {ℓ} : {State : Type 0} {Value : Type ℓ} → Value → Action State Value
resolve value state = (ok value, state)

abbrev pub reject {ℓ} : {State : Type 0} {Value : Type ℓ} → Thrown → Action State Value
reject thrown state = (throw thrown, state)

-- a call that leaves this state alone
abbrev pub call {ℓ} : {State : Type 0} {Value : Type ℓ} → Result Value → Action State Value
call outcome state = (outcome, state)

abbrev pub reject_if : {State : Type 0} → Bool → Thrown → Action State (Unit {0})
reject_if true thrown = reject thrown
reject_if false thrown = resolve tt

abbrev pub read {ℓ} : {State : Type 0} {Value : Type ℓ} → (State → Value) → Action State Value
read view state = (ok (view state), state)

abbrev pub write : {State : Type 0} → (State → State) → Action State (Unit {0})
write change state = (ok tt, change state)

abbrev pub continue {ℓ κ} :
    {State : Type 0} {First : Type ℓ} {Second : Type κ}
    → Result First × State
    → (First → Action State Second)
    → Result Second × State
continue (ok value, state) next = next value state
continue (throw thrown, state) next = (throw thrown, state)

infixl 5 ◌>>=◌ ◌>>◌
abbrev pub ◌>>=◌ {ℓ κ} :
    {State : Type 0} {First : Type ℓ} {Second : Type κ}
    → Action State First
    → (First → Action State Second)
    → Action State Second
◌>>=◌ first next state = continue (first state) next

abbrev pub ◌>>◌ {ℓ κ} :
    {State : Type 0} {First : Type ℓ} {Second : Type κ}
    → Action State First
    → Action State Second
    → Action State Second
◌>>◌ first next state = continue (first state) (λ ignored. next)

module _ {State : Type 0} where
  -- What a step makes of a state in which it is run: one condition where it resolves, one where it is
  -- rejected.
  abbrev pub After {ℓ} :
      {Value : Type ℓ} → (Value → State → Type 0) → (State → Type 0) → Result Value × State → Type 0
  After Good Bad (ok value, state) = Good value state
  After Good Bad (throw thrown, state) = Bad state

  -- An invariant of a step, however it ends.
  abbrev pub Keeps {ℓ} : {Value : Type ℓ} → (State → Type 0) → Action State Value → Type 0
  Keeps Holds action = (state : State) → Holds state → Holds (action state).1

  pub continue-Keeps {ℓ κ} :
      {First : Type ℓ} {Second : Type κ} (Holds : State → Type 0) (outcome : Result First × State)
      (next : First → Action State Second)
      → Holds outcome.1
      → ((value : First) → Keeps Holds (next value))
      → Holds (continue outcome next).1
  continue-Keeps Holds (ok value, state) next now later = later value state now
  continue-Keeps Holds (throw thrown, state) next now later = now

  pub continue-eq-ok {ℓ κ} :
      {First : Type ℓ} {Second : Type κ} (outcome : Result First × State)
      (next : First → Action State Second) {result : Second} {end : State}
      → continue outcome next ≡ (ok result, end)
      → (value : First) × (middle : State) × (outcome ≡ (ok value, middle))
        × (next value middle ≡ (ok result, end))
  continue-eq-ok (ok value, state) next h = (value, state, refl, h)
  continue-eq-ok (throw thrown, state) next h = cc h

  pub call-eq-ok {ℓ κ} :
      {First : Type ℓ} {Second : Type κ} (outcome : Result First) (state : State)
      (next : First → Action State Second) {result : Second} {end : State}
      → continue (outcome, state) next ≡ (ok result, end)
      → (value : First) × (outcome ≡ ok value) × (next value state ≡ (ok result, end))
  call-eq-ok (ok value) state next h = (value, refl, h)
  call-eq-ok (throw thrown) state next h = cc h

  pub reject_if-eq-ok {ℓ} :
      {Second : Type ℓ} (test : Bool) (thrown : Thrown) (state : State)
      (next : Unit {0} → Action State Second) {result : Second} {end : State}
      → continue (reject_if test thrown state) next ≡ (ok result, end)
      → (test ≡ false) × (next tt state ≡ (ok result, end))
  reject_if-eq-ok true thrown state next h = cc h
  reject_if-eq-ok false thrown state next h = (refl, h)

  pub >>=-Keeps {ℓ κ} :
      {First : Type ℓ} {Second : Type κ} (Holds : State → Type 0) (first : Action State First)
      (next : First → Action State Second)
      → Keeps Holds first
      → ((value : First) → Keeps Holds (next value))
      → Keeps Holds (first >>= next)
  >>=-Keeps Holds first next now later state h =
      continue-Keeps Holds (first state) next (now state h) later

  pub >>-Keeps {ℓ κ} :
      {First : Type ℓ} {Second : Type κ} (Holds : State → Type 0) (first : Action State First)
      (next : Action State Second)
      → Keeps Holds first
      → Keeps Holds next
      → Keeps Holds (first >> next)
  >>-Keeps Holds first next now later state h =
      continue-Keeps Holds (first state) (λ ignored. next) (now state h) (λ ignored. later)
