-- ===== src/Result.antt =====
-- The outcome of an asynchronous call of the program: the value that the promise resolves to, or
-- what it is rejected with. `await` is the bind.
use helix_core.Prelude.{Bool, true, false, ◌≡◌, refl, ◌⊎◌, inl, inr}
use helix_core.Errors.{Thrown}

pub data Result {ℓ} (Value : Type ℓ) : Type ℓ where
  throw : Thrown → Result Value
  ok : Value → Result Value

-- `if (test) throw e;`
abbrev pub throw_if : Bool → Thrown → Result (Unit {0})
throw_if true thrown = throw thrown
throw_if false thrown = ok tt

infixl 5 ◌>>=◌ ◌>>◌
abbrev pub ◌>>◌ {ℓ} :
    {First : Type 0} {Second : Type ℓ} → Result First → Result Second → Result Second
throw thrown >> next = throw thrown
ok ignored >> next = next

abbrev pub ◌>>=◌ {ℓ κ} :
    {First : Type ℓ} {Second : Type κ} → Result First → (First → Result Second) → Result Second
throw thrown >>= next = throw thrown
ok value >>= next = next value

-- Inversion of a bind that resolves.
pub >>=-eq-ok {ℓ κ} :
    {First : Type ℓ} {Second : Type κ} (first : Result First) (next : First → Result Second)
    {result : Second}
    → (first >>= next) ≡ ok result
    → (value : First) × (first ≡ ok value) × (next value ≡ ok result)
>>=-eq-ok (throw thrown) next resolves = cc
>>=-eq-ok (ok value) next resolves = (value, refl, resolves)

pub throw_if-eq-ok : (b : Bool) (e : Thrown) → throw_if b e ≡ ok tt → b ≡ false
throw_if-eq-ok true e h = cc
throw_if-eq-ok false e h = refl

pub >>-eq-ok {ℓ} :
    {A : Type 0} {B : Type ℓ} (m : Result A) (k : Result B) {b : B}
    → (m >> k) ≡ ok b
    → (a : A) × (m ≡ ok a) × (k ≡ ok b)
>>-eq-ok (ok a) k h = (a, refl, h)
>>-eq-ok (throw e) k h = cc

-- Inversion of a guard and of what follows it.
pub guard-eq-ok {ℓ} :
    {B : Type ℓ} (b : Bool) (e : Thrown) (k : Result B) {v : B}
    → (throw_if b e >> k) ≡ ok v
    → (b ≡ false) × (k ≡ ok v)
guard-eq-ok true e k h = cc
guard-eq-ok false e k h = (refl, h)

-- Inversion of a bind that is rejected: by its first part, or after it.
pub >>=-eq-throw {ℓ κ} :
    {A : Type ℓ} {B : Type κ} (m : Result A) (f : A → Result B) {e : Thrown}
    → (m >>= f) ≡ throw e
    → (m ≡ throw e) ⊎ ((a : A) × (m ≡ ok a) × (f a ≡ throw e))
>>=-eq-throw (ok a) f h = inr (a, refl, h)
>>=-eq-throw (throw d) f h = inl (cc)

pub >>-eq-throw {ℓ} :
    {A : Type 0} {B : Type ℓ} (m : Result A) (k : Result B) {e : Thrown}
    → (m >> k) ≡ throw e
    → (m ≡ throw e) ⊎ ((a : A) × (m ≡ ok a) × (k ≡ throw e))
>>-eq-throw (ok a) k h = inr (a, refl, h)
>>-eq-throw (throw d) k h = inl (cc)

pub ok-injective {ℓ} : {Value : Type ℓ} {a b : Value} → ok a ≡ ok b → a ≡ b
ok-injective same = cc

pub Result-cases {ℓ} :
    {Value : Type ℓ} (outcome : Result Value)
    → ((thrown : Thrown) × (outcome ≡ throw thrown)) ⊎ ((value : Value) × (outcome ≡ ok value))
Result-cases (throw thrown) = inl (thrown, refl)
Result-cases (ok value) = inr (value, refl)
