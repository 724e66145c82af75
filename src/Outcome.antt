-- ===== src/Outcome.antt =====
-- What a call of the source ends with.
use uc_catalog.Base.{◌≡◌, refl, subst, ◌≢◌, Bool, true, false, Option, none, some, if◌then◌else◌}

-- The exception classes that the source throws, and those of the library calls in it.
pub data Exception : Type 0 where
  not_implemented binder internal io invalid_input : Exception
  conversion out_of_range : Exception

-- `undefined` stands for undefined behaviour; `out_of_fuel` has no counterpart in the program.
pub data Outcome {ℓ} (A : Type ℓ) : Type ℓ where
  ok : A → Outcome A
  throws : Exception → Outcome A
  undefined out_of_fuel : Outcome A

-- What follows a call runs on its value; every other end is passed on.
infixl 5 ◌>>=◌
abbrev pub ◌>>=◌ {ℓ κ} :
    {A : Type ℓ} {B : Type κ} (call : Outcome A) (next : A → Outcome B) → Outcome B
out_of_fuel >>= next = out_of_fuel
undefined >>= next = undefined
throws x >>= next = throws x
ok value >>= next = next value

infixl 5 ◌>>◌
abbrev pub ◌>>◌ {ℓ κ} : {A : Type ℓ} {B : Type κ} (call : Outcome A) → Outcome B → Outcome B
call >> after = call >>= λ _. after

-- A chain keeps within its fuel if its first part does, and what follows each of its values.
pub >>=-ne-out_of_fuel {ℓ κ} :
    {A : Type ℓ} {B : Type κ} (m : Outcome A) (f : A → Outcome B)
    → m ≢ out_of_fuel
    → ((a : A) → m ≡ ok a → f a ≢ out_of_fuel)
    → (m >>= f) ≢ out_of_fuel
>>=-ne-out_of_fuel (ok a) f h k = k a refl
>>=-ne-out_of_fuel (throws e) f h k = λ p. cc
>>=-ne-out_of_fuel undefined f h k = λ p. cc
>>=-ne-out_of_fuel out_of_fuel f h k = λ p. h refl

pub if-ne-out_of_fuel {ℓ} :
    {A : Type ℓ} (b : Bool) {x y : Outcome A}
    → (b ≡ true → x ≢ out_of_fuel)
    → y ≢ out_of_fuel
    → (if b then x else y) ≢ out_of_fuel
if-ne-out_of_fuel true hx hy = hx refl
if-ne-out_of_fuel false hx hy = hy

pub option-ne-out_of_fuel {ℓ κ} :
    {A : Type ℓ} {B : Type κ} (o : Option A) {x : Outcome B} {f : A → Outcome B}
    → x ≢ out_of_fuel
    → ((a : A) → o ≡ some a → f a ≢ out_of_fuel)
    → elim o [ none ↦ x | some a ↦ f a ] ≢ out_of_fuel
option-ne-out_of_fuel none hx hf = hx
option-ne-out_of_fuel (some a) hx hf = hf a refl

-- A chain that returns a value has a first part that returned one.
pub >>=-eq-ok {ℓ κ} :
    {A : Type ℓ} {B : Type κ} (call : Outcome A) (next : A → Outcome B) {result : B}
    → (call >>= next) ≡ ok result
    → (value : A) × (call ≡ ok value) × (next value ≡ ok result)
>>=-eq-ok out_of_fuel next returned = cc
>>=-eq-ok undefined next returned = cc
>>=-eq-ok (throws x) next returned = cc
>>=-eq-ok (ok value) next returned = (value, refl, returned)

-- Whatever value the call returns has the property.
pub Returns {ℓ κ} : {A : Type ℓ} → (A → Type κ) → Outcome A → Type κ
Returns P (ok a) = P a
Returns P (throws x) = Unit
Returns P undefined = Unit
Returns P out_of_fuel = Unit

pub Returns-ok {ℓ κ} : {A : Type ℓ} (P : A → Type κ) {a : A} → P a → Returns P (ok a)
unfolding Returns
Returns-ok P h = h

pub Returns-throws {ℓ κ} : {A : Type ℓ} (P : A → Type κ) (x : Exception) → Returns P (throws x)
unfolding Returns
Returns-throws P x = tt

pub Returns-out_of_fuel {ℓ κ} : {A : Type ℓ} (P : A → Type κ) → Returns P out_of_fuel
unfolding Returns
Returns-out_of_fuel P = tt

pub Returns-eq {ℓ κ} :
    {A : Type ℓ} (P : A → Type κ) {m : Outcome A} {a : A} → Returns P m → m ≡ ok a → P a
unfolding Returns
Returns-eq P h e = subst (Returns P) e h

pub >>=-Returns {ℓ κ μ ν} :
    {A : Type ℓ} {B : Type κ} (P : A → Type μ) (Q : B → Type ν) (m : Outcome A) (f : A → Outcome B)
    → Returns P m
    → ((a : A) → P a → Returns Q (f a))
    → Returns Q (m >>= f)
unfolding Returns
>>=-Returns P Q (ok a) f h k = k a h
>>=-Returns P Q (throws x) f h k = tt
>>=-Returns P Q undefined f h k = tt
>>=-Returns P Q out_of_fuel f h k = tt

pub if-Returns {ℓ κ} :
    {A : Type ℓ} (P : A → Type κ) (b : Bool) (x y : Outcome A)
    → Returns P x
    → Returns P y
    → Returns P (if b then x else y)
if-Returns P true x y h g = h
if-Returns P false x y h g = g

pub option-Returns {ℓ κ μ} :
    {A : Type ℓ} {B : Type κ} (P : B → Type μ) (o : Option A) (x : Outcome B) (f : A → Outcome B)
    → Returns P x
    → ((a : A) → Returns P (f a))
    → Returns P (elim o [ none ↦ x | some a ↦ f a ])
option-Returns P none x f h g = h
option-Returns P (some a) x f h g = g a

-- Nothing is known of the values.
pub any-Returns {ℓ} : {A : Type ℓ} (m : Outcome A) → Returns (λ _. Unit {0}) m
unfolding Returns
any-Returns (ok a) = tt
any-Returns (throws x) = tt
any-Returns undefined = tt
any-Returns out_of_fuel = tt
