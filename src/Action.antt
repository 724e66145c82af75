-- ===== src/Action.antt =====
-- Calls that change a state: the state is kept as it stands when an exception is thrown.
use uc_catalog.Base.{◌≡◌, refl}
use uc_catalog.Outcome.{Outcome, ok, throws, undefined, out_of_fuel, Exception}

abbrev pub Action : Type 0 → Type 0 → Type 0
Action S A = S → Outcome A × S

module _ {S : Type 0} where
  abbrev pub pure : {A : Type 0} → A → Action S A
  pure a s = (ok a, s)

  abbrev pub fail : {A : Type 0} → Exception → Action S A
  fail e s = (throws e, s)

  -- A call that leaves the state alone.
  abbrev pub lift : {A : Type 0} → Outcome A → Action S A
  lift r s = (r, s)

  abbrev pub get : Action S S
  get s = (ok s, s)

  abbrev pub modify : (S → S) → Action S (Unit {0})
  modify f s = (ok tt, f s)

  abbrev pub continue : {A B : Type 0} → Outcome A × S → (A → Action S B) → Outcome B × S
  continue (ok a, s) f = f a s
  continue (throws e, s) f = (throws e, s)
  continue (undefined, s) f = (undefined, s)
  continue (out_of_fuel, s) f = (out_of_fuel, s)

  infixl 5 ◌>>=◌ ◌>>◌
  abbrev pub ◌>>=◌ : {A B : Type 0} → Action S A → (A → Action S B) → Action S B
  ◌>>=◌ m f s = continue (m s) f

  abbrev pub ◌>>◌ : {A B : Type 0} → Action S A → Action S B → Action S B
  ◌>>◌ m k s = continue (m s) (λ _. k)

  -- A property of the state that no step breaks holds whatever the outcome.
  pub continue_keeps {ℓ} :
      {A B : Type 0} (P : S → Type ℓ) (m : Outcome A × S) (f : A → Action S B)
      → P m.1
      → ((a : A) (s : S) → P s → P (f a s).1)
      → P (continue m f).1
  continue_keeps P (ok a, s) f h keep = keep a s h
  continue_keeps P (throws e, s) f h keep = h
  continue_keeps P (undefined, s) f h keep = h
  continue_keeps P (out_of_fuel, s) f h keep = h

  pub continue_assoc :
      {A B C : Type 0} (m : Outcome A × S) (f : A → Action S B) (g : B → Action S C)
      → continue (continue m f) g ≡ continue m (λ a s. continue (f a s) g)
  continue_assoc (ok a, s) f g = refl
  continue_assoc (throws e, s) f g = refl
  continue_assoc (undefined, s) f g = refl
  continue_assoc (out_of_fuel, s) f g = refl

  pub continue_cong :
      {A B : Type 0} (m : Outcome A × S) (f g : A → Action S B)
      → ((a : A) (s : S) → f a s ≡ g a s)
      → continue m f ≡ continue m g
  continue_cong (ok a, s) f g h = h a s
  continue_cong (throws e, s) f g h = refl
  continue_cong (undefined, s) f g h = refl
  continue_cong (out_of_fuel, s) f g h = refl

  -- A call that returns a value has a first part that returned one.
  pub continue-eq-ok :
      {A B : Type 0} (call : Outcome A × S) (next : A → Action S B) {result : B}
      → (continue call next).0 ≡ ok result
      → (value : A) × (s : S) × (call ≡ (ok value, s)) × ((next value s).0 ≡ ok result)
  continue-eq-ok (out_of_fuel, s) next returned = cc
  continue-eq-ok (undefined, s) next returned = cc
  continue-eq-ok (throws x, s) next returned = cc
  continue-eq-ok (ok value, s) next returned = (value, s, refl, returned)

  -- The same with the states.
  pub continue-eq-pair :
      {A B : Type 0} (call : Outcome A × S) (next : A → Action S B) {result : B} {t : S}
      → continue call next ≡ (ok result, t)
      → (value : A) × (s : S) × (call ≡ (ok value, s)) × (next value s ≡ (ok result, t))
  continue-eq-pair (out_of_fuel, s) next returned = cc
  continue-eq-pair (undefined, s) next returned = cc
  continue-eq-pair (throws x, s) next returned = cc
  continue-eq-pair (ok value, s) next returned = (value, s, refl, returned)
