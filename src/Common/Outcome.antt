-- ===== src/Common/Outcome.antt =====
-- What a call returns: a value, or the exception that it raised.
use mathlib.Core.Path.{◌≡◌, refl, subst}
use mathlib.Core.Logic.{◌⊎◌, inl, inr}
use mathlib.Core.Bool.{Bool, true, false}
use mathlib.Core.Option.{Option, none, some}

pub data Result {ℓ κ} (E : Type κ) (A : Type ℓ) : Type (ℓ ⊔ κ) where
  ok : A → Result E A
  err : E → Result E A

module _ {κ} {E : Type κ} where
  infixl 5 ◌>>=◌ ◌>>◌
  abbrev pub ◌>>=◌ {ℓ ℓ'} : {A : Type ℓ} {B : Type ℓ'} → Result E A → (A → Result E B) → Result E B
  ok value >>= rest = rest value
  err raised >>= rest = err raised

  -- a check, then the rest of the method
  abbrev pub ◌>>◌ {ℓ} : {B : Type ℓ} → Result E (Unit {0}) → Result E B → Result E B
  check >> rest = check >>= λ passed. rest

  -- `if not test: raise e`
  abbrev pub guard : Bool → E → Result E (Unit {0})
  guard true e = ok tt
  guard false e = err e

  abbrev pub from_option {ℓ} : {A : Type ℓ} → Option A → E → Result E A
  from_option none e = err e
  from_option (some a) e = ok a

  -- What follows from a chain that returned, one step at a time.
  pub bind_ok {ℓ ℓ' κ'} :
      {A : Type ℓ} {B : Type ℓ'} {C : Type κ'} (m : Result E A) {f : A → Result E B} {b : B}
      → (m >>= f) ≡ ok b
      → ((a : A) → m ≡ ok a → f a ≡ ok b → C)
      → C
  bind_ok (ok a) h k = k a refl h
  bind_ok (err e) h k = cc

  pub guard_ok {ℓ κ'} :
      {B : Type ℓ} {C : Type κ'} (c : Bool) (e : E) {m : Result E B} {b : B}
      → (guard c e >> m) ≡ ok b
      → (c ≡ true → m ≡ ok b → C)
      → C
  guard_ok true e h k = k refl h
  guard_ok false e h k = cc

  pub from_option_ok {ℓ} :
      {A : Type ℓ} (o : Option A) (e : E) {a : A} → from_option o e ≡ ok a → o ≡ some a
  from_option_ok none e h = cc
  from_option_ok (some a) e h = cc

  -- What a chain returned has the property that the last value has.
  pub returned {ℓ κ'} :
      {A : Type ℓ} (P : A → Type κ') (x : A) {y : A}
      → ◌≡◌ {A = Result E A} (ok x) (ok y)
      → P x
      → P y
  returned P x {y} h p = let q : x ≡ y = cc h in subst P q p

pub Result-cases {ℓ κ} :
    {E : Type ℓ} {A : Type κ} (m : Result E A) → ((a : A) × (m ≡ ok a)) ⊎ ((e : E) × (m ≡ err e))
Result-cases (ok a) = inl (a, refl)
Result-cases (err e) = inr (e, refl)
