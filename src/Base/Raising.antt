-- ===== src/Base/Raising.antt =====
-- A call that returns or raises. The error type is the component's own.
use mathlib.Core.Path.{◌≡◌, refl, ap}
use mathlib.Core.Logic.{◌⊎◌, inl, inr}
use mathlib.Core.Bool.{Bool, true, false}
use mathlib.Core.Option.{Option, none, some}

pub data Result (E A : Type 0) : Type 0 where
  ok : A → Result E A
  err : E → Result E A

module _ {E : Type 0} where
  infixl 5 ◌>>◌ ◌>>=◌
  -- The rest of a body, after a call whose value it uses.
  abbrev pub ◌>>=◌ : {V W : Type 0} → Result E V → (V → Result E W) → Result E W
  err reason >>= rest = err reason
  ok value >>= rest = rest value

  -- The rest of a body, after a check.
  abbrev pub ◌>>◌ : {W : Type 0} → Result E (Unit {0}) → Result E W → Result E W
  check >> rest = check >>= λ _. rest

  -- `if test: raise e`
  abbrev pub raise_if : Bool → E → Result E (Unit {0})
  raise_if true e = err e
  raise_if false e = ok tt

  -- `if x is None: raise e`
  abbrev pub or_raise : {A : Type 0} → Option A → E → Result E A
  or_raise none e = err e
  or_raise (some a) e = ok a

  -- A body that returned has made its call, and the call has returned.
  pub >>=-eq-ok :
      {V W : Type 0} (call : Result E V) (rest : V → Result E W) {w : W}
      → (call >>= rest) ≡ ok w
      → (v : V) × (call ≡ ok v) × (rest v ≡ ok w)
  >>=-eq-ok (err reason) rest returned = absurd cc
  >>=-eq-ok (ok value) rest returned = (value, refl, returned)

  pub ok-is_err : {A : Type 0} (a : A) (e : E) → Path (Result E A) (ok a) (err e) → ⊥
  ok-is_err a e h = absurd cc

  pub raise_if-eq-ok :
      {B : Type 0} (b : Bool) (e : E) (k : Result E B) {x : B}
      → (raise_if b e >> k) ≡ ok x
      → (b ≡ false) × (k ≡ ok x)
  raise_if-eq-ok true e k h = absurd cc
  raise_if-eq-ok false e k h = (refl, h)

  pub ok-injective : {A : Type 0} {a b : A} → Path (Result E A) (ok a) (ok b) → a ≡ b
  ok-injective {a = a} {b = b} h = cc

  pub or_raise-eq-ok :
      {A : Type 0} (o : Option A) (e : E) {a : A} → or_raise o e ≡ ok a → o ≡ some a
  or_raise-eq-ok none e h = absurd cc
  or_raise-eq-ok (some a) e h = ap some (ok-injective h)

  pub Result-cases :
      {A : Type 0} (r : Result E A) → ((a : A) × (r ≡ ok a)) ⊎ ((e : E) × (r ≡ err e))
  Result-cases (ok a) = inl (a, refl)
  Result-cases (err e) = inr (e, refl)
