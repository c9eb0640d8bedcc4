-- ===== src/Prelude/Results.antt =====
-- A Python call that can raise: it either raises an error or returns a value.
use mathlib.Core.Path.{◌≡◌, refl}
use mathlib.Core.Bool.{Bool, true, false}
use reading_companion.Prelude.Bools.{if◌then◌else◌}

pub data Result {ℓ} (E : Type 0) (A : Type ℓ) : Type ℓ where
  err : (raised : E) → Result E A
  ok : (returned : A) → Result E A

module _ {ℓ κ} {E : Type 0} {A : Type ℓ} {B : Type κ} where
  infixl 5 ◌>>=◌ ◌>>◌
  -- The rest of a body runs only when its first call returns.
  abbrev pub ◌>>=◌ : Result E A → (A → Result E B) → Result E B
  err raised >>= next = err raised
  ok returned >>= next = next returned

  abbrev pub ◌>>◌ : Result E A → Result E B → Result E B
  first >> next = first >>= λ _. next

  -- A body that returns had a first call that returned.
  pub bind-returns :
      (first : Result E A) {next : A → Result E B} {b : B}
      → (first >>= next) ≡ ok b
      → (a : A) × (first ≡ ok a) × (next a ≡ ok b)
  bind-returns (err raised) h = cc
  bind-returns (ok returned) h = (returned, refl, h)

-- `if not test: raise raised`
abbrev pub require : {E : Type 0} → Bool → E → Result E (Unit {0})
require false raised = err raised
require true raised = ok tt

module _ {ℓ} {E : Type 0} {A : Type ℓ} {x y : A} where
  pub ok_injective : ◌≡◌ {A = Result E A} (ok x) (ok y) → x ≡ y
  ok_injective h = cc

  -- A test, and the error where it fails: the body returned, so the test held.
  pub if-returns :
      (test : Bool) (e : E) → (if test then ok x else err e) ≡ ok y → (test ≡ true) × (x ≡ y)
  if-returns true e h = (refl, ok_injective h)
  if-returns false e h = cc

module _ {ℓ} {E : Type 0} {B : Type ℓ} {next : Result E B} {b : B} where
  -- A body that returns passed its first check.
  pub after-check : (check : Result E (Unit {0})) → (check >> next) ≡ ok b → next ≡ ok b
  after-check (err e) h = cc
  after-check (ok _) h = h

  pub after-require :
      (test : Bool) (e : E) → (require test e >> next) ≡ ok b → (test ≡ true) × (next ≡ ok b)
  after-require true e h = (refl, h)
  after-require false e h = cc

  pub passed-check :
      (check : Result E (Unit {0})) → (check >> next) ≡ ok b → (check ≡ ok tt) × (next ≡ ok b)
  passed-check (err e) h = cc
  passed-check (ok _) h = (refl, h)

pub require-ok :
    {E : Type 0} (test : Bool) (e : E) {u : Unit {0}} → require test e ≡ ok u → test ≡ true
require-ok true e h = refl
require-ok false e h = cc

module _ {ℓ} {E : Type 0} {A : Type ℓ} where
  -- A check that passes is no part of what follows, and one that fails is all of it.
  pub pass :
      {next : Result E A} (check : Result E (Unit {0})) → check ≡ ok tt → (check >> next) ≡ next
  pass (err e) h = cc
  pass (ok _) h = refl

  pub denied :
      (check : Result E (Unit {0})) (next : Result E A) (e : E)
      → check ≡ err e
      → (check >> next) ≡ err e
  denied (err e') next e h = cc
  denied (ok _) next e h = cc
