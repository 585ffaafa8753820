-- ===== src/Prelude/Outcomes.antt =====
-- A value or the error that took its place, for the functions of the source that answer `(T, error)`.
use mathlib.Core.Path.{◌≡◌, refl}

pub data Outcome {ℓ} (E : Type 0) (A : Type ℓ) : Type ℓ where
  err : E → Outcome E A
  ok : A → Outcome E A

module _ {E : Type 0} where
  infixl 5 ◌>>=◌ ◌>>◌
  -- The first error ends the chain.
  abbrev pub ◌>>=◌ {ℓ κ} : {A : Type ℓ} {B : Type κ} → Outcome E A → (A → Outcome E B) → Outcome E B
  err fault >>= next = err fault
  ok value >>= next = next value

  -- A check that answers only an error.
  abbrev pub ◌>>◌ {κ} : {B : Type κ} → Outcome E (Unit {0}) → Outcome E B → Outcome E B
  check >> after = check >>= λ _. after

  -- Inversion of a bind that succeeds.
  pub >>=-eq-ok {ℓ κ} :
      {A : Type ℓ} {B : Type κ} (m : Outcome E A) (f : A → Outcome E B) {b : B}
      → (m >>= f) ≡ ok b
      → (a : A) × (m ≡ ok a) × (f a ≡ ok b)
  >>=-eq-ok (err e) f h = cc
  >>=-eq-ok (ok a) f h = (a, refl, h)

  -- The same of a check that answers only an error.
  pub >>-eq-ok : (m k : Outcome E (Unit {0})) → (m >> k) ≡ ok tt → (m ≡ ok tt) × (k ≡ ok tt)
  >>-eq-ok (err e) k h = absurd (cc)
  >>-eq-ok (ok u) k h = (refl, h)
