-- ===== src/Base/Call.antt =====
-- How a call ends: with a value, with an error value, or by a panic of the thread. `timeout` is no
-- outcome of the program: a loop of the model ran out of fuel.
use mathlib.Core.Path.{◌≡◌, refl}

pub data Outcome {ℓ κ} (E : Type κ) (A : Type ℓ) : Type (ℓ ⊔ κ) where
  ok : A → Outcome E A
  err : E → Outcome E A
  panic : Outcome E A
  timeout : Outcome E A

pub ok-path {ℓ κ} :
    {E : Type κ} {A : Type ℓ} {x y : A} → ◌≡◌ {A = Outcome E A} (ok x) (ok y) → x ≡ y
ok-path e = cc

module _ {ℓ κ μ} {E : Type μ} {A : Type ℓ} {B : Type κ} where
  infixl 5 ◌>>=◌
  abbrev pub ◌>>=◌ : Outcome E A → (A → Outcome E B) → Outcome E B
  panic >>= next = panic
  timeout >>= next = timeout
  ok value >>= next = next value
  err why >>= next = err why

  -- A call that succeeds in two steps has succeeded in the first one.
  pub >>=-eq-ok :
      (first : Outcome E A) (next : A → Outcome E B) {last : B}
      → (first >>= next) ≡ ok last
      → (value : A) × (first ≡ ok value) × (next value ≡ ok last)
  >>=-eq-ok panic next done = cc
  >>=-eq-ok timeout next done = cc
  >>=-eq-ok (err why) next done = cc
  >>=-eq-ok (ok value) next done = (value, refl, done)
