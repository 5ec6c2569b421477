-- ===== src/Common/Result.antt =====
-- How a function of the program ends: with a value, with an error that it returns, or with a panic.
use go_probe.Common.{Option, none, some}

pub data Result {ℓ κ} (E : Type ℓ) (A : Type κ) : Type (ℓ ⊔ κ) where
  ok : A → Result E A
  err : E → Result E A
  panic : Result E A

module _ {ℓ} {E : Type ℓ} where
  infixl 5 ◌>>=◌
  abbrev pub ◌>>=◌ {κ μ} : {A : Type κ} {B : Type μ} → Result E A → (A → Result E B) → Result E B
  ok a >>= f = f a
  err e >>= f = err e
  panic >>= f = panic

  abbrev pub or_panic {κ} : {A : Type κ} → Option A → Result E A
  or_panic none = panic
  or_panic (some a) = ok a
