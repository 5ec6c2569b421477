-- ===== src/Condition/Outcome.antt =====
-- How the handling of a condition ends: with a value, with an error that the code returns, or with a
-- run-time panic. Of an error the kind is kept, not the text of its message.
use go_probe.Common.{◌≡◌, refl, arith, Option, none, some}

pub data ConditionError : Type 0 where
  empty_conditional : ConditionError
  parse_failed : ConditionError
  invalid_comparison : ConditionError
  comparator_not_allowed : ConditionError
  unknown_attribute : ConditionError
  unknown_comparator : ConditionError
  bad_ip : ConditionError
  missing_netmask : ConditionError
  bad_netmask : ConditionError
  netmask_too_long_v6 : ConditionError
  netmask_too_long_v4 : ConditionError
  bad_proto : ConditionError
  bad_dport : ConditionError
  multiple_direction_filters : ConditionError
  misplaced_direction_filter : ConditionError
  unsupported_direction_comparator : ConditionError
  unsupported_direction : ConditionError

pub data Outcome {ℓ} (A : Type ℓ) : Type ℓ where
  ok : A → Outcome A
  err : ConditionError → Outcome A
  panic : Outcome A

infixl 5 ◌>>=◌
abbrev pub ◌>>=◌ {ℓ κ} : {A : Type ℓ} {B : Type κ} → Outcome A → (A → Outcome B) → Outcome B
ok a >>= f = f a
err e >>= f = err e
panic >>= f = panic

-- A computation that can only panic.
abbrev pub or_panic {ℓ} : {A : Type ℓ} → Option A → Outcome A
or_panic none = panic
or_panic (some a) = ok a

-- A chain that ends with a value has one at each step.
pub bind-ok {ℓ κ} :
    {A : Type ℓ} {B : Type κ} (o : Outcome A) (f : A → Outcome B) (b : B)
    → (o >>= f) ≡ ok b
    → (a : A) × (o ≡ ok a) × (f a ≡ ok b)
bind-ok (ok a) f b e = (a, refl, e)
bind-ok (err x) f b e = absurd (ground arith)
bind-ok panic f b e = absurd (ground arith)
