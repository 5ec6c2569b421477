-- ===== src/Condition/Node.antt =====
-- The syntax tree of a condition: pkg/goDB/conditions/node/node.go.
use go_probe.Common.{Option, none, some, Bool, true, false, not, String, if◌then◌else◌, ◌>>=◌}
use go_probe.Condition.Outcome as Outcome
use go_probe.Condition.Outcome.{Outcome, ok, err, panic}
use go_probe.Types.IpVersion.{IpVersion, ip_version_none}
use go_probe.Types.Key.{Key}

-- The closure that instrumentation stores in a condition. It may panic, and it may write to the
-- bytes of the key that it is given, which the caller sees.
abbrev pub Compare : Type 0
Compare = Key → Option (Bool × Key)

-- The field `currentValue` is left out: nothing reads it.
pub record ConditionNode : Type 0 where
  pub attribute : String
  pub comparator : String
  pub value : String
  pub ip_version : IpVersion
  pub compare_value : Option Compare

unfoldable pub new_condition_node : String → String → String → ConditionNode
new_condition_node attribute comparator value = record {
  attribute = attribute;
  comparator = comparator;
  value = value;
  ip_version = ip_version_none;
  compare_value = none;
}

-- The implementations of the interface `Node`, and its nil value.
pub data Node : Type 0 where
  nil : Node
  condition : ConditionNode → Node
  not_node : Node → Node
  and_node : Node → Node → Node
  or_node : Node → Node → Node

-- Replaces every leaf; a method call on nil panics.
unfoldable pub transform : (ConditionNode → Outcome Node) → Node → Outcome Node
transform f nil = panic
transform f (condition c) = f c
transform f (not_node n) = Outcome.◌>>=◌ (transform f n) λ m. ok (not_node m)
transform f (and_node l r) =
    Outcome.◌>>=◌ (transform f l) λ l'. Outcome.◌>>=◌ (transform f r) λ r'. ok (and_node l' r')
transform f (or_node l r) =
    Outcome.◌>>=◌ (transform f l) λ l'. Outcome.◌>>=◌ (transform f r) λ r'. ok (or_node l' r')

-- The right operand is evaluated only if the left one leaves the result open, and on the key as the
-- left one left it.
unfoldable pub evaluate : Node → Compare
evaluate nil k = none
evaluate (condition c) k = elim c.compare_value [ none ↦ none | some compare ↦ compare k ]
evaluate (not_node n) k = do (b, k') ← evaluate n k; some (not b, k')
evaluate (and_node l r) k = do (b, k') ← evaluate l k; if b then evaluate r k' else some (false, k')
evaluate (or_node l r) k = do (b, k') ← evaluate l k; if b then some (true, k') else evaluate r k'
