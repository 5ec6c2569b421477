-- ===== src/Condition/Normal.antt =====
-- `negationNormalForm` of pkg/goDB/conditions/node/node.go.
pub mod Shape
use go_probe.Common.{
  Option, none, some, Bool, true, false, not, String, if◌then◌else◌, ◌>>=◌, str_eq,
}
use go_probe.Condition.Node.{ConditionNode, Node, nil, condition, not_node, and_node, or_node}

-- The opposite comparison; an unknown operator panics.
unfoldable pub negate_comparator : String → Option String
negate_comparator comparator =
    if str_eq comparator "="
    then some "!="
    else if str_eq comparator "!="
    then some "="
    else if str_eq comparator "<"
    then some ">="
    else if str_eq comparator ">"
    then some "<="
    else if str_eq comparator "<="
    then some ">"
    else if str_eq comparator ">="
    then some "<"
    else none

-- The local function `helper`; `none` is a panic.
unfoldable pub push_negation : Node → Bool → Option Node
unfolding negate_comparator
push_negation nil negate = none
push_negation (condition c) true = do
  comparator ← negate_comparator c.comparator
  some (condition (record c { comparator = comparator }))
push_negation (condition c) false = some (condition c)
push_negation (and_node l r) true = do
  l' ← push_negation l true
  r' ← push_negation r true
  some (or_node l' r')
push_negation (and_node l r) false = do
  l' ← push_negation l false
  r' ← push_negation r false
  some (and_node l' r')
push_negation (or_node l r) true = do
  l' ← push_negation l true
  r' ← push_negation r true
  some (and_node l' r')
push_negation (or_node l r) false = do
  l' ← push_negation l false
  r' ← push_negation r false
  some (or_node l' r')
push_negation (not_node n) negate = push_negation n (not negate)

unfoldable pub negation_normal_form : Node → Option Node
unfolding push_negation
negation_normal_form n = push_negation n false
