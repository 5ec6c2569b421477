-- ===== src/Condition/Leaves.antt =====
-- Predicates on the leaves of a tree, and the comparison operators of the grammar.
use go_probe.Common.{String}
use go_probe.Condition.Node.{ConditionNode, Node, nil, condition, not_node, and_node, or_node}

-- Every leaf satisfies `P`, and no child is nil.
abbrev pub AllLeaves : (ConditionNode → Type 0) → Node → Type 0
AllLeaves P nil = ⊥
AllLeaves P (condition c) = P c
AllLeaves P (not_node n) = AllLeaves P n
AllLeaves P (and_node l r) = AllLeaves P l × AllLeaves P r
AllLeaves P (or_node l r) = AllLeaves P l × AllLeaves P r

-- The operators of the rule "comparator".
pub data IsComparator : String → Type 0 where
  is_eq : IsComparator "="
  is_ne : IsComparator "!="
  is_lt : IsComparator "<"
  is_gt : IsComparator ">"
  is_le : IsComparator "<="
  is_ge : IsComparator ">="

abbrev pub HasComparator : ConditionNode → Type 0
HasComparator c = IsComparator c.comparator
