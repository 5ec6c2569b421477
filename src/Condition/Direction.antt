-- ===== src/Condition/Direction.antt =====
-- pkg/goDB/conditions/node/filter_direction.go: the direction filter, a condition on the counters of a
-- flow, is split off the condition on its key.
pub mod Splits
use go_probe.Common.{
  Bool, true, false, Option, none, some, String, ◌&&◌, ◌||◌, not, if◌then◌else◌, str_eq,
}
use go_probe.Types.Counters.{
  Counters, is_only_inbound, is_only_outbound, is_unidirectional, is_bidirectional,
}
use go_probe.Condition.Outcome.{
  Outcome, ok, err, panic, ◌>>=◌, or_panic, ConditionError, empty_conditional,
  misplaced_direction_filter, multiple_direction_filters, unsupported_direction_comparator,
  unsupported_direction,
}
use go_probe.Condition.Node.{
  ConditionNode, Node, nil, condition, not_node, and_node, or_node, transform, new_condition_node,
}

abbrev pub ValFilter : Type 0
ValFilter = Counters → Bool

pub record ValFilterNode : Type 0 where
  pub condition_node : ConditionNode
  pub filter_type : String
  pub val_filter : Option ValFilter
  pub left_node : Bool

unfoldable pub set_val_filter_values : ConditionNode → String → ValFilter → Bool → ValFilterNode
set_val_filter_values c filter_type filter left_node = record {
  condition_node = c;
  filter_type = filter_type;
  val_filter = some filter;
  left_node = left_node;
}

-- ValFilterNode{FilterType: types.FilterKeywordNone}
unfoldable pub no_filter : ValFilterNode
no_filter = record {
  condition_node = new_condition_node "" "" "";
  filter_type = "none";
  val_filter = none;
  left_node = false;
}

unfoldable pub names_direction : ConditionNode → Bool
names_direction c = str_eq c.attribute "dir" || str_eq c.attribute "direction"

unfoldable pub is_direction_condition : ConditionNode → Outcome Node
is_direction_condition c =
    if names_direction c then err misplaced_direction_filter else ok (condition c)

unfoldable pub filter_of_value : String → Outcome (Option ValFilter)
filter_of_value value =
    if str_eq value "in" || str_eq value "inbound"
    then ok (some is_only_inbound)
    else if str_eq value "out" || str_eq value "outbound"
    then ok (some is_only_outbound)
    else if str_eq value "uni" || str_eq value "unidirectional"
    then ok (some is_unidirectional)
    else if str_eq value "bi" || str_eq value "bidirectional"
    then ok (some is_bidirectional)
    else err unsupported_direction

unfoldable pub extract_direction_filter : Node → Outcome (Option ValFilter)
extract_direction_filter (condition c) =
    if not (names_direction c)
    then ok none
    else if not (str_eq c.comparator "=")
    then err unsupported_direction_comparator
    else filter_of_value c.value
extract_direction_filter _ = ok none

-- An entry of `extractDirectionFiltersFromNodes`, which drops the error.
unfoldable pub filter_or_nil : Outcome (Option ValFilter) → Option ValFilter
filter_or_nil (ok filter) = filter
filter_or_nil _ = none

-- node.(conditionNode)
unfoldable pub as_condition : Node → Option ConditionNode
as_condition (condition c) = some c
as_condition _ = none

-- The node, the filter, and the error that stands beside them. Where the code returns an error with
-- nothing else that is used, this is an error.
abbrev pub Split : Type 0
Split = Node × ValFilterNode × Option ConditionError

unfoldable pub keep_checked : Node → Outcome Split
keep_checked n = transform is_direction_condition n >>= λ m. ok (n, no_filter, none)

-- The two ends of `take_filter`, by the check of the rest.
unfoldable pub after_check : Outcome Node → Node → ValFilter → Bool → Node → Outcome Split
after_check (err e) filter_node filter left_node n = err multiple_direction_filters
after_check panic filter_node filter left_node n = panic
after_check (ok m) filter_node filter left_node n = or_panic (as_condition filter_node) >>= λ c.
    ok (n, set_val_filter_values c "dir" filter left_node, none)

-- One operand is the filter, the other one the rest.
unfoldable pub take_filter : Node → ValFilter → Bool → Node → Outcome Split
take_filter filter_node filter left_node n =
    after_check (transform is_direction_condition n) filter_node filter left_node n

unfoldable pub split_by_filter : ConditionNode → Option ValFilter → Outcome Split
split_by_filter c none = ok (condition c, no_filter, none)
split_by_filter c (some f) = ok (nil, set_val_filter_values c "dir" f false, some empty_conditional)

unfoldable pub split_condition : ConditionNode → Outcome Split
split_condition c = extract_direction_filter (condition c) >>= split_by_filter c

unfoldable pub split_conjunction : Node → Node → Option ValFilter → Option ValFilter → Outcome Split
split_conjunction l r none none = keep_checked (and_node l r)
split_conjunction l r (some f) (some g) = err multiple_direction_filters
split_conjunction l r (some f) none = take_filter l f true r
split_conjunction l r none (some g) = take_filter r g false l

unfoldable pub split_off_direction_filter : Node → Outcome Split
split_off_direction_filter nil = ok (nil, no_filter, none)
split_off_direction_filter (condition c) = split_condition c
split_off_direction_filter (and_node l r) =
    split_conjunction l r (filter_or_nil (extract_direction_filter l))
      (filter_or_nil (extract_direction_filter r))
split_off_direction_filter (not_node n) = keep_checked (not_node n)
split_off_direction_filter (or_node l r) = keep_checked (or_node l r)
