-- ===== src/Condition/Pipeline.antt =====
-- `ParseAndInstrument` of pkg/goDB/conditions/node/node.go from the tokens on: the passes in their order.
-- The resolution of host names is a parameter.
use go_probe.Common.{Option, none, some, List, String}
use go_probe.Condition.Outcome.{Outcome, ok, err, panic, ◌>>=◌, or_panic, parse_failed}
use go_probe.Condition.Node.{Node, nil}
use go_probe.Condition.Parser.{ParseResult, parsed, failed, empty, parse_conditional}
use go_probe.Condition.Direction.{ValFilterNode, split_off_direction_filter}
use go_probe.Condition.Desugar.{desugar}
use go_probe.Condition.Normal.{negation_normal_form}
use go_probe.Condition.Values.{Platform}
use go_probe.Condition.Instrument.{instrument}

-- The tree to go on with: an empty conditional is no error here.
unfoldable pub parsed_node : Option ParseResult → Outcome Node
parsed_node none = panic
parsed_node (some (parsed n)) = ok n
parsed_node (some (failed e)) = err parse_failed
parsed_node (some empty) = ok nil

module _ (platform : Platform) (resolve : Node → Outcome Node) where
  -- conditionalNode != nil
  unfoldable pub prepare : Node → Outcome Node
  prepare nil = ok nil
  prepare n = desugar n >>= λ n₁.
      resolve n₁ >>= λ n₂. or_panic (negation_normal_form n₂) >>= instrument platform

  unfoldable pub parse_and_instrument : List String → Outcome (Node × ValFilterNode)
  parse_and_instrument tokens = parsed_node (parse_conditional tokens) >>= λ n.
      split_off_direction_filter n >>= λ s. prepare s.0 >>= λ m. ok (m, s.1)
