-- ===== src/Condition/Desugar.antt =====
-- pkg/goDB/conditions/node/desugar.go: aliases and the attributes `host` and `net` are replaced by
-- the attributes of a flow.
pub mod Leaves
use go_probe.Common.{String, ◌||◌, ◌&&◌, not, if◌then◌else◌, str_eq}
use go_probe.Condition.Outcome.{Outcome, ok, err, invalid_comparison}
use go_probe.Condition.Node.{
  ConditionNode, Node, condition, not_node, or_node, new_condition_node, transform,
}

-- The local function `helper`: a condition on the source or the destination.
unfoldable pub either_side : String → String → String → String → Outcome Node
either_side src dst comparator value =
    if not (str_eq comparator "=") && not (str_eq comparator "!=")
    then err invalid_comparison
    else let result =
        or_node (condition (new_condition_node src "=" value))
          (condition (new_condition_node dst "=" value)) in
      if str_eq comparator "!=" then ok (not_node result) else ok result

unfoldable pub desugar_condition_node : ConditionNode → Outcome Node
unfolding either_side
desugar_condition_node c =
    if str_eq c.attribute "src"
    then ok (condition (record c { attribute = "sip" }))
    else if str_eq c.attribute "dst"
    then ok (condition (record c { attribute = "dip" }))
    else if str_eq c.attribute "port"
    then ok (condition (record c { attribute = "dport" }))
    else if str_eq c.attribute "ipproto" || str_eq c.attribute "protocol"
    then ok (condition (record c { attribute = "proto" }))
    else if str_eq c.attribute "host"
    then either_side "sip" "dip" c.comparator c.value
    else if str_eq c.attribute "net"
    then either_side "snet" "dnet" c.comparator c.value
    else ok (condition c)

unfoldable pub desugar : Node → Outcome Node
unfolding desugar_condition_node
desugar n = transform desugar_condition_node n
