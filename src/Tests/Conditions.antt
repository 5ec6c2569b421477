-- ===== src/Tests/Conditions.antt =====
-- Runs of the definitions of pkg/goDB/conditions on concrete conditions.
use go_probe.Common.Text.{Text}
use go_probe.Condition.Tokenizer.{
  starts_delimiter, tokenize, Scanner, scanned_from, max_scan_token_size,
}
use go_probe.Condition.Tokenizer.Spaced as Token
use go_probe.Condition.Tokenizer.Spaced.{AreTokens, word, spaced, tokenize-spaced}
use go_probe.Common.{
  List, ◌≡◌, refl, inl, inr, true, false, Bool, length, ltb, arith, if◌then◌else◌, none, some, [],
  ◌∷◌,
}
use go_probe.Types.Key.{Key}
use go_probe.Types.Counters.{is_only_inbound}
use go_probe.Condition.Outcome.{ok}
use go_probe.Condition.Node.{
  Node, condition, not_node, and_node, or_node, new_condition_node, transform,
}
use go_probe.Condition.Parser.{parse_conditional, parsed}
use go_probe.Condition.Parser.Printed.{IsParsedLeaf, parse_conditional-emit}
use go_probe.Condition.Desugar.{desugar, desugar_condition_node, either_side}
use go_probe.Condition.Desugar.Leaves.{sugar_holds, desugar-holds}
use go_probe.Condition.Direction.{
  Split, set_val_filter_values, split_off_direction_filter, split_conjunction, filter_or_nil,
  extract_direction_filter, filter_of_value, names_direction, take_filter, after_check,
  is_direction_condition, as_condition,
}
use go_probe.Condition.Direction.Splits.{Means, holds, split_off-Means}
use go_probe.Condition.Leaves.{AllLeaves, HasComparator, is_eq, is_lt}
use go_probe.Condition.Normal.{negation_normal_form}
use go_probe.Condition.Normal.Shape.{IsNegationFree, negation_normal_form_total}
use go_probe.Condition.Values.{Platform}
use go_probe.Condition.Instrument.{run}
use go_probe.Condition.Instrument.Equivalence.{negation_normal_form-run}

-- A platform that reads one address, 10.32.0.0, and one protocol name.
abbrev toy : Platform
toy = record {
  parse_ip = λ t. some (0 ∷ 0 ∷ 0 ∷ 0 ∷ 0 ∷ 0 ∷ 0 ∷ 0 ∷ 0 ∷ 0 ∷ 255 ∷ 255 ∷ 10 ∷ 32 ∷ 0 ∷ 0 ∷ []);
  protocol_id = λ t. some 6;
}

-- !(sip = 10.32.0.0 & dport < 80)
abbrev tree : Node
tree = not_node (
    and_node (condition (new_condition_node "sip" "=" "10.32.0.0"))
      (condition (new_condition_node "dport" "<" "80")))

tree-HasComparator : AllLeaves HasComparator tree
unfolding new_condition_node
tree-HasComparator = (is_eq, is_lt)

negation_normal_form_total_example :
    (m : Node) × (negation_normal_form tree ≡ some m) × IsNegationFree m × AllLeaves HasComparator m
negation_normal_form_total_example = negation_normal_form_total tree tree-HasComparator

negation_normal_form-run_example :
    (m : Node) × (negation_normal_form tree ≡ some m) × ((k : Key) → run toy m k ≡ run toy tree k)
negation_normal_form-run_example = negation_normal_form-run toy tree tree-HasComparator

tree-IsParsedLeaf : AllLeaves IsParsedLeaf tree
unfolding new_condition_node
tree-IsParsedLeaf = (
  (inr (inl refl), inl refl, refl),
  (inr (inr (inr (inr (inl refl)))), inr (inr (inr (inr (inl refl)))), refl),
)

parse_conditional-emit_example :
    parse_conditional (
      "!" ∷ "(" ∷ "(" ∷ "sip" ∷ "=" ∷ "10.32.0.0" ∷ ")" ∷ "&" ∷ "(" ∷ "dport" ∷ "<" ∷ "80" ∷ ")"
      ∷ ")" ∷ [])
    ≡ some (parsed tree)
unfolding new_condition_node
parse_conditional-emit_example = parse_conditional-emit tree tree-IsParsedLeaf

-- dir = in & !(sip = 10.32.0.0 & dport < 80)
abbrev filtered : Node
filtered = and_node (condition (new_condition_node "dir" "=" "in")) tree

abbrev split : Split
split = (
  tree,
  set_val_filter_values (new_condition_node "dir" "=" "in") "dir" is_only_inbound true,
  none,
)

split_runs : split_off_direction_filter filtered ≡ ok split
unfolding split_off_direction_filter new_condition_node split_conjunction filter_or_nil
    extract_direction_filter filter_of_value names_direction take_filter after_check transform
    is_direction_condition as_condition
split_runs = refl

split_off-Means_example :
    Means
      (record { bytes_rcvd = 90; bytes_sent = 0; packets_rcvd = 2; packets_sent = 0 })
      (λ c. true)
      filtered
      split
split_off-Means_example =
    split_off-Means (record { bytes_rcvd = 90; bytes_sent = 0; packets_rcvd = 2; packets_sent = 0 })
      (λ c. true) filtered split split_runs

-- host != 10.32.0.0 & port < 80
abbrev sugared : Node
sugared =
    and_node (condition (new_condition_node "host" "!=" "10.32.0.0"))
      (condition (new_condition_node "port" "<" "80"))

abbrev plain : Node
plain =
    and_node
      (not_node (
        or_node (condition (new_condition_node "sip" "=" "10.32.0.0"))
          (condition (new_condition_node "dip" "=" "10.32.0.0"))))
      (condition (new_condition_node "dport" "<" "80"))

desugar_runs : desugar sugared ≡ ok plain
unfolding desugar transform desugar_condition_node new_condition_node either_side
desugar_runs = refl

desugar-holds_example : holds (λ c. true) plain ≡ holds (sugar_holds (λ c. true)) sugared
desugar-holds_example = desugar-holds (λ c. true) sugared plain desugar_runs

-- The tokens "!", "dport", "<=" and "80".
abbrev some_tokens : List Text
some_tokens =
    (b'!' ∷ [])
    ∷ (b'd' ∷ b'p' ∷ b'o' ∷ b'r' ∷ b't' ∷ [])
    ∷ (b'<' ∷ b'=' ∷ [])
    ∷ (b'8' ∷ b'0' ∷ [])
    ∷ []

some_tokens-AreTokens : AreTokens some_tokens
unfolding starts_delimiter
some_tokens-AreTokens = (
  Token.negation,
  (
    word _ _ (refl, (refl, (refl, (refl, (refl, tt))))),
    (Token.less_or_equal, (word _ _ (refl, (refl, tt)), tt)),
  ),
)

-- A scanner that reports an error for each text that does not fit into its buffer.
abbrev scan_or_fail : Text → List Text × Bool
scan_or_fail text =
    if ltb (length text) max_scan_token_size
    then (scanned_from (length text) text, false)
    else ([], true)

abbrev short_scanner : Scanner
short_scanner = record { scan = scan_or_fail; scan_short = λ text l. ground arith }

tokenize-spaced_example : tokenize short_scanner (spaced some_tokens) ≡ (some_tokens, false)
tokenize-spaced_example =
    tokenize-spaced short_scanner some_tokens some_tokens-AreTokens (omega arith)
