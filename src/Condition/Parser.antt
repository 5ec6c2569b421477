-- ===== src/Condition/Parser.antt =====
-- pkg/goDB/conditions/node/parse.go: the recursive descent parser of conditions. A method that moves
-- the parser returns the parser it leaves. Of an error the kind and the position are kept. The rules
-- that call one another recurse on fuel, `depth` for nested parentheses and `count` for the operands
-- of one chain; `none` is the end of either, or the panic of `listToTree`.
pub mod Steps
pub mod Rules
pub mod Printed
use go_probe.Common.{
  ℕ, zero, suc, Bool, true, false, not, Option, none, some, List, [], ◌∷◌, ◌++◌, String, leb,
  length, get_elem?, if◌then◌else◌, ◌>>=◌, str_eq,
}
use go_probe.Condition.Node.{Node, nil, condition, not_node, and_node, or_node, new_condition_node}

pub data ParseProblem : Type 0 where
  unexpected_continuation unexpected_end expected_attribute expected_comparator : ParseProblem
  expected_token : String → ParseProblem

pub record Parser : Type 0 where
  pub tokens : List String
  pub pos : ℕ
  pub error : Option (ParseProblem × ℕ)

unfoldable pub new_parser : List String → Parser
new_parser tokens = record { tokens = tokens; pos = 0; error = none }

unfoldable pub success : Parser → Bool
success p = elim p.error [ none ↦ true | some e ↦ false ]

unfoldable pub die : Parser → ParseProblem → Parser
die p problem = record p { error = some (problem, p.pos) }

unfoldable pub eof : Parser → Bool
eof p = leb (length p.tokens) p.pos

-- The current token: there is none at the end of the input.
unfoldable pub current : Parser → Option String
current p = get_elem? p.tokens p.pos

unfoldable pub advance : Parser → String × Parser
advance p = elim (current p) [
  | none ↦ ("", die p unexpected_end)
  | some t ↦ (t, record p { pos = suc p.pos })
]

unfoldable pub accept : String → Parser → Bool × Parser
accept token p = elim (current p) [
  | none ↦ (false, p)
  | some t ↦ if str_eq t token then (true, (advance p).1) else (false, p)
]

unfoldable pub expect : String → Parser → Parser
expect token p =
    let (accepted, p₁) = accept token p in
    if not accepted then die p₁ (expected_token token) else p₁

unfoldable pub list_to_tree : Bool → List Node → Option Node
list_to_tree is_and [] = none
list_to_tree is_and (n ∷ []) = some n
list_to_tree is_and (n ∷ m ∷ nodes) = list_to_tree is_and (m ∷ nodes) >>= λ right.
    some (if is_and then and_node n right else or_node n right)

-- The first of the tokens that is accepted.
unfoldable pub accept_any : ParseProblem → List String → Parser → String × Parser
accept_any problem [] p = ("", die p problem)
accept_any problem (token ∷ tokens) p =
    let (accepted, p₁) = accept token p in
    let rest = accept_any problem tokens p in
    if accepted then (if not (success p₁) then ("", p₁) else (token, p₁)) else rest

abbrev pub attributes : List String
attributes =
    "dip" ∷ "sip" ∷ "dnet" ∷ "snet" ∷ "dport" ∷ "proto" ∷ "dir" ∷ "dst" ∷ "src" ∷ "host" ∷ "net"
    ∷ "port" ∷ "protocol" ∷ "ipproto" ∷ "direction" ∷ []

abbrev pub comparators : List String
comparators = "=" ∷ "!=" ∷ "<=" ∷ ">=" ∷ "<" ∷ ">" ∷ []

unfoldable pub attribute : Parser → String × Parser
attribute p = accept_any expected_attribute attributes p

unfoldable pub comparator : Parser → String × Parser
comparator p = accept_any expected_comparator comparators p

unfoldable pub value : Parser → String × Parser
value p = advance p

unfoldable pub parse_condition : Parser → Node × Parser
parse_condition p =
    let (a, p₁) = attribute p in
    if not (success p₁)
    then (nil, p₁)
    else let (c, p₂) = comparator p₁ in
      if not (success p₂)
      then (nil, p₂)
      else let (v, p₃) = value p₂ in (condition (new_condition_node a c v), p₃)

-- A rule of the grammar.
abbrev pub Rule : Type 0
Rule = Parser → Option (Node × Parser)

unfoldable pub primitive : Rule → Rule
primitive disjunction p =
    let (accepted, p₁) = accept "(" p in
    if accepted
    then if not (success p₁)
      then some (nil, p₁)
      else (disjunction p₁ >>= λ r.
          if not (success r.1) then some r else some (r.0, expect ")" r.1))
    else if not (success p₁)
    then some (nil, p₁)
    else some (parse_condition p₁)

unfoldable pub negation : Rule → Rule
negation primitive p =
    let (accepted, p₁) = accept "!" p in
    if accepted
    then if not (success p₁)
      then some (nil, p₁)
      else (primitive p₁ >>= λ r. some (not_node r.0, r.1))
    else if not (success p₁)
    then some (nil, p₁)
    else primitive p₁

-- for p.accept(token) { … }
unfoldable pub more_operands : ℕ → String → Rule → Parser → List Node → Option (List Node × Parser)
more_operands zero token operand p nodes = none
more_operands (suc count) token operand p nodes =
    let (accepted, p₁) = accept token p in
    if accepted
    then if not (success p₁)
      then some (nodes, p₁)
      else (operand p₁ >>= λ r.
          if not (success r.1)
          then some (nodes, r.1)
          else more_operands count token operand r.1 (nodes ++ r.0 ∷ []))
    else some (nodes, p₁)

-- The common body of `disjunction` and `conjunction`.
unfoldable pub chain : ℕ → Bool → String → Rule → Rule
chain count is_and token operand p = operand p >>= λ r.
    if not (success r.1)
    then some (nil, r.1)
    else (more_operands count token operand r.1 (r.0 ∷ []) >>= λ rs.
        if not (success rs.1)
        then some (nil, rs.1)
        else (list_to_tree is_and rs.0 >>= λ tree. some (tree, rs.1)))

unfoldable pub conjunction : ℕ → Rule → Rule
conjunction count negation p = chain count true "&" negation p

unfoldable pub disjunction : ℕ → ℕ → Rule
disjunction count zero p = none
disjunction count (suc depth) p =
    chain count false "|" (conjunction count (negation (primitive (disjunction count depth)))) p

pub data ParseResult : Type 0 where
  parsed : Node → ParseResult
  failed : Option (ParseProblem × ℕ) → ParseResult
  empty : ParseResult

unfoldable pub parse_conditional : List String → Option ParseResult
parse_conditional [] = some empty
parse_conditional (t ∷ ts) =
    disjunction (suc (length (t ∷ ts))) (suc (length (t ∷ ts))) (new_parser (t ∷ ts)) >>= λ r.
    if not (success r.1)
    then some (failed r.1.error)
    else if not (eof r.1)
    then some (failed (die r.1 unexpected_continuation).error)
    else some (parsed r.0)
