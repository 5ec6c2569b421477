-- ===== src/Condition/Parser/Printed.antt =====
-- Conditions written out as tokens are parsed back.
use go_probe.Common.{
  ℕ, zero, suc, ◌+◌, ◌≤◌, ◌<◌, ◌≡◌, ◌≢◌, refl, ap, subst, true, false, some, List, [], ◌∷◌, String,
  arith, length, drop, le→leb,
}
use go_probe.Condition.Node.{
  ConditionNode, Node, nil, condition, not_node, and_node, or_node, new_condition_node,
}
use go_probe.Condition.Leaves.{AllLeaves}
use go_probe.Condition.Parser.{
  attributes, comparators, primitive, negation, conjunction, disjunction, parse_conditional, parsed,
  new_parser, eof,
}
use go_probe.Condition.Parser.Steps.{starts, success_lem}
use go_probe.Condition.Parser.Rules.{
  Parses, IsOneOf, is_apart-IsOneOf, primitive-leaf, primitive-paren, negation-not, negation-plain,
  chain-single, chain-two,
}

-- The tokens of a condition, with every operand in parentheses, before further tokens.
abbrev pub emit : Node → List String → List String
emit nil rest = rest
emit (condition c) rest = c.attribute ∷ c.comparator ∷ c.value ∷ rest
emit (not_node n) rest = "!" ∷ "(" ∷ emit n (")" ∷ rest)
emit (and_node l r) rest = "(" ∷ emit l (")" ∷ "&" ∷ "(" ∷ emit r (")" ∷ rest))
emit (or_node l r) rest = "(" ∷ emit l (")" ∷ "|" ∷ "(" ∷ emit r (")" ∷ rest))

-- A leaf as the parser makes it: an attribute and a comparator of the grammar, any value.
abbrev pub IsParsedLeaf : ConditionNode → Type 0
IsParsedLeaf c =
    IsOneOf c.attribute attributes
    × IsOneOf c.comparator comparators
    × (new_condition_node c.attribute c.comparator c.value ≡ c)

-- The end of the input, or a closing parenthesis.
data Ends : List String → Type 0 where
  ends_input : Ends []
  ends_group : (ts : List String) → Ends (")" ∷ ts)

Ends-starts : (ts : List String) → Ends ts → (starts ts "&" ≡ false) × (starts ts "|" ≡ false)
Ends-starts ts ends_input = (refl, refl)
Ends-starts ts (ends_group us) = (refl, refl)

abbrev height : Node → ℕ
height nil = 0
height (condition c) = 0
height (not_node n) = suc (height n)
height (and_node l r) = suc (height l + height r)
height (or_node l r) = suc (height l + height r)

height-emit : (n : Node) (rest : List String) → height n + length rest ≤ length (emit n rest)
height-emit nil rest = omega arith
height-emit (condition c) rest = omega arith
height-emit (not_node n) rest = omega (arith, height-emit n (")" ∷ rest))
height-emit (and_node l r) rest =
    omega (arith, height-emit l (")" ∷ "&" ∷ "(" ∷ emit r (")" ∷ rest)), height-emit r (")" ∷ rest))
height-emit (or_node l r) rest =
    omega (arith, height-emit l (")" ∷ "|" ∷ "(" ∷ emit r (")" ∷ rest)), height-emit r (")" ∷ rest))

module _ (count : ℕ) where
  group :
      (depth : ℕ) (ts : List String) (n : Node) (rest : List String)
      → Parses (disjunction (suc (suc count)) depth) ts n (")" ∷ rest)
      → Parses (negation (primitive (disjunction (suc (suc count)) depth))) ("(" ∷ ts) n rest
  group depth ts n rest inner =
      let rule = disjunction (suc (suc count)) depth in
      negation-plain (primitive rule) ("(" ∷ ts) n rest refl (primitive-paren rule ts n rest inner)

  disjunction-emit :
      (n : Node) (depth : ℕ) (rest : List String)
      → AllLeaves IsParsedLeaf n
      → height n < depth
      → Ends rest
      → Parses (disjunction (suc (suc count)) depth) (emit n rest) n rest
  unfolding disjunction conjunction
  disjunction-emit n zero rest leaves h ends = absurd (omega arith)
  disjunction-emit nil (suc depth) rest leaves h ends = absurd leaves
  disjunction-emit (condition c) (suc depth) rest (oa, oc, e) h ends =
      let (no_and, no_or) = Ends-starts rest ends in
      let ts = emit (condition c) rest in
      let leaf =
        subst
          (λ (d : ConditionNode).
            Parses (primitive (disjunction (suc (suc count)) depth)) ts (condition d) rest)
          e
          (primitive-leaf (disjunction (suc (suc count)) depth) c.attribute c.comparator c.value
            rest oa oc) in
      let item =
        negation-plain (primitive (disjunction (suc (suc count)) depth)) ts (condition c) rest
          (is_apart-IsOneOf c.attribute "!" attributes oa refl) leaf in
      chain-single (suc count) false "|" _ rest no_or ts (condition c)
        (chain-single (suc count) true "&" _ rest no_and ts (condition c) item)
  disjunction-emit (not_node n) (suc depth) rest leaves h ends =
      let (no_and, no_or) = Ends-starts rest ends in
      let inner = disjunction-emit n depth (")" ∷ rest) leaves (omega arith) (ends_group rest) in
      let ts = emit n (")" ∷ rest) in
      let item =
        negation-not (primitive (disjunction (suc (suc count)) depth)) ("(" ∷ ts) n rest
          (primitive-paren (disjunction (suc (suc count)) depth) ts n rest inner) in
      chain-single (suc count) false "|" _ rest no_or ("!" ∷ "(" ∷ ts) (not_node n)
        (chain-single (suc count) true "&" _ rest no_and ("!" ∷ "(" ∷ ts) (not_node n) item)
  disjunction-emit (and_node l r) (suc depth) rest (ll, lr) h ends =
      let (no_and, no_or) = Ends-starts rest ends in
      let us = "(" ∷ emit r (")" ∷ rest) in
      let ts = "(" ∷ emit l (")" ∷ "&" ∷ us) in
      let left =
        group depth (emit l (")" ∷ "&" ∷ us)) l ("&" ∷ us)
          (disjunction-emit l depth (")" ∷ "&" ∷ us) ll (omega arith) (ends_group ("&" ∷ us))) in
      let right =
        group depth (emit r (")" ∷ rest)) r rest
          (disjunction-emit r depth (")" ∷ rest) lr (omega arith) (ends_group rest)) in
      chain-single (suc count) false "|" _ rest no_or ts (and_node l r)
        (chain-two count true "&" _ rest no_and ts us l r left right)
  disjunction-emit (or_node l r) (suc depth) rest (ll, lr) h ends =
      let (no_and, no_or) = Ends-starts rest ends in
      let us = "(" ∷ emit r (")" ∷ rest) in
      let ts = "(" ∷ emit l (")" ∷ "|" ∷ us) in
      let left =
        group depth (emit l (")" ∷ "|" ∷ us)) l ("|" ∷ us)
          (disjunction-emit l depth (")" ∷ "|" ∷ us) ll (omega arith) (ends_group ("|" ∷ us))) in
      let right =
        group depth (emit r (")" ∷ rest)) r rest
          (disjunction-emit r depth (")" ∷ rest) lr (omega arith) (ends_group rest)) in
      chain-two count false "|" _ rest no_or ts us l r
        (chain-single (suc count) true "&" _ ("|" ∷ us) refl ts l left)
        (chain-single (suc count) true "&" _ rest no_and us r right)

drop-length : (i : ℕ) (xs : List String) → drop i xs ≡ [] → length xs ≤ i
drop-length zero [] e = omega arith
drop-length zero (x ∷ xs) e = absurd (ground arith)
drop-length (suc i) [] e = omega arith
drop-length (suc i) (x ∷ xs) e = omega (arith, drop-length i xs e)

emit_filled : (n : Node) → AllLeaves IsParsedLeaf n → [] ≢ emit n []
emit_filled nil leaves e = leaves
emit_filled (condition c) leaves e = ground arith
emit_filled (not_node n) leaves e = ground arith
emit_filled (and_node l r) leaves e = ground arith
emit_filled (or_node l r) leaves e = ground arith

parse_emitted :
    (n : Node) (ts : List String)
    → AllLeaves IsParsedLeaf n
    → ts ≡ emit n []
    → parse_conditional ts ≡ some (parsed n)
unfolding parse_conditional new_parser eof
parse_emitted n [] leaves e = absurd (emit_filled n leaves e)
parse_emitted n (t ∷ ts) leaves e =
    let enough : height n < suc (length (t ∷ ts)) = omega (arith, height-emit n [], ap length e) in
    let (q, f, a) =
      disjunction-emit (length ts) n (suc (length (t ∷ ts))) [] leaves enough ends_input
        (new_parser (t ∷ ts)) (refl, e) in
    rw (f, success_lem q [] a, le→leb (length q.tokens) q.pos (drop-length q.pos q.tokens a.1)) refl

-- Every condition of the grammar, written out with its operands in parentheses, is parsed back to the
-- same tree: without an error, with nothing left over, and with the fuel that the number of tokens
-- gives.
pub parse_conditional-emit :
    (n : Node) → AllLeaves IsParsedLeaf n → parse_conditional (emit n []) ≡ some (parsed n)
parse_conditional-emit n leaves = parse_emitted n (emit n []) leaves refl
