-- ===== src/Condition/Parser/Rules.antt =====
-- The rules of the grammar, each on the tokens that it should read.
use go_probe.Common.{
  ℕ, suc, ◌≡◌, refl, sym, ap, ◌⊎◌, inl, inr, Bool, true, false, not, ◌&&◌, some, List, [], ◌∷◌,
  String, arith, if◌then◌else◌, str_eq, str_eq_iff, Bool-cases,
}
use go_probe.Condition.Node.{Node, condition, not_node, and_node, or_node, new_condition_node}
use go_probe.Condition.Parser.{
  ParseProblem, expected_attribute, expected_comparator, Parser, expect, list_to_tree, accept_any,
  attributes, comparators, attribute, comparator, value, parse_condition, Rule, primitive, negation,
  more_operands, chain,
}
use go_probe.Condition.Parser.Steps.{At, starts, success_lem, advance_lem, accept_yes, accept_no}

-- On these tokens the rule yields the node, without an error, and leaves the rest.
abbrev pub Parses : Rule → List String → Node → List String → Type 0
Parses rule ts n rest = (p : Parser) → At p ts → (q : Parser) × (rule p ≡ some (n, q)) × At q rest

abbrev pub IsOneOf : String → List String → Type 0
IsOneOf t [] = ⊥
IsOneOf t (x ∷ xs) = (t ≡ x) ⊎ IsOneOf t xs

abbrev pub is_apart : String → List String → Bool
is_apart token [] = true
is_apart token (x ∷ xs) = not (str_eq x token) && is_apart token xs

pub is_apart-IsOneOf :
    (t token : String) (xs : List String)
    → IsOneOf t xs
    → is_apart token xs ≡ true
    → str_eq t token ≡ false
is_apart-IsOneOf t token [] o a = absurd o
is_apart-IsOneOf t token (x ∷ xs) (inl e) a = ground (arith, ap (λ s. str_eq s token) e)
is_apart-IsOneOf t token (x ∷ xs) (inr o) a = is_apart-IsOneOf t token xs o (ground arith)

accept_any_lem :
    (problem : ParseProblem) (xs : List String) (p : Parser) (t : String) (ts : List String)
    → At p (t ∷ ts)
    → IsOneOf t xs
    → (q : Parser) × (accept_any problem xs p ≡ (t, q)) × At q ts
unfolding accept_any
accept_any_lem problem [] p t ts a o = absurd o
accept_any_lem problem (x ∷ xs) p t ts a o = elim (Bool-cases (str_eq t x)) [
  | inl e ↦
      let same : t ≡ x = (str_eq_iff t x).0 e in
      let (q, g, b) = accept_yes p t ts a in (q, rw (sym same, g, success_lem q ts b) refl, b)
  | inr n ↦
      let (q, g, b) = accept_any_lem problem xs p t ts a (later o n) in
      (q, rw (accept_no p x (t ∷ ts) a n, g) refl, b)
]
  where
    later : (t ≡ x) ⊎ IsOneOf t xs → str_eq t x ≡ false → IsOneOf t xs
    later (inl e) n = absurd (ground (arith, (str_eq_iff t x).1 e))
    later (inr o) n = o

parse_condition_lem :
    (p : Parser) (a c v : String) (rest : List String)
    → At p (a ∷ c ∷ v ∷ rest)
    → IsOneOf a attributes
    → IsOneOf c comparators
    → (q : Parser) × (parse_condition p ≡ (condition (new_condition_node a c v), q)) × At q rest
unfolding parse_condition attribute comparator value
parse_condition_lem p a c v rest at oa oc =
    let (q, e, b) = accept_any_lem expected_attribute attributes p a (c ∷ v ∷ rest) at oa in
    let (r, f, d) = accept_any_lem expected_comparator comparators q c (v ∷ rest) b oc in
    let (s, g, i) = advance_lem r v rest d in
    (s, rw (e, success_lem q (c ∷ v ∷ rest) b, f, success_lem r (v ∷ rest) d, g) refl, i)

pub primitive-leaf :
    (rule : Rule) (a c v : String) (rest : List String)
    → IsOneOf a attributes
    → IsOneOf c comparators
    → Parses (primitive rule) (a ∷ c ∷ v ∷ rest) (condition (new_condition_node a c v)) rest
unfolding primitive
primitive-leaf rule a c v rest oa oc p at =
    let (q, e, b) = parse_condition_lem p a c v rest at oa oc in
    (
      q,
      rw
          (
            accept_no p "(" (a ∷ c ∷ v ∷ rest) at (is_apart-IsOneOf a "(" attributes oa refl),
            success_lem p (a ∷ c ∷ v ∷ rest) at,
            e,
          )
          refl,
      b,
    )

pub primitive-paren :
    (rule : Rule) (ts : List String) (n : Node) (rest : List String)
    → Parses rule ts n (")" ∷ rest)
    → Parses (primitive rule) ("(" ∷ ts) n rest
unfolding primitive expect
primitive-paren rule ts n rest inner p at =
    let (q, e, b) = accept_yes p "(" ts at in
    let (r, f, d) = inner q b in
    let (s, g, i) = accept_yes r ")" rest d in
    (s, rw (e, success_lem q ts b, f, success_lem r (")" ∷ rest) d, g) refl, i)

pub negation-not :
    (rule : Rule) (ts : List String) (n : Node) (rest : List String)
    → Parses rule ts n rest
    → Parses (negation rule) ("!" ∷ ts) (not_node n) rest
unfolding negation
negation-not rule ts n rest inner p at =
    let (q, e, b) = accept_yes p "!" ts at in
    let (r, f, d) = inner q b in (r, rw (e, success_lem q ts b, f) refl, d)

pub negation-plain :
    (rule : Rule) (ts : List String) (n : Node) (rest : List String)
    → starts ts "!" ≡ false
    → Parses rule ts n rest
    → Parses (negation rule) ts n rest
unfolding negation
negation-plain rule ts n rest s inner p at =
    let (r, f, d) = inner p at in (r, rw (accept_no p "!" ts at s, success_lem p ts at, f) refl, d)

module _ (count : ℕ) (is_and : Bool) (token : String) (rule : Rule) (rest : List String)
    (stops : starts rest token ≡ false) where
  pub chain-single :
      (ts : List String) (n : Node)
      → Parses rule ts n rest
      → Parses (chain (suc count) is_and token rule) ts n rest
  unfolding chain more_operands list_to_tree
  chain-single ts n operand p at =
      let (q, e, b) = operand p at in
      (
        q,
        rw (e, success_lem q rest b, accept_no q token rest b stops, success_lem q rest b) refl,
        b,
      )

  pub chain-two :
      (ts us : List String) (n m : Node)
      → Parses rule ts n (token ∷ us)
      → Parses rule us m rest
      → Parses
          (chain (suc (suc count)) is_and token rule)
          ts
          (if is_and then and_node n m else or_node n m)
          rest
  unfolding chain more_operands list_to_tree
  chain-two ts us n m first second p at =
      let (q, e, b) = first p at in
      let (r, f, d) = accept_yes q token us b in
      let (s, g, i) = second r d in
      (
        s,
        rw
            (
              e,
              success_lem q (token ∷ us) b,
              f,
              success_lem r us d,
              g,
              success_lem s rest i,
              accept_no s token rest i stops,
              success_lem s rest i,
            )
            refl,
        i,
      )
