-- ===== src/Condition/Normal/Shape.antt =====
-- The shape of the normal form.
use go_probe.Common.{◌≡◌, refl, some, Bool, true, false, not, String}
use go_probe.Condition.Node.{Node, nil, condition, not_node, and_node, or_node}
use go_probe.Condition.Leaves.{
  AllLeaves, IsComparator, HasComparator, is_eq, is_ne, is_lt, is_gt, is_le, is_ge,
}
use go_probe.Condition.Normal.{negate_comparator, push_negation, negation_normal_form}

-- No negation is left in the tree.
abbrev pub IsNegationFree : Node → Type 0
IsNegationFree nil = ⊥
IsNegationFree (condition c) = Unit {0}
IsNegationFree (not_node n) = ⊥
IsNegationFree (and_node l r) = IsNegationFree l × IsNegationFree r
IsNegationFree (or_node l r) = IsNegationFree l × IsNegationFree r

pub negate_comparator_total :
    (s : String) → IsComparator s → (t : String) × (negate_comparator s ≡ some t) × IsComparator t
unfolding negate_comparator
negate_comparator_total _ is_eq = ("!=", refl, is_ne)
negate_comparator_total _ is_ne = ("=", refl, is_eq)
negate_comparator_total _ is_lt = (">=", refl, is_ge)
negate_comparator_total _ is_gt = ("<=", refl, is_le)
negate_comparator_total _ is_le = (">", refl, is_gt)
negate_comparator_total _ is_ge = ("<", refl, is_lt)

abbrev Result : Node → Bool → Type 0
Result n b =
    (m : Node) × (push_negation n b ≡ some m) × IsNegationFree m × AllLeaves HasComparator m

pub push_negation_total : (n : Node) (b : Bool) → AllLeaves HasComparator n → Result n b
unfolding push_negation
push_negation_total nil b h = absurd h
push_negation_total (condition c) true h =
    let (t, e, valid) = negate_comparator_total c.comparator h in
    (condition (record c { comparator = t }), rw e, tt, valid)
push_negation_total (condition c) false h = (condition c, refl, tt, h)
push_negation_total (not_node n) b h = push_negation_total n (not b) h
push_negation_total (and_node l r) true h =
    let (l', e, fl, vl) = push_negation_total l true h.0 in
    let (r', g, fr, vr) = push_negation_total r true h.1 in
    (or_node l' r', rw (e, g), (fl, fr), (vl, vr))
push_negation_total (and_node l r) false h =
    let (l', e, fl, vl) = push_negation_total l false h.0 in
    let (r', g, fr, vr) = push_negation_total r false h.1 in
    (and_node l' r', rw (e, g), (fl, fr), (vl, vr))
push_negation_total (or_node l r) true h =
    let (l', e, fl, vl) = push_negation_total l true h.0 in
    let (r', g, fr, vr) = push_negation_total r true h.1 in
    (and_node l' r', rw (e, g), (fl, fr), (vl, vr))
push_negation_total (or_node l r) false h =
    let (l', e, fl, vl) = push_negation_total l false h.0 in
    let (r', g, fr, vr) = push_negation_total r false h.1 in
    (or_node l' r', rw (e, g), (fl, fr), (vl, vr))

-- A tree with no nil child and with known operators only has a normal form: `negationNormalForm`
-- does not panic, and no negation is left in what it returns.
pub negation_normal_form_total :
    (n : Node)
    → AllLeaves HasComparator n
    → (m : Node) × (negation_normal_form n ≡ some m) × IsNegationFree m × AllLeaves HasComparator m
unfolding negation_normal_form
negation_normal_form_total n h = push_negation_total n false h
