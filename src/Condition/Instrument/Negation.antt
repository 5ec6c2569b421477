-- ===== src/Condition/Instrument/Negation.antt =====
-- Opposite comparators yield opposite closures, and so the negation normal form means what the
-- condition means.
use go_probe.Common.{
  ◌≡◌, refl, sym, Ordering, String, Option, none, some, Bool, true, false, not, if◌then◌else◌,
  ◌>>=◌, str_eq,
}
use go_probe.Types.Key.{Key}
use go_probe.Condition.Outcome.{Outcome, ok, err, panic}
use go_probe.Condition.Node.{Compare}
use go_probe.Condition.Leaves.{IsComparator, is_eq, is_ne, is_lt, is_gt, is_le, is_ge}
use go_probe.Condition.Normal.{negate_comparator}
use go_probe.Condition.Values.{ConditionValue, known_comparator}
use go_probe.Condition.Instrument.{equality, ordering, decide, Order, compare_for}

abbrev pub Answer : Type 0
Answer = Option (Bool × Key)

-- The opposite answer, with the same key left behind.
abbrev pub flip : Answer → Answer
flip o = do (b, k) ← o; some (not b, k)

pub flip-flip : (o : Answer) → flip (flip o) ≡ o
flip-flip none = refl
flip-flip (some (true, k)) = refl
flip-flip (some (false, k)) = refl

-- Two attempts to build a closure fail alike, or give opposite closures.
abbrev pub Opposite : Outcome Compare → Outcome Compare → Type 0
Opposite (ok f) (ok g) = (k : Key) → g k ≡ flip (f k)
Opposite (err e) (err e') = e ≡ e'
Opposite panic panic = Unit {0}
Opposite _ _ = ⊥

Opposite-if :
    (b : Bool) (x x' y y' : Outcome Compare)
    → Opposite x x'
    → Opposite y y'
    → Opposite (if b then x else y) (if b then x' else y')
Opposite-if true x x' y y' h g = h
Opposite-if false x x' y y' h g = g

-- `t` is the opposite of `s`.
abbrev Negates : String → String → Type 0
Negates s t = negate_comparator s ≡ some t

pub negated : {s : String} → IsComparator s → String
negated is_eq = "!="
negated is_ne = "="
negated is_lt = ">="
negated is_gt = "<="
negated is_le = ">"
negated is_ge = "<"

equality-negate :
    {s : String} (h : IsComparator s) (same : Compare)
    → Opposite (equality s same) (equality (negated h) same)
unfolding equality negated
equality-negate is_eq same = λ k. refl
equality-negate is_ne same = λ k. sym (flip-flip (same k))
equality-negate is_lt same = refl
equality-negate is_gt same = refl
equality-negate is_le same = refl
equality-negate is_ge same = refl

not-not : (b : Bool) → not (not b) ≡ b
not-not true = refl
not-not false = refl

decide-negate :
    (order : Order) (test test' : Ordering → Bool)
    → ((o : Ordering) → test' o ≡ not (test o))
    → (k : Key) → decide order test' k ≡ flip (decide order test k)
unfolding decide
decide-negate order test test' h k = go (order k)
  where
    go : (o : Option Ordering) → (o >>= λ p. some (test' p, k)) ≡ flip (o >>= λ p. some (test p, k))
    go none = refl
    go (some p) = rw (h p)

ordering-negate :
    {s : String} (h : IsComparator s) (order : Order)
    → Opposite (ordering s order) (ordering (negated h) order)
unfolding ordering negated
ordering-negate is_eq order = decide-negate order _ _ (λ o. refl)
ordering-negate is_ne order = decide-negate order _ _ (λ o. sym (not-not _))
ordering-negate is_lt order = decide-negate order _ _ (λ o. refl)
ordering-negate is_gt order = decide-negate order _ _ (λ o. refl)
ordering-negate is_le order = decide-negate order _ _ (λ o. sym (not-not _))
ordering-negate is_ge order = decide-negate order _ _ (λ o. sym (not-not _))

pub compare_for-negate :
    (attribute : String) {s : String} (h : IsComparator s) (v : ConditionValue)
    → Opposite (compare_for attribute s v) (compare_for attribute (negated h) v)
unfolding compare_for
compare_for-negate attribute h v =
    Opposite-if (str_eq attribute "sip") _ _ _ _ (equality-negate h _) (
      Opposite-if (str_eq attribute "dip") _ _ _ _ (equality-negate h _) (
        Opposite-if (str_eq attribute "snet") _ _ _ _ (equality-negate h _) (
          Opposite-if (str_eq attribute "dnet") _ _ _ _ (equality-negate h _) (
            Opposite-if (str_eq attribute "dport") _ _ _ _ (ordering-negate h _)
              (Opposite-if (str_eq attribute "proto") _ _ _ _ (ordering-negate h _) refl)))))

pub negate_comparator-negated :
    {s : String} (h : IsComparator s) → negate_comparator s ≡ some (negated h)
unfolding negate_comparator negated
negate_comparator-negated is_eq = refl
negate_comparator-negated is_ne = refl
negate_comparator-negated is_lt = refl
negate_comparator-negated is_gt = refl
negate_comparator-negated is_le = refl
negate_comparator-negated is_ge = refl

pub known-comparator : {s : String} → IsComparator s → known_comparator s ≡ true
unfolding known_comparator
known-comparator is_eq = refl
known-comparator is_ne = refl
known-comparator is_lt = refl
known-comparator is_gt = refl
known-comparator is_le = refl
known-comparator is_ge = refl

pub known-negated : {s : String} (h : IsComparator s) → known_comparator (negated h) ≡ true
unfolding known_comparator negated
known-negated is_eq = refl
known-negated is_ne = refl
known-negated is_lt = refl
known-negated is_gt = refl
known-negated is_le = refl
known-negated is_ge = refl
