-- ===== src/Condition/Instrument/Equivalence.antt =====
-- A condition and its negation normal form: the same errors, and on every key the same answer, the same
-- key left behind and the same panics.
use go_probe.Common.{
  ◌≡◌, refl, sym, ap, Option, none, some, Bool, true, false, not, ◌||◌, if◌then◌else◌, ◌>>=◌,
  str_eq, subst, some-injective,
}
use go_probe.Types.IpVersion.{IpVersion}
use go_probe.Types.Key.{Key}
use go_probe.Condition.Outcome as Outcome
use go_probe.Condition.Outcome.{Outcome, ok, err, panic, or_panic}
use go_probe.Condition.Node.{
  ConditionNode, Node, Compare, nil, condition, not_node, and_node, or_node, transform, evaluate,
}
use go_probe.Condition.Leaves.{AllLeaves, HasComparator}
use go_probe.Condition.Normal.{push_negation, negation_normal_form}
use go_probe.Condition.Normal.Shape.{negation_normal_form_total}
use go_probe.Condition.Values.{Platform, ConditionValue, condition_bytes_and_netmask}
use go_probe.Condition.Instrument.{generate_compare_value, instrument, run}
use go_probe.Condition.Instrument.Negation.{
  Opposite, negated, compare_for-negate, negate_comparator-negated, known-comparator, known-negated,
}
use go_probe.Condition.Instrument.Combine.{
  Means, Means-refl, combine-Means, and_to_or, or_to_and, and_to_and, or_to_or, not-Means,
}

both-eq-some :
    (con : Node → Node → Node) (o p : Option Node) {m : Node}
    → (o >>= λ l. p >>= λ r. some (con l r)) ≡ some m
    → (l : Node) × (r : Node) × (o ≡ some l) × (p ≡ some r) × (con l r ≡ m)
both-eq-some con none p e = cc
both-eq-some con (some l) none e = cc
both-eq-some con (some l) (some r) e = (l, r, refl, refl, cc)

-- The condition with its closure, as the last step of `generateCompareValue` stores it.
abbrev stored : ConditionNode → IpVersion → Compare → Outcome Node
stored c version compare = ok (
    condition (record c {
      ip_version =
          if str_eq c.attribute "dport" || str_eq c.attribute "proto"
          then c.ip_version
          else version;
      compare_value = some compare;
    }))

closure_Means :
    (c c' : ConditionNode) (version : IpVersion) (x x' : Outcome Compare)
    → Opposite x x'
    → Means true (Outcome.◌>>=◌ x (stored c version)) (Outcome.◌>>=◌ x' (stored c' version))
unfolding evaluate
closure_Means c c' version (ok f) (ok g) h = h
closure_Means c c' version (err e) (err e') h = h
closure_Means c c' version panic panic h = tt
closure_Means c c' version (ok f) (err e) h = absurd h
closure_Means c c' version (ok f) panic h = absurd h
closure_Means c c' version (err e) (ok g) h = absurd h
closure_Means c c' version (err e) panic h = absurd h
closure_Means c c' version panic (ok g) h = absurd h
closure_Means c c' version panic (err e) h = absurd h

bind_Means :
    (o : Outcome ConditionValue) (f g : ConditionValue → Outcome Node)
    → ((v : ConditionValue) → Means true (f v) (g v))
    → Means true (Outcome.◌>>=◌ o f) (Outcome.◌>>=◌ o g)
bind_Means (ok v) f g h = h v
bind_Means (err e) f g h = refl
bind_Means panic f g h = tt

module _ (platform : Platform) where
  condition_bytes-negated :
      (c : ConditionNode) (h : HasComparator c)
      → condition_bytes_and_netmask platform (record c { comparator = negated h })
        ≡ condition_bytes_and_netmask platform c
  unfolding condition_bytes_and_netmask
  condition_bytes-negated c h = rw (known-comparator h, known-negated h)

  leaf_Means :
      (c : ConditionNode) (h : HasComparator c)
      → Means true
          (generate_compare_value platform c)
          (generate_compare_value platform (record c { comparator = negated h }))
  unfolding generate_compare_value
  leaf_Means c h = rw (condition_bytes-negated c h) (
      bind_Means (condition_bytes_and_netmask platform c) _ _ (λ v.
        closure_Means c (record c { comparator = negated h }) v.ip_version _ _
          (compare_for-negate c.attribute h v)))

  push_negation-Means :
      (n : Node) (b : Bool) (m : Node)
      → AllLeaves HasComparator n
      → push_negation n b ≡ some m
      → Means b (instrument platform n) (instrument platform m)
  unfolding push_negation instrument transform
  push_negation-Means nil b m h e = absurd h
  push_negation-Means (condition c) true m h e =
      let e' : some (condition (record c { comparator = negated h })) ≡ some m =
        rw (negate_comparator-negated h) at e in
      subst (λ m'. Means true (generate_compare_value platform c) (instrument platform m'))
        (some-injective _ _ e') (leaf_Means c h)
  push_negation-Means (condition c) false m h e =
      subst (λ m'. Means false (generate_compare_value platform c) (instrument platform m'))
        (some-injective _ _ e) (Means-refl (generate_compare_value platform c))
  push_negation-Means (not_node n) b m h e =
      not-Means b (instrument platform n) (instrument platform m)
        (push_negation-Means n (not b) m h e)
  push_negation-Means (and_node l r) true m h e =
      let (l', r', el, er, em) =
        both-eq-some or_node (push_negation l true) (push_negation r true) e in
      subst (λ m'. Means true (instrument platform (and_node l r)) (instrument platform m')) em
        (combine-Means true and_node or_node and_to_or _ _ _ _
          (push_negation-Means l true l' h.0 el) (push_negation-Means r true r' h.1 er))
  push_negation-Means (and_node l r) false m h e =
      let (l', r', el, er, em) =
        both-eq-some and_node (push_negation l false) (push_negation r false) e in
      subst (λ m'. Means false (instrument platform (and_node l r)) (instrument platform m')) em
        (combine-Means false and_node and_node and_to_and _ _ _ _
          (push_negation-Means l false l' h.0 el) (push_negation-Means r false r' h.1 er))
  push_negation-Means (or_node l r) true m h e =
      let (l', r', el, er, em) =
        both-eq-some and_node (push_negation l true) (push_negation r true) e in
      subst (λ m'. Means true (instrument platform (or_node l r)) (instrument platform m')) em
        (combine-Means true or_node and_node or_to_and _ _ _ _
          (push_negation-Means l true l' h.0 el) (push_negation-Means r true r' h.1 er))
  push_negation-Means (or_node l r) false m h e =
      let (l', r', el, er, em) =
        both-eq-some or_node (push_negation l false) (push_negation r false) e in
      subst (λ m'. Means false (instrument platform (or_node l r)) (instrument platform m')) em
        (combine-Means false or_node or_node or_to_or _ _ _ _
          (push_negation-Means l false l' h.0 el) (push_negation-Means r false r' h.1 er))

  run-Means :
      (x y : Outcome Node)
      → Means false x y
      → (k : Key)
      → Outcome.◌>>=◌ y (λ m. or_panic (evaluate m k))
        ≡ Outcome.◌>>=◌ x (λ m. or_panic (evaluate m k))
  run-Means (ok m) (ok m') h k = ap or_panic (h k)
  run-Means (err e) (err e') h k = ap err (sym h)
  run-Means panic panic h k = refl
  run-Means (ok m) (err e) h k = absurd h
  run-Means (ok m) panic h k = absurd h
  run-Means (err e) (ok m) h k = absurd h
  run-Means (err e) panic h k = absurd h
  run-Means panic (ok m) h k = absurd h
  run-Means panic (err e) h k = absurd h

  -- Bringing a condition whose leaves have known operators into negation normal form succeeds, and
  -- instrumenting the normal form and evaluating it on a key does just what it does for the condition
  -- itself: the same error, the same panic, or the same answer with the same key left behind.
  pub negation_normal_form-run :
      (n : Node)
      → AllLeaves HasComparator n
      → (m : Node) × (negation_normal_form n ≡ some m)
        × ((k : Key) → run platform m k ≡ run platform n k)
  unfolding negation_normal_form
  negation_normal_form-run n h =
      let (m, e, _, _) = negation_normal_form_total n h in
      (
        m,
        e,
        run-Means (instrument platform n) (instrument platform m)
            (push_negation-Means n false m h e),
      )
