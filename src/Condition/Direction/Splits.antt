-- ===== src/Condition/Direction/Splits.antt =====
-- What a split-off direction filter and the rest of a condition mean together.
use go_probe.Common.{
  ◌≡◌, refl, sym, ap, ◌∙◌, Bool, true, false, Option, none, some, ◌&&◌, ◌||◌, not, arith, subst,
  inl, inr, ◌⊎◌,
}
use go_probe.Types.Counters.{Counters}
use go_probe.Condition.Outcome.{Outcome, ok, err, panic, ◌>>=◌, bind-ok}
use go_probe.Condition.Node.{
  ConditionNode, Node, nil, condition, not_node, and_node, or_node, transform,
}
use go_probe.Condition.Leaves.{AllLeaves}
use go_probe.Condition.Direction.{
  ValFilter, Split, set_val_filter_values, no_filter, names_direction, is_direction_condition,
  extract_direction_filter, filter_or_nil, as_condition, keep_checked, after_check, take_filter,
  split_by_filter, filter_of_value, split_condition, split_conjunction, split_off_direction_filter,
}

-- The truth of a condition, given that of its leaves. An empty one holds.
abbrev pub holds : (ConditionNode → Bool) → Node → Bool
holds p nil = true
holds p (condition c) = p c
holds p (not_node n) = not (holds p n)
holds p (and_node l r) = holds p l && holds p r
holds p (or_node l r) = holds p l || holds p r

-- A leaf that is a direction filter is true of the counters that its filter passes.
abbrev pub leaf_holds : Counters → (ConditionNode → Bool) → ConditionNode → Bool
leaf_holds counters p c = elim (filter_or_nil (extract_direction_filter (condition c))) [
  | none ↦ p c
  | some f ↦ f counters
]

abbrev pub passes : Option ValFilter → Counters → Bool
passes none counters = true
passes (some f) counters = f counters

abbrev pub IsPlain : ConditionNode → Type 0
IsPlain c = names_direction c ≡ false

abbrev pub HasNoDirection : Node → Type 0
HasNoDirection n = (n ≡ nil) ⊎ AllLeaves IsPlain n

pub ok-injective {ℓ} : {A : Type ℓ} {a b : A} → ok a ≡ ok b → a ≡ b
ok-injective e = cc

transform-IsPlain : (n m : Node) → transform is_direction_condition n ≡ ok m → AllLeaves IsPlain n
unfolding transform is_direction_condition
transform-IsPlain nil m e = absurd (ground arith)
transform-IsPlain (condition c) m e = ground arith
transform-IsPlain (not_node n) m e =
    let (a, ea, _) = bind-ok (transform is_direction_condition n) (λ k. ok (not_node k)) m e in
    transform-IsPlain n a ea
transform-IsPlain (and_node l r) m e =
    let (a, ea, e₂) =
      bind-ok (transform is_direction_condition l)
        (λ k. transform is_direction_condition r >>= λ j. ok (and_node k j)) m e in
    let (b, eb, _) = bind-ok (transform is_direction_condition r) (λ k. ok (and_node a k)) m e₂ in
    (transform-IsPlain l a ea, transform-IsPlain r b eb)
transform-IsPlain (or_node l r) m e =
    let (a, ea, e₂) =
      bind-ok (transform is_direction_condition l)
        (λ k. transform is_direction_condition r >>= λ j. ok (or_node k j)) m e in
    let (b, eb, _) = bind-ok (transform is_direction_condition r) (λ k. ok (or_node a k)) m e₂ in
    (transform-IsPlain l a ea, transform-IsPlain r b eb)

no_filter-IsPlain :
    (c : ConditionNode) → extract_direction_filter (condition c) ≡ ok none → IsPlain c
unfolding extract_direction_filter filter_of_value
no_filter-IsPlain c h = ground arith

-- Only a leaf is a filter.
not_filter {ℓ} :
    {A : Type ℓ} (n : Node) (f : ValFilter)
    → as_condition n ≡ none
    → filter_or_nil (extract_direction_filter n) ≡ some f
    → A
unfolding filter_or_nil extract_direction_filter as_condition
not_filter nil f h e = absurd (ground arith)
not_filter (condition c) f h e = absurd (ground arith)
not_filter (not_node n) f h e = absurd (ground arith)
not_filter (and_node l r) f h e = absurd (ground arith)
not_filter (or_node l r) f h e = absurd (ground arith)

and_comm : (a b : Bool) → (a && b) ≡ (b && a)
and_comm true true = refl
and_comm true false = refl
and_comm false true = refl
and_comm false false = refl

module _ (counters : Counters) (p : ConditionNode → Bool) where
  -- The filter and the rest together mean the condition, and the rest has no filter in it.
  abbrev pub Means : Node → Split → Type 0
  Means n (m, v, e) =
      (holds (leaf_holds counters p) n
        ≡ (passes v.val_filter counters && holds (leaf_holds counters p) m))
      × HasNoDirection m

  keep_checked-Means : (n : Node) (s : Split) → keep_checked n ≡ ok s → Means n s
  unfolding keep_checked no_filter
  keep_checked-Means n s e =
      let (m, em, es) =
        bind-ok (transform is_direction_condition n) (λ m. ok (n, no_filter, none)) s e in
      subst (Means n) (ok-injective es) (refl, inr (transform-IsPlain n m em))

  leaf_holds-filter :
      (c : ConditionNode) (o : Option ValFilter) (f : ValFilter)
      → filter_or_nil (extract_direction_filter (condition c)) ≡ o
      → o ≡ some f
      → leaf_holds counters p c ≡ f counters
  leaf_holds-filter c o f e g = rw (e ∙ g, leaf_holds) refl

  filter-holds :
      (n : Node) (f : ValFilter)
      → filter_or_nil (extract_direction_filter n) ≡ some f
      → holds (leaf_holds counters p) n ≡ f counters
  unfolding as_condition
  filter-holds (condition c) f e = leaf_holds-filter c (some f) f e refl
  filter-holds nil f e = not_filter nil f refl e
  filter-holds (not_node n) f e = not_filter (not_node n) f refl e
  filter-holds (and_node l r) f e = not_filter (and_node l r) f refl e
  filter-holds (or_node l r) f e = not_filter (or_node l r) f refl e

  after_check_lem :
      (o : Outcome Node) (filter_node : Node) (f : ValFilter) (left_node : Bool) (n : Node)
      (s : Split)
      → transform is_direction_condition n ≡ o
      → after_check o filter_node f left_node n ≡ ok s
      → (s.0 ≡ n) × (passes s.1.val_filter counters ≡ f counters) × HasNoDirection n
  unfolding after_check as_condition set_val_filter_values
  after_check_lem (ok m) (condition c) f left_node n s o e =
      subst
        (λ (t : Split).
          (t.0 ≡ n) × (passes t.1.val_filter counters ≡ f counters) × HasNoDirection n)
        (ok-injective e) (refl, refl, inr (transform-IsPlain n m o))
  after_check_lem (ok m) nil f left_node n s o e = absurd (ground arith)
  after_check_lem (ok m) (not_node k) f left_node n s o e = absurd (ground arith)
  after_check_lem (ok m) (and_node k j) f left_node n s o e = absurd (ground arith)
  after_check_lem (ok m) (or_node k j) f left_node n s o e = absurd (ground arith)
  after_check_lem (err x) k f left_node n s o e = absurd (ground arith)
  after_check_lem panic k f left_node n s o e = absurd (ground arith)

  take_filter-Means :
      (filter_node : Node) (f : ValFilter) (left_node : Bool) (rest n : Node) (s : Split)
      → filter_or_nil (extract_direction_filter filter_node) ≡ some f
      → holds (leaf_holds counters p) n
        ≡ (holds (leaf_holds counters p) filter_node && holds (leaf_holds counters p) rest)
      → take_filter filter_node f left_node rest ≡ ok s
      → Means n s
  unfolding take_filter
  take_filter-Means filter_node f left_node rest n s ef eh e =
      let (es, ep, plain) =
        after_check_lem (transform is_direction_condition rest) filter_node f left_node rest s refl
          e in
      (
        eh
            ∙ ap (λ b. b && holds (leaf_holds counters p) rest)
                (filter-holds filter_node f ef ∙ sym ep)
            ∙ ap (λ m. passes s.1.val_filter counters && holds (leaf_holds counters p) m) (sym es),
        subst HasNoDirection (sym es) plain,
      )

  split_conjunction-Means :
      (l r : Node) (a b : Option ValFilter) (s : Split)
      → filter_or_nil (extract_direction_filter l) ≡ a
      → filter_or_nil (extract_direction_filter r) ≡ b
      → split_conjunction l r a b ≡ ok s
      → Means (and_node l r) s
  unfolding split_conjunction
  split_conjunction-Means l r none none s ea eb e = keep_checked-Means (and_node l r) s e
  split_conjunction-Means l r (some f) (some g) s ea eb e = absurd (ground arith)
  split_conjunction-Means l r (some f) none s ea eb e =
      take_filter-Means l f true r (and_node l r) s ea refl e
  split_conjunction-Means l r none (some g) s ea eb e =
      take_filter-Means r g false l (and_node l r) s eb
        (and_comm (holds (leaf_holds counters p) l) (holds (leaf_holds counters p) r)) e

  split_by_filter-Means :
      (c : ConditionNode) (o : Option ValFilter) (s : Split)
      → extract_direction_filter (condition c) ≡ ok o
      → split_by_filter c o ≡ ok s
      → Means (condition c) s
  unfolding split_by_filter no_filter set_val_filter_values filter_or_nil
  split_by_filter-Means c none s h e =
      subst (Means (condition c)) (ok-injective e) (refl, inr (no_filter-IsPlain c h))
  split_by_filter-Means c (some f) s h e = subst (Means (condition c)) (ok-injective e) (
    leaf_holds-filter c (some f) f (ap filter_or_nil h) refl ∙ and_comm true (f counters),
    inl refl,
  )

  split_condition-Means :
      (c : ConditionNode) (s : Split) → split_condition c ≡ ok s → Means (condition c) s
  unfolding split_condition
  split_condition-Means c s e =
      let (o, h, es) = bind-ok (extract_direction_filter (condition c)) (split_by_filter c) s e in
      split_by_filter-Means c o s h es

  -- Where a direction filter is split off a condition without an error, the filter on the counters and
  -- the rest on the key hold together exactly where the condition does, whatever the other leaves
  -- mean; and the rest has no direction filter left at any depth.
  pub split_off-Means : (n : Node) (s : Split) → split_off_direction_filter n ≡ ok s → Means n s
  unfolding split_off_direction_filter no_filter
  split_off-Means nil s e = subst (Means nil) (ok-injective e) (refl, inl refl)
  split_off-Means (condition c) s e = split_condition-Means c s e
  split_off-Means (not_node n) s e = keep_checked-Means (not_node n) s e
  split_off-Means (and_node l r) s e = split_conjunction-Means l r _ _ s refl refl e
  split_off-Means (or_node l r) s e = keep_checked-Means (or_node l r) s e
