-- ===== src/Results/Merge.antt =====
-- `RowsMap` of pkg/results/result.go. The map is an association list in the order in which a loop over it
-- visits it.
use go_probe.Common.{
  ℕ, ◌+◌, ◌≡◌, ◌↔◌, refl, sym, ap, ◌∙◌, subst, inl, inr, Bool, true, ◌&&◌, Option, none, some, List,
  [], ◌∷◌, if◌then◌else◌, arith, Bool-cases, length, map,
}
use go_probe.Types.Counters.{Counters, add_assoc}
use go_probe.Types.Counters.{add as add_counters}
use go_probe.Results.Rows.{
  Order, Row, MergeableAttributes, same_attributes, same_labels, same_labels_iff,
  same_attributes_iff,
}

module _ {Addr Text Time : Type 0} (addr : Order Addr) (text : Order Text) (time : Order Time) where
  abbrev pub Key : Type 0
  Key = MergeableAttributes Addr Text Time

  abbrev pub RowsMap : Type 0
  RowsMap = List (Key × Counters)

  unfoldable pub same_key : Key → Key → Bool
  same_key k j =
      same_labels addr text time k.labels_key j.labels_key
      && same_attributes addr text time k.attributes_key j.attributes_key

  -- rm[k]
  unfoldable pub find : RowsMap → Key → Option Counters
  find [] k = none
  find ((j, c) ∷ rm) k = if same_key j k then some c else find rm k

  -- rm[k] = c
  unfoldable pub assign : RowsMap → Key → Counters → RowsMap
  assign [] k c = (k, c) ∷ []
  assign ((j, d) ∷ rm) k c = if same_key j k then (j, c) ∷ rm else (j, d) ∷ assign rm k c

  abbrev pub key_of : Row Addr Text Time → Key
  key_of r = record { labels_key = r.labels; attributes_key = r.attributes }

  -- The body of the loops: the map afterwards, and whether an entry was merged.
  unfoldable pub merge_found : RowsMap → Key → Counters → Option Counters → RowsMap × ℕ
  merge_found rm k c none = (assign rm k c, 0)
  merge_found rm k c (some counters) = (assign rm k (add_counters counters c), 1)

  unfoldable pub merge_rows : RowsMap → List (Row Addr Text Time) → RowsMap × ℕ
  merge_rows rm [] = (rm, 0)
  merge_rows rm (r ∷ rs) =
      let (next, one) = merge_found rm (key_of r) r.counters (find rm (key_of r)) in
      let (last, merged) = merge_rows next rs in (last, one + merged)

  unfoldable pub merge_rows_map : RowsMap → RowsMap → RowsMap × ℕ
  merge_rows_map rm [] = (rm, 0)
  merge_rows_map rm ((k, c) ∷ om) =
      let (next, one) = merge_found rm k c (find rm k) in
      let (last, merged) = merge_rows_map next om in (last, one + merged)

  unfoldable pub to_rows : RowsMap → List (Row Addr Text Time)
  to_rows rm =
      map
        (λ (e : Key × Counters). record {
          labels = e.0.labels_key;
          attributes = e.0.attributes_key;
          counters = e.1;
        })
        rm

  -- Counters that may be missing, added.
  abbrev pub plus : Option Counters → Option Counters → Option Counters
  plus none d = d
  plus (some c) none = some c
  plus (some c) (some d) = some (add_counters c d)

  -- What the rows of a key hold together.
  unfoldable pub sum_of : List (Row Addr Text Time) → Key → Option Counters
  sum_of [] k = none
  sum_of (r ∷ rs) k =
      let rest = sum_of rs k in if same_key (key_of r) k then plus (some r.counters) rest else rest

  same_key_iff : (k j : Key) → (same_key k j ≡ true) ↔ (k ≡ j)
  unfolding same_key
  same_key_iff k j = ground (
    arith,
    same_labels_iff addr text time k.labels_key j.labels_key,
    same_attributes_iff addr text time k.attributes_key j.attributes_key,
  )

  plus_assoc : (a b c : Option Counters) → plus (plus a b) c ≡ plus a (plus b c)
  plus_assoc none b c = refl
  plus_assoc (some a) none c = refl
  plus_assoc (some a) (some b) none = refl
  plus_assoc (some a) (some b) (some c) = ap some (add_assoc a b c)

  find-assign :
      (rm : RowsMap) (k j : Key) (c : Counters)
      → find (assign rm k c) j ≡ (if same_key k j then some c else find rm j)
  unfolding find assign
  find-assign [] k j c = refl
  find-assign ((i, d) ∷ rm) k j c =
      ground (arith, same_key_iff i k, same_key_iff i j, same_key_iff k j, find-assign rm k j c)

  -- The number of entries grows where the key is new.
  abbrev one_if_new : Option Counters → ℕ
  one_if_new none = 1
  one_if_new (some c) = 0

  length-assign :
      (rm : RowsMap) (k : Key) (c : Counters)
      → length (assign rm k c) ≡ length rm + one_if_new (find rm k)
  unfolding find assign
  length-assign [] k c = refl
  length-assign ((i, d) ∷ rm) k c = elim (Bool-cases (same_key i k)) [
    | inl t ↦ rw t (omega arith)
    | inr f ↦ rw f (omega (arith, length-assign rm k c))
  ]

  merge_found_lem :
      (rm : RowsMap) (k j : Key) (c : Counters) (o : Option Counters)
      → find rm k ≡ o
      → (find (merge_found rm k c o).0 j
          ≡ (if same_key k j then plus (find rm j) (some c) else find rm j))
        × (length (merge_found rm k c o).0 + (merge_found rm k c o).1 ≡ length rm + 1)
  unfolding merge_found
  merge_found_lem rm k j c none e = (
    elim (Bool-cases (same_key k j)) [
      | inl t ↦
          rw (find-assign rm k j c, t, subst (λ i. find rm i ≡ none) ((same_key_iff k j).0 t) e)
            refl
      | inr f ↦ rw (find-assign rm k j c, f) refl
    ],
    omega (arith, length-assign rm k c, ap one_if_new e),
  )
  merge_found_lem rm k j c (some d) e = (
    elim (Bool-cases (same_key k j)) [
      | inl t ↦
          rw
            (
              find-assign rm k j (add_counters d c),
              t,
              subst (λ i. find rm i ≡ some d) ((same_key_iff k j).0 t) e,
            )
            refl
      | inr f ↦ rw (find-assign rm k j (add_counters d c), f) refl
    ],
    omega (arith, length-assign rm k (add_counters d c), ap one_if_new e),
  )

  plus-none : (o : Option Counters) → plus o none ≡ o
  plus-none none = refl
  plus-none (some c) = refl

  -- Merging rows into a map adds to the counters of each key those of all its rows, in their order, and
  -- loses none; each row is either merged or a new entry, and the number that is returned counts the
  -- merged ones.
  pub merge_rows-find :
      (rm : RowsMap) (rs : List (Row Addr Text Time)) (k : Key)
      → (find (merge_rows rm rs).0 k ≡ plus (find rm k) (sum_of rs k))
        × (length (merge_rows rm rs).0 + (merge_rows rm rs).1 ≡ length rm + length rs)
  unfolding merge_rows sum_of
  merge_rows-find rm [] k = (sym (plus-none (find rm k)), refl)
  merge_rows-find rm (r ∷ rs) k =
      let (found, counted) = merge_found_lem rm (key_of r) k r.counters (find rm (key_of r)) refl in
      let next = (merge_found rm (key_of r) r.counters (find rm (key_of r))).0 in
      let (rest, rest_counted) = merge_rows-find next rs k in
      (
        rest ∙ ap (λ o. plus o (sum_of rs k)) found ∙ elim (Bool-cases (same_key (key_of r) k)) [
          | inl t ↦ rw t (plus_assoc (find rm k) (some r.counters) (sum_of rs k))
          | inr f ↦ rw f refl
        ],
        omega (arith, counted, rest_counted),
      )

  -- Merging a map is merging its rows.
  pub merge_rows_map-to_rows : (rm om : RowsMap) → merge_rows_map rm om ≡ merge_rows rm (to_rows om)
  unfolding merge_rows_map merge_rows to_rows
  merge_rows_map-to_rows rm [] = refl
  merge_rows_map-to_rows rm ((k, c) ∷ om) =
      let (next, one) = merge_found rm k c (find rm k) in
      ap (λ (r : RowsMap × ℕ). (r.0, one + r.1)) (merge_rows_map-to_rows next om)
