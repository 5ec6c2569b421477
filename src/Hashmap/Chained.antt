-- ===== src/Hashmap/Chained.antt =====
-- A loop over a MetaIter of pkg/types/hashmap/iterator.go meets the pairs of both maps.
use go_probe.Common.{
  ℕ, zero, suc, ◌+◌, ◌≤◌, ◌≡◌, refl, ap, ◌∙◌, Bool, Option, none, some, [], ◌∷◌, ◌++◌, arith,
  if◌then◌else◌, ◌>>=◌, Bool-cases, inl, inr,
}
use mathlib.Core.List.{append-nil}
use go_probe.Common.Bytes.{Bytes}
use go_probe.Types.Counters.{Counters}
use go_probe.Hashmap.Map.{IsValid, Represents}
use go_probe.Hashmap.Pairs.{pairs-values}
use go_probe.Hashmap.Scanning.{values, to_list}
use go_probe.Hashmap.Iterator.{pairs}
use go_probe.Hashmap.Aggregate.{AggFlowMap}
use go_probe.Hashmap.Meta.{
  MapIter, MetaIter, map_next, after_next, meta_next, meta_pairs_from, meta_pairs, collected,
}
use go_probe.Hashmap.Emitting.{Pairs, Emits, ends, emits, pairs-Emits}

-- The pairs that pass the filter.
abbrev pub accepted : (Counters → Bool) → Pairs → Pairs
accepted filter [] = []
accepted filter (p ∷ l) = let later = accepted filter l in if filter p.1 then p ∷ later else later

module _ (hash_seed : Bytes → ℕ → ℕ) where
  abbrev Answers : MetaIter → ℕ → MetaIter × Option (Bytes × Counters) → Type 0
  Answers i enough r = (fuel : ℕ) → enough ≤ fuel → meta_next hash_seed fuel i ≡ some r

  data MetaEmits : MetaIter → Pairs → Type 0 where
    meta_ends : {i j : MetaIter} (enough : ℕ) → Answers i enough (j, none) → MetaEmits i []
    meta_emits :
        {i j : MetaIter} {p : Bytes × Counters} {l : Pairs} (enough : ℕ)
        → Answers i enough (j, some p)
        → MetaEmits j l
        → MetaEmits i (p ∷ l)

  -- The answer of Next after a first step that does not answer.
  map_next-Answers_later :
      (i j : MetaIter) (enough : ℕ) (o : MapIter × Option (Bytes × Counters))
      (r : MetaIter × Option (Bytes × Counters))
      → map_next hash_seed i.primary ≡ some o
      → ((again : MetaIter → Option (MetaIter × Option (Bytes × Counters)))
          → after_next hash_seed again i o ≡ again j)
      → Answers j enough r
      → Answers i (suc enough) r
  unfolding meta_next
  map_next-Answers_later i j enough o r e later answers zero l = absurd (omega arith)
  map_next-Answers_later i j enough o r e later answers (suc fuel) l =
      ap
        (λ (x : Option (MapIter × Option (Bytes × Counters))).
          x >>= after_next hash_seed (meta_next hash_seed fuel) i)
        e
      ∙ later (meta_next hash_seed fuel)
      ∙ answers fuel (omega arith)

  map_next-MetaEmits_later :
      (i j : MetaIter) (o : MapIter × Option (Bytes × Counters)) (l : Pairs)
      → map_next hash_seed i.primary ≡ some o
      → ((again : MetaIter → Option (MetaIter × Option (Bytes × Counters)))
          → after_next hash_seed again i o ≡ again j)
      → MetaEmits j l
      → MetaEmits i l
  map_next-MetaEmits_later i j o [] e later (meta_ends enough answers) =
      meta_ends (suc enough) (map_next-Answers_later i j enough o _ e later answers)
  map_next-MetaEmits_later i j o (p ∷ l) e later (meta_emits enough answers rest) =
      meta_emits (suc enough) (map_next-Answers_later i j enough o _ e later answers) rest

  abbrev over_both : (Counters → Bool) → MapIter → Option MapIter → MetaIter
  over_both filter i second = record { primary = i; secondary = second; filter = filter }

  -- An answer of the current iterator that is the answer of Next.
  map_next-Answers_now :
      (i : MetaIter) (o : MapIter × Option (Bytes × Counters))
      (r : MetaIter × Option (Bytes × Counters))
      → map_next hash_seed i.primary ≡ some o
      → ((again : MetaIter → Option (MetaIter × Option (Bytes × Counters)))
          → after_next hash_seed again i o ≡ some r)
      → Answers i 1 r
  unfolding meta_next
  map_next-Answers_now i o r e now zero l = absurd (omega arith)
  map_next-Answers_now i o r e now (suc fuel) l =
      ap
        (λ (x : Option (MapIter × Option (Bytes × Counters))).
          x >>= after_next hash_seed (meta_next hash_seed fuel) i)
        e
      ∙ now (meta_next hash_seed fuel)

  module _ (filter : Counters → Bool) (second : Option MapIter) (k : Pairs)
      (after : (i j : MapIter)
        → map_next hash_seed i ≡ some (j, none)
        → MetaEmits (over_both filter i second) k) where
    -- The pairs of the current iterator that pass come first.
    chained-MetaEmits :
        (i : MapIter) (l : Pairs)
        → Emits hash_seed i l
        → MetaEmits (over_both filter i second) (accepted filter l ++ k)
    unfolding after_next
    chained-MetaEmits i [] (ends e) = after i _ e
    chained-MetaEmits i (p ∷ l) (emits {j = j} e rest) = elim (Bool-cases (filter p.1)) [
      | inl pass ↦ rw pass (
          meta_emits 1
            (map_next-Answers_now (over_both filter i second) (j, some p)
              (over_both filter j second, some p) e (λ again. rw pass refl))
            (chained-MetaEmits j l rest))
      | inr fail ↦ rw fail (
          map_next-MetaEmits_later (over_both filter i second) (over_both filter j second)
            (j, some p) _ e (λ again. rw fail refl) (chained-MetaEmits j l rest))
    ]

  both-MetaEmits :
      (filter : Counters → Bool) (i j : MapIter) (l k : Pairs)
      → Emits hash_seed i l
      → Emits hash_seed j k
      → MetaEmits (over_both filter i (some j)) (accepted filter l ++ (accepted filter k ++ []))
  unfolding after_next
  both-MetaEmits filter i j l k first then_second =
      chained-MetaEmits filter (some j) (accepted filter k ++ [])
        (λ a b e.
          map_next-MetaEmits_later (over_both filter a (some j)) (over_both filter j none) (b, none)
            _ e (λ again. refl)
            (chained-MetaEmits filter none []
              (λ c d f. meta_ends 1 (
                map_next-Answers_now (over_both filter c none) (d, none)
                  (over_both filter d none, none) f (λ again. refl)))
              j k then_second))
        i l first

  abbrev collect : ℕ → MetaIter × Option (Bytes × Counters) → Option Pairs
  collect fuel r = collected hash_seed r.1 (meta_pairs_from hash_seed fuel r.0)

  meta_pairs_from-step :
      (fuel : ℕ) (i : MetaIter)
      → meta_pairs_from hash_seed (suc fuel) i ≡ (meta_next hash_seed fuel i >>= collect fuel)
  unfolding meta_pairs_from
  meta_pairs_from-step fuel i = refl

  abbrev EndsWith : MetaIter → Pairs → Type 0
  EndsWith i l =
      (enough : ℕ) × ((fuel : ℕ) → enough ≤ fuel → meta_pairs_from hash_seed fuel i ≡ some l)

  ended-EndsWith : (i j : MetaIter) (enough : ℕ) → Answers i enough (j, none) → EndsWith i []
  unfolding collected
  ended-EndsWith i j enough answers = (suc enough, from_enough)
    where
      from_enough : (fuel : ℕ) → suc enough ≤ fuel → meta_pairs_from hash_seed fuel i ≡ some []
      from_enough zero l = absurd (omega arith)
      from_enough (suc fuel) l =
          meta_pairs_from-step fuel i
          ∙ ap (λ (o : Option (MetaIter × Option (Bytes × Counters))). o >>= collect fuel)
              (answers fuel (omega arith))

  found-EndsWith :
      (i j : MetaIter) (p : Bytes × Counters) (l : Pairs) (enough : ℕ)
      → Answers i enough (j, some p)
      → EndsWith j l
      → EndsWith i (p ∷ l)
  unfolding collected
  found-EndsWith i j p l enough answers (rest, run) = (suc (enough + rest), from_enough)
    where
      from_enough :
          (fuel : ℕ) → suc (enough + rest) ≤ fuel → meta_pairs_from hash_seed fuel i ≡ some (p ∷ l)
      from_enough zero le = absurd (omega arith)
      from_enough (suc fuel) le =
          meta_pairs_from-step fuel i
          ∙ ap (λ (o : Option (MetaIter × Option (Bytes × Counters))). o >>= collect fuel)
              (answers fuel (omega arith))
          ∙ ap (λ (o : Option Pairs). o >>= λ x. some (p ∷ x)) (run fuel (omega arith))

  -- A loop over Next with enough fuel meets them all.
  MetaEmits-EndsWith : (i : MetaIter) (l : Pairs) → MetaEmits i l → EndsWith i l
  MetaEmits-EndsWith i [] (meta_ends enough answers) = ended-EndsWith i _ enough answers
  MetaEmits-EndsWith i (p ∷ l) (meta_emits {j = j} enough answers rest) =
      found-EndsWith i j p l enough answers (MetaEmits-EndsWith j l rest)

  -- A loop over a MetaIter of two maps in order ends without a panic with any fuel from some amount on,
  -- also while the maps are growing, and meets the pairs of a loop over the first map, then those of a
  -- loop over the second one, each without what its filter refuses; the pairs of the two loops have for
  -- each key the value that the map has, once, and none where it has none.
  pub meta_pairs-accepted :
      (a : AggFlowMap) (filter : Counters → Bool) (f g : Bytes → Option Counters)
      → IsValid hash_seed a.primary_map
      → IsValid hash_seed a.secondary_map
      → Represents hash_seed a.primary_map f
      → Represents hash_seed a.secondary_map g
      → (enough : ℕ) × (l : Pairs) × (k : Pairs) × ((fuel : ℕ)
          → enough ≤ fuel
          → (pairs hash_seed fuel a.primary_map.seed a.primary_map ≡ some l)
            × (pairs hash_seed fuel a.secondary_map.seed a.secondary_map ≡ some k)
            × (meta_pairs hash_seed fuel a filter ≡ some (accepted filter l ++ accepted filter k)))
        × ((q : Bytes) → (values q l ≡ to_list (f q)) × (values q k ≡ to_list (g q)))
  unfolding meta_pairs
  meta_pairs-accepted a filter f g v w r s =
      let (m, l, first, of_first) = pairs-values hash_seed a.primary_map f v r in
      let (n, k, second, of_second) = pairs-values hash_seed a.secondary_map g w s in
      let (o, both) = MetaEmits-EndsWith _ _ (
        both-MetaEmits filter _ _ l k
          (pairs-Emits hash_seed m a.primary_map l (first m (omega arith)))
          (pairs-Emits hash_seed n a.secondary_map k (second n (omega arith)))) in
      (
        m + (n + o),
        l,
        k,
        λ fuel le. (
          first fuel (omega arith),
          second fuel (omega arith),
          both fuel (omega arith)
              ∙ ap (λ (x : Pairs). some (accepted filter l ++ x)) (append-nil (accepted filter k)),
        ),
        λ q. (of_first q, of_second q),
      )
