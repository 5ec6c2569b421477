-- ===== src/Hashmap/Meta.antt =====
-- `MetaIter` of pkg/types/hashmap/iterator.go: an iterator over one map and then over another one, with
-- the option of a filter on the values.
use go_probe.Common.{ℕ, zero, suc, Bool, Option, none, some, List, [], ◌∷◌, if◌then◌else◌, ◌>>=◌}
use go_probe.Common.Bytes.{Bytes}
use go_probe.Types.Counters.{Counters}
use go_probe.Hashmap.Table.{Map}
use go_probe.Hashmap.Iterator.{Iter, iter, next}
use go_probe.Hashmap.Aggregate.{AggFlowMap}

-- An iterator and its map; a map without entries has no iterator.
pub record MapIter : Type 0 where
  pub over : Map
  pub at : Option Iter

-- No filter is a filter that accepts all.
pub record MetaIter : Type 0 where
  pub primary : MapIter
  pub secondary : Option MapIter
  pub filter : Counters → Bool

unfoldable pub meta_iter : AggFlowMap → (Counters → Bool) → MetaIter
meta_iter a filter = record {
  primary = record { over = a.primary_map; at = iter a.primary_map };
  secondary = some (record { over = a.secondary_map; at = iter a.secondary_map });
  filter = filter;
}

module _ (hash_seed : Bytes → ℕ → ℕ) where
  -- Next of an iterator; without a map it answers false.
  unfoldable pub iter_next : Map → Option Iter → Option (MapIter × Option (Bytes × Counters))
  iter_next m none = some (record { over = m; at = none }, none)
  iter_next m (some it) = next hash_seed m.seed m it >>= λ r.
      some (record { over = m; at = some r.0 }, if r.1 then some (r.0.key, r.0.val) else none)

  unfoldable pub map_next : MapIter → Option (MapIter × Option (Bytes × Counters))
  unfolding iter_next
  map_next i = iter_next i.over i.at

  -- What MetaIter.Next does after Next of the current iterator.
  unfoldable pub after_next :
      (MetaIter → Option (MetaIter × Option (Bytes × Counters)))
      → MetaIter
      → MapIter × Option (Bytes × Counters)
      → Option (MetaIter × Option (Bytes × Counters))
  after_next again i (it, some p) =
      let further = again (record i { primary = it }) in
      if i.filter p.1 then some (record i { primary = it }, some p) else further
  after_next again i (it, none) = elim i.secondary [
    | none ↦ some (record i { primary = it }, none)
    | some jt ↦ again (record i { primary = jt; secondary = none })
  ]

  unfoldable pub meta_next : ℕ → MetaIter → Option (MetaIter × Option (Bytes × Counters))
  unfolding after_next map_next
  meta_next zero i = none
  meta_next (suc fuel) i = map_next i.primary >>= after_next (meta_next fuel) i

  unfoldable pub collected :
      Option (Bytes × Counters)
      → Option (List (Bytes × Counters))
      → Option (List (Bytes × Counters))
  collected none later = some []
  collected (some p) later = later >>= λ l. some (p ∷ l)

  -- The pairs that a loop over Next meets.
  unfoldable pub meta_pairs_from : ℕ → MetaIter → Option (List (Bytes × Counters))
  unfolding collected
  meta_pairs_from zero i = none
  meta_pairs_from (suc fuel) i = meta_next fuel i >>= λ r. collected r.1 (meta_pairs_from fuel r.0)

  unfoldable pub meta_pairs : ℕ → AggFlowMap → (Counters → Bool) → Option (List (Bytes × Counters))
  unfolding meta_iter
  meta_pairs fuel a filter = meta_pairs_from fuel (meta_iter a filter)
