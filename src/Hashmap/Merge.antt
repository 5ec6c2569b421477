-- ===== src/Hashmap/Merge.antt =====
-- Merge and Flatten of pkg/types/hashmap: loops over the entries of another map. Merge hashes the keys of
-- that map with the seed of its own map.
use go_probe.Common.{ℕ, zero, suc, replicate, Option, none, some, List, [], ◌∷◌, ◌>>=◌}
use go_probe.Common.Bytes.{Bytes}
use go_probe.Types.Counters.{Counters, zero_counters}
use go_probe.Hashmap.Table.{Map}
use go_probe.Hashmap.Access.{set_or_update}
use go_probe.Hashmap.Aggregate.{AggFlowMap}
use go_probe.Hashmap.Iterator.{pairs}

-- The list of a map that Len gives the length: a pair that is met beyond it panics, and items that no
-- pair is met for stay zero.
unfoldable pub fill_list : ℕ → List (Bytes × Counters) → Option (List (Bytes × Counters))
fill_list n [] = some (replicate n ([], zero_counters))
fill_list zero (p ∷ l) = none
fill_list (suc n) (p ∷ l) = fill_list n l >>= λ rest. some (p ∷ rest)

module _ (hash_seed : Bytes → ℕ → ℕ) where
  -- The calls of SetOrUpdate for the entries.
  unfoldable pub write_all : Map → List (Bytes × Counters) → Option Map
  write_all m [] = some m
  write_all m ((key, c) ∷ writes) = set_or_update hash_seed m key c >>= λ n. write_all n writes

  -- The maps are different ones, so that the writes do not change what the iterator goes over.
  unfoldable pub merge_map : ℕ → Map → Map → Option Map
  merge_map fuel m m₂ = pairs hash_seed fuel m.seed m₂ >>= λ l. write_all m l

  unfoldable pub merge_agg : ℕ → AggFlowMap → AggFlowMap → Option AggFlowMap
  unfolding merge_map
  merge_agg fuel a b = merge_map fuel a.primary_map b.primary_map >>= λ p.
      merge_map fuel a.secondary_map b.secondary_map >>= λ s.
      some (record { primary_map = p; secondary_map = s })

  unfoldable pub flatten :
      ℕ → AggFlowMap → Option (List (Bytes × Counters) × List (Bytes × Counters))
  unfolding fill_list
  flatten fuel a = pairs hash_seed fuel a.primary_map.seed a.primary_map >>= λ l.
      fill_list a.primary_map.count l >>= λ p.
      pairs hash_seed fuel a.secondary_map.seed a.secondary_map >>= λ k.
      fill_list a.secondary_map.count k >>= λ s. some (p, s)
