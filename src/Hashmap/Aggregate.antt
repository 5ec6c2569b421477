-- ===== src/Hashmap/Aggregate.antt =====
-- `AggFlowMap` of pkg/types/hashmap/aggregate.go: one map for IPv4 and one for IPv6.
use go_probe.Common.{ℕ, ◌+◌, Bool, Option, some, ◌>>=◌, if◌then◌else◌}
use go_probe.Common.Bytes.{Bytes}
use go_probe.Types.Counters.{Counters}
use go_probe.Hashmap.Table.{Map, new_hint}
use go_probe.Hashmap.Access.{set_or_update}

pub record AggFlowMap : Type 0 where
  pub primary_map : Map
  pub secondary_map : Map

-- The two seeds are drawn by the caller of the model; no hint is a hint of 0.
unfoldable pub new_agg_flow_map : ℕ → ℕ → ℕ → AggFlowMap
new_agg_flow_map seed seed₆ n = record {
  primary_map = new_hint seed n;
  secondary_map = new_hint seed₆ n;
}

unfoldable pub agg_len : AggFlowMap → ℕ
agg_len a = a.primary_map.count + a.secondary_map.count

module _ (hash_seed : Bytes → ℕ → ℕ) where
  unfoldable pub agg_set_or_update : AggFlowMap → Bytes → Bool → Counters → Option AggFlowMap
  agg_set_or_update a key is_ipv4 c =
      if is_ipv4
      then (set_or_update hash_seed a.primary_map key c >>= λ m.
          some (record a { primary_map = m }))
      else (set_or_update hash_seed a.secondary_map key c >>= λ m.
          some (record a { secondary_map = m }))
