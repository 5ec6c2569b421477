-- ===== src/Capture/FlowLog/Rotate.antt =====
-- `Aggregate` and `transferAndAggregate` of pkg/capture/flow.go: the flows of an interval move to an
-- aggregation map. The map is known by its operations and laws only (`AggFlowMap` of
-- pkg/types/hashmap/aggregate.go). The two key buffers are reused from flow to flow.
pub mod Correct
pub mod Refine
pub mod Reachable
use go_probe.Common.{
  ℕ, ◌≡◌, ◌≢◌, ◌⊎◌, Bool, true, false, not, ◌&&◌, ◌||◌, Option, none, some, List, [], ◌∷◌, ltb,
  ◌==◌, if◌then◌else◌, ◌>>=◌, take, length, ◌≤◌,
}
use go_probe.Types.Counters.{Counters, zero_counters, add}
use go_probe.Types.Key.{Key, put_all_v4, put_all_v6, new_empty_v4_key, new_empty_v6_key}
use go_probe.Capture.EpHash.{EpHash}
use go_probe.Capture.Flow.{Flow, reset}
use go_probe.Capture.FlowLog.{FlowLog}

-- The counters under a key after more are put there.
abbrev pub joined : Option Counters → Counters → Counters
joined none c = c
joined (some d) c = add d c

-- The laws of the map are needed for keys up to this length.
abbrev pub max_key_len : ℕ
max_key_len = 65536

pub record AggFlowMap : Type 1 where
  pub Map : Type 0
  pub new_map : Map
  pub set_or_update : Map → Key → Bool → Counters → Map
  pub lookup : Map → Key → Bool → Option Counters
  pub lookup-new_map : (k : Key) (v4 : Bool) → lookup new_map k v4 ≡ none
  pub lookup-set_or_update :
      (m : Map) (k : Key) (v4 : Bool) (c : Counters)
      → length k ≤ max_key_len
      → lookup (set_or_update m k v4 c) k v4 ≡ some (joined (lookup m k v4) c)
  pub lookup-other :
      (m : Map) (k : Key) (v4 : Bool) (c : Counters) (i : Key) (w : Bool)
      → length k ≤ max_key_len
      → (k ≢ i) ⊎ (v4 ≢ w)
      → lookup (set_or_update m k v4 c) i w ≡ lookup m i w

-- v.packetsRcvd > 0 || v.packetsSent > 0
unfoldable pub is_active : Flow → Bool
is_active f = ltb 0 f.counters.packets_rcvd || ltb 0 f.counters.packets_sent

-- An entry stays, with its counters reset, where the loop does not delete it.
unfoldable pub keep : EpHash → Flow → FlowLog → FlowLog
keep k f rest = if is_active f && f.direction_confidence_high then (k, reset f) ∷ rest else rest

module _ (agg_flow_map : AggFlowMap) where
  -- The aggregation map and the key buffers of the loops.
  pub record Buffers : Type 0 where
    pub agg : agg_flow_map.Map
    pub key_buf_v4 : Key
    pub key_buf_v6 : Key

  unfoldable pub new_buffers : Buffers
  new_buffers = record {
    agg = agg_flow_map.new_map;
    key_buf_v4 = new_empty_v4_key;
    key_buf_v6 = new_empty_v6_key;
  }

  unfoldable pub put_flow : Buffers → Flow → Option Buffers
  put_flow b f =
      let h = f.ep_hash in
      if f.is_ipv4
      then (put_all_v4 b.key_buf_v4 (take 4 h.source) (take 4 h.destination) h.dport h.protocol
          >>= λ k. some (record b {
            agg = agg_flow_map.set_or_update b.agg k true f.counters;
            key_buf_v4 = k;
          }))
      else (put_all_v6 b.key_buf_v6 h.source h.destination h.dport h.protocol >>= λ k.
          some (record b {
            agg = agg_flow_map.set_or_update b.agg k false f.counters;
            key_buf_v6 = k;
          }))

  -- v.packetsRcvd != 0 || v.packetsSent != 0
  unfoldable pub aggregate_loop : Buffers → FlowLog → Option Buffers
  aggregate_loop b [] = some b
  aggregate_loop b ((k, f) ∷ log) =
      (if not (f.counters.packets_rcvd == 0) || not (f.counters.packets_sent == 0)
        then put_flow b f
        else some b)
      >>= λ b₁. aggregate_loop b₁ log

  unfoldable pub aggregate : FlowLog → Option agg_flow_map.Map
  aggregate log = aggregate_loop new_buffers log >>= λ b. some b.agg

  -- What the loop of `transferAndAggregate` carries from flow to flow.
  pub record Transfer : Type 0 where
    pub buffers : Buffers
    pub totals : Counters

  unfoldable pub transfer_flow : Transfer → Flow → Option Transfer
  transfer_flow s f =
      if is_active f
      then (put_flow s.buffers f >>= λ b.
          some (record { buffers = b; totals = add s.totals f.counters }))
      else some s

  unfoldable pub transfer_loop : Transfer → FlowLog → Option (Transfer × FlowLog)
  transfer_loop s [] = some (s, [])
  transfer_loop s ((k, f) ∷ log) =
      transfer_flow s f >>= λ s₁. transfer_loop s₁ log >>= λ r. some (r.0, keep k f r.1)

  unfoldable pub transfer_and_aggregate : FlowLog → Option (FlowLog × agg_flow_map.Map × Counters)
  transfer_and_aggregate log =
      transfer_loop (record { buffers = new_buffers; totals = zero_counters }) log >>= λ r.
      some (r.1, r.0.buffers.agg, r.0.totals)

  unfoldable pub rotate : FlowLog → Option (FlowLog × agg_flow_map.Map × Counters)
  rotate log = transfer_and_aggregate log
