-- ===== src/Capture/FlowLog/Rotate/Correct.antt =====
-- What a rotation returns and leaves, told without its loop and its key buffers.
use go_probe.Common.{
  ◌≡◌, refl, sym, ap, ◌∙◌, inl, inr, Bool, true, false, not, ◌&&◌, Option, none, some, [], ◌∷◌,
  if◌then◌else◌, take, length, length-take, arith, Bool-cases, ◌↔◌, ◌≤◌,
}
use go_probe.Types.Counters.{Counters, add, add_assoc}
use go_probe.Types.Key.{Key}
use go_probe.Types.Key.Layout.{
  flow_key, HasWidth, length-flow_key, put_all_v4-eq-flow_key, put_all_v6-eq-flow_key,
}
use go_probe.Capture.EpHash.{EpHash, same_bytes, same_bytes_iff}
use go_probe.Capture.Flow.{Flow, reset}
use go_probe.Capture.FlowLog.{FlowLog}
use go_probe.Capture.FlowLog.Rotate.{AggFlowMap, joined, is_active, Buffers, put_flow}

-- The parts of an endpoint hash have the widths that the array gives them.
abbrev pub IsArray : EpHash → Type 0
IsArray h =
    (length h.source ≡ 16)
    × (length h.destination ≡ 16)
    × (length h.dport ≡ 2)
    × (length h.sport ≡ 2)

abbrev pub AllArrays : FlowLog → Type 0
AllArrays [] = Unit {0}
AllArrays ((k, f) ∷ log) = IsArray f.ep_hash × AllArrays log

-- The key that a flow is aggregated under: the source port is left out.
abbrev pub key_of : Flow → Key
key_of f =
    if f.is_ipv4
    then flow_key (take 4 f.ep_hash.source) (take 4 f.ep_hash.destination) f.ep_hash.dport
        f.ep_hash.protocol
    else flow_key f.ep_hash.source f.ep_hash.destination f.ep_hash.dport f.ep_hash.protocol

abbrev pub same_version : Bool → Bool → Bool
same_version true w = w
same_version false w = not w

-- The flow has packets, and is aggregated under the key.
abbrev pub counts_for : Key → Bool → Flow → Bool
counts_for k v4 f = is_active f && (same_bytes (key_of f) k && same_version f.is_ipv4 v4)

abbrev pub merged : Option Counters → Option Counters → Option Counters
merged none d = d
merged (some c) none = some c
merged (some c) (some d) = some (add c d)

-- The sum over the flows that count for a key, `none` where there is no such flow.
abbrev pub sum_for : Key → Bool → FlowLog → Option Counters
sum_for k v4 [] = none
sum_for k v4 ((i, f) ∷ log) =
    merged (if counts_for k v4 f then some f.counters else none) (sum_for k v4 log)

abbrev pub active : FlowLog → FlowLog
active [] = []
active ((k, f) ∷ log) = let rest = active log in if is_active f then (k, f) ∷ rest else rest

-- The flows with packets whose direction is sure, with no counts left.
abbrev pub retained : FlowLog → FlowLog
retained [] = []
retained ((k, f) ∷ log) =
    let rest = retained log in
    if is_active f && f.direction_confidence_high then (k, reset f) ∷ rest else rest

pub merged_assoc : (a b c : Option Counters) → merged (merged a b) c ≡ merged a (merged b c)
merged_assoc none b c = refl
merged_assoc (some a) none c = refl
merged_assoc (some a) (some b) none = refl
merged_assoc (some a) (some b) (some c) = ap some (add_assoc a b c)

joined-merged : (o : Option Counters) (c : Counters) → some (joined o c) ≡ merged o (some c)
joined-merged none c = refl
joined-merged (some d) c = refl

pub merged-none : (o : Option Counters) → merged o none ≡ o
merged-none none = refl
merged-none (some c) = refl

pub same_version_iff : (v w : Bool) → (same_version v w ≡ true) ↔ (v ≡ w)
same_version_iff true true = ground arith
same_version_iff true false = ground arith
same_version_iff false true = ground arith
same_version_iff false false = ground arith

pub length-key_of : (f : Flow) → IsArray f.ep_hash → length (key_of f) ≤ 65536
length-key_of f (s, d, p, q) =
    let h = f.ep_hash in
    let narrow : HasWidth 4 (take 4 h.source) (take 4 h.destination) h.dport =
      omega (arith, length-take 4 h.source, length-take 4 h.destination) in
    let wide : HasWidth 16 h.source h.destination h.dport = omega arith in
    elim (Bool-cases f.is_ipv4) [
      | inl t ↦ rw t (omega (arith, length-flow_key 4 h.protocol narrow))
      | inr n ↦ rw n (omega (arith, length-flow_key 16 h.protocol wide))
    ]

module _ (agg_flow_map : AggFlowMap) where
  unfoldable pub HasBuffers : Buffers agg_flow_map → Type 0
  HasBuffers b = (length b.key_buf_v4 ≡ 11) × (length b.key_buf_v6 ≡ 35)

  pub put_flow_lem :
      (b : Buffers agg_flow_map) (f : Flow)
      → HasBuffers b
      → IsArray f.ep_hash
      → (b₁ : Buffers agg_flow_map) × (put_flow agg_flow_map b f ≡ some b₁)
        × HasBuffers b₁
        × (b₁.agg ≡ agg_flow_map.set_or_update b.agg (key_of f) f.is_ipv4 f.counters)
  unfolding put_flow HasBuffers
  put_flow_lem b f (h₄, h₆) (s, d, p, q) =
      let h = f.ep_hash in
      let narrow : HasWidth 4 (take 4 h.source) (take 4 h.destination) h.dport =
        omega (arith, length-take 4 h.source, length-take 4 h.destination) in
      let wide : HasWidth 16 h.source h.destination h.dport = omega arith in
      elim (Bool-cases f.is_ipv4) [
        | inl t ↦
            rw (t, put_all_v4-eq-flow_key h.protocol b.key_buf_v4 h₄ narrow)
              (_, refl, (length-flow_key 4 h.protocol narrow, h₆), refl)
        | inr n ↦
            rw (n, put_all_v6-eq-flow_key h.protocol b.key_buf_v6 h₆ wide)
              (_, refl, (h₄, length-flow_key 16 h.protocol wide), refl)
      ]

  pub lookup-put :
      (m : agg_flow_map.Map) (k i : Key) (v w : Bool) (c : Counters)
      → length k ≤ 65536
      → agg_flow_map.lookup (agg_flow_map.set_or_update m k v c) i w
        ≡ merged
            (agg_flow_map.lookup m i w)
            (if same_bytes k i && same_version v w then some c else none)
  lookup-put m k i v w c short = elim (Bool-cases (same_bytes k i)) [
    | inr n ↦
        rw (n, merged-none (agg_flow_map.lookup m i w))
          (agg_flow_map.lookup-other m k v c i w short
            (inl (λ e. absurd (ground (arith, n, (same_bytes_iff k i).1 e)))))
    | inl t ↦ elim (Bool-cases (same_version v w)) [
      | inr n ↦
          rw (t, n, merged-none (agg_flow_map.lookup m i w))
            (agg_flow_map.lookup-other m k v c i w short
              (inr (λ e. absurd (ground (arith, n, (same_version_iff v w).1 e)))))
      | inl r ↦
          rw (t, r, sym ((same_bytes_iff k i).0 t), sym ((same_version_iff v w).0 r))
            (agg_flow_map.lookup-set_or_update m k v c short
              ∙ joined-merged (agg_flow_map.lookup m k v) c)
    ]
  ]
