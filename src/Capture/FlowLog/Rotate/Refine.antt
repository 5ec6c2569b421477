-- ===== src/Capture/FlowLog/Rotate/Refine.antt =====
-- The loops of `Aggregate` and `transferAndAggregate` do what `Rotate.Correct` tells without them.
use go_probe.Common.{
  ◌≡◌, refl, sym, ap, ◌∙◌, subst, inl, inr, Bool, not, ◌||◌, Option, none, some, [], ◌∷◌, ◌==◌,
  if◌then◌else◌, ◌>>=◌, arith, Bool-cases, Option-cases, if_elim,
}
use go_probe.Types.Counters.{
  Counters, zero_counters, add, add_assoc, add_comm, add-InRange, InRange,
}
use go_probe.Types.Key.{Key, new_empty_v4_key, new_empty_v6_key}
use go_probe.Capture.EpHash.{EpHash}
use go_probe.Capture.Flow.{Flow}
use go_probe.Capture.FlowLog.{FlowLog}
use go_probe.Capture.FlowLog.Totals.{total}
use go_probe.Capture.FlowLog.Rotate.{
  AggFlowMap, is_active, Buffers, new_buffers, put_flow, aggregate_loop, aggregate, Transfer, keep,
  transfer_flow, transfer_loop, transfer_and_aggregate, rotate,
}
use go_probe.Capture.FlowLog.Rotate.Correct.{
  IsArray, AllArrays, key_of, counts_for, merged, sum_for, active, retained, merged_assoc,
  merged-none, HasBuffers, put_flow_lem, lookup-put, length-key_of,
}

add-zero : (c : Counters) → InRange c → add c zero_counters ≡ c
unfolding add
add-zero c h = ground arith

zero-InRange : InRange zero_counters
zero-InRange = ground arith

zero-add : (c : Counters) → InRange c → add zero_counters c ≡ c
zero-add c h = add_comm zero_counters c ∙ add-zero c h

total-InRange : (log : FlowLog) → InRange (total log)
unfolding total
total-InRange [] = zero-InRange
total-InRange ((k, f) ∷ log) = add-InRange f.counters (total log)

has_packets_iff :
    (f : Flow)
    → (not (f.counters.packets_rcvd == 0) || not (f.counters.packets_sent == 0)) ≡ is_active f
unfolding is_active
has_packets_iff f = ground arith

module _ (agg_flow_map : AggFlowMap) where
  -- One flow put into the map, seen through the map's look-up.
  AddsFlow : Transfer agg_flow_map → Flow → Transfer agg_flow_map → Type 0
  AddsFlow s f s₁ =
      HasBuffers agg_flow_map s₁.buffers
      × (s₁.totals ≡ (if is_active f then add s.totals f.counters else s.totals))
      × ((k : Key) (v4 : Bool)
          → agg_flow_map.lookup s₁.buffers.agg k v4
            ≡ merged (agg_flow_map.lookup s.buffers.agg k v4)
                (if counts_for k v4 f then some f.counters else none))

  transfer_flow_lem :
      (s : Transfer agg_flow_map) (f : Flow)
      → HasBuffers agg_flow_map s.buffers
      → IsArray f.ep_hash
      → (s₁ : Transfer agg_flow_map) × (transfer_flow agg_flow_map s f ≡ some s₁) × AddsFlow s f s₁
  unfolding transfer_flow AddsFlow
  transfer_flow_lem s f hb ha = elim (Bool-cases (is_active f)) [
    | inr n ↦
        rw n
          (s, refl, (hb, refl, λ k v4. sym (merged-none (agg_flow_map.lookup s.buffers.agg k v4))))
    | inl t ↦
        let (b, e, hb₁, g) = put_flow_lem agg_flow_map s.buffers f hb ha in
        rw (t, e)
          (
            _,
            refl,
            (
              hb₁,
              refl,
              λ k v4.
                  ap (λ m. agg_flow_map.lookup m k v4) g
                  ∙ lookup-put agg_flow_map s.buffers.agg (key_of f) k f.is_ipv4 v4 f.counters
                      (length-key_of f ha),
            ),
          )
  ]

  AddsFlows : Transfer agg_flow_map → FlowLog → Transfer agg_flow_map × FlowLog → Type 0
  AddsFlows s log (s₁, left) =
      (left ≡ retained log)
      × (s₁.totals ≡ add s.totals (total (active log)))
      × ((k : Key) (v4 : Bool)
          → agg_flow_map.lookup s₁.buffers.agg k v4
            ≡ merged (agg_flow_map.lookup s.buffers.agg k v4) (sum_for k v4 log))

  totals_step :
      (s : Transfer agg_flow_map) (f : Flow) (k : EpHash) (log : FlowLog)
      → add (if is_active f then add s.totals f.counters else s.totals) (total (active log))
        ≡ add s.totals (total (active ((k, f) ∷ log)))
  unfolding total
  totals_step s f k log = elim (Bool-cases (is_active f)) [
    | inl t ↦ rw t (add_assoc s.totals f.counters (total (active log)))
    | inr n ↦ rw n refl
  ]

  transfer_loop_lem :
      (s : Transfer agg_flow_map) (log : FlowLog)
      → HasBuffers agg_flow_map s.buffers
      → InRange s.totals
      → AllArrays log
      → (r : Transfer agg_flow_map × FlowLog) × (transfer_loop agg_flow_map s log ≡ some r)
        × AddsFlows s log r
  unfolding transfer_loop AddsFlow AddsFlows total keep
  transfer_loop_lem s [] hb hr ha = (
    (s, []),
    refl,
    (
      refl,
      sym (add-zero s.totals hr),
      λ k v4. sym (merged-none (agg_flow_map.lookup s.buffers.agg k v4)),
    ),
  )
  transfer_loop_lem s ((k, f) ∷ log) hb hr (ha, has) =
      let (s₁, e, (hb₁, ht, hl)) = transfer_flow_lem s f hb ha in
      let in_range : InRange s₁.totals =
        subst InRange (sym ht)
          (if_elim InRange (is_active f) (add-InRange s.totals f.counters) hr) in
      let ((s₂, left), e₂, (hk, ht₂, hl₂)) = transfer_loop_lem s₁ log hb₁ in_range has in
      (
        (s₂, keep k f left),
        rw (e, e₂) refl,
        (
          rw hk refl,
          ht₂ ∙ ap (λ t. add t (total (active log))) ht ∙ totals_step s f k log,
          λ i w.
              hl₂ i w
              ∙ ap (λ o. merged o (sum_for i w log)) (hl i w)
              ∙ merged_assoc (agg_flow_map.lookup s.buffers.agg i w) _ (sum_for i w log),
        ),
      )

  -- Rotating a log whose endpoint hashes have the widths of the array never panics. It leaves the
  -- flows that have packets and whose direction is sure, with their counts reset, and drops all
  -- others; the totals are the sum over the flows with packets; and the map holds, under each key
  -- and IP version, the sum over the flows with packets that have this key, and nothing where there
  -- is none.
  pub rotate-Refines :
      (log : FlowLog)
      → AllArrays log
      → (agg : agg_flow_map.Map) × (rotate agg_flow_map log
          ≡ some (retained log, agg, total (active log)))
        × ((k : Key) (v4 : Bool) → agg_flow_map.lookup agg k v4 ≡ sum_for k v4 log)
  unfolding rotate transfer_and_aggregate AddsFlows HasBuffers new_buffers new_empty_v4_key
      new_empty_v6_key
  rotate-Refines log ha =
      let start : Transfer agg_flow_map = record {
        buffers = new_buffers agg_flow_map;
        totals = zero_counters;
      } in
      let ((s, left), e, (hk, ht, hl)) = transfer_loop_lem start log (refl, refl) zero-InRange ha in
      (
        s.buffers.agg,
        rw (e, hk, ht)
            (ap (λ t. some (retained log, s.buffers.agg, t))
              (zero-add (total (active log)) (total-InRange (active log)))),
        λ k v4. hl k v4 ∙ ap (λ o. merged o (sum_for k v4 log)) (agg_flow_map.lookup-new_map k v4),
      )

  bind_keep :
      (o : Option (Transfer agg_flow_map × FlowLog)) (k : EpHash) (f : Flow)
      → (o >>= λ r. some r.0.buffers) ≡ (
          ◌>>=◌ {A = Transfer agg_flow_map × FlowLog} {B = Transfer agg_flow_map × FlowLog} o
            (λ r. some (r.0, keep k f r.1))
          >>= λ r. some r.0.buffers)
  bind_keep none k f = refl
  bind_keep (some r) k f = refl

  bind_same :
      (o : Option (Transfer agg_flow_map × FlowLog))
      → ((o >>= λ r. some r.0.buffers) >>= λ b. some b.agg) ≡ (
          ◌>>=◌ {A = Transfer agg_flow_map × FlowLog} {B = FlowLog × agg_flow_map.Map × Counters} o
            (λ r. some (r.1, r.0.buffers.agg, r.0.totals))
          >>= λ r. some r.1)
  bind_same none = refl
  bind_same (some r) = refl

  aggregate_loop-transfer_loop :
      (b : Buffers agg_flow_map) (t : Counters) (log : FlowLog)
      → aggregate_loop agg_flow_map b log ≡ (
          transfer_loop agg_flow_map (record { buffers = b; totals = t }) log >>= λ r.
          some r.0.buffers)
  unfolding aggregate_loop transfer_loop transfer_flow
  aggregate_loop-transfer_loop b t [] = refl
  aggregate_loop-transfer_loop b t ((k, f) ∷ log) =
      rw (has_packets_iff f) (elim (Bool-cases (is_active f)) [
        | inr n ↦ rw n (
            aggregate_loop-transfer_loop b t log
            ∙ bind_keep (transfer_loop agg_flow_map (record { buffers = b; totals = t }) log) k f)
        | inl a ↦ rw a (elim (Option-cases (put_flow agg_flow_map b f)) [
          | inl e ↦ rw e refl
          | inr (b₁, e) ↦ rw e (
              aggregate_loop-transfer_loop b₁ (add t f.counters) log
              ∙ bind_keep
                  (transfer_loop agg_flow_map (record { buffers = b₁; totals = add t f.counters })
                    log)
                  k f)
        ])
      ])

  -- `Aggregate` returns the map that `Rotate` returns, or panics where it does, for every log.
  pub aggregate-eq-rotate :
      (log : FlowLog) → aggregate agg_flow_map log ≡ (rotate agg_flow_map log >>= λ r. some r.1)
  unfolding aggregate rotate transfer_and_aggregate
  aggregate-eq-rotate log =
      rw (aggregate_loop-transfer_loop (new_buffers agg_flow_map) zero_counters log) (
        bind_same (
          transfer_loop agg_flow_map
            (record { buffers = new_buffers agg_flow_map; totals = zero_counters }) log))
