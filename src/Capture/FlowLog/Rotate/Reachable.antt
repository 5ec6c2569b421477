-- ===== src/Capture/FlowLog/Rotate/Reachable.antt =====
-- The states of a flow log: it starts empty, packets are added, and it is rotated.
use go_probe.Common.{
  ℕ, ◌≡◌, refl, sym, ap, ◌∙◌, subst, inl, inr, Bool, ◌&&◌, some, some-injective, [], ◌∷◌, if_elim,
}
use go_probe.Types.Counters.{Counters, zero_counters, add as add_counters}
use go_probe.Types.Key.{Key}
use go_probe.Capture.EpHash.{EpHash, reverse, same}
use go_probe.Capture.Flow.{Flow, reset, IsOriented}
use go_probe.Capture.FlowLog.{
  FlowLog, find, modify, assign, is_present, add, add_packet, above_ok, parsing_failed,
  ParsingErrno, errno_ok, errno_packet_fragment_ignore, errno_invalid_ip_header,
  errno_packet_truncated,
}
use go_probe.Capture.FlowLog.Totals.{total}
use go_probe.Capture.FlowLog.Valid.{Apart, IsValid, add-IsValid}
use go_probe.Capture.FlowLog.Rotate.{AggFlowMap, is_active, rotate}
use go_probe.Capture.FlowLog.Rotate.Correct.{IsArray, AllArrays, active, retained, sum_for}
use go_probe.Capture.FlowLog.Rotate.Refine.{rotate-Refines}

reverse-IsArray : (h : EpHash) → IsArray h → IsArray (reverse h)
unfolding reverse
reverse-IsArray h (s, d, p, q) = (d, s, q, p)

oriented-IsArray : (h : EpHash) (f : Flow) → IsArray h → IsOriented h f → IsArray f.ep_hash
oriented-IsArray h f a (inl e) = subst IsArray (sym e) a
oriented-IsArray h f a (inr e) = subst IsArray (sym e) (reverse-IsArray h a)

-- The keys of a log are arrays.
abbrev pub AllKeys : FlowLog → Type 0
AllKeys [] = Unit {0}
AllKeys ((k, f) ∷ log) = IsArray k × AllKeys log

valid-AllArrays : (log : FlowLog) → IsValid log → AllKeys log → AllArrays log
valid-AllArrays [] v k = tt
valid-AllArrays ((k, f) ∷ log) (o, a, v) (i, is) =
    (oriented-IsArray k f i o, valid-AllArrays log v is)

modify-AllKeys :
    (log : FlowLog) (h : EpHash) (change : Flow → Flow)
    → AllKeys log
    → AllKeys (modify log h change)
unfolding modify
modify-AllKeys [] h change a = tt
modify-AllKeys ((k, f) ∷ log) h change (i, is) =
    let rest = modify-AllKeys log h change is in if_elim AllKeys (same k h) (i, is) (i, rest)

assign-AllKeys :
    (log : FlowLog) (h : EpHash) (g : Flow) → IsArray h → AllKeys log → AllKeys (assign log h g)
unfolding assign
assign-AllKeys [] h g i a = (i, tt)
assign-AllKeys ((k, f) ∷ log) h g i (j, js) =
    let rest = assign-AllKeys log h g i js in if_elim AllKeys (same k h) (j, js) (j, rest)

add-AllKeys :
    (packet_outgoing : ℕ) (log : FlowLog) (h : EpHash) (pkt_type size : ℕ) (v4 : Bool)
    (aux_info : ℕ) (errno : ParsingErrno)
    → IsArray h
    → AllKeys log
    → AllKeys (add packet_outgoing log h pkt_type size v4 aux_info errno).0
unfolding add add_packet above_ok parsing_failed
add-AllKeys packet_outgoing log h pkt_type size v4 aux_info errno_ok i a =
    if_elim AllKeys (is_present (find log h)) (modify-AllKeys log h _ a) (
      if_elim AllKeys (is_present (find log (reverse h))) (modify-AllKeys log (reverse h) _ a)
        (assign-AllKeys log h _ i a))
add-AllKeys packet_outgoing log h pkt_type size v4 aux_info errno_packet_fragment_ignore i a = a
add-AllKeys packet_outgoing log h pkt_type size v4 aux_info errno_invalid_ip_header i a = a
add-AllKeys packet_outgoing log h pkt_type size v4 aux_info errno_packet_truncated i a = a

retained-Apart : (k : EpHash) (log : FlowLog) → Apart k log → Apart k (retained log)
retained-Apart k [] a = tt
retained-Apart k ((i, f) ∷ log) (x, y, a) =
    let rest = retained-Apart k log a in
    if_elim (Apart k) (is_active f && f.direction_confidence_high) (x, y, rest) rest

retained-IsValid : (log : FlowLog) → IsValid log → IsValid (retained log)
unfolding reset
retained-IsValid [] v = tt
retained-IsValid ((k, f) ∷ log) (o, a, v) =
    let rest = retained-IsValid log v in
    if_elim IsValid (is_active f && f.direction_confidence_high) (o, retained-Apart k log a, rest)
      rest

retained-AllKeys : (log : FlowLog) → AllKeys log → AllKeys (retained log)
retained-AllKeys [] a = tt
retained-AllKeys ((k, f) ∷ log) (i, is) =
    let rest = retained-AllKeys log is in
    if_elim AllKeys (is_active f && f.direction_confidence_high) (i, rest) rest

add_zeros : add_counters zero_counters zero_counters ≡ zero_counters
unfolding add_counters
add_zeros = refl

HasNoCounts : FlowLog → Type 0
HasNoCounts log = total log ≡ zero_counters

retained-HasNoCounts : (log : FlowLog) → HasNoCounts (retained log)
unfolding HasNoCounts total reset
retained-HasNoCounts [] = refl
retained-HasNoCounts ((k, f) ∷ log) =
    let rest = retained-HasNoCounts log in
    if_elim HasNoCounts (is_active f && f.direction_confidence_high)
      (ap (add_counters zero_counters) rest ∙ add_zeros) rest

module _ (agg_flow_map : AggFlowMap) (packet_outgoing : ℕ) where
  -- The logs that additions and rotations lead to from the empty one.
  pub data Reachable : FlowLog → Type 0 where
    created : Reachable []
    added :
        (log : FlowLog)
        → Reachable log
        → (h : EpHash) → IsArray h
        → (pkt_type size : ℕ) (v4 : Bool) (aux_info : ℕ) (errno : ParsingErrno)
        → Reachable (add packet_outgoing log h pkt_type size v4 aux_info errno).0
    rotated :
        (log after : FlowLog) (agg : agg_flow_map.Map) (totals : Counters)
        → Reachable log
        → rotate agg_flow_map log ≡ some (after, agg, totals)
        → Reachable after

  rotated-retained :
      (log after : FlowLog) (agg : agg_flow_map.Map) (totals : Counters)
      → AllArrays log
      → rotate agg_flow_map log ≡ some (after, agg, totals)
      → after ≡ retained log
  rotated-retained log after agg totals a e =
      let (m, g, _) = rotate-Refines agg_flow_map log a in
      ap (λ (r : FlowLog × agg_flow_map.Map × Counters). r.0) (some-injective _ _ (sym e ∙ g))

  Reachable-IsValid : (log : FlowLog) → Reachable log → IsValid log × AllKeys log
  Reachable-IsValid log created = (tt, tt)
  Reachable-IsValid log (added before r h i pkt_type size v4 aux_info errno) =
      let (v, a) = Reachable-IsValid before r in
      (
        (add-IsValid packet_outgoing before h pkt_type size v4 aux_info v errno).0,
        add-AllKeys packet_outgoing before h pkt_type size v4 aux_info errno i a,
      )
  Reachable-IsValid log (rotated before after agg totals r e) =
      let (v, a) = Reachable-IsValid before r in
      let same = sym (rotated-retained before after agg totals (valid-AllArrays before v a) e) in
      (
        subst IsValid same (retained-IsValid before v),
        subst AllKeys same (retained-AllKeys before a),
      )

  -- In whatever order packets were added to a flow log and the log was rotated, it holds one flow for
  -- each conversation, and a rotation succeeds: it hands the sums of all flows with packets over, and
  -- leaves the flows whose direction is sure with no counts.
  pub Reachable-rotate :
      (log : FlowLog)
      → Reachable log
      → IsValid log
        × (total (retained log) ≡ zero_counters)
        × ((agg : agg_flow_map.Map) × (rotate agg_flow_map log
              ≡ some (retained log, agg, total (active log)))
            × ((k : Key) (v4 : Bool) → agg_flow_map.lookup agg k v4 ≡ sum_for k v4 log))
  unfolding HasNoCounts
  Reachable-rotate log r =
      let (v, a) = Reachable-IsValid log r in
      (v, retained-HasNoCounts log, rotate-Refines agg_flow_map log (valid-AllArrays log v a))
