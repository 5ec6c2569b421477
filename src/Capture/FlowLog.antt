-- ===== src/Capture/FlowLog.antt =====
-- `FlowLog` of pkg/capture/flow.go, and the parsing errors of capturetypes/parsing_error.go. The map
-- from endpoint hashes to flows is an association list, whose order is the one in which a loop over
-- the map visits it. Each flow is reached from one entry only, so that a change through its pointer is
-- a change of the entry.
pub mod Valid
pub mod Totals
pub mod Rotate
use go_probe.Common.{
  ℕ, suc, Bool, true, false, not, Option, none, some, List, [], ◌∷◌, if◌then◌else◌, length,
}
use go_probe.Capture.EpHash.{EpHash, reverse, same}
use go_probe.Capture.Flow.{Flow, new_flow, update_flow}

pub data ParsingErrno : Type 0 where
  errno_ok errno_packet_fragment_ignore errno_invalid_ip_header errno_packet_truncated :
      ParsingErrno

unfoldable pub parsing_failed : ParsingErrno → Bool
parsing_failed errno_ok = false
parsing_failed errno_packet_fragment_ignore = false
parsing_failed errno_invalid_ip_header = true
parsing_failed errno_packet_truncated = true

-- errno > ErrnoOK
unfoldable pub above_ok : ParsingErrno → Bool
above_ok errno_ok = false
above_ok _ = true

abbrev pub FlowLog : Type 0
FlowLog = List (EpHash × Flow)

unfoldable pub len : FlowLog → ℕ
len log = length log

-- flowMap[key]
unfoldable pub find : FlowLog → EpHash → Option Flow
find [] h = none
find ((k, f) ∷ log) h = if same k h then some f else find log h

-- A change of the flow under a key, through its pointer.
unfoldable pub modify : FlowLog → EpHash → (Flow → Flow) → FlowLog
modify [] h change = []
modify ((k, f) ∷ log) h change =
    if same k h then (k, change f) ∷ log else (k, f) ∷ modify log h change

-- flowMap[key] = flow
unfoldable pub assign : FlowLog → EpHash → Flow → FlowLog
assign [] h g = (h, g) ∷ []
assign ((k, f) ∷ log) h g = if same k h then (k, g) ∷ log else (k, f) ∷ assign log h g

unfoldable pub is_present : Option Flow → Bool
is_present none = false
is_present (some f) = true

module _ (packet_outgoing : ℕ) where
  -- The part of `Add` behind its guard.
  unfoldable pub add_packet : FlowLog → EpHash → ℕ → ℕ → Bool → ℕ → FlowLog
  add_packet log h pkt_type size v4 aux_info =
      if is_present (find log h)
      then modify log h (λ f. update_flow packet_outgoing f h aux_info pkt_type size)
      else if is_present (find log (reverse h))
      then modify log (reverse h)
          (λ f. update_flow packet_outgoing f (reverse h) aux_info pkt_type size)
      else assign log h (new_flow packet_outgoing h v4 aux_info pkt_type size)

  unfoldable pub add : FlowLog → EpHash → ℕ → ℕ → Bool → ℕ → ParsingErrno → FlowLog × ParsingErrno
  add log h pkt_type size v4 aux_info errno =
      if above_ok errno
      then (if parsing_failed errno then (log, errno) else (log, errno_ok))
      else (add_packet log h pkt_type size v4 aux_info, errno_ok)
