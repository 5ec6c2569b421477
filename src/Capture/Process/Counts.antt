-- ===== src/Capture/Process/Counts.antt =====
-- The number of processed packets of pkg/capture/capture.go.
use go_probe.Common.{ℕ, ◌≡◌, refl, List, [], ◌∷◌, arith, length}
use go_probe.Types.Counters.{add_u64}
use go_probe.Capture.Buffer.{Element}
use go_probe.Capture.Process.{CaptureState, add_to_flow_log, status}

-- What the statistics count in all, before and after the last status.
abbrev pub all_processed : CaptureState → ℕ
all_processed c = add_u64 c.stats.processed_total c.stats.processed

unfoldable pub add_all : ℕ → CaptureState → List Element → CaptureState
add_all packet_outgoing c [] = c
add_all packet_outgoing c (e ∷ es) =
    add_all packet_outgoing (add_to_flow_log packet_outgoing c e) es

-- Packets that are added to the flow log are counted one by one, those that cannot be parsed included, and
-- a status in between reports the total, keeps it and starts the count of the next interval at nothing.
pub status-add_all :
    (packet_outgoing : ℕ) (es : List Element) (c : CaptureState) (received dropped : ℕ)
    → (all_processed (add_all packet_outgoing c es) ≡ add_u64 (all_processed c) (length es))
      × ((status c received dropped).0.processed_total ≡ all_processed c)
      × (all_processed (status c received dropped).1 ≡ all_processed c)
      × ((status c received dropped).1.stats.processed ≡ 0)
unfolding add_all add_to_flow_log status
status-add_all packet_outgoing [] c received dropped = (omega arith, refl, omega arith, refl)
status-add_all packet_outgoing (e ∷ es) c received dropped =
    let (rest, _, _, _) =
      status-add_all packet_outgoing es (add_to_flow_log packet_outgoing c e) received dropped in
    (omega (arith, rest), refl, omega arith, refl)
