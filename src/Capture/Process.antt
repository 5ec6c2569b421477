-- ===== src/Capture/Process.antt =====
-- The packet loop of pkg/capture/capture.go: `process`, `capturePacket`, `addToFlowLog` and `status`, with
-- the statistics of capturetypes/status.go and parsing_error.go. What the loop meets, one thing at a time,
-- is an event: what the packet source returns, a request of the lock, which another goroutine makes, and
-- its release; the goroutine that holds the lock works on the state through calls of its own. The time
-- the capture started at, the logging and the metrics are left out.
pub mod Counts
pub mod Steps
mod Matched
pub mod Refine
use go_probe.Common.{ℕ, zero, suc, ◌+◌, Bool, true, false, List, [], ◌∷◌, ◌++◌, if◌then◌else◌}
use go_probe.Common.Bytes.{Bytes}
use go_probe.Common.Result.{Result, ok, or_panic, ◌>>=◌}
use go_probe.Types.Counters.{add_u64}
use go_probe.Capture.FlowLog as FlowLog
use go_probe.Capture.FlowLog.{
  FlowLog, ParsingErrno, errno_ok, errno_packet_fragment_ignore, errno_invalid_ip_header,
  errno_packet_truncated,
}
use go_probe.Capture.Packet.{Parsed, parse_packet}
use go_probe.Capture.Buffer as Buffer
use go_probe.Capture.Buffer.{
  Limits, LocalBuffer, Element, NoError, empty_buffer, assign_data, get, n_elements,
}

-- One counter for each error number from ErrnoInvalidIPHeader on.
pub record ParsingErrTracker : Type 0 where
  pub invalid_ip_header : ℕ
  pub packet_truncated : ℕ

abbrev pub no_errors : ParsingErrTracker
no_errors = record { invalid_ip_header = 0; packet_truncated = 0 }

unfoldable pub sum : ParsingErrTracker → ℕ
sum t = add_u64 t.invalid_ip_header t.packet_truncated

unfoldable pub reset_tracker : ParsingErrTracker → ParsingErrTracker
reset_tracker t = no_errors

-- ParsingErrors[errno]++, where parsing failed
unfoldable pub track : ParsingErrno → ParsingErrTracker → ParsingErrTracker
track errno_invalid_ip_header t = record t { invalid_ip_header = add_u64 t.invalid_ip_header 1 }
track errno_packet_truncated t = record t { packet_truncated = add_u64 t.packet_truncated 1 }
track _ t = t

pub record CaptureStats : Type 0 where
  pub received : ℕ
  pub received_total : ℕ
  pub processed : ℕ
  pub processed_total : ℕ
  pub dropped : ℕ
  pub dropped_total : ℕ
  pub parsing_errors : ParsingErrTracker

-- The fields of `Capture` that the loop works on.
pub record CaptureState : Type 0 where
  pub flow_log : FlowLog
  pub stats : CaptureStats

-- The error that `Add` of the flow log returns is counted where parsing failed; no other is above OK.
unfoldable pub add_to_flow_log : ℕ → CaptureState → Element → CaptureState
add_to_flow_log packet_outgoing c e =
    let (flow_log, errno) =
      FlowLog.add packet_outgoing c.flow_log e.ep_hash e.pkt_type e.pkt_size e.is_ipv4 e.aux_info
        e.errno in
    record {
      flow_log = flow_log;
      stats = record c.stats {
        processed = add_u64 c.stats.processed 1;
        parsing_errors = track errno c.stats.parsing_errors;
      };
    }

-- The numbers of packets that the source received and dropped since the last call are its answer.
unfoldable pub status : CaptureState → ℕ → ℕ → CaptureStats × CaptureState
status c packets_received packets_dropped =
    let received_total = add_u64 c.stats.received_total packets_received in
    let processed_total = add_u64 c.stats.processed_total c.stats.processed in
    let dropped_total = add_u64 c.stats.dropped_total packets_dropped in
    (
      record {
        received = packets_received;
        received_total = received_total;
        processed = c.stats.processed;
        processed_total = processed_total;
        dropped = packets_dropped;
        dropped_total = dropped_total;
        parsing_errors = c.stats.parsing_errors;
      },
      record c {
        stats = record c.stats {
          received_total = received_total;
          processed_total = processed_total;
          dropped_total = dropped_total;
          processed = 0;
          parsing_errors = reset_tracker c.stats.parsing_errors;
        };
      },
    )

pub data CaptureError : Type 0 where
  local_buffer_overflow capture_error capture_error_while_buffering : CaptureError

-- Where the loop is: in front of the next packet, filling the local buffer while the lock is held,
-- waiting for the lock's release with a full buffer, or behind its return.
pub data Mode : Type 0 where
  running : Mode
  buffering : LocalBuffer → Mode
  waiting : LocalBuffer → Mode
  finished : Mode

-- A request of the lock hands over a slice of the memory pool. `locked_call` is what the holder of the
-- lock does, such as a rotation.
pub data Event : Type 0 where
  lock_request : Bytes → Event
  unlock : Event
  packet : Bytes → ℕ → ℕ → Event
  capture_unblocked capture_stopped capture_failed : Event
  locked_call : (CaptureState → CaptureState) → Event

pub record ProcessState : Type 0 where
  pub capture : CaptureState
  pub mode : Mode
  pub errors : List CaptureError

-- The element for a parsed packet.
unfoldable pub element : Parsed → ℕ → ℕ → Element
element p pkt_type pkt_size = record {
  ep_hash = p.ep_hash;
  pkt_type = pkt_type;
  pkt_size = pkt_size;
  is_ipv4 = p.is_ipv4;
  aux_info = p.aux_info;
  errno = p.errno;
}

module _ (limits : Limits) (packet_outgoing : ℕ) (layer_type : Bytes → ℕ) where
  unfoldable pub capture_packet : CaptureState → Bytes → ℕ → ℕ → Result NoError CaptureState
  capture_packet c ip_layer pkt_type pkt_size = or_panic (parse_packet layer_type ip_layer) >>= λ p.
      ok (add_to_flow_log packet_outgoing c (element p pkt_type pkt_size))

  unfoldable pub buffer_packet : LocalBuffer → Bytes → ℕ → ℕ → Result NoError (Bool × LocalBuffer)
  buffer_packet l ip_layer pkt_type pkt_size = or_panic (parse_packet layer_type ip_layer) >>= λ p.
      Buffer.add limits (element p pkt_type pkt_size) l

  -- The loop over the elements of the buffer, `count` of them from index `i` on.
  unfoldable pub drain_from : ℕ → ℕ → LocalBuffer → CaptureState → Result NoError CaptureState
  drain_from zero i l c = ok c
  drain_from (suc count) i l c =
      get l i >>= λ e. drain_from count (suc i) l (add_to_flow_log packet_outgoing c e)

  unfoldable pub drain : LocalBuffer → CaptureState → Result NoError CaptureState
  drain l c = drain_from (n_elements l) 0 l c

  -- The buffer is released after it is drained.
  unfoldable pub after_unlock : LocalBuffer → ProcessState → Result NoError ProcessState
  after_unlock l s = drain l s.capture >>= λ c. ok (record s { capture = c; mode = running })

  unfoldable pub after_add : ProcessState → Bool × LocalBuffer → ProcessState
  after_add s (true, l) = record s { mode = buffering l }
  after_add s (false, l) = record s {
    mode = waiting l;
    errors = s.errors ++ local_buffer_overflow ∷ [];
  }

  -- One event in each mode. What cannot be met in a mode changes nothing: a request of the lock waits while
  -- it is held, and nothing is read while the loop waits for the release.
  unfoldable pub step_in : Mode → ProcessState → Event → Result NoError ProcessState
  step_in running s (lock_request buf) =
      ok (record s { mode = buffering (assign_data empty_buffer buf) })
  step_in running s (packet ip_layer pkt_type pkt_size) =
      capture_packet s.capture ip_layer pkt_type pkt_size >>= λ c. ok (record s { capture = c })
  step_in running s capture_stopped = ok (record s { mode = finished })
  step_in running s capture_failed =
      ok (record s { mode = finished; errors = s.errors ++ capture_error ∷ [] })
  step_in (buffering l) s unlock = after_unlock l s
  step_in (buffering l) s (packet ip_layer pkt_type pkt_size) =
      buffer_packet l ip_layer pkt_type pkt_size >>= λ added. ok (after_add s added)
  step_in (buffering l) s capture_stopped = ok (record s { mode = finished })
  step_in (buffering l) s capture_failed =
      ok (record s { mode = finished; errors = s.errors ++ capture_error_while_buffering ∷ [] })
  step_in (buffering l) s (locked_call change) = ok (record s { capture = change s.capture })
  step_in (waiting l) s unlock = after_unlock l s
  step_in (waiting l) s (locked_call change) = ok (record s { capture = change s.capture })
  step_in _ s _ = ok s

  unfoldable pub step : ProcessState → Event → Result NoError ProcessState
  step s e = step_in s.mode s e

  unfoldable pub process : ProcessState → List Event → Result NoError ProcessState
  process s [] = ok s
  process s (e ∷ es) = step s e >>= λ t. process t es
