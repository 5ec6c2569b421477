-- ===== src/Capture/Process/Steps.antt =====
-- What the packet loop of pkg/capture/capture.go does in one step, told with a list of the packets that
-- are kept while the lock is held.
use go_probe.Common.{
  ℕ, ◌+◌, ◌*◌, ◌≤◌, ◌≡◌, ◌⊎◌, Bool, true, false, some, List, [], ◌∷◌, ◌++◌, map, length,
}
use go_probe.Common.Bytes.{Bytes}
use go_probe.Capture.Packet.{Parsed, parse_packet}
use go_probe.Capture.Buffer.{Limits, LocalBuffer, Element, buf_element_size}
use go_probe.Capture.Buffer.Held.{IsElement, AreElements, IsSize, Holds}
use go_probe.Capture.Buffer.Getting.{version_inverted}
use go_probe.Capture.Process.{
  CaptureState, local_buffer_overflow, Mode, running, buffering, waiting, finished, Event,
  lock_request, unlock, packet, capture_stopped, capture_failed, locked_call, ProcessState, element,
  add_to_flow_log,
}
use go_probe.Capture.Process.Counts.{add_all}

-- What the loop takes note of in each mode.
abbrev pub takes : Mode → Event → Bool
takes running (lock_request buf) = true
takes running (packet ip_layer pkt_type pkt_size) = true
takes running capture_stopped = true
takes running capture_failed = true
takes (buffering l) unlock = true
takes (buffering l) (packet ip_layer pkt_type pkt_size) = true
takes (buffering l) capture_stopped = true
takes (buffering l) capture_failed = true
takes (buffering l) (locked_call change) = true
takes (waiting l) unlock = true
takes (waiting l) (locked_call change) = true
takes _ _ = false

module _ (limits : Limits) (packet_outgoing : ℕ) (layer_type : Bytes → ℕ) where
  -- Packets are parsed to elements of the right widths, and the slice that comes with the lock has a size
  -- that the buffer can have.
  abbrev pub IsEvent : Event → Type 0
  IsEvent (lock_request buf) = IsSize limits (length buf)
  IsEvent (packet ip_layer pkt_type pkt_size) =
      (p : Parsed) × (parse_packet layer_type ip_layer ≡ some p)
      × IsElement (element p pkt_type pkt_size)
  IsEvent _ = Unit {0}

  abbrev pub AreEvents : List Event → Type 0
  AreEvents [] = Unit {0}
  AreEvents (e ∷ es) = IsEvent e × AreEvents es

  -- A state of the loop whose local buffer, if it has one, holds these packets.
  abbrev pub Keeps : Mode → List Element → Type 0
  Keeps running [] = Unit {0}
  Keeps running (e ∷ es) = ⊥
  Keeps (buffering l) es = Holds limits l es × AreElements es
  Keeps (waiting l) es = Holds limits l es × AreElements es
  Keeps finished es = Unit {0}

  -- The steps of the loop, with the packets that it keeps. A packet is added to the flow log at once, or
  -- it is kept behind the others, or the buffer is full; when the lock is released, all that are kept are
  -- added to the flow log in their order.
  pub data Steps : ProcessState → List Element → Event → ProcessState → List Element → Type 0 where
    locks :
        (s t : ProcessState) (buf : Bytes) (l : LocalBuffer)
        → s.mode ≡ running
        → t ≡ record s { mode = buffering l }
        → Steps s [] (lock_request buf) t []
    adds :
        (s t : ProcessState) (ip_layer : Bytes) (pkt_type pkt_size : ℕ) (p : Parsed)
        → s.mode ≡ running
        → parse_packet layer_type ip_layer ≡ some p
        → t ≡ record s {
          capture = add_to_flow_log packet_outgoing s.capture (element p pkt_type pkt_size);
        }
        → Steps s [] (packet ip_layer pkt_type pkt_size) t []
    keeps :
        (s t : ProcessState) (es : List Element) (l m : LocalBuffer) (ip_layer : Bytes)
        (pkt_type pkt_size : ℕ) (p : Parsed)
        → s.mode ≡ buffering l
        → parse_packet layer_type ip_layer ≡ some p
        → t ≡ record s { mode = buffering m }
        → Steps s es (packet ip_layer pkt_type pkt_size) t (es ++ element p pkt_type pkt_size ∷ [])
    overflows :
        (s t : ProcessState) (es : List Element) (l m : LocalBuffer) (ip_layer : Bytes)
        (pkt_type pkt_size : ℕ)
        → s.mode ≡ buffering l
        → limits.max_buffer_size ≤ buf_element_size * length es + buf_element_size
        → t ≡ record s { mode = waiting m; errors = s.errors ++ local_buffer_overflow ∷ [] }
        → Steps s es (packet ip_layer pkt_type pkt_size) t es
    unlocks :
        (s t : ProcessState) (es : List Element) (l : LocalBuffer)
        → (s.mode ≡ buffering l) ⊎ (s.mode ≡ waiting l)
        → t ≡ record s {
          capture = add_all packet_outgoing s.capture (map version_inverted es);
          mode = running;
        }
        → Steps s es unlock t []
    calls :
        (s t : ProcessState) (es : List Element) (l : LocalBuffer)
        (change : CaptureState → CaptureState)
        → (s.mode ≡ buffering l) ⊎ (s.mode ≡ waiting l)
        → t ≡ record s { capture = change s.capture }
        → Steps s es (locked_call change) t es
    ends :
        (s t : ProcessState) (es : List Element) (e : Event)
        → (e ≡ capture_stopped) ⊎ (e ≡ capture_failed)
        → t.mode ≡ finished
        → t.capture ≡ s.capture
        → Steps s es e t es
    ignores :
        (s : ProcessState) (es : List Element) (e : Event)
        → takes s.mode e ≡ false
        → Steps s es e s es

  -- A sequence of these steps.
  pub data Runs
      : ProcessState → List Element → List Event → ProcessState → List Element → Type 0 where
    done : (s : ProcessState) (kept : List Element) → Runs s kept [] s kept
    next :
        (s : ProcessState) (kept : List Element) (e : Event) (t : ProcessState)
        (then_kept : List Element) (es : List Event) (u : ProcessState) (left : List Element)
        → Steps s kept e t then_kept
        → Runs t then_kept es u left
        → Runs s kept (e ∷ es) u left
