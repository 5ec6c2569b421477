-- ===== src/Tests/Buffer.antt =====
-- Runs of the local packet buffer and of the packet loop of pkg/capture.
use go_probe.Common.{
  ◌+◌, ◌≤◌, ◌≡◌, refl, ◌⊎◌, inl, inr, true, false, List, [], ◌∷◌, ◌++◌, arith, replicate,
}
use go_probe.Common.Bytes.{Bytes, be_bytes}
use go_probe.Common.Result.{ok}
use go_probe.Types.Counters.{add_u64}
use go_probe.Capture.Classify.{tcp}
use go_probe.Capture.FlowLog.{errno_ok}
use go_probe.Capture.EpHash.{same_bytes}
use go_probe.Capture.Packet.{Parsed}
use go_probe.Capture.Packet.Fields.{packet_hash, tcp_payload}
use go_probe.Capture.Packet.Headers as Headers
use go_probe.Capture.Packet.Headers.{parse_packet-eq-packet_hash}
use go_probe.Capture.Buffer.{
  Limits, LocalBuffer, Element, add, get, n_elements, empty_buffer, buf_element_size,
  element_fields, errno_byte, ipv4_byte, hash_bytes,
}
use go_probe.Capture.Buffer.Held.{IsElement, AreLimits, Holds, images, element_image}
use go_probe.Capture.Buffer.Adding.{add-Holds}
use go_probe.Capture.Buffer.Getting.{version_inverted, get-version_inverted}
use go_probe.Capture.Process.{
  CaptureState, ProcessState, Event, lock_request, unlock, packet, running, no_errors, element,
  process, status,
}
use go_probe.Capture.Process.Counts.{all_processed, add_all, status-add_all}
use go_probe.Capture.Process.Steps.{Keeps, AreEvents, Runs}
use go_probe.Capture.Process.Refine.{process-Runs}
use go_probe.Tests.Capture.{
  client, server, high_port, low_port, request, upper_half, header, sequence, header-IsHeader, ends,
  request-IsArray,
}

-- An initial size of one element and a bit more, doubled once.
abbrev limits : Limits
limits = record { initial_buffer_size = 64; max_buffer_size = 128 }

limits-AreLimits : AreLimits limits
limits-AreLimits = (omega arith, 1, refl)

abbrev first : Element
first = record {
  ep_hash = request;
  pkt_type = 0;
  pkt_size = 100;
  is_ipv4 = true;
  aux_info = 0;
  errno = errno_ok;
}

first-IsElement : IsElement first
unfolding element_fields errno_byte ipv4_byte
first-IsElement = (request-IsArray, omega arith, ground arith)

empty-Holds : Holds limits empty_buffer []
unfolding images
empty-Holds = record { unused = []; contents_lem = refl; buf_pos_lem = refl; size_lem = inl refl }

add-Holds_example :
    (after : LocalBuffer) × (((add limits first empty_buffer ≡ ok (true, after))
        × Holds limits after (first ∷ []))
      ⊎ ((add limits first empty_buffer ≡ ok (false, after))
          × Holds limits after []
          × (128 ≤ 0 + buf_element_size)))
add-Holds_example =
    add-Holds limits first empty_buffer [] limits-AreLimits first-IsElement empty-Holds

-- The slice that holds one element.
abbrev one_element : LocalBuffer
one_element = record { contents = images (first ∷ []) ++ replicate 19 0; buf_pos = 45 }

one_element-Holds : Holds limits one_element (first ∷ [])
unfolding images element_image hash_bytes element_fields errno_byte ipv4_byte be_bytes
one_element-Holds = record {
  unused = replicate 19 0;
  contents_lem = refl;
  buf_pos_lem = refl;
  size_lem = inr (0, refl);
}

get-version_inverted_example :
    (get one_element 0 ≡ ok (version_inverted first)) × (n_elements one_element ≡ 1)
get-version_inverted_example =
    get-version_inverted limits one_element (first ∷ []) 0 first one_element-Holds
      (first-IsElement, tt) refl

abbrev started : CaptureState
started = record {
  flow_log = [];
  stats = record {
    received = 0;
    received_total = 0;
    processed = 0;
    processed_total = 7;
    dropped = 0;
    dropped_total = 0;
    parsing_errors = no_errors;
  };
}

status-add_all_example :
    (all_processed (add_all 4 started (first ∷ first ∷ [])) ≡ add_u64 (all_processed started) 2)
    × ((status started 5 1).0.processed_total ≡ all_processed started)
    × (all_processed (status started 5 1).1 ≡ all_processed started)
    × ((status started 5 1).1.stats.processed ≡ 0)
status-add_all_example = status-add_all 4 (first ∷ first ∷ []) started 5 1

abbrev ip_layer : Bytes
ip_layer = Headers.packet header client server high_port low_port (sequence ++ 2 ∷ [])

-- A packet that comes while the lock is held.
abbrev events : List Event
events = lock_request [] ∷ packet ip_layer 0 60 ∷ unlock ∷ []

abbrev parsed : Parsed
parsed = record {
  ep_hash = packet_hash 4 client server high_port low_port tcp;
  is_ipv4 = true;
  aux_info = 2;
  errno = errno_ok;
}

abbrev idle : ProcessState
idle = record { capture = started; mode = running; errors = [] }

parsed-IsElement : IsElement (element parsed 0 60)
unfolding element element_fields errno_byte ipv4_byte same_bytes
parsed-IsElement = ((refl, refl, refl, refl), omega arith, ground arith)

events-AreEvents : AreEvents limits 4 upper_half events
events-AreEvents = (
  inl refl,
  (
    (
      parsed,
      parse_packet-eq-packet_hash upper_half tcp true header (sequence ++ 2 ∷ []) 2 refl ends
          header-IsHeader (tcp_payload sequence [] 2 refl),
      parsed-IsElement,
    ),
    (tt, tt),
  ),
)

process-Runs_example :
    (t : ProcessState) × (left : List Element) × (process limits 4 upper_half idle events ≡ ok t)
    × Keeps limits 4 upper_half t.mode left
    × Runs limits 4 upper_half idle [] events t left
process-Runs_example =
    process-Runs limits 4 upper_half events idle [] limits-AreLimits tt events-AreEvents
