-- ===== src/Tests/Capture.antt =====
-- Runs of the definitions of pkg/capture on concrete packets.
use go_probe.Common.{
  ℕ, ◌+◌, ◌<◌, ◌/◌, false, Bool-cases, ◌≡◌, ◌≢◌, ◌⊎◌, refl, inl, inr, Bool, true, Option, none,
  some, [], ◌∷◌, ◌++◌, arith, ◌&&◌, if◌then◌else◌, ◌>>=◌, replicate, length,
}
use go_probe.Common.Bytes.{Bytes}
use go_probe.Types.Counters.{Counters, zero_counters}
use go_probe.Types.Counters.{add as add_counters}
use go_probe.Types.Key.{Key}
use go_probe.Capture.EpHash.{EpHash, reverse, same_bytes, same_bytes_iff}
use go_probe.Capture.Classify.{
  classify_packet_direction, is_broadcast_multicast, is_confidence_high, tcp, udp, port_number,
  direction_remains,
}
use go_probe.Capture.Classify.Symmetry.{opposite, classify-reverse}
use go_probe.Capture.Flow.{packet_counters}
use go_probe.Capture.FlowLog.{
  FlowLog, errno_ok, errno_packet_truncated, add, find, is_present, parsing_failed,
}
use go_probe.Capture.FlowLog.Totals.{total, add-total}
use go_probe.Capture.FlowLog.Valid.{IsValid, add-IsValid}
use go_probe.Capture.FlowLog.Rotate.{AggFlowMap, joined, aggregate, rotate}
use go_probe.Capture.FlowLog.Rotate.Correct.{
  IsArray, same_version, same_version_iff, retained, active, sum_for,
}
use go_probe.Capture.FlowLog.Rotate.Refine.{rotate-Refines, aggregate-eq-rotate}
use go_probe.Capture.FlowLog.Rotate.Reachable.{created, added, Reachable-rotate}
use go_probe.Capture.Packet.{Parsed, fragment_offset, parse_packet, parse_transport}
use go_probe.Capture.Packet.Fields.{packet_hash, IsEndPoints, tcp_payload}
use go_probe.Capture.Packet.Headers.{
  packet, IsHeader, parse_packet-eq-packet_hash, parse_packet-reverse,
}
use go_probe.Capture.Packet.Truncated.{parse_transport-tcp}
use go_probe.Hashmap.Access.{get}
use go_probe.Hashmap.Filled.{Both, hash_maps, rotate-get}

abbrev few : Counters
few = record { bytes_rcvd = 90; bytes_sent = 40; packets_rcvd = 2; packets_sent = 1 }

abbrev pub client : Bytes
client = 10 ∷ 0 ∷ 0 ∷ 1 ∷ []

abbrev pub server : Bytes
server = 10 ∷ 0 ∷ 0 ∷ 2 ∷ []

abbrev pub high_port : Bytes
high_port = 200 ∷ 1 ∷ []

abbrev pub low_port : Bytes
low_port = 0 ∷ 123 ∷ []

abbrev pub request : EpHash
request = record {
  source = client ++ replicate 12 0;
  destination = server ++ replicate 12 0;
  dport = low_port;
  sport = high_port;
  protocol = udp;
}

classify-reverse_example :
    (classify_packet_direction (reverse request) true 0
      ≡ opposite (classify_packet_direction request true 0))
    × (is_confidence_high (classify_packet_direction request true 0) ≡ true)
    × (0 < port_number request.dport
        → port_number request.dport < port_number request.sport
        → classify_packet_direction request true 0 ≡ direction_remains)
unfolding is_broadcast_multicast
classify-reverse_example = classify-reverse request true 0 0 (inl (refl, refl, refl)) (ground arith)

-- The packet type of outgoing packets is 4 in these runs.
abbrev one_flow : FlowLog
one_flow =
    (
      request,
      record {
        ep_hash = request;
        counters = few;
        direction_confidence_high = true;
        is_ipv4 = true;
      },
    )
    ∷ []

add-total_example :
    let (after, result) = add 4 one_flow (reverse request) 4 100 true 0 errno_ok in
    ((errno_ok ≡ errno_ok) → total after ≡ add_counters (packet_counters 4 4 100) (total one_flow))
    × ((errno_ok ≢ errno_ok) → total after ≡ total one_flow)
    × (result ≡ (if parsing_failed errno_ok then errno_ok else errno_ok))
add-total_example = add-total 4 one_flow (reverse request) 4 100 true 0 errno_ok

add-IsValid_example :
    let after = (add 4 one_flow (reverse request) 4 100 true 0 errno_ok).0 in
    IsValid after
    × ((errno_ok ≡ errno_ok)
        → (is_present (find after (reverse request)) ≡ true)
          ⊎ (is_present (find after (reverse (reverse request))) ≡ true))
    × ((errno_ok ≢ errno_ok) → after ≡ one_flow)
add-IsValid_example =
    add-IsValid 4 one_flow (reverse request) 4 100 true 0 (inl refl, tt, tt) errno_ok

-- A finite map as a function.
abbrev put : (Key → Bool → Option Counters) → Key → Bool → Counters → Key → Bool → Option Counters
put m k v c i w = if same_bytes k i && same_version v w then some (joined (m k v) c) else m i w

put_same :
    (m : Key → Bool → Option Counters) (k : Key) (v : Bool) (c : Counters)
    → put m k v c k v ≡ some (joined (m k v) c)
put_same m k v c = rw ((same_bytes_iff k k).1 refl, (same_version_iff v v).1 refl) refl

put_other :
    (m : Key → Bool → Option Counters) (k : Key) (v : Bool) (c : Counters) (i : Key) (w : Bool)
    → (k ≢ i) ⊎ (v ≢ w)
    → put m k v c i w ≡ m i w
put_other m k v c i w d = elim (Bool-cases (same_bytes k i)) [
  | inr n ↦ rw n refl
  | inl t ↦ elim (Bool-cases (same_version v w)) [
    | inr n ↦ rw (t, n) refl
    | inl r ↦ absurd (ground (arith, d, (same_bytes_iff k i).0 t, (same_version_iff v w).0 r))
  ]
]

abbrev function_map : AggFlowMap
function_map = record {
  Map = Key → Bool → Option Counters;
  new_map = λ k v. none;
  set_or_update = put;
  lookup = λ m. m;
  lookup-new_map = λ k v. refl;
  lookup-set_or_update = λ m k v c _. put_same m k v c;
  lookup-other = λ m k v c i w _. put_other m k v c i w;
}

rotate-Refines_example :
    (agg : function_map.Map) × (rotate function_map one_flow
      ≡ some (retained one_flow, agg, total (active one_flow)))
    × ((k : Key) (v4 : Bool) → function_map.lookup agg k v4 ≡ sum_for k v4 one_flow)
rotate-Refines_example = rotate-Refines function_map one_flow ((refl, refl, refl, refl), tt)

aggregate-eq-rotate_example :
    aggregate function_map one_flow ≡ (rotate function_map one_flow >>= λ r. some r.1)
aggregate-eq-rotate_example = aggregate-eq-rotate function_map one_flow

-- The type of a layer is the upper half of its first byte.
abbrev pub upper_half : Bytes → ℕ
upper_half [] = 0
upper_half (b ∷ bs) = b / 16

abbrev pub header : Bytes
header = 69 ∷ 0 ∷ 0 ∷ 60 ∷ 0 ∷ 0 ∷ 64 ∷ 0 ∷ 64 ∷ 6 ∷ 0 ∷ 0 ∷ []

abbrev pub sequence : Bytes
sequence = replicate 9 0

pub header-IsHeader : IsHeader true header tcp
unfolding fragment_offset
header-IsHeader = (refl, refl, (64, 0, refl, refl, refl))

pub ends : IsEndPoints 4 client server high_port low_port
ends = omega arith

parse_packet-eq-packet_hash_example :
    parse_packet upper_half (packet header client server high_port low_port (sequence ++ 2 ∷ []))
    ≡ some (record {
      ep_hash = packet_hash 4 client server high_port low_port tcp;
      is_ipv4 = true;
      aux_info = 2;
      errno = errno_ok;
    })
parse_packet-eq-packet_hash_example =
    parse_packet-eq-packet_hash upper_half tcp true header (sequence ++ 2 ∷ []) 2 refl ends
      header-IsHeader (tcp_payload sequence [] 2 refl)

parse_packet-reverse_example :
    (a : Parsed) × (b : Parsed) × (parse_packet upper_half
        (packet header client server high_port low_port (sequence ++ 2 ∷ []))
      ≡ some a)
    × (parse_packet upper_half
          (packet header server client low_port high_port (sequence ++ 18 ∷ 0 ∷ []))
        ≡ some b)
    × (b.ep_hash ≡ reverse a.ep_hash)
parse_packet-reverse_example =
    parse_packet-reverse upper_half tcp true header (sequence ++ 2 ∷ []) header
      (sequence ++ 18 ∷ 0 ∷ []) 2 18 refl refl ends header-IsHeader header-IsHeader
      (tcp_payload sequence [] 2 refl) (tcp_payload sequence (0 ∷ []) 18 refl)

abbrev cut_off : Bytes
cut_off = replicate 33 0

parse_transport-tcp_example :
    let ip_layer = cut_off in
    (length ip_layer < 33
      → (p : Parsed) × (parse_transport ip_layer request true 20 1 tcp ≡ some p)
        × (p.errno ≡ errno_packet_truncated))
    × (length ip_layer ≡ 33 → parse_transport ip_layer request true 20 1 tcp ≡ none)
    × (33 < length ip_layer
        → (p : Parsed) × (parse_transport ip_layer request true 20 1 tcp ≡ some p)
          × (p.errno ≡ errno_ok))
parse_transport-tcp_example = parse_transport-tcp cut_off request true 20 1 (omega arith)

pub request-IsArray : IsArray request
request-IsArray = (refl, refl, refl, refl)

abbrev after_one : FlowLog
after_one = (add 4 [] request 0 100 true 0 errno_ok).0

Reachable-rotate_example :
    IsValid after_one
    × (total (retained after_one) ≡ zero_counters)
    × ((agg : function_map.Map) × (rotate function_map after_one
          ≡ some (retained after_one, agg, total (active after_one)))
        × ((k : Key) (v4 : Bool) → function_map.lookup agg k v4 ≡ sum_for k v4 after_one))
Reachable-rotate_example =
    Reachable-rotate function_map 4 after_one
      (added [] created request request-IsArray 0 100 true 0 errno_ok)

abbrev plain_hash : Bytes → ℕ → ℕ
plain_hash [] seed = seed
plain_hash (b ∷ key) seed = b + seed

rotate-get_example :
    (agg : Both plain_hash) × (rotate (hash_maps plain_hash 3 4) one_flow
      ≡ some (retained one_flow, agg, total (active one_flow)))
    × ((k : Key) → get plain_hash agg.0.table k ≡ some (sum_for k true one_flow))
    × ((k : Key) → get plain_hash agg.1.table k ≡ some (sum_for k false one_flow))
rotate-get_example = rotate-get plain_hash 3 4 one_flow ((refl, refl, refl, refl), tt)
