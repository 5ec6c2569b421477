-- ===== src/Capture/Classify.antt =====
-- `ClassifyPacketDirection` of pkg/capture/capturetypes/packet.go: the heuristics that tell a request
-- from a response.
pub mod Symmetry
use go_probe.Common.{
  ℕ, zero, suc, ◌+◌, ◌*◌, bit_and, Bool, true, false, not, ◌&&◌, ◌||◌, List, [], ◌∷◌, leb, ltb,
  ◌==◌, if◌then◌else◌,
}
use go_probe.Common.Bytes.{Bytes}
use go_probe.Capture.EpHash.{EpHash}

pub data Direction : Type 0 where
  direction_unknown direction_remains direction_reverts : Direction
  direction_maybe_remains direction_maybe_reverts : Direction

unfoldable pub is_confidence_high : Direction → Bool
is_confidence_high direction_remains = true
is_confidence_high direction_reverts = true
is_confidence_high _ = false

abbrev pub icmp : ℕ
icmp = 0x01

abbrev pub tcp : ℕ
tcp = 0x06

abbrev pub udp : ℕ
udp = 0x11

abbrev pub esp : ℕ
esp = 0x32

abbrev pub icmp_v6 : ℕ
icmp_v6 = 0x3A

abbrev pub tcp_flag_syn : ℕ
tcp_flag_syn = 0x02

abbrev pub tcp_flag_ack : ℕ
tcp_flag_ack = 0x10

abbrev pub min_ephemeral_port : ℕ
min_ephemeral_port = 32768

-- The byte at a place of a fixed array.
abbrev pub byte_at : Bytes → ℕ → ℕ
byte_at [] i = 0
byte_at (b ∷ bs) zero = b
byte_at (b ∷ bs) (suc i) = byte_at bs i

-- uint16(b[0])<<8 | uint16(b[1])
abbrev pub port_number : Bytes → ℕ
port_number b = byte_at b 0 * 256 + byte_at b 1

unfoldable pub is_ephemeral_port : ℕ → Bool
is_ephemeral_port port = leb min_ephemeral_port port || port == 0

unfoldable pub is_broadcast_multicast : Bytes → Bool → Bool
is_broadcast_multicast ip v4 =
    if v4
    then (byte_at ip 0 == 0xFF
        && (byte_at ip 1 == 0xFF && (byte_at ip 2 == 0xFF && byte_at ip 3 == 0xFF)))
      || ((byte_at ip 0 == 0xE0 && byte_at ip 1 == 0x00)
          && (byte_at ip 2 == 0x00 || byte_at ip 2 == 0x01))
    else byte_at ip 0 == 0xFF

-- `classifyByPorts` on the two port numbers.
unfoldable pub direction_of_ports : ℕ → ℕ → Direction
unfolding is_ephemeral_port
direction_of_ports sport dport =
    if is_ephemeral_port sport
    then (if not (is_ephemeral_port dport)
        then direction_remains
        else if ltb dport sport
        then direction_remains
        else if ltb sport dport
        then direction_reverts
        else direction_remains)
    else if is_ephemeral_port dport
    then direction_reverts
    else if ltb sport dport
    then direction_reverts
    else if ltb dport sport
    then direction_remains
    else direction_remains

unfoldable pub classify_by_ports : EpHash → Direction
classify_by_ports h = direction_of_ports (port_number h.sport) (port_number h.dport)

unfoldable pub classify_tcp : EpHash → ℕ → Direction
classify_tcp h tcp_flags =
    if not (tcp_flags == 0) && not (bit_and tcp_flags tcp_flag_syn == 0)
    then (if bit_and tcp_flags tcp_flag_ack == 0 then direction_remains else direction_reverts)
    else classify_by_ports h

unfoldable pub classify_udp : EpHash → Bool → Direction
classify_udp h v4 =
    if is_broadcast_multicast h.destination v4 then direction_remains else classify_by_ports h

unfoldable pub classify_icmp_v4 : ℕ → Direction
classify_icmp_v4 t =
    if t == 0x00 || (t == 0x03 || (t == 0x0B || (t == 0x0C || t == 0x0E)))
    then direction_reverts
    else if t == 0x08 || t == 0x0D
    then direction_remains
    else direction_unknown

unfoldable pub classify_icmp_v6 : EpHash → ℕ → Direction
classify_icmp_v6 h t =
    if is_broadcast_multicast h.destination false
    then direction_remains
    else if t == 0x81 || (t == 0x01 || (t == 0x03 || t == 0x04))
    then direction_reverts
    else if t == 0x80
    then direction_remains
    else direction_unknown

unfoldable pub classify_packet_direction : EpHash → Bool → ℕ → Direction
classify_packet_direction h v4 aux_info =
    if h.protocol == tcp
    then classify_tcp h aux_info
    else if h.protocol == udp
    then classify_udp h v4
    else if h.protocol == icmp
    then classify_icmp_v4 aux_info
    else if h.protocol == icmp_v6
    then classify_icmp_v6 h aux_info
    else direction_unknown
