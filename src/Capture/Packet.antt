-- ===== src/Capture/Packet.antt =====
-- `ParsePacket` of pkg/capture/flow.go. The IP layer is the byte slice that the capture library
-- delivers; what its method `Type` returns for it is the parameter `layer_type`. `none` is the panic of
-- an index or a slice expression out of range.
pub mod Fields
pub mod Headers
pub mod Truncated
use go_probe.Common.{
  ℕ, ◌+◌, ◌*◌, bit_and, Bool, true, false, not, ◌&&◌, ◌||◌, Option, none, some, [], ltb, ◌==◌,
  if◌then◌else◌, ◌>>=◌, length, get_elem?, replicate,
}
use go_probe.Common.Bytes.{Bytes}
use go_probe.Common.Slices.{slice, overwrite}
use go_probe.Capture.EpHash.{EpHash}
use go_probe.Capture.Classify.{tcp, udp, icmp, icmp_v6, esp, byte_at}
use go_probe.Capture.FlowLog.{
  ParsingErrno, errno_ok, errno_packet_fragment_ignore, errno_invalid_ip_header,
  errno_packet_truncated,
}

abbrev pub ip_layer_type_v4 : ℕ
ip_layer_type_v4 = 0x04

abbrev pub ip_layer_type_v6 : ℕ
ip_layer_type_v6 = 0x06

-- ipv4.HeaderLen and ipv6.HeaderLen
abbrev pub header_len_v4 : ℕ
header_len_v4 = 20

abbrev pub header_len_v6 : ℕ
header_len_v6 = 40

unfoldable pub is_common_port : Bytes → ℕ → Bool
is_common_port port proto =
    if ltb 1 (byte_at port 0)
    then false
    else if proto == tcp
    then (byte_at port 0 == 0 && (byte_at port 1 == 53 || byte_at port 1 == 80))
      || (byte_at port 0 == 1 && byte_at port 1 == 187)
    else if proto == udp
    then (byte_at port 0 == 0 && byte_at port 1 == 53)
      || (byte_at port 0 == 1 && byte_at port 1 == 187)
    else false

-- var epHash capturetypes.EPHash
abbrev pub zero_hash : EpHash
zero_hash = record {
  source = replicate 16 0;
  destination = replicate 16 0;
  dport = replicate 2 0;
  sport = replicate 2 0;
  protocol = 0;
}

-- The end points, the IP version, the TCP flags or the ICMP type, and the error.
pub record Parsed : Type 0 where
  pub ep_hash : EpHash
  pub is_ipv4 : Bool
  pub aux_info : ℕ
  pub errno : ParsingErrno

unfoldable pub put_ports : EpHash → Bytes → Bytes → ℕ → EpHash
unfolding overwrite
put_ports h sport dport protocol = record h {
  sport = if not (is_common_port dport protocol) then overwrite 2 sport h.sport else h.sport;
  dport = if not (is_common_port sport protocol) then overwrite 2 dport h.dport else h.dport;
}

unfoldable pub finish : EpHash → Bool → ℕ → ℕ → Option Parsed
finish h v4 aux protocol = some (record {
  ep_hash = record h { protocol = protocol };
  is_ipv4 = v4;
  aux_info = aux;
  errno = errno_ok;
})

unfoldable pub fail : EpHash → Bool → ParsingErrno → Option Parsed
fail h v4 e = some (record { ep_hash = h; is_ipv4 = v4; aux_info = 0; errno = e })

-- What follows the IP header; the code has this once for each IP version.
unfoldable pub parse_transport : Bytes → EpHash → Bool → ℕ → ℕ → ℕ → Option Parsed
parse_transport ip_layer h v4 header_len icmp_type protocol =
    if protocol == tcp || protocol == udp
    then (slice ip_layer (header_len + 2) (header_len + 4) >>= λ dport.
        slice ip_layer header_len (header_len + 2) >>= λ sport.
        (if protocol == tcp
          then (if ltb (length ip_layer) (header_len + 13)
              then fail (put_ports h sport dport protocol) v4 errno_packet_truncated
              else (get_elem? ip_layer (header_len + 13) >>= λ flags.
                  finish (put_ports h sport dport protocol) v4 flags protocol))
          else finish (put_ports h sport dport protocol) v4 0 protocol))
    else if protocol == icmp_type
    then (get_elem? ip_layer header_len >>= λ t. finish h v4 t protocol)
    else finish h v4 0 protocol

-- copy(epHash[0:4], …) and copy(epHash[16:20], …), or all 16 bytes of both
unfoldable pub put_addresses : EpHash → ℕ → Bytes → Bytes → EpHash
put_addresses h w source destination = record h {
  source = overwrite w source h.source;
  destination = overwrite w destination h.destination;
}

unfoldable pub fragment_offset : ℕ → ℕ → ℕ
fragment_offset high low = bit_and 0x1f high * 256 + low

unfoldable pub parse_addresses_v4 : Bytes → ℕ → Option Parsed
parse_addresses_v4 ip_layer protocol = do
  source ← slice ip_layer 12 16
  destination ← slice ip_layer 16 20
  parse_transport ip_layer (put_addresses zero_hash 4 source destination) true header_len_v4 icmp
      protocol

unfoldable pub parse_v4 : Bytes → Option Parsed
parse_v4 ip_layer = do
  last ← get_elem? ip_layer 19
  protocol ← get_elem? ip_layer 9
  high ← get_elem? ip_layer 6
  low ← get_elem? ip_layer 7
  if not (protocol == esp) && not (fragment_offset high low == 0)
      then fail zero_hash true errno_packet_fragment_ignore
      else parse_addresses_v4 ip_layer protocol

unfoldable pub parse_v6 : Bytes → Option Parsed
parse_v6 ip_layer = do
  last ← get_elem? ip_layer 39
  protocol ← get_elem? ip_layer 6
  source ← slice ip_layer 8 24
  destination ← slice ip_layer 24 40
  parse_transport ip_layer (put_addresses zero_hash 16 source destination) false header_len_v6
      icmp_v6 protocol

unfoldable pub parse_packet : (Bytes → ℕ) → Bytes → Option Parsed
parse_packet layer_type ip_layer =
    if layer_type ip_layer == ip_layer_type_v4
    then parse_v4 ip_layer
    else if layer_type ip_layer == ip_layer_type_v6
    then parse_v6 ip_layer
    else fail zero_hash false errno_invalid_ip_header
