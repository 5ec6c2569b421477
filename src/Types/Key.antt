-- ===== src/Types/Key.antt =====
-- `Key` of pkg/types/keyval.go: the 5-tuple of a flow in one byte slice. A method that writes to the
-- slice returns the new slice, and `none` is a panic.
pub mod Layout
pub mod RoundTrip
use go_probe.Common.{
  ℕ, ◌+◌, Option, none, some, Bool, true, false, ◌==◌, if◌then◌else◌, ◌>>=◌, length, get_elem?,
  replicate,
}
use go_probe.Common.Bytes.{Bytes}
use go_probe.Common.Slices.{slice, store, copy_at}
use go_probe.Types.Widths.{
  ipv4_width, ipv6_width, dport_width, sip_pos, dip_pos_ipv4, dip_pos_ipv6, dport_pos_ipv4,
  dport_pos_ipv6, proto_pos_ipv4, proto_pos_ipv6, key_width_ipv4, key_width_ipv6,
}

abbrev pub Key : Type 0
Key = Bytes

unfoldable pub new_empty_v4_key : Key
new_empty_v4_key = replicate key_width_ipv4 0

unfoldable pub new_empty_v6_key : Key
new_empty_v6_key = replicate key_width_ipv6 0

-- The version of a key is read off its length; any other length panics.
unfoldable pub is_ipv4 : Key → Option Bool
is_ipv4 k =
    if length k == key_width_ipv4
    then some true
    else if length k == key_width_ipv6
    then some false
    else none

unfoldable pub put_sip : Key → Bytes → Option Key
put_sip k sip = copy_at k sip_pos (length k) sip

unfoldable pub put_dip_v4 : Key → Bytes → Option Key
put_dip_v4 k dip = copy_at k dip_pos_ipv4 ipv4_width dip

unfoldable pub put_dip_v6 : Key → Bytes → Option Key
put_dip_v6 k dip = copy_at k dip_pos_ipv6 ipv6_width dip

unfoldable pub put_dport_v4 : Key → Bytes → Option Key
put_dport_v4 k dport = copy_at k dport_pos_ipv4 dport_width dport

unfoldable pub put_dport_v6 : Key → Bytes → Option Key
put_dport_v6 k dport = copy_at k dport_pos_ipv6 dport_width dport

unfoldable pub put_proto_v4 : Key → ℕ → Option Key
put_proto_v4 k proto = store k proto_pos_ipv4 proto

unfoldable pub put_proto_v6 : Key → ℕ → Option Key
put_proto_v6 k proto = store k proto_pos_ipv6 proto

unfoldable pub put_dip_v : Key → Bytes → Bool → Option Key
unfolding put_dip_v4 put_dip_v6
put_dip_v k dip v4 = if v4 then put_dip_v4 k dip else put_dip_v6 k dip

unfoldable pub put_dport_v : Key → Bytes → Bool → Option Key
unfolding put_dport_v4 put_dport_v6
put_dport_v k dport v4 = if v4 then put_dport_v4 k dport else put_dport_v6 k dport

unfoldable pub put_proto_v : Key → ℕ → Bool → Option Key
unfolding put_proto_v4 put_proto_v6
put_proto_v k proto v4 = if v4 then put_proto_v4 k proto else put_proto_v6 k proto

unfoldable pub put_dip : Key → Bytes → Option Key
unfolding put_dip_v is_ipv4
put_dip k dip = do v4 ← is_ipv4 k; put_dip_v k dip v4

unfoldable pub put_dport : Key → Bytes → Option Key
unfolding put_dport_v is_ipv4
put_dport k dport = do v4 ← is_ipv4 k; put_dport_v k dport v4

unfoldable pub put_proto : Key → ℕ → Option Key
unfolding put_proto_v is_ipv4
put_proto k proto = do v4 ← is_ipv4 k; put_proto_v k proto v4

unfoldable pub put_all_v4 : Key → Bytes → Bytes → Bytes → ℕ → Option Key
unfolding put_sip put_dip_v4 put_dport_v4 put_proto_v4
put_all_v4 k sip dip dport proto = do
  k₁ ← put_sip k sip
  k₂ ← put_dip_v4 k₁ dip
  k₃ ← put_dport_v4 k₂ dport
  put_proto_v4 k₃ proto

unfoldable pub put_all_v6 : Key → Bytes → Bytes → Bytes → ℕ → Option Key
unfolding put_sip put_dip_v6 put_dport_v6 put_proto_v6
put_all_v6 k sip dip dport proto = do
  k₁ ← put_sip k sip
  k₂ ← put_dip_v6 k₁ dip
  k₃ ← put_dport_v6 k₂ dport
  put_proto_v6 k₃ proto

unfoldable pub new_v4_key : Bytes → Bytes → Bytes → ℕ → Option Key
unfolding new_empty_v4_key put_all_v4
new_v4_key sip dip dport proto = put_all_v4 new_empty_v4_key sip dip dport proto

unfoldable pub new_v6_key : Bytes → Bytes → Bytes → ℕ → Option Key
unfolding new_empty_v6_key put_all_v6
new_v6_key sip dip dport proto = put_all_v6 new_empty_v6_key sip dip dport proto

-- Addresses of different widths panic; any common width but that of IPv4 is read as IPv6.
unfoldable pub new_key : Bytes → Bytes → Bytes → ℕ → Option Key
unfolding new_v4_key new_v6_key
new_key sip dip dport proto =
    if length sip == length dip
    then (if length sip == ipv4_width
        then new_v4_key sip dip dport proto
        else new_v6_key sip dip dport proto)
    else none

unfoldable pub get_dport : Key → Option Bytes
unfolding is_ipv4
get_dport k = do
  v4 ← is_ipv4 k
  if v4
      then slice k dport_pos_ipv4 (dport_pos_ipv4 + dport_width)
      else slice k dport_pos_ipv6 (dport_pos_ipv6 + dport_width)

unfoldable pub get_proto : Key → Option ℕ
unfolding is_ipv4
get_proto k = do
  v4 ← is_ipv4 k
  if v4 then get_elem? k proto_pos_ipv4 else get_elem? k proto_pos_ipv6

unfoldable pub get_sip : Key → Option Bytes
unfolding is_ipv4
get_sip k = do
  v4 ← is_ipv4 k
  if v4 then slice k sip_pos (sip_pos + ipv4_width) else slice k sip_pos (sip_pos + ipv6_width)

unfoldable pub get_dip : Key → Option Bytes
unfolding is_ipv4
get_dip k = do
  v4 ← is_ipv4 k
  if v4
      then slice k dip_pos_ipv4 (dip_pos_ipv4 + ipv4_width)
      else slice k dip_pos_ipv6 (dip_pos_ipv6 + ipv6_width)
