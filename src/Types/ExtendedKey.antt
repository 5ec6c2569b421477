-- ===== src/Types/ExtendedKey.antt =====
-- `ExtendedKey` of pkg/types/keyval.go: a key with an optional timestamp of 8 bytes behind it. An
-- int64 is its bit pattern, a number below 2 ^ 64 that is negative from 2 ^ 63 on.
pub mod Time
use go_probe.Common.{
  ℕ, ◌+◌, ◌-◌, ◌^◌, Option, none, some, Bool, true, false, ◌||◌, leb, ◌==◌, if◌then◌else◌, ◌>>=◌,
  length, get_elem?, replicate,
}
use go_probe.Common.Bytes.{Bytes, be_bytes, be_value}
use go_probe.Common.Slices.{slice, store, copy_at}
use go_probe.Types.Widths.{
  ipv4_width, ipv6_width, dport_width, timestamp_width, sip_pos, dip_pos_ipv4, dip_pos_ipv6,
  dport_pos_ipv4, dport_pos_ipv6, proto_pos_ipv4, proto_pos_ipv6, key_width_ipv4, key_width_ipv6,
}
use go_probe.Types.Key.{Key}

abbrev pub ExtendedKey : Type 0
ExtendedKey = Bytes

-- `ts <= 0` on the bit pattern of an int64.
abbrev pub not_positive : ℕ → Bool
not_positive ts = (ts == 0) || leb (2 ^ 63) ts

unfoldable pub extend : Key → ℕ → Option ExtendedKey
extend k ts = if not_positive ts then some k else do
  e ← copy_at (replicate (length k + timestamp_width) 0) 0 (length k + timestamp_width) k
  copy_at e (length k) 8 (be_bytes 8 ts)

unfoldable pub extend_empty : Key → Option ExtendedKey
unfolding extend
extend_empty k = extend k 0

unfoldable pub is_ipv4 : ExtendedKey → Option Bool
is_ipv4 e =
    if (length e == key_width_ipv4) || (length e == key_width_ipv4 + timestamp_width)
    then some true
    else if (length e == key_width_ipv6) || (length e == key_width_ipv6 + timestamp_width)
    then some false
    else none

unfoldable pub key : ExtendedKey → Option Key
unfolding is_ipv4
key e = do v4 ← is_ipv4 e; if v4 then slice e 0 key_width_ipv4 else slice e 0 key_width_ipv6

unfoldable pub put_sip : ExtendedKey → Bytes → Option ExtendedKey
put_sip e sip = copy_at e sip_pos (length e) sip

unfoldable pub put_dip_v : ExtendedKey → Bytes → Bool → Option ExtendedKey
put_dip_v e dip v4 =
    if v4 then copy_at e dip_pos_ipv4 ipv4_width dip else copy_at e dip_pos_ipv6 ipv6_width dip

unfoldable pub put_dport_v : ExtendedKey → Bytes → Bool → Option ExtendedKey
put_dport_v e dport v4 =
    if v4
    then copy_at e dport_pos_ipv4 dport_width dport
    else copy_at e dport_pos_ipv6 dport_width dport

unfoldable pub put_proto_v : ExtendedKey → ℕ → Bool → Option ExtendedKey
put_proto_v e proto v4 = if v4 then store e proto_pos_ipv4 proto else store e proto_pos_ipv6 proto

unfoldable pub get_dport : ExtendedKey → Option Bytes
unfolding is_ipv4
get_dport e = do
  v4 ← is_ipv4 e
  if v4
      then slice e dport_pos_ipv4 (dport_pos_ipv4 + dport_width)
      else slice e dport_pos_ipv6 (dport_pos_ipv6 + dport_width)

unfoldable pub get_proto : ExtendedKey → Option ℕ
unfolding is_ipv4
get_proto e = do
  v4 ← is_ipv4 e
  if v4 then get_elem? e proto_pos_ipv4 else get_elem? e proto_pos_ipv6

unfoldable pub get_sip : ExtendedKey → Option Bytes
unfolding is_ipv4
get_sip e = do
  v4 ← is_ipv4 e
  if v4 then slice e sip_pos (sip_pos + ipv4_width) else slice e sip_pos (sip_pos + ipv6_width)

unfoldable pub get_dip : ExtendedKey → Option Bytes
unfolding is_ipv4
get_dip e = do
  v4 ← is_ipv4 e
  if v4
      then slice e dip_pos_ipv4 (dip_pos_ipv4 + ipv4_width)
      else slice e dip_pos_ipv6 (dip_pos_ipv6 + ipv6_width)

-- The timestamp and whether there is one; a slice of fewer than 8 bytes panics.
unfoldable pub attr_time : ExtendedKey → Option (ℕ × Bool)
attr_time e =
    if (length e == key_width_ipv4) || (length e == key_width_ipv6)
    then some (0, false)
    else if leb 8 (length e)
    then (do bytes ← slice e (length e - 8) (length e); some (be_value bytes, true))
    else none
