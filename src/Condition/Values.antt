-- ===== src/Condition/Values.antt =====
-- `conditionBytesAndNetmask` of pkg/goDB/conditions/node/instrument.go: the value of a condition in
-- the format of the database, and `IPStringToBytes` of pkg/types/types.go.
use go_probe.Common.{
  ℕ, zero, suc, ◌+◌, ◌-◌, ◌*◌, ◌/◌, ◌%◌, ◌^◌, bit_and, String, not, ◌&&◌, Option, none, some, Bool,
  true, false, ◌||◌, List, [], ◌∷◌, ltb, leb, if◌then◌else◌, str_eq, get_elem?,
}
use go_probe.Common as Base
use go_probe.Common.Bytes.{Bytes}
use go_probe.Common.Slices.{slice, store}
use go_probe.Common.Text.{Text, codes, contains, split, parse_uint, parse_int, ℤ, pos, negsuc}
use go_probe.Condition.Outcome.{
  Outcome, ok, err, ◌>>=◌, or_panic, unknown_attribute, unknown_comparator, bad_ip, missing_netmask,
  bad_netmask, netmask_too_long_v6, netmask_too_long_v4, bad_proto, bad_dport,
}
use go_probe.Condition.Node.{ConditionNode}
use go_probe.Types.IpVersion.{IpVersion, ip_version_none, ip_version_v4, ip_version_v6}

-- What is not code of the package: net.ParseIP, which returns 16 bytes or nil, and the generated table
-- of protocol names.
pub record Platform : Type 0 where
  pub parse_ip : Text → Option Bytes
  pub protocol_id : Text → Option ℕ

-- `netmask / 8` and `8 - netmask % 8` in Go, where a division truncates towards 0 and a remainder has
-- the sign of the dividend. The quotient of a negative number is given by its distance from 0.
abbrev pub whole_bytes : ℤ → Option ℕ
whole_bytes (pos n) = some (n / 8)
whole_bytes (negsuc n) = if ltb (n + 1) 8 then some 0 else none

abbrev pub to_shift : ℤ → ℕ
to_shift (pos n) = 8 - n % 8
to_shift (negsuc n) = 8 + (n + 1) % 8

-- uint8(0xff) << shift
abbrev pub mask_byte : ℕ → ℕ
mask_byte shift = 0xff * 2 ^ shift % 256

-- `(netmask + 7) / 8`; `none` is a negative quotient.
abbrev pub first_unused : ℤ → Option ℕ
first_unused (pos n) = some ((n + 7) / 8)
first_unused (negsuc n) = if ltb (n + 1) 15 then some 0 else none

abbrev pub exceeds : ℤ → ℕ → Bool
exceeds (pos n) limit = ltb limit n
exceeds (negsuc n) limit = false

-- for i := i; i < i + rounds; i++ { condBytes[i] = 0 }
unfoldable pub zero_out : ℕ → ℕ → Bytes → Option Bytes
zero_out zero i bytes = some bytes
zero_out (suc rounds) i bytes = Base.◌>>=◌ (store bytes i 0) (zero_out rounds (i + 1))

-- The bytes of an address are cleared behind the netmask. A negative index panics.
unfoldable pub apply_netmask : ℤ → ℕ → Bytes → Option Bytes
unfolding zero_out
apply_netmask netmask mask_width bytes = Base.◌>>=◌ (first_unused netmask) λ i.
    Base.◌>>=◌ (zero_out (mask_width - i) i bytes) λ cleared.
      Base.◌>>=◌ (whole_bytes netmask) λ index.
        if ltb index mask_width
        then (Base.◌>>=◌ (get_elem? cleared index)
            λ b. store cleared index (bit_and b (mask_byte (to_shift netmask))))
        else some cleared

unfoldable pub known_comparator : String → Bool
known_comparator s =
    str_eq s "=" || str_eq s "!=" || str_eq s "<" || str_eq s ">" || str_eq s "<=" || str_eq s ">="

pub record ConditionValue : Type 0 where
  pub bytes : Bytes
  pub netmask : ℤ
  pub ip_version : IpVersion

module _ (platform : Platform) where
  -- The four bytes of an address that is written with dots, all sixteen of any other.
  unfoldable pub ip_string_to_bytes : Text → Outcome (Bytes × Bool)
  ip_string_to_bytes ip = elim (platform.parse_ip ip) [
    | none ↦ err bad_ip
    | some [] ↦ err bad_ip
    | some (b ∷ bs) ↦
        if contains b'.' ip
        then (do four ← or_panic (slice (b ∷ bs) 12 16); ok (four, true))
        else ok (b ∷ bs, false)
  ]

  ip_value : Text → Outcome ConditionValue
  unfolding ip_string_to_bytes
  ip_value value = do
    (bytes, v4) ← ip_string_to_bytes value
    ok (record {
      bytes = bytes;
      netmask = pos 0;
      ip_version = if v4 then ip_version_v4 else ip_version_v6;
    })

  -- The checks on a netmask, and the masked address.
  network_value : Text → Text → Outcome ConditionValue
  unfolding ip_string_to_bytes apply_netmask
  network_value address mask = elim (parse_int 32 mask) [
    | none ↦ err bad_netmask
    | some netmask ↦
        let v6 = contains b':' address in
        if v6 && exceeds netmask 128
        then err netmask_too_long_v6
        else if not v6 && exceeds netmask 32
        then err netmask_too_long_v4
        else do
          (bytes, _) ← ip_string_to_bytes address
          masked ← or_panic (apply_netmask netmask (if v6 then 16 else 4) bytes)
          ok (record {
            bytes = masked;
            netmask = netmask;
            ip_version = if v6 then ip_version_v6 else ip_version_v4;
          })
  ]

  cidr_value : Text → Outcome ConditionValue
  unfolding network_value
  cidr_value value =
      let (address, others) = split b'/' value in
      elim others [ [] ↦ err missing_netmask | mask ∷ _ ↦ network_value address mask ]

  plain_value : Bytes → Outcome ConditionValue
  plain_value bytes = ok (record { bytes = bytes; netmask = pos 0; ip_version = ip_version_none })

  proto_value : Text → Outcome ConditionValue
  unfolding plain_value
  proto_value value = elim (parse_uint 8 value) [
    | some num ↦ plain_value ((num % 256) ∷ [])
    | none ↦ elim (platform.protocol_id value) [
      | some num ↦ plain_value ((num % 256) ∷ [])
      | none ↦ err bad_proto
    ]
  ]

  dport_value : Text → Outcome ConditionValue
  unfolding plain_value
  dport_value value = elim (parse_uint 16 value) [
    | some num ↦ plain_value ((num / 256 % 256) ∷ (num % 256) ∷ [])
    | none ↦ err bad_dport
  ]

  unfoldable pub condition_bytes_and_netmask : ConditionNode → Outcome ConditionValue
  unfolding ip_value cidr_value proto_value dport_value known_comparator
  condition_bytes_and_netmask c =
      if known_comparator c.comparator
      then (if str_eq c.attribute "dip" || str_eq c.attribute "sip"
          then ip_value (codes c.value)
          else if str_eq c.attribute "dnet" || str_eq c.attribute "snet"
          then cidr_value (codes c.value)
          else if str_eq c.attribute "proto"
          then proto_value (codes c.value)
          else if str_eq c.attribute "dport"
          then dport_value (codes c.value)
          else err unknown_attribute)
      else err unknown_comparator
