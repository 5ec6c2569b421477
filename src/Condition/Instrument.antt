-- ===== src/Condition/Instrument.antt =====
-- `instrument` and `generateCompareValue` of pkg/goDB/conditions/node/instrument.go.
pub mod Negation
mod Combine
pub mod Equivalence
use go_probe.Common.{
  ℕ, zero, suc, ◌+◌, ◌/◌, bit_and, compare, Ordering, String, Option, none, some, Bool, true, false,
  not, ◌&&◌, ◌||◌, List, [], ◌∷◌, ltb, leb, ◌==◌, if◌then◌else◌, ◌>>=◌, str_eq, get_elem?,
}
use go_probe.Common.Bytes.{Bytes}
use go_probe.Common.Slices.{slice, store}
use go_probe.Common.Text.{ℤ}
use go_probe.Types.Key.{Key, is_ipv4, get_sip, get_dip, get_dport, get_proto}
use go_probe.Types.Widths.{sip_pos, dip_pos_ipv4, dip_pos_ipv6}
use go_probe.Condition.Outcome as Outcome
use go_probe.Condition.Outcome.{
  Outcome, ok, err, or_panic, comparator_not_allowed, unknown_attribute,
}
use go_probe.Condition.Node.{ConditionNode, Node, Compare, condition, transform, evaluate}
use go_probe.Condition.Values.{
  Platform, ConditionValue, condition_bytes_and_netmask, whole_bytes, to_shift, mask_byte,
}

-- bytes.Equal
unfoldable pub bytes_equal : Bytes → Bytes → Bool
bytes_equal [] [] = true
bytes_equal (x ∷ xs) (y ∷ ys) = (x == y) && bytes_equal xs ys
bytes_equal _ _ = false

-- bytes.Compare
unfoldable pub bytes_compare : Bytes → Bytes → Ordering
bytes_compare [] [] = Ordering.eq
bytes_compare [] (y ∷ ys) = Ordering.lt
bytes_compare (x ∷ xs) [] = Ordering.gt
bytes_compare (x ∷ xs) (y ∷ ys) = elim (compare x y) [
  | Ordering.lt ↦ Ordering.lt
  | Ordering.gt ↦ Ordering.gt
  | Ordering.eq ↦ bytes_compare xs ys
]

abbrev pub is_order : Ordering → Ordering → Bool
is_order Ordering.lt Ordering.lt = true
is_order Ordering.eq Ordering.eq = true
is_order Ordering.gt Ordering.gt = true
is_order _ _ = false

-- The two comparisons of the attributes that know no order.
equality : String → Compare → Outcome Compare
equality comparator same =
    if str_eq comparator "="
    then ok same
    else if str_eq comparator "!="
    then ok (λ k. do (b, k') ← same k; some (not b, k'))
    else err comparator_not_allowed

-- How a key compares with the value of a condition; this reads the key only.
abbrev Order : Type 0
Order = Key → Option Ordering

decide : Order → (Ordering → Bool) → Compare
decide order test k = do o ← order k; some (test o, k)

-- The six comparisons of `dport` and `proto`; two byte slices are equal where they compare as equal.
ordering : String → Order → Outcome Compare
unfolding decide
ordering comparator order =
    if str_eq comparator "="
    then ok (decide order (λ o. is_order o Ordering.eq))
    else if str_eq comparator "!="
    then ok (decide order (λ o. not (is_order o Ordering.eq)))
    else if str_eq comparator "<"
    then ok (decide order (λ o. is_order o Ordering.lt))
    else if str_eq comparator ">"
    then ok (decide order (λ o. is_order o Ordering.gt))
    else if str_eq comparator "<="
    then ok (decide order (λ o. not (is_order o Ordering.gt)))
    else if str_eq comparator ">="
    then ok (decide order (λ o. not (is_order o Ordering.lt)))
    else err comparator_not_allowed

sip_equal : Bytes → Compare
sip_equal value k = do sip ← get_sip k; some (bytes_equal sip value, k)

dip_equal : Bytes → Compare
dip_equal value k = do dip ← get_dip k; some (bytes_equal dip value, k)

-- GetSIP()[:n] and GetDIP()[:n]. Slicing a slice again reaches up to its capacity, which is the end
-- of the key.
sip_prefix : Key → ℕ → Option Bytes
sip_prefix k n = do _ ← get_sip k; slice k sip_pos (sip_pos + n)

dip_prefix : Key → ℕ → Option Bytes
dip_prefix k n = do
  _ ← get_dip k
  v4 ← is_ipv4 k
  if v4 then slice k dip_pos_ipv4 (dip_pos_ipv4 + n) else slice k dip_pos_ipv6 (dip_pos_ipv6 + n)

-- The comparison with a network, for either address. A netmask that ends within a byte masks the byte
-- `index` of the key itself first, for the source and for the destination alike.
network_equal : (Key → ℕ → Option Bytes) → Bytes → ℤ → Compare
network_equal prefix value netmask k = do
  index ← whole_bytes netmask
  if to_shift netmask == 8
      then (do
        net ← prefix k index
        expected ← slice value 0 index
        some (bytes_equal net expected, k))
      else do
        b ← get_elem? k index
        k' ← store k index (bit_and b (mask_byte (to_shift netmask)))
        net ← prefix k' (index + 1)
        expected ← slice value 0 (index + 1)
        some (bytes_equal net expected, k')

dport_order : Bytes → Order
dport_order value k = do
  dport ← get_dport k
  expected ← slice value 0 2
  some (bytes_compare dport expected)

proto_order : Bytes → Order
proto_order value k = do
  proto ← get_proto k
  expected ← get_elem? value 0
  some (compare proto expected)

-- The closure for an attribute, a comparator and a value.
pub compare_for : String → String → ConditionValue → Outcome Compare
unfolding equality ordering sip_equal dip_equal sip_prefix dip_prefix network_equal dport_order
    proto_order
compare_for attribute comparator v =
    if str_eq attribute "sip"
    then equality comparator (sip_equal v.bytes)
    else if str_eq attribute "dip"
    then equality comparator (dip_equal v.bytes)
    else if str_eq attribute "snet"
    then equality comparator (network_equal sip_prefix v.bytes v.netmask)
    else if str_eq attribute "dnet"
    then equality comparator (network_equal dip_prefix v.bytes v.netmask)
    else if str_eq attribute "dport"
    then ordering comparator (dport_order v.bytes)
    else if str_eq attribute "proto"
    then ordering comparator (proto_order v.bytes)
    else err unknown_attribute

module _ (platform : Platform) where
  unfoldable pub generate_compare_value : ConditionNode → Outcome Node
  generate_compare_value c = Outcome.◌>>=◌ (condition_bytes_and_netmask platform c) λ v.
      Outcome.◌>>=◌ (compare_for c.attribute c.comparator v) λ compare_value. ok (
        condition (record c {
          ip_version =
              if str_eq c.attribute "dport" || str_eq c.attribute "proto"
              then c.ip_version
              else v.ip_version;
          compare_value = some compare_value;
        }))

  unfoldable pub instrument : Node → Outcome Node
  instrument n = transform generate_compare_value n

  -- Instrumenting a tree and evaluating it on a key.
  abbrev pub run : Node → Key → Outcome (Bool × Key)
  run n k = Outcome.◌>>=◌ (instrument n) λ m. or_panic (evaluate m k)
