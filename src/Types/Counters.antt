-- ===== src/Types/Counters.antt =====
-- `Counters` of pkg/types/keyval.go. A field is a uint64: a number below 2 ^ 64, sums and differences
-- wrap around.
use go_probe.Common.{ℕ, ◌+◌, ◌-◌, ◌%◌, ◌^◌, ◌<◌, ◌≡◌, Bool, ◌&&◌, ◌||◌, arith, ltb, ◌==◌}

abbrev pub u64_mod : ℕ
u64_mod = 2 ^ 64

abbrev pub add_u64 : ℕ → ℕ → ℕ
add_u64 a b = (a + b) % u64_mod

abbrev pub sub_u64 : ℕ → ℕ → ℕ
sub_u64 a b = (a + u64_mod - b) % u64_mod

pub record Counters : Type 0 where
  pub bytes_rcvd : ℕ
  pub bytes_sent : ℕ
  pub packets_rcvd : ℕ
  pub packets_sent : ℕ

abbrev pub zero_counters : Counters
zero_counters = record { bytes_rcvd = 0; bytes_sent = 0; packets_rcvd = 0; packets_sent = 0 }

pub record InRange (c : Counters) : Type 0 where
  pub bytes_rcvd_range : c.bytes_rcvd < u64_mod
  pub bytes_sent_range : c.bytes_sent < u64_mod
  pub packets_rcvd_range : c.packets_rcvd < u64_mod
  pub packets_sent_range : c.packets_sent < u64_mod

unfoldable pub sum_packets : Counters → ℕ
sum_packets c = add_u64 c.packets_rcvd c.packets_sent

unfoldable pub sum_bytes : Counters → ℕ
sum_bytes c = add_u64 c.bytes_rcvd c.bytes_sent

unfoldable pub add : Counters → Counters → Counters
add c d = record {
  bytes_rcvd = add_u64 c.bytes_rcvd d.bytes_rcvd;
  bytes_sent = add_u64 c.bytes_sent d.bytes_sent;
  packets_rcvd = add_u64 c.packets_rcvd d.packets_rcvd;
  packets_sent = add_u64 c.packets_sent d.packets_sent;
}

unfoldable pub sub : Counters → Counters → Counters
sub c d = record {
  bytes_rcvd = sub_u64 c.bytes_rcvd d.bytes_rcvd;
  bytes_sent = sub_u64 c.bytes_sent d.bytes_sent;
  packets_rcvd = sub_u64 c.packets_rcvd d.packets_rcvd;
  packets_sent = sub_u64 c.packets_sent d.packets_sent;
}

unfoldable pub is_only_inbound : Counters → Bool
is_only_inbound c = ltb 0 c.packets_rcvd && c.packets_sent == 0

unfoldable pub is_only_outbound : Counters → Bool
is_only_outbound c = ltb 0 c.packets_sent && c.packets_rcvd == 0

unfoldable pub is_bidirectional : Counters → Bool
is_bidirectional c = ltb 0 c.packets_rcvd && ltb 0 c.packets_sent

unfoldable pub is_unidirectional : Counters → Bool
unfolding is_only_inbound is_only_outbound
is_unidirectional c = is_only_inbound c || is_only_outbound c

pub add_comm : (c d : Counters) → add c d ≡ add d c
unfolding add
add_comm c d = ground arith

pub add_assoc : (c d e : Counters) → add (add c d) e ≡ add c (add d e)
unfolding add
add_assoc c d e = ground arith

pub add-InRange : (c d : Counters) → InRange (add c d)
unfolding add
add-InRange c d = ground arith

-- Counters that are added are taken off again by a subtraction, and the other way round, also where a
-- sum passes 2 ^ 64.
sub-add : (c d : Counters) → InRange c → InRange d → (sub (add c d) d ≡ c) × (add (sub c d) d ≡ c)
unfolding add sub
sub-add c d h g = (ground arith, ground arith)
