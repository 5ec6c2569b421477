-- ===== src/Capture/Flow.antt =====
-- `Flow` of pkg/capture/flow.go: what the probe counts for one conversation. The four counters of the
-- struct are kept together as `Counters`. A packet's type is a byte of the capture library, of which the
-- code only asks whether it is the library's `PacketOutgoing`: that constant is the parameter.
use go_probe.Common.{
  ℕ, ◌≡◌, refl, ◌⊎◌, inl, inr, Bool, true, false, not, arith, ◌==◌, if◌then◌else◌, if_elim,
}
use go_probe.Types.Counters.{Counters, zero_counters, add_u64, add}
use go_probe.Capture.EpHash.{EpHash, reverse}
use go_probe.Capture.Classify.{
  Direction, direction_unknown, direction_remains, direction_reverts, direction_maybe_remains,
  direction_maybe_reverts, is_confidence_high, classify_packet_direction,
}

pub record Flow : Type 0 where
  pub ep_hash : EpHash
  pub counters : Counters
  pub direction_confidence_high : Bool
  pub is_ipv4 : Bool

unfoldable pub is_unknown : Direction → Bool
is_unknown direction_unknown = true
is_unknown _ = false

unfoldable pub reverts : Direction → Bool
reverts direction_reverts = true
reverts direction_maybe_reverts = true
reverts _ = false

-- The end points after a verdict, and the confidence in them.
unfoldable pub apply_direction : Flow → EpHash → Direction → Flow
apply_direction f h direction = if is_unknown direction then f else record f {
  ep_hash = if reverts direction then reverse h else f.ep_hash;
  direction_confidence_high = is_confidence_high direction;
}

unfoldable pub update_direction : Flow → EpHash → ℕ → Flow
update_direction f h aux_info = apply_direction f h (classify_packet_direction h f.is_ipv4 aux_info)

unfoldable pub reset : Flow → Flow
reset f = record f { counters = zero_counters }

module _ (packet_outgoing : ℕ) where
  -- What the first packet of a flow sets.
  unfoldable pub packet_counters : ℕ → ℕ → Counters
  packet_counters pkt_type size =
      if not (pkt_type == packet_outgoing)
      then record { bytes_rcvd = size; bytes_sent = 0; packets_rcvd = 1; packets_sent = 0 }
      else record { bytes_rcvd = 0; bytes_sent = size; packets_rcvd = 0; packets_sent = 1 }

  -- What a further packet changes.
  unfoldable pub count_packet : Counters → ℕ → ℕ → Counters
  count_packet c pkt_type size =
      if not (pkt_type == packet_outgoing)
      then record {
        bytes_rcvd = add_u64 c.bytes_rcvd size;
        bytes_sent = c.bytes_sent;
        packets_rcvd = add_u64 c.packets_rcvd 1;
        packets_sent = c.packets_sent;
      }
      else record {
        bytes_rcvd = c.bytes_rcvd;
        bytes_sent = add_u64 c.bytes_sent size;
        packets_rcvd = c.packets_rcvd;
        packets_sent = add_u64 c.packets_sent 1;
      }

  unfoldable pub new_flow : EpHash → Bool → ℕ → ℕ → ℕ → Flow
  new_flow h v4 aux_info pkt_type size =
      let f =
        update_direction
          (record {
            ep_hash = h;
            counters = zero_counters;
            direction_confidence_high = false;
            is_ipv4 = v4;
          })
          h aux_info in
      record f { counters = packet_counters pkt_type size }

  unfoldable pub update_flow : Flow → EpHash → ℕ → ℕ → ℕ → Flow
  update_flow f h aux_info pkt_type size =
      let counted = record f { counters = count_packet f.counters pkt_type size } in
      if not f.direction_confidence_high then update_direction counted h aux_info else counted

-- A flow is stored under the end points of its first packet: its own are these or the reverse.
abbrev pub IsOriented : EpHash → Flow → Type 0
IsOriented h f = (f.ep_hash ≡ h) ⊎ (f.ep_hash ≡ reverse h)

pub apply_direction-IsOriented :
    (h : EpHash) (f : Flow) (direction : Direction)
    → IsOriented h f
    → IsOriented h (apply_direction f h direction)
unfolding apply_direction is_unknown reverts
apply_direction-IsOriented h f direction_unknown o = o
apply_direction-IsOriented h f direction_remains o = o
apply_direction-IsOriented h f direction_reverts o = inr refl
apply_direction-IsOriented h f direction_maybe_remains o = o
apply_direction-IsOriented h f direction_maybe_reverts o = inr refl

pub apply_direction-counters :
    (h : EpHash) (f : Flow) (direction : Direction)
    → ((apply_direction f h direction).counters ≡ f.counters)
      × ((apply_direction f h direction).is_ipv4 ≡ f.is_ipv4)
unfolding apply_direction is_unknown
apply_direction-counters h f direction_unknown = (refl, refl)
apply_direction-counters h f direction_remains = (refl, refl)
apply_direction-counters h f direction_reverts = (refl, refl)
apply_direction-counters h f direction_maybe_remains = (refl, refl)
apply_direction-counters h f direction_maybe_reverts = (refl, refl)

module _ (packet_outgoing : ℕ) (h : EpHash) (aux_info pkt_type size : ℕ) where
  pub new_flow-IsOriented :
      (v4 : Bool) → IsOriented h (new_flow packet_outgoing h v4 aux_info pkt_type size)
  unfolding new_flow update_direction
  new_flow-IsOriented v4 =
      apply_direction-IsOriented h _ (classify_packet_direction h v4 aux_info) (inl refl)

  pub new_flow-counters :
      (v4 : Bool)
      → (new_flow packet_outgoing h v4 aux_info pkt_type size).counters
        ≡ packet_counters packet_outgoing pkt_type size
  unfolding new_flow
  new_flow-counters v4 = refl

  pub update_flow-IsOriented :
      (f : Flow)
      → IsOriented h f
      → IsOriented h (update_flow packet_outgoing f h aux_info pkt_type size)
  unfolding update_flow update_direction
  update_flow-IsOriented f o =
      if_elim (IsOriented h) (not f.direction_confidence_high)
        (apply_direction-IsOriented h _ (classify_packet_direction h f.is_ipv4 aux_info) o) o

  pub update_flow-counters :
      (f : Flow)
      → (update_flow packet_outgoing f h aux_info pkt_type size).counters
        ≡ count_packet packet_outgoing f.counters pkt_type size
  unfolding update_flow update_direction
  update_flow-counters f =
      if_elim (λ (g : Flow). g.counters ≡ count_packet packet_outgoing f.counters pkt_type size)
        (not f.direction_confidence_high)
        (apply_direction-counters h _ (classify_packet_direction h f.is_ipv4 aux_info)).0 refl

  -- Counting a packet adds its counters, up to the wrap-around that further sums perform.
  pub add-count_packet :
      (c d : Counters)
      → add (count_packet packet_outgoing c pkt_type size) d
        ≡ add (packet_counters packet_outgoing pkt_type size) (add c d)
  unfolding add count_packet packet_counters
  add-count_packet c d = ground arith
