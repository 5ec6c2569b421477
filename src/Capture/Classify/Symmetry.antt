-- ===== src/Capture/Classify/Symmetry.antt =====
-- The two directions of one conversation are classified as opposites.
use go_probe.Common.{
  ap, sym, ◌∙◌, ℕ, ◌<◌, ◌≡◌, ◌≢◌, Bool, true, false, arith, bit_and, ◌⊎◌, inl, inr,
}
use go_probe.Capture.EpHash.{EpHash, reverse}
use go_probe.Capture.Classify.{
  Direction, direction_unknown, direction_remains, direction_reverts, direction_maybe_remains,
  direction_maybe_reverts, port_number, direction_of_ports, is_ephemeral_port, classify_by_ports,
  classify_udp, classify_tcp, classify_packet_direction, is_broadcast_multicast, udp, tcp,
  tcp_flag_syn, is_confidence_high,
}

abbrev pub opposite : Direction → Direction
opposite direction_unknown = direction_unknown
opposite direction_remains = direction_reverts
opposite direction_reverts = direction_remains
opposite direction_maybe_remains = direction_maybe_reverts
opposite direction_maybe_reverts = direction_maybe_remains

direction_of_ports-opposite :
    (s d : ℕ) → s ≢ d → direction_of_ports d s ≡ opposite (direction_of_ports s d)
unfolding direction_of_ports is_ephemeral_port
direction_of_ports-opposite s d h = ground arith

-- A UDP conversation between two single hosts.
abbrev pub IsUnicastUdp : EpHash → Bool → Type 0
IsUnicastUdp h v4 =
    (h.protocol ≡ udp)
    × (is_broadcast_multicast h.source v4 ≡ false)
    × (is_broadcast_multicast h.destination v4 ≡ false)

-- A TCP segment that does not belong to a handshake.
abbrev pub IsEstablishedTcp : EpHash → ℕ → Type 0
IsEstablishedTcp h flags = (h.protocol ≡ tcp) × (bit_and flags tcp_flag_syn ≡ 0)

direction_of_ports-confident : (s d : ℕ) → is_confidence_high (direction_of_ports s d) ≡ true
unfolding direction_of_ports is_ephemeral_port is_confidence_high
direction_of_ports-confident s d = ground arith

classify_udp-unicast :
    (h : EpHash) (v4 : Bool) (aux_info : ℕ)
    → IsUnicastUdp h v4
    → classify_packet_direction h v4 aux_info
      ≡ direction_of_ports (port_number h.sport) (port_number h.dport)
unfolding classify_packet_direction classify_udp classify_by_ports
classify_udp-unicast h v4 aux_info (p, s, d) = ground arith

classify_tcp-established :
    (h : EpHash) (v4 : Bool) (aux_info : ℕ)
    → IsEstablishedTcp h aux_info
    → classify_packet_direction h v4 aux_info
      ≡ direction_of_ports (port_number h.sport) (port_number h.dport)
unfolding classify_packet_direction classify_tcp classify_by_ports
classify_tcp-established h v4 aux_info (p, f) = ground arith

-- A packet and its answer, with the flags of both, in one of these conversations.
abbrev pub AreAnswering : EpHash → Bool → ℕ → ℕ → Type 0
AreAnswering h v4 aux_info reply_aux =
    IsUnicastUdp h v4 ⊎ (IsEstablishedTcp h aux_info × IsEstablishedTcp h reply_aux)

answering_request :
    (h : EpHash) (v4 : Bool) (aux_info reply_aux : ℕ)
    → AreAnswering h v4 aux_info reply_aux
    → IsUnicastUdp h v4 ⊎ IsEstablishedTcp h aux_info
answering_request h v4 aux_info reply_aux (inl u) = inl u
answering_request h v4 aux_info reply_aux (inr (t, r)) = inr t

reverse-answering :
    (h : EpHash) (v4 : Bool) (aux_info reply_aux : ℕ)
    → AreAnswering h v4 aux_info reply_aux
    → IsUnicastUdp (reverse h) v4 ⊎ IsEstablishedTcp (reverse h) reply_aux
unfolding reverse
reverse-answering h v4 aux_info reply_aux (inl (p, s, d)) = inl (p, d, s)
reverse-answering h v4 aux_info reply_aux (inr (t, r)) = inr r

-- Between ports that are both given, the one who has the larger number asks.
direction_of_ports-larger : (s d : ℕ) → 0 < d → d < s → direction_of_ports s d ≡ direction_remains
unfolding direction_of_ports is_ephemeral_port
direction_of_ports-larger s d pos l = ground arith

classify-ports :
    (h : EpHash) (v4 : Bool) (aux_info : ℕ)
    → IsUnicastUdp h v4 ⊎ IsEstablishedTcp h aux_info
    → classify_packet_direction h v4 aux_info
      ≡ direction_of_ports (port_number h.sport) (port_number h.dport)
classify-ports h v4 aux_info (inl u) = classify_udp-unicast h v4 aux_info u
classify-ports h v4 aux_info (inr t) = classify_tcp-established h v4 aux_info t

-- In a UDP conversation between single hosts, and in a TCP one outside the handshake, a packet and one
-- the other way, with flags of its own, are classified as opposites where the ports differ: one as a
-- request, the other as a response, with high confidence. The request is the packet whose source has the
-- larger port, if the smaller one is not 0.
pub classify-reverse :
    (h : EpHash) (v4 : Bool) (aux_info reply_aux : ℕ)
    → AreAnswering h v4 aux_info reply_aux
    → port_number h.sport ≢ port_number h.dport
    → (classify_packet_direction (reverse h) v4 reply_aux
        ≡ opposite (classify_packet_direction h v4 aux_info))
      × (is_confidence_high (classify_packet_direction h v4 aux_info) ≡ true)
      × (0 < port_number h.dport
          → port_number h.dport < port_number h.sport
          → classify_packet_direction h v4 aux_info ≡ direction_remains)
unfolding reverse
classify-reverse h v4 aux_info reply_aux e ne =
    let there = classify-ports h v4 aux_info (answering_request h v4 aux_info reply_aux e) in
    let back =
      classify-ports (reverse h) v4 reply_aux (reverse-answering h v4 aux_info reply_aux e) in
    (
      back
          ∙ direction_of_ports-opposite (port_number h.sport) (port_number h.dport) ne
          ∙ ap opposite (sym there),
      ap is_confidence_high there
          ∙ direction_of_ports-confident (port_number h.sport) (port_number h.dport),
      λ pos l. there ∙ direction_of_ports-larger (port_number h.sport) (port_number h.dport) pos l,
    )
