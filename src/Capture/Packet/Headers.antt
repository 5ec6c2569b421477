-- ===== src/Capture/Packet/Headers.antt =====
-- What `ParsePacket` reads from well-formed packets, header and payload written out.
use go_probe.Common.{
  get_elem?-within, ℕ, ◌+◌, ◌<◌, ◌≡◌, refl, ap, Bool, true, false, not, some, ◌++◌, ◌==◌, length,
  get_elem?, length-append, arith,
}
use mathlib.Core.List.{append_assoc}
use go_probe.Common.Bytes.{Bytes}
use go_probe.Common.Slices.{slice-append}
use go_probe.Capture.EpHash.{EpHash, reverse}
use go_probe.Capture.Classify.{icmp, icmp_v6, esp}
use go_probe.Capture.FlowLog.{errno_ok}
use go_probe.Capture.Packet.{
  ip_layer_type_v4, ip_layer_type_v6, zero_hash, Parsed, put_ports, finish, parse_transport,
  put_addresses, fragment_offset, parse_addresses_v4, parse_v4, parse_v6, parse_packet,
}
use go_probe.Capture.Packet.Fields.{
  get_elem?-left, packet_hash, IsEndPoints, IsPayload, put-eq-packet_hash, parse_transport_lem,
  and_false, second_slice,
}

module _ (protocol : ℕ) {source destination sport dport : Bytes} (rest : Bytes) (aux : ℕ)
    (payload : IsPayload protocol rest aux) where
  transport_step :
      (w : ℕ) (ends : IsEndPoints w source destination sport dport) (pre : Bytes) (h : EpHash)
      (v4 : Bool) (header_len icmp_type : ℕ)
      → header_len ≡ length pre + w + w
      → parse_transport
          (pre ++ (source ++ (destination ++ (sport ++ (dport ++ rest)))))
          h
          v4
          header_len
          icmp_type
          protocol
        ≡ finish (put_ports h sport dport protocol) v4 aux protocol
  transport_step w ends pre h v4 header_len icmp_type e =
      simp (← append_assoc pre source, ← append_assoc (pre ++ source) destination)
        (parse_transport_lem w ends (pre ++ source ++ destination) h v4 header_len icmp_type
          protocol rest aux
          (omega (
            arith,
            length-append (pre ++ source) destination,
            length-append pre source,
            ends.source_width,
            ends.destination_width,
          ))
          payload)

  addresses_v4_lem :
      (pre : Bytes)
      → length pre ≡ 12
      → IsEndPoints 4 source destination sport dport
      → parse_addresses_v4 (pre ++ (source ++ (destination ++ (sport ++ (dport ++ rest))))) protocol
        ≡ some (record {
          ep_hash = packet_hash 4 source destination sport dport protocol;
          is_ipv4 = true;
          aux_info = aux;
          errno = errno_ok;
        })
  unfolding parse_addresses_v4 finish
  addresses_v4_lem pre hp ends =
      rw
        (
          slice-append pre source (destination ++ (sport ++ (dport ++ rest))) 12 16 (omega arith)
              (omega arith),
          second_slice pre source destination (sport ++ (dport ++ rest)) 16 20 (omega arith)
              (omega arith),
          transport_step 4 ends pre (put_addresses zero_hash 4 source destination) true 20 icmp
              (omega arith),
        )
        (ap (λ h. some (record { ep_hash = h; is_ipv4 = true; aux_info = aux; errno = errno_ok }))
          (put-eq-packet_hash 4 ends protocol refl))

  parse_v4_lem :
      (pre : Bytes) (high low : ℕ)
      → length pre ≡ 12
      → IsEndPoints 4 source destination sport dport
      → get_elem? pre 9 ≡ some protocol
      → get_elem? pre 6 ≡ some high
      → get_elem? pre 7 ≡ some low
      → fragment_offset high low ≡ 0
      → parse_v4 (pre ++ (source ++ (destination ++ (sport ++ (dport ++ rest)))))
        ≡ some (record {
          ep_hash = packet_hash 4 source destination sport dport protocol;
          is_ipv4 = true;
          aux_info = aux;
          errno = errno_ok;
        })
  unfolding parse_v4 finish
  parse_v4_lem pre high low hp ends h₉ h₆ h₇ hf =
      let all = source ++ (destination ++ (sport ++ (dport ++ rest))) in
      let long : 19 < length (pre ++ all) = omega (
        arith,
        length-append pre all,
        length-append source (destination ++ (sport ++ (dport ++ rest))),
        length-append destination (sport ++ (dport ++ rest)),
      ) in
      let (b, hb) = get_elem?-within (pre ++ all) 19 long in
      rw
        (
          hb,
          get_elem?-left pre all 9 protocol h₉,
          get_elem?-left pre all 6 high h₆,
          get_elem?-left pre all 7 low h₇,
          hf,
          and_false (not (protocol == esp)),
        )
        (addresses_v4_lem pre hp ends)

  parse_v6_lem :
      (pre : Bytes)
      → length pre ≡ 8
      → IsEndPoints 16 source destination sport dport
      → get_elem? pre 6 ≡ some protocol
      → parse_v6 (pre ++ (source ++ (destination ++ (sport ++ (dport ++ rest)))))
        ≡ some (record {
          ep_hash = packet_hash 16 source destination sport dport protocol;
          is_ipv4 = false;
          aux_info = aux;
          errno = errno_ok;
        })
  unfolding parse_v6 finish
  parse_v6_lem pre hp ends h₆ =
      let all = source ++ (destination ++ (sport ++ (dport ++ rest))) in
      let long : 39 < length (pre ++ all) = omega (
        arith,
        length-append pre all,
        length-append source (destination ++ (sport ++ (dport ++ rest))),
        length-append destination (sport ++ (dport ++ rest)),
      ) in
      let (b, hb) = get_elem?-within (pre ++ all) 39 long in
      rw
        (
          hb,
          get_elem?-left pre all 6 protocol h₆,
          slice-append pre source (destination ++ (sport ++ (dport ++ rest))) 8 24 (omega arith)
              (omega arith),
          second_slice pre source destination (sport ++ (dport ++ rest)) 24 40 (omega arith)
              (omega arith),
          transport_step 16 ends pre (put_addresses zero_hash 16 source destination) false 40
              icmp_v6 (omega arith),
        )
        (ap (λ h. some (record { ep_hash = h; is_ipv4 = false; aux_info = aux; errno = errno_ok }))
          (put-eq-packet_hash 16 ends protocol refl))

abbrev pub width : Bool → ℕ
width true = 4
width false = 16

abbrev pub layer_type_of : Bool → ℕ
layer_type_of true = ip_layer_type_v4
layer_type_of false = ip_layer_type_v6

-- The header up to the addresses, of a packet that is no later fragment.
abbrev pub IsHeader : Bool → Bytes → ℕ → Type 0
IsHeader true pre protocol =
    (length pre ≡ 12)
    × (get_elem? pre 9 ≡ some protocol)
    × ((high : ℕ) × (low : ℕ) × (get_elem? pre 6 ≡ some high)
        × (get_elem? pre 7 ≡ some low)
        × (fragment_offset high low ≡ 0))
IsHeader false pre protocol = (length pre ≡ 8) × (get_elem? pre 6 ≡ some protocol)

abbrev pub packet : Bytes → Bytes → Bytes → Bytes → Bytes → Bytes → Bytes
packet pre source destination sport dport rest =
    pre ++ (source ++ (destination ++ (sport ++ (dport ++ rest))))

swapped :
    (w : ℕ) {source destination sport dport : Bytes}
    → IsEndPoints w source destination sport dport
    → IsEndPoints w destination source dport sport
swapped w ends = record {
  source_width = ends.destination_width;
  destination_width = ends.source_width;
  sport_width = ends.dport_width;
  dport_width = ends.sport_width;
}

module _ (layer_type : Bytes → ℕ) (protocol : ℕ) {source destination sport dport : Bytes} where
  -- A TCP or UDP packet of either IP version that is no later fragment, and for TCP reaches up to the
  -- flags, is parsed without panic or error. Its version, protocol, TCP flags and addresses are those
  -- written in it, read as behind a header of 20 or 40 bytes, also where an IPv4 header says that it has
  -- options. The ports are the four bytes behind such a header, but where the source port is a common
  -- one (53, 80 or 443 for TCP, 53 or 443 for UDP) the destination port is 0, and the other way round.
  pub parse_packet-eq-packet_hash :
      (v4 : Bool) (pre rest : Bytes) (aux : ℕ)
      → layer_type (packet pre source destination sport dport rest) ≡ layer_type_of v4
      → IsEndPoints (width v4) source destination sport dport
      → IsHeader v4 pre protocol
      → IsPayload protocol rest aux
      → parse_packet layer_type (packet pre source destination sport dport rest)
        ≡ some (record {
          ep_hash = packet_hash (width v4) source destination sport dport protocol;
          is_ipv4 = v4;
          aux_info = aux;
          errno = errno_ok;
        })
  unfolding parse_packet
  parse_packet-eq-packet_hash true pre rest aux t ends (hp, h₉, (high, low, h₆, h₇, hf)) payload =
      rw t (parse_v4_lem protocol rest aux payload pre high low hp ends h₉ h₆ h₇ hf)
  parse_packet-eq-packet_hash false pre rest aux t ends (hp, h₆) payload =
      rw t (parse_v6_lem protocol rest aux payload pre hp ends h₆)

module _ (layer_type : Bytes → ℕ) (protocol : ℕ) {source destination sport dport : Bytes} where
  -- A TCP or UDP packet and one that answers it, with the end points swapped and a header and payload
  -- of its own, are parsed to endpoint hashes that are the reverse of one another, whichever ports are
  -- left out.
  pub parse_packet-reverse :
      (v4 : Bool) (pre rest reply_pre reply_rest : Bytes) (aux reply_aux : ℕ)
      → layer_type (packet pre source destination sport dport rest) ≡ layer_type_of v4
      → layer_type (packet reply_pre destination source dport sport reply_rest) ≡ layer_type_of v4
      → IsEndPoints (width v4) source destination sport dport
      → IsHeader v4 pre protocol
      → IsHeader v4 reply_pre protocol
      → IsPayload protocol rest aux
      → IsPayload protocol reply_rest reply_aux
      → (request : Parsed) × (reply : Parsed) × (parse_packet layer_type
            (packet pre source destination sport dport rest)
          ≡ some request)
        × (parse_packet layer_type (packet reply_pre destination source dport sport reply_rest)
            ≡ some reply)
        × (reply.ep_hash ≡ reverse request.ep_hash)
  unfolding reverse
  parse_packet-reverse v4 pre rest reply_pre reply_rest aux reply_aux t t₂ ends header header₂
        payload payload₂ =
      (
        _,
        _,
        parse_packet-eq-packet_hash layer_type protocol v4 pre rest aux t ends header payload,
        parse_packet-eq-packet_hash layer_type protocol v4 reply_pre reply_rest reply_aux t₂
            (swapped (width v4) ends) header₂ payload₂,
        refl,
      )
