-- ===== src/Capture/Packet/Fields.antt =====
-- How `ParsePacket` lays the fields of a packet out in an endpoint hash.
use go_probe.Common.{
  ℕ, zero, suc, ◌+◌, ◌-◌, ◌≡◌, refl, ap, ◌∙◌, Bool, true, false, not, ◌&&◌, ◌||◌, ◌==◌, some, [],
  ◌∷◌, ◌++◌, ltb, if◌then◌else◌, length, get_elem?, replicate, length-append, arith,
  length-replicate,
}
use mathlib.Core.List.{append_assoc}
use go_probe.Common.Bytes.{Bytes}
use go_probe.Common.Slices.{slice, overwrite, slice-append, get-append, overwrite-append}
use go_probe.Capture.EpHash.{EpHash, same_bytes}
use go_probe.Capture.Classify.{tcp, udp}
use go_probe.Capture.Packet.{
  is_common_port, zero_hash, put_ports, finish, parse_transport, put_addresses,
}

pub get_elem?-left :
    (pre xs : Bytes) (i b : ℕ) → get_elem? pre i ≡ some b → get_elem? (pre ++ xs) i ≡ some b
get_elem?-left [] xs i b h = absurd (ground arith)
get_elem?-left (p ∷ pre) xs zero b h = h
get_elem?-left (p ∷ pre) xs (suc i) b h = get_elem?-left pre xs i b h

abbrev pub zeros : ℕ → Bytes
zeros n = replicate n 0

-- The ports of DNS, HTTP and HTTPS, 53, 80 and 443; HTTP has none for UDP.
abbrev pub is_service : Bytes → ℕ → Bool
is_service port protocol =
    if protocol == tcp
    then same_bytes port (0 ∷ 53 ∷ [])
      || (same_bytes port (0 ∷ 80 ∷ []) || same_bytes port (1 ∷ 187 ∷ []))
    else if protocol == udp
    then same_bytes port (0 ∷ 53 ∷ []) || same_bytes port (1 ∷ 187 ∷ [])
    else false

is_common_port-is_service :
    (port : Bytes) (protocol : ℕ)
    → length port ≡ 2
    → is_common_port port protocol ≡ is_service port protocol
unfolding is_common_port same_bytes
is_common_port-is_service [] protocol h = absurd (omega arith)
is_common_port-is_service (a ∷ []) protocol h = absurd (omega arith)
is_common_port-is_service (a ∷ b ∷ []) protocol h = ground arith
is_common_port-is_service (a ∷ b ∷ c ∷ port) protocol h = absurd (omega arith)

-- The end points of a packet in the array: addresses are filled up with zeros, and a port is left out
-- where the one of the other side is a common one.
abbrev pub packet_hash : ℕ → Bytes → Bytes → Bytes → Bytes → ℕ → EpHash
packet_hash w source destination sport dport protocol = record {
  source = source ++ zeros (16 - w);
  destination = destination ++ zeros (16 - w);
  dport = if is_service sport protocol then 0 ∷ 0 ∷ [] else dport;
  sport = if is_service dport protocol then 0 ∷ 0 ∷ [] else sport;
  protocol = protocol;
}

-- Addresses of `w` bytes and ports of two.
pub record IsEndPoints (w : ℕ) (source destination sport dport : Bytes) : Type 0 where
  pub source_width : length source ≡ w
  pub destination_width : length destination ≡ w
  pub sport_width : length sport ≡ 2
  pub dport_width : length dport ≡ 2

-- The rest of a packet behind the ports: for TCP, nine more bytes up to the flags.
pub data IsPayload : ℕ → Bytes → ℕ → Type 0 where
  udp_payload : (rest : Bytes) → IsPayload udp rest 0
  tcp_payload :
      (mid rest : Bytes) (flags : ℕ) → length mid ≡ 9 → IsPayload tcp (mid ++ flags ∷ rest) flags

pub and_false : (b : Bool) → (b && false) ≡ false
and_false true = refl
and_false false = refl

filled :
    (w : ℕ) (a : Bytes)
    → zeros 16 ≡ zeros w ++ zeros (16 - w)
    → length a ≡ w
    → overwrite w a (zeros 16) ≡ a ++ zeros (16 - w)
filled w a hw ha =
    ap (overwrite w a) hw
    ∙ overwrite-append w a (zeros w) (zeros (16 - w)) (omega (arith, length-replicate {A = ℕ} w 0))
        (omega arith)

port_filled :
    (common : Bool) (port : Bytes)
    → length port ≡ 2
    → (if not common then overwrite 2 port (0 ∷ 0 ∷ []) else 0 ∷ 0 ∷ [])
      ≡ (if common then 0 ∷ 0 ∷ [] else port)
unfolding overwrite
port_filled true port h = refl
port_filled false [] h = absurd (omega arith)
port_filled false (a ∷ []) h = absurd (omega arith)
port_filled false (a ∷ b ∷ []) h = refl
port_filled false (a ∷ b ∷ c ∷ port) h = absurd (omega arith)

module _ (w : ℕ) {source destination sport dport : Bytes}
    (ends : IsEndPoints w source destination sport dport) where
  pub put-eq-packet_hash :
      (protocol : ℕ)
      → zeros 16 ≡ zeros w ++ zeros (16 - w)
      → record (put_ports (put_addresses zero_hash w source destination) sport dport protocol) {
        protocol = protocol;
      }
        ≡ packet_hash w source destination sport dport protocol
  unfolding put_ports put_addresses
  put-eq-packet_hash protocol hw =
      rw
        (
          filled w source hw ends.source_width,
          filled w destination hw ends.destination_width,
          port_filled (is_common_port dport protocol) sport ends.sport_width
              ∙ ap (λ (b : Bool). if b then 0 ∷ 0 ∷ [] else sport)
                  (is_common_port-is_service dport protocol ends.dport_width),
          port_filled (is_common_port sport protocol) dport ends.dport_width
              ∙ ap (λ (b : Bool). if b then 0 ∷ 0 ∷ [] else dport)
                  (is_common_port-is_service sport protocol ends.sport_width),
        )
        refl

  module _ (pre rest : Bytes) (header_len : ℕ) (e : header_len ≡ length pre) where
    sport_slice : slice (pre ++ (sport ++ (dport ++ rest))) header_len (header_len + 2) ≡ some sport
    sport_slice = slice-append pre sport (dport ++ rest) header_len (header_len + 2) e (omega arith)

    dport_slice :
        slice (pre ++ (sport ++ (dport ++ rest))) (header_len + 2) (header_len + 4) ≡ some dport
    dport_slice = simp (← append_assoc pre sport) (
        slice-append (pre ++ sport) dport rest (header_len + 2) (header_len + 4)
          (omega (arith, length-append pre sport)) (omega (arith, length-append pre sport)))

  flags_get :
      (pre mid rest : Bytes) (header_len flags : ℕ)
      → header_len ≡ length pre
      → length mid ≡ 9
      → get_elem? (pre ++ (sport ++ (dport ++ (mid ++ flags ∷ rest)))) (header_len + 13)
        ≡ some flags
  flags_get pre mid rest header_len flags e hm =
      simp
        (
          ← append_assoc pre sport,
          ← append_assoc (pre ++ sport) dport,
          ← append_assoc (pre ++ sport ++ dport) mid,
        )
        (get-append (pre ++ sport ++ dport ++ mid) rest flags (header_len + 13) (
          omega (
            arith,
            length-append (pre ++ sport ++ dport) mid,
            length-append (pre ++ sport) dport,
            length-append pre sport,
          )))

  long_enough :
      (pre mid rest : Bytes) (header_len flags : ℕ)
      → header_len ≡ length pre
      → length mid ≡ 9
      → ltb (length (pre ++ (sport ++ (dport ++ (mid ++ flags ∷ rest))))) (header_len + 13) ≡ false
  long_enough pre mid rest header_len flags e hm = ground (
    arith,
    length-append pre (sport ++ (dport ++ (mid ++ flags ∷ rest))),
    length-append sport (dport ++ (mid ++ flags ∷ rest)),
    length-append dport (mid ++ flags ∷ rest),
    length-append mid (flags ∷ rest),
  )

  pub parse_transport_lem :
      (pre : Bytes) (h : EpHash) (v4 : Bool) (header_len icmp_type protocol : ℕ) (rest : Bytes)
      (aux : ℕ)
      → header_len ≡ length pre
      → IsPayload protocol rest aux
      → parse_transport (pre ++ (sport ++ (dport ++ rest))) h v4 header_len icmp_type protocol
        ≡ finish (put_ports h sport dport protocol) v4 aux protocol
  unfolding parse_transport
  parse_transport_lem pre h v4 header_len icmp_type protocol rest aux e (udp_payload r) =
      rw (dport_slice pre r header_len e, sport_slice pre r header_len e) refl
  parse_transport_lem pre h v4 header_len icmp_type protocol rest aux e
        (tcp_payload mid r flags hm) =
      rw
        (
          dport_slice pre (mid ++ flags ∷ r) header_len e,
          sport_slice pre (mid ++ flags ∷ r) header_len e,
          long_enough pre mid r header_len flags e hm,
          flags_get pre mid r header_len flags e hm,
        )
        refl

pub second_slice :
    (pre source destination rest : Bytes) (lo hi : ℕ)
    → lo ≡ length pre + length source
    → hi ≡ lo + length destination
    → slice (pre ++ (source ++ (destination ++ rest))) lo hi ≡ some destination
second_slice pre source destination rest lo hi h g = simp (← append_assoc pre source) (
    slice-append (pre ++ source) destination rest lo hi (omega (arith, length-append pre source))
      (omega (arith, length-append pre source)))
