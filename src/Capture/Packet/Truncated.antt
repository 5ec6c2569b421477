-- ===== src/Capture/Packet/Truncated.antt =====
-- `ParsePacket` on TCP segments that are cut off.
use go_probe.Common.{
  get_elem?-within, ℕ, zero, suc, ◌+◌, ◌≤◌, ◌<◌, ◌≡◌, refl, Bool, none, some, [], ◌∷◌, le→leb,
  lt→ltb, ge→ltb, length, get_elem?, arith,
}
use go_probe.Common.Bytes.{Bytes}
use go_probe.Common.Slices.{slice}
use go_probe.Capture.EpHash.{EpHash}
use go_probe.Capture.Classify.{tcp}
use go_probe.Capture.FlowLog.{errno_ok, errno_packet_truncated}
use go_probe.Capture.Packet.{Parsed, parse_transport, finish, fail}

slice-within :
    (xs : Bytes) (lo hi : ℕ) → lo ≤ hi → hi ≤ length xs → (s : Bytes) × (slice xs lo hi ≡ some s)
unfolding slice
slice-within xs lo hi h g = rw (le→leb lo hi h, le→leb hi (length xs) g) (_, refl)

get_elem?-beyond : (xs : Bytes) (i : ℕ) → length xs ≤ i → get_elem? xs i ≡ none
get_elem?-beyond [] i h = refl
get_elem?-beyond (x ∷ xs) zero h = absurd (omega arith)
get_elem?-beyond (x ∷ xs) (suc i) h = get_elem?-beyond xs i (omega arith)

module _ (ip_layer : Bytes) (h : EpHash) (v4 : Bool) (header_len icmp_type : ℕ) where
  -- A TCP segment that holds its ports is reported as truncated where fewer than 13 bytes follow
  -- the IP header, and parsed where more than 13 do; exactly 13 make the parser panic.
  pub parse_transport-tcp :
      header_len + 4 ≤ length ip_layer
      → (length ip_layer < header_len + 13
          → (p : Parsed) × (parse_transport ip_layer h v4 header_len icmp_type tcp ≡ some p)
            × (p.errno ≡ errno_packet_truncated))
        × (length ip_layer ≡ header_len + 13
            → parse_transport ip_layer h v4 header_len icmp_type tcp ≡ none)
        × (header_len + 13 < length ip_layer
            → (p : Parsed) × (parse_transport ip_layer h v4 header_len icmp_type tcp ≡ some p)
              × (p.errno ≡ errno_ok))
  unfolding parse_transport finish fail
  parse_transport-tcp long =
      let (dport, hd) =
        slice-within ip_layer (header_len + 2) (header_len + 4) (omega arith) long in
      let (sport, hs) =
        slice-within ip_layer header_len (header_len + 2) (omega arith) (omega arith) in
      (
        λ short. rw (hd, hs, lt→ltb _ _ short) (_, refl, refl),
        λ exact.
            rw
              (
                hd,
                hs,
                ge→ltb (length ip_layer) (header_len + 13) (omega arith),
                get_elem?-beyond ip_layer (header_len + 13) (omega arith),
              )
              refl,
        λ longer.
            let (flags, hf) = get_elem?-within ip_layer (header_len + 13) longer in
            rw (hd, hs, ge→ltb (length ip_layer) (header_len + 13) (omega arith), hf)
              (_, refl, refl),
      )
