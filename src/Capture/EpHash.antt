-- ===== src/Capture/EpHash.antt =====
-- `EPHash` of pkg/capture/capturetypes/packet.go: 37 bytes, which hold the source in [0:16], the
-- destination in [16:32], the destination port in [32:34], the source port in [34:36] and the protocol
-- in [36]. The array is a record of these parts.
use go_probe.Common.{ℕ, ◌≡◌, refl, ◌↔◌, Bool, true, false, ◌&&◌, [], ◌∷◌, arith, ◌==◌}
use go_probe.Common.Bytes.{Bytes}

pub record EpHash : Type 0 where
  pub source : Bytes
  pub destination : Bytes
  pub dport : Bytes
  pub sport : Bytes
  pub protocol : ℕ

unfoldable pub reverse : EpHash → EpHash
reverse h = record {
  source = h.destination;
  destination = h.source;
  dport = h.sport;
  sport = h.dport;
  protocol = h.protocol;
}

-- Comparing the bytes of two arrays, as the keys of a Go map are compared.
unfoldable pub same_bytes : Bytes → Bytes → Bool
same_bytes [] [] = true
same_bytes (x ∷ xs) (y ∷ ys) = (x == y) && same_bytes xs ys
same_bytes _ _ = false

unfoldable pub same : EpHash → EpHash → Bool
same h g =
    same_bytes h.source g.source
    && (same_bytes h.destination g.destination
        && (same_bytes h.dport g.dport && (same_bytes h.sport g.sport && h.protocol == g.protocol)))

pub same_bytes_iff : (xs ys : Bytes) → (same_bytes xs ys ≡ true) ↔ (xs ≡ ys)
unfolding same_bytes
same_bytes_iff [] [] = ground arith
same_bytes_iff [] (y ∷ ys) = ground arith
same_bytes_iff (x ∷ xs) [] = ground arith
same_bytes_iff (x ∷ xs) (y ∷ ys) = ground (arith, same_bytes_iff xs ys)

pub same_iff : (h g : EpHash) → (same h g ≡ true) ↔ (h ≡ g)
unfolding same
same_iff h g = ground (
  arith,
  same_bytes_iff h.source g.source,
  same_bytes_iff h.destination g.destination,
  same_bytes_iff h.dport g.dport,
  same_bytes_iff h.sport g.sport,
)

pub reverse-reverse : (h : EpHash) → reverse (reverse h) ≡ h
unfolding reverse
reverse-reverse h = refl
