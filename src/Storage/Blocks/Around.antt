-- ===== src/Storage/Blocks/Around.antt =====
-- The blocks before and after a time stamp (storage.go).
use go_probe.Common.{
  ℕ, suc, ◌+◌, ◌≡◌, refl, ap, ◌⊎◌, inl, inr, true, false, List, [], ◌∷◌, ◌++◌, Bool-cases, length,
  arith,
}
use go_probe.Storage.Blocks.{BlockAtTime, signed_lt, blocks_before, blocks_after}

-- All blocks are before the time stamp.
abbrev pub AreBefore : ℕ → List BlockAtTime → Type 0
AreBefore ts [] = Unit {0}
AreBefore ts (b ∷ bs) = (signed_lt b.timestamp ts ≡ true) × AreBefore ts bs

AreSplit : ℕ → List BlockAtTime → ℕ → Type 0
AreSplit i bs ts =
    (AreBefore ts bs × (blocks_before bs ts ≡ bs) × (blocks_after i bs ts ≡ ([], 0)))
    ⊎ ((b : BlockAtTime) × (signed_lt b.timestamp ts ≡ false)
        × AreBefore ts (blocks_before bs ts)
        × (bs ≡ blocks_before bs ts ++ b ∷ (blocks_after i bs ts).0)
        × ((blocks_after i bs ts).1 ≡ i + length (blocks_before bs ts) + 1))

after-AreSplit :
    (i : ℕ) (b : BlockAtTime) (bs : List BlockAtTime) (ts : ℕ)
    → AreSplit (suc i) bs ts
    → signed_lt b.timestamp ts ≡ true
    → AreSplit i (b ∷ bs) ts
unfolding AreSplit blocks_before blocks_after
after-AreSplit i b bs ts (inl (all, before, after)) t =
    rw t (inl ((refl, all), ap (λ cs. b ∷ cs) before, after))
after-AreSplit i b bs ts (inr (c, late, all, whole, index)) t =
    rw t (inr (c, late, (t, all), ap (λ cs. b ∷ cs) whole, omega (arith, index)))

-- Either all blocks are before the time stamp, and `BlocksBefore` returns them all and `BlocksAfter` none,
-- or there is a first block that is not before it, whether at the time stamp or later: `BlocksBefore`
-- returns those in front, which are all before the time stamp, `BlocksAfter` those behind it with the
-- index at which they start, and the block itself is returned by neither.
pub blocks_before-blocks_after :
    (i : ℕ) (bs : List BlockAtTime) (ts : ℕ)
    → (AreBefore ts bs × (blocks_before bs ts ≡ bs) × (blocks_after i bs ts ≡ ([], 0)))
      ⊎ ((b : BlockAtTime) × (signed_lt b.timestamp ts ≡ false)
          × AreBefore ts (blocks_before bs ts)
          × (bs ≡ blocks_before bs ts ++ b ∷ (blocks_after i bs ts).0)
          × ((blocks_after i bs ts).1 ≡ i + length (blocks_before bs ts) + 1))
unfolding AreSplit blocks_before blocks_after
blocks_before-blocks_after i [] ts = inl (tt, refl, refl)
blocks_before-blocks_after i (b ∷ bs) ts = elim (Bool-cases (signed_lt b.timestamp ts)) [
  | inl t ↦ after-AreSplit i b bs ts (blocks_before-blocks_after (suc i) bs ts) t
  | inr f ↦ rw f (inr (b, f, tt, refl, omega arith))
]
