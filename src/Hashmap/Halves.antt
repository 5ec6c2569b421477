-- ===== src/Hashmap/Halves.antt =====
-- The two halves of a larger table: where an entry of an old bucket belongs.
use native.Mathlib.Nat.{mod-add-div, add-mul-mod_self_left, mod-eq_of_lt, mod-lt}
use go_probe.Common.{
  ℕ, ◌+◌, ◌*◌, ◌/◌, ◌%◌, ◌<◌, ◌≡◌, refl, ap, ◌∙◌, Bool, true, none, [], ◌∷◌, arith, ◌==◌,
  if◌then◌else◌, length, Bool-cases, inl, inr,
}
use go_probe.Common.Bytes.{Bytes}
use go_probe.Capture.EpHash.{same_bytes, same_bytes_iff}
use go_probe.Hashmap.Slots.{Chain}
use go_probe.Hashmap.Chains.{AreEntries, find}

module _ (x o : ℕ) (pos : 0 < o) where
  -- A remainder below the divisor is read off a sum with a multiple.
  mod_of_sum : (r p : ℕ) → r < o * 2 → x ≡ r + o * 2 * p → x % (o * 2) ≡ r
  mod_of_sum r p l e =
      ap (λ (t : ℕ). t % (o * 2)) e ∙ add-mul-mod_self_left r (o * 2) p ∙ mod-eq_of_lt l

  mod_double_low : (x / o) % 2 ≡ 0 → x % (o * 2) ≡ x % o
  mod_double_low e =
      let q : x / o ≡ 2 * (x / o / 2) = omega arith in
      let m = ap (λ (t : ℕ). o * t) q in
      mod_of_sum (x % o) (x / o / 2) (omega (arith, mod-lt x pos))
        (grind (arith, mod-add-div x o, m))

  mod_double_high : (x / o) % 2 ≡ 1 → x % (o * 2) ≡ x % o + o
  mod_double_high e =
      let q : x / o ≡ 2 * (x / o / 2) + 1 = omega arith in
      let m = ap (λ (t : ℕ). o * t) q in
      mod_of_sum (x % o + o) (x / o / 2) (omega (arith, mod-lt x pos))
        (grind (arith, mod-add-div x o, m))

  pub mod_double : x % (o * 2) ≡ (if (x / o) % 2 == 1 then x % o + o else x % o)
  mod_double = ground (arith, mod_double_low, mod_double_high)

  -- The larger place tells which half it lies in.
  pub mod_half : x % (o * 2) % o ≡ x % o
  mod_half =
      let small = mod-eq_of_lt (mod-lt x pos) in
      ground (arith, mod_double, small, add-mul-mod_self_left (x % o) o 1)

module _ (h : Bytes → ℕ) (o : ℕ) where
  -- hash&newBit != 0
  abbrev pub goes_high : Bytes → Bool
  goes_high key = (h key / o) % 2 == 1

  unfoldable pub low_half : Chain → Chain
  low_half [] = []
  low_half (s ∷ es) = if goes_high s.key then low_half es else s ∷ low_half es

  unfoldable pub high_half : Chain → Chain
  high_half [] = []
  high_half (s ∷ es) = if goes_high s.key then s ∷ high_half es else high_half es

  same-goes_high : (q key : Bytes) → same_bytes q key ≡ true → goes_high q ≡ goes_high key
  same-goes_high q key e = ap goes_high ((same_bytes_iff q key).0 e)

  pub find-low_half :
      (q : Bytes) (es : Chain) → find q (low_half es) ≡ (if goes_high q then none else find q es)
  unfolding find low_half
  find-low_half q [] = ground arith
  find-low_half q (s ∷ es) = ground (arith, find-low_half q es, same-goes_high q s.key)

  pub find-high_half :
      (q : Bytes) (es : Chain) → find q (high_half es) ≡ (if goes_high q then find q es else none)
  unfolding find high_half
  find-high_half q [] = ground arith
  find-high_half q (s ∷ es) = ground (arith, find-high_half q es, same-goes_high q s.key)

  pub length-halves : (es : Chain) → length (low_half es) + length (high_half es) ≡ length es
  unfolding low_half high_half
  length-halves [] = refl
  length-halves (s ∷ es) = ground (arith, length-halves es)

  pub low_half-AreEntries :
      (i : ℕ) (es : Chain) → 0 < o → AreEntries h o i es → AreEntries h (o * 2) i (low_half es)
  unfolding low_half
  low_half-AreEntries i [] pos a = tt
  low_half-AreEntries i (s ∷ es) pos a = elim (Bool-cases (goes_high s.key)) [
    | inl e ↦ rw e (low_half-AreEntries i es pos a.3)
    | inr e ↦ rw e (
      a.0,
      ground (arith, mod_double (h s.key) o pos),
      ground (arith, find-low_half s.key es),
      low_half-AreEntries i es pos a.3,
    )
  ]

  pub high_half-AreEntries :
      (i : ℕ) (es : Chain)
      → 0 < o
      → AreEntries h o i es
      → AreEntries h (o * 2) (i + o) (high_half es)
  unfolding high_half
  high_half-AreEntries i [] pos a = tt
  high_half-AreEntries i (s ∷ es) pos a = elim (Bool-cases (goes_high s.key)) [
    | inr e ↦ rw e (high_half-AreEntries i es pos a.3)
    | inl e ↦ rw e (
      a.0,
      ground (arith, mod_double (h s.key) o pos),
      ground (arith, find-high_half s.key es),
      high_half-AreEntries i es pos a.3,
    )
  ]
