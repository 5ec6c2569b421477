-- ===== src/Hashmap/Moving.antt =====
-- The loop of `evacuate` of pkg/types/hashmap/hashmap.go over a chain.
use go_probe.Common.{
  ℕ, suc, zero, ◌+◌, ◌*◌, ◌%◌, ◌≤◌, ◌<◌, ◌≡◌, ◌⊎◌, refl, sym, ap, ◌∙◌, true, false, ◌&&◌, some, [],
  ◌∷◌, ◌++◌, arith, ltb, ◌==◌, if◌then◌else◌, length, take, set, replicate, Bool-cases, inl, inr,
  take-append_length, length-append,
}
use mathlib.Core.List.{append_assoc, append-nil}
use go_probe.Common.Bytes.{Bytes}
use go_probe.Hashmap.Slots.{Slot, Chain, empty_slot, empty_bucket, evacuated, is_empty}
use go_probe.Hashmap.Chains.{AreEntries, top_hash_of-range}
use go_probe.Hashmap.Fills.{n_filled}
use go_probe.Hashmap.Halves.{low_half, high_half, goes_high}
use go_probe.Hashmap.Table.{Map}
use go_probe.Hashmap.Growth.{
  EvacDst, new_dst, with_space, put_slot, mark, mark_of, move_slots, uses_y,
}

-- The destination holds the entries `xs`, without an overflow bucket too many.
pub record Receives (xs : Chain) (d : EvacDst) : Type 0 where
  pub free : ℕ
  pub layout : d.chain ≡ xs ++ replicate free empty_slot
  pub whole : (length xs + free) % 8 ≡ 0
  pub occupied : 0 < length xs + free
  pub few : free ≤ 8
  pub tight : (length xs ≡ 0) ⊎ (free < 8)
  pub position : d.pos ≡ length xs
  pub grown : length xs + free ≡ 8 + 8 * d.added

pub new_dst-Receives : Receives [] (new_dst empty_bucket)
unfolding new_dst empty_bucket
new_dst-Receives = record {
  free = 8;
  layout = refl;
  whole = refl;
  occupied = omega arith;
  few = omega arith;
  tight = inl refl;
  position = refl;
  grown = refl;
}

set-replicate :
    (xs : Chain) (j : ℕ) (s : Slot)
    → set (xs ++ replicate (suc j) empty_slot) (length xs) s
      ≡ (xs ++ s ∷ []) ++ replicate j empty_slot
set-replicate [] j s = refl
set-replicate (x ∷ xs) j s = ap (λ t. x ∷ t) (set-replicate xs j s)

-- Where the destination has a free slot, the entry goes there.
module _ (s : Slot) (xs : Chain) (d : EvacDst) where
  abbrev placed : EvacDst → EvacDst
  placed e = record e { chain = set e.chain e.pos s; pos = e.pos + 1 }

  placed-Receives :
      (e : EvacDst) (j : ℕ)
      → e.chain ≡ xs ++ replicate (suc j) empty_slot
      → (length xs + suc j) % 8 ≡ 0
      → suc j ≤ 8
      → e.pos ≡ length xs
      → length xs + suc j ≡ 8 + 8 * e.added
      → Receives (xs ++ s ∷ []) (placed e)
  placed-Receives e j l w f p g = record {
    free = j;
    layout = rw (l, p) (set-replicate xs j s);
    whole = omega (arith, length-append xs (s ∷ []));
    occupied = omega (arith, length-append xs (s ∷ []));
    few = omega arith;
    tight = inr (omega arith);
    position = omega (arith, length-append xs (s ∷ []));
    grown = omega (arith, length-append xs (s ∷ []));
  }

  full_test : ltb 0 d.pos && d.pos % 8 == 0 ≡ true → (0 < d.pos) × (d.pos % 8 ≡ 0)
  full_test e = ground arith

  room_test : ltb 0 d.pos && d.pos % 8 == 0 ≡ false → (d.pos ≡ 0) ⊎ (0 < d.pos % 8)
  room_test e = ground arith

  has_room :
      (free : ℕ)
      → (d.pos ≡ 0) ⊎ (0 < d.pos % 8)
      → d.pos ≡ length xs
      → (length xs + free) % 8 ≡ 0
      → 0 < length xs + free
      → (j : ℕ) × (free ≡ suc j)
  has_room zero c p w o = absurd (ground arith)
  has_room (suc j) c p w o = (j, refl)

  taken : (free : ℕ) → d.chain ≡ xs ++ replicate free empty_slot → take (length xs) d.chain ≡ xs
  taken free l = rw l (take-append_length xs (replicate free empty_slot))

  pub put_slot-Receives : Receives xs d → Receives (xs ++ s ∷ []) (put_slot s d)
  unfolding put_slot with_space empty_bucket
  put_slot-Receives r = elim (Bool-cases (ltb 0 d.pos && d.pos % 8 == 0)) [
    | inl e ↦
        let (some_put, multiple) = full_test e in
        let p = r.position in
        let w = r.whole in
        let t = r.tight in
        let g = r.grown in
        let none_free : r.free ≡ 0 = ground arith in
        rw e (
          placed-Receives _ 7
            (ap (λ (c : Chain). c ++ empty_bucket)
              (ap (λ (n : ℕ). take n d.chain) p ∙ taken r.free r.layout))
            (omega arith) (omega arith) p (omega arith))
    | inr e ↦
        let (j, f) = has_room r.free (room_test e) r.position r.whole r.occupied in
        rw e (
          placed-Receives d j (r.layout ∙ ap (λ (n : ℕ). xs ++ replicate n empty_slot) f)
            (ap (λ (n : ℕ). (length xs + n) % 8) (sym f) ∙ r.whole) (omega (arith, r.few))
            r.position (omega (arith, r.grown)))
  ]

-- What the loop over a chain makes of it: no entry stays, and the halves are added.
module _ (hash_seed : Bytes → ℕ → ℕ) (m : Map) (o : ℕ) (doubling : m.same_size_grow ≡ false) where
  abbrev h : Bytes → ℕ
  h key = hash_seed key m.seed

  pub record Split (xs ys : Chain) (r : Chain × EvacDst × EvacDst) : Type 0 where
    pub emptied : n_filled r.0 ≡ 0
    pub low : Receives xs r.1
    pub high : Receives ys r.2

  -- The loop ends, and leaves an evacuated chain behind where it had a slot to mark.
  abbrev pub Moves : Chain → Chain → Chain → EvacDst → EvacDst → Type 0
  Moves c xs ys x y =
      (r : Chain × EvacDst × EvacDst) × (move_slots hash_seed m o c x y ≡ some r)
      × Split xs ys r
      × (0 < length c → evacuated r.0 ≡ true)

  marked :
      (s : Slot) (top : ℕ) (c xs ys : Chain) (x y : EvacDst)
      → mark_of hash_seed m o s ≡ some top
      → 1 < top
      → top < 5
      → Moves c xs ys (if top == 2 then put_slot s x else x) (if top == 3 then put_slot s y else y)
      → Moves (s ∷ c) xs ys x y
  unfolding move_slots n_filled evacuated
  marked s top c xs ys x y e g l (r, run, split, _) = (
    (mark top s ∷ r.0, r.1, r.2),
    rw (e, run),
    record { emptied = ground (arith, split.emptied); low = split.low; high = split.high },
    λ _. ground arith,
  )

  move_replicate :
      (j : ℕ) (xs ys : Chain) (x y : EvacDst)
      → Receives xs x
      → Receives ys y
      → Moves (replicate j empty_slot) xs ys x y
  unfolding move_slots n_filled mark_of is_empty
  move_replicate zero xs ys x y rx ry =
      (([], x, y), refl, record { emptied = refl; low = rx; high = ry }, λ l. absurd (omega arith))
  move_replicate (suc j) xs ys x y rx ry =
      marked empty_slot 4 _ xs ys x y refl (omega arith) (omega arith)
        (move_replicate j xs ys x y rx ry)

  mark_of-high :
      (s : Slot) → 5 ≤ s.top_hash → goes_high h o s.key ≡ true → mark_of hash_seed m o s ≡ some 3
  unfolding mark_of uses_y is_empty
  mark_of-high s l e = ground arith

  mark_of-low :
      (s : Slot) → 5 ≤ s.top_hash → goes_high h o s.key ≡ false → mark_of hash_seed m o s ≡ some 2
  unfolding mark_of uses_y is_empty
  mark_of-low s l e = ground arith

  -- The entries of a chain move to the two halves behind what is there.
  pub move_slots-Moves :
      (n i : ℕ) (es : Chain) (j : ℕ) (xs ys : Chain) (x y : EvacDst)
      → AreEntries h n i es
      → Receives xs x
      → Receives ys y
      → Moves (es ++ replicate j empty_slot) (xs ++ low_half h o es) (ys ++ high_half h o es) x y
  unfolding low_half high_half
  move_slots-Moves n i [] j xs ys x y a rx ry =
      rw (append-nil, append-nil) (move_replicate j xs ys x y rx ry)
  move_slots-Moves n i (s ∷ es) j xs ys x y a rx ry =
      let filled : 5 ≤ s.top_hash = omega (arith, a.0, top_hash_of-range (h s.key)) in
      elim (Bool-cases (goes_high h o s.key)) [
        | inl e ↦
            rw (e, ← append_assoc ys (s ∷ []) (high_half h o es))
              (marked s 3 _ _ _ x y (mark_of-high s filled e) (omega arith) (omega arith) (
                move_slots-Moves n i es j xs (ys ++ s ∷ []) x (put_slot s y) a.3 rx
                  (put_slot-Receives s ys y ry)))
        | inr e ↦
            rw (e, ← append_assoc xs (s ∷ []) (low_half h o es))
              (marked s 2 _ _ _ x y (mark_of-low s filled e) (omega arith) (omega arith) (
                move_slots-Moves n i es j (xs ++ s ∷ []) ys (put_slot s x) y a.3
                  (put_slot-Receives s xs x rx) ry))
      ]
