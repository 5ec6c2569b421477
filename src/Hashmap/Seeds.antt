-- ===== src/Hashmap/Seeds.antt =====
-- The seed that the loop of pkg/types/hashmap/iterator.go uses is of no account where the map is not
-- growing.
use go_probe.Common.{
  ℕ, zero, suc, ◌+◌, ◌≡◌, refl, sym, ap, ◌∙◌, inl, inr, Bool, ◌&&◌, Option, Option-cases, none,
  some, List, [], ◌∷◌, ◌==◌, if◌then◌else◌, ◌>>=◌, length, get_elem?, Bool-cases,
}
use go_probe.Common.Bytes.{Bytes}
use go_probe.Types.Counters.{Counters}
use go_probe.Hashmap.Slots.{Chain}
use go_probe.Hashmap.Table.{Map}
use go_probe.Hashmap.Scanning.{or_later}
use go_probe.Hashmap.Pairs.{start}
use go_probe.Hashmap.Iterator.{
  Iter, Found, iter, open_bucket, move_on, next_from, next, after_scan, scan_slots, visit_slot,
  is_other_half, pairs_from, pairs,
}

module _ (hash_seed : Bytes → ℕ → ℕ) (m : Map) (settled : m.old_buckets ≡ none) (a b : ℕ) where
  scan-seed : (c : Chain) → scan_slots hash_seed a m none c ≡ scan_slots hash_seed b m none c
  unfolding scan_slots visit_slot is_other_half
  scan-seed [] = refl
  scan-seed (s ∷ c) =
      ap
        (λ (later : Option (Option Found)).
          visit_slot hash_seed b m none s c >>= or_later hash_seed m later)
        (scan-seed c)

  opens :
      (it : Iter)
      → open_bucket m it ≡ (get_elem? it.buckets it.bucket >>= λ c. some (move_on it c none))
  unfolding open_bucket
  opens it = rw settled

  check-move_on : (it : Iter) (c : Chain) → (move_on it c none).check_bucket ≡ none
  unfolding move_on
  check-move_on it c = elim (Bool-cases (it.bucket + 1 == length it.buckets)) [
    | inl e ↦ rw e
    | inr e ↦ rw e
  ]

  -- Nothing is checked later either.
  abbrev Unchecked : Option (Iter × Bool) → Type 0
  Unchecked none = Unit {0}
  Unchecked (some r) = r.0.check_bucket ≡ none

  open_step :
      (it : Iter) (again again' : Iter → Option (Iter × Bool))
      → ((jt : Iter) → jt.check_bucket ≡ none → (again jt ≡ again' jt) × Unchecked (again jt))
      → ((open_bucket m it >>= again) ≡ (open_bucket m it >>= again'))
        × Unchecked (open_bucket m it >>= again)
  open_step it again again' ih = elim (Option-cases (get_elem? it.buckets it.bucket)) [
    | inl e ↦ rw (opens it, e) (refl, tt)
    | inr (c, e) ↦ rw (opens it, e) (ih (move_on it c none) (check-move_on it c))
  ]

  after_step :
      (it : Iter) (o : Option Found) (again again' : Iter → Option (Iter × Bool))
      → it.check_bucket ≡ none
      → ((jt : Iter) → jt.check_bucket ≡ none → (again jt ≡ again' jt) × Unchecked (again jt))
      → (after_scan hash_seed again m it o ≡ after_scan hash_seed again' m it o)
        × Unchecked (after_scan hash_seed again m it o)
  unfolding after_scan
  after_step it (some x) again again' n ih = (refl, n)
  after_step it none again again' n ih =
      elim (Bool-cases (it.bucket == it.start_bucket && it.wrapped)) [
        | inl e ↦ rw e (refl, n)
        | inr e ↦ rw e (open_step it again again' ih)
      ]

  scan_step :
      (it : Iter) (o p : Option (Option Found)) (again again' : Iter → Option (Iter × Bool))
      → o ≡ p
      → it.check_bucket ≡ none
      → ((jt : Iter) → jt.check_bucket ≡ none → (again jt ≡ again' jt) × Unchecked (again jt))
      → ((o >>= after_scan hash_seed again m it) ≡ (p >>= after_scan hash_seed again' m it))
        × Unchecked (o >>= after_scan hash_seed again m it)
  scan_step it none p again again' e n ih = rw (← e) (refl, tt)
  scan_step it (some x) p again again' e n ih = rw (← e) (after_step it x again again' n ih)

  next_from-seed :
      (fuel : ℕ) (it : Iter)
      → it.check_bucket ≡ none
      → (next_from hash_seed fuel a m it ≡ next_from hash_seed fuel b m it)
        × Unchecked (next_from hash_seed fuel a m it)
  unfolding next_from
  next_from-seed zero it n = (refl, tt)
  next_from-seed (suc fuel) it n =
      scan_step it _ _ (next_from hash_seed fuel a m) (next_from hash_seed fuel b m)
        (ap (λ (c : Option ℕ). scan_slots hash_seed a m c it.rest) n
          ∙ scan-seed it.rest
          ∙ ap (λ (c : Option ℕ). scan_slots hash_seed b m c it.rest) (sym n))
        n (λ jt k. next_from-seed fuel jt k)

  rest_step :
      (o p : Option (Iter × Bool)) (g g' : Iter × Bool → Option (List (Bytes × Counters)))
      → o ≡ p
      → Unchecked o
      → ((r : Iter × Bool) → r.0.check_bucket ≡ none → g r ≡ g' r)
      → (o >>= g) ≡ (p >>= g')
  rest_step none p g g' e n ih = rw (← e) refl
  rest_step (some r) p g g' e n ih = ih r n ∙ ap (λ (x : Option (Iter × Bool)). x >>= g') e

  abbrev rest_from : ℕ → ℕ → Iter × Bool → Option (List (Bytes × Counters))
  rest_from seed fuel r =
      let later = pairs_from hash_seed fuel seed m r.0 in
      if r.1 then (later >>= λ l. some ((r.0.key, r.0.val) ∷ l)) else some []

  pairs_from-seed :
      (fuel : ℕ) (it : Iter)
      → it.check_bucket ≡ none
      → pairs_from hash_seed fuel a m it ≡ pairs_from hash_seed fuel b m it
  unfolding pairs_from next
  pairs_from-seed zero it n = refl
  pairs_from-seed (suc fuel) it n =
      let (e, u) = next_from-seed (length it.buckets + 1) it n in
      rest_step _ _ (rest_from a fuel) (rest_from b fuel) e u (λ r k.
        ap
          (λ (later : Option (List (Bytes × Counters))).
            if r.1 then (later >>= λ l. some ((r.0.key, r.0.val) ∷ l)) else some [])
          (pairs_from-seed fuel r.0 k))

  pub pairs-seed : (fuel : ℕ) → pairs hash_seed fuel a m ≡ pairs hash_seed fuel b m
  unfolding pairs iter
  pairs-seed fuel = elim (Bool-cases (m.count == 0)) [
    | inl e ↦ rw e refl
    | inr e ↦ rw e (pairs_from-seed fuel (start m) refl)
  ]
