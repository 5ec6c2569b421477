-- ===== src/Hashmap/Scanning.antt =====
-- The loop of Next of pkg/types/hashmap/iterator.go over the slots of one chain.
use go_probe.Common.{
  ℕ, zero, suc, ◌≤◌, ◌<◌, ◌≡◌, ◌⊎◌, refl, ap, ◌∙◌, inl, inr, true, false, Option, none, some, List,
  [], ◌∷◌, ◌++◌, arith, if◌then◌else◌, ◌>>=◌, length, replicate, Bool-cases,
}
use go_probe.Common.Bytes.{Bytes}
use go_probe.Types.Counters.{Counters}
use go_probe.Capture.EpHash.{same_bytes}
use go_probe.Hashmap.Slots.{Slot, Chain, empty_slot, is_empty}
use go_probe.Hashmap.Chains.{AreEntries, top_hash_of-range}
use go_probe.Hashmap.Table.{Map}
use go_probe.Hashmap.Iterator.{Found, scan_slots, visit_slot, is_other_half}

-- Every slot holds an entry.
abbrev pub AreFilled : Chain → Type 0
AreFilled [] = Unit {0}
AreFilled (s ∷ es) = (5 ≤ s.top_hash) × AreFilled es

pub AreEntries-AreFilled :
    (h : Bytes → ℕ) (n i : ℕ) (es : Chain) → AreEntries h n i es → AreFilled es
AreEntries-AreFilled h n i [] a = tt
AreEntries-AreFilled h n i (s ∷ es) a =
    (omega (arith, a.0, top_hash_of-range (h s.key)), AreEntries-AreFilled h n i es a.3)

-- The values that a list of pairs has for a key, in order.
unfoldable pub values : Bytes → List (Bytes × Counters) → List Counters
values q [] = []
values q ((key, v) ∷ l) = if same_bytes q key then v ∷ values q l else values q l

abbrev pub to_list : Option Counters → List Counters
to_list none = []
to_list (some v) = v ∷ []

module _ (hash_seed : Bytes → ℕ → ℕ) (m : Map) where
  -- The entries of a chain that the iterator shows.
  unfoldable pub shown : Option ℕ → Chain → List (Bytes × Counters)
  shown check [] = []
  shown check (s ∷ es) =
      let later = shown check es in
      if is_other_half hash_seed m.seed m check s.key then later else (s.key, s.val) ∷ later

  abbrev pub Scanned : Option ℕ → Chain → ℕ → Option (Option Found) → Type 0
  Scanned check es j r =
      ((shown check es ≡ []) × (r ≡ some none))
      ⊎ ((s : Slot) × (fs : Chain) × AreFilled fs
          × (length fs < length es)
          × (shown check es ≡ (s.key, s.val) ∷ shown check fs)
          × (r
              ≡ some (
                  some (record {
                    found_key = s.key;
                    found_val = s.val;
                    behind = fs ++ replicate j empty_slot;
                  }))))

  scan_slots-replicate :
      (check : Option ℕ) (j : ℕ)
      → scan_slots hash_seed m.seed m check (replicate j empty_slot) ≡ some none
  unfolding scan_slots visit_slot is_empty
  scan_slots-replicate check zero = refl
  scan_slots-replicate check (suc j) = scan_slots-replicate check j

  visit_slot-other :
      (check : Option ℕ) (s : Slot) (rest : Chain)
      → 5 ≤ s.top_hash
      → is_other_half hash_seed m.seed m check s.key ≡ true
      → visit_slot hash_seed m.seed m check s rest ≡ some none
  unfolding visit_slot is_empty
  visit_slot-other check s rest l e = ground arith

  visit_slot-shown :
      (check : Option ℕ) (s : Slot) (rest : Chain)
      → 5 ≤ s.top_hash
      → is_other_half hash_seed m.seed m check s.key ≡ false
      → visit_slot hash_seed m.seed m check s rest
        ≡ some (some (record { found_key = s.key; found_val = s.val; behind = rest }))
  unfolding visit_slot is_empty
  visit_slot-shown check s rest l e = ground arith

  abbrev pub or_later : Option (Option Found) → Option Found → Option (Option Found)
  or_later later none = later
  or_later later (some f) = some (some f)

  scan_slots-cons :
      (check : Option ℕ) (s : Slot) (rest : Chain)
      → scan_slots hash_seed m.seed m check (s ∷ rest) ≡ (
          visit_slot hash_seed m.seed m check s rest
          >>= or_later (scan_slots hash_seed m.seed m check rest))
  unfolding scan_slots
  scan_slots-cons check s rest = refl

  pub scan_slots-Scanned :
      (check : Option ℕ) (es : Chain) (j : ℕ)
      → AreFilled es
      → Scanned check es j (scan_slots hash_seed m.seed m check (es ++ replicate j empty_slot))
  unfolding shown
  scan_slots-Scanned check [] j a = inl (refl, scan_slots-replicate check j)
  scan_slots-Scanned check (s ∷ es) j (l, a) =
      elim (Bool-cases (is_other_half hash_seed m.seed m check s.key)) [
        | inr e ↦ inr (
          s,
          es,
          a,
          omega arith,
          rw e,
          scan_slots-cons check s (es ++ replicate j empty_slot)
              ∙ ap
                  (λ (o : Option (Option Found)).
                    o
                    >>= or_later
                        (scan_slots hash_seed m.seed m check (es ++ replicate j empty_slot)))
                  (visit_slot-shown check s _ l e),
        )
        | inl e ↦
            let step =
              scan_slots-cons check s (es ++ replicate j empty_slot)
              ∙ ap
                  (λ (o : Option (Option Found)).
                    o
                    >>= or_later
                        (scan_slots hash_seed m.seed m check (es ++ replicate j empty_slot)))
                  (visit_slot-other check s _ l e) in
            elim (scan_slots-Scanned check es j a) [
              | inl (none_shown, run) ↦ inl (rw e none_shown, step ∙ run)
              | inr (f, fs, af, lf, sf, run) ↦ inr (f, fs, af, omega arith, rw e sf, step ∙ run)
            ]
      ]
