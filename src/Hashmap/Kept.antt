-- ===== src/Hashmap/Kept.antt =====
-- The evacuation of one bucket of pkg/types/hashmap/hashmap.go changes no search.
use native.Mathlib.Nat.{mod-lt}
use native.Mathlib.Decide.{ℕ_discrete}
use go_probe.Common.{
  ℕ, ◌+◌, ◌*◌, ◌%◌, ◌<◌, ◌≡◌, ◌≢◌, refl, sym, ap, ◌∙◌, Bool, true, false, Option, none, some, List,
  arith, if◌then◌else◌, length, get_elem?, set, Bool-cases, inl, inr, length-set, get_elem?-within,
}
use go_probe.Common.Bytes.{Bytes}
use go_probe.Types.Counters.{Counters}
use go_probe.Hashmap.Slots.{Chain, evacuated, find_slot, top_hash_of}
use go_probe.Hashmap.Chains.{find}
use go_probe.Hashmap.Fills.{find_slot-Fills, evacuated-Fills}
use go_probe.Hashmap.Halves.{goes_high, mod_double, find-low_half, find-high_half}
use go_probe.Hashmap.Writes.{get_elem?-set_self, get_elem?-set_ne}
use go_probe.Hashmap.Moving.{Split}
use go_probe.Hashmap.Table.{Map}
use go_probe.Hashmap.Growth.{EvacDst, moved}
use go_probe.Hashmap.Valid.{hash_of, search}
use go_probe.Hashmap.Evacuating.{
  IsWaiting, search-growing, Receives-Fills, low, high, at_low, at_high, at_other, low-AreEntries,
  high-AreEntries, length-buckets, in_old,
}

module _ {hash_seed : Bytes → ℕ → ℕ} {m : Map} {old : List Chain} {i : ℕ} {b es : Chain}
    (d : IsWaiting hash_seed m old i b es) {r : Chain × EvacDst × EvacDst}
    (sp : Split hash_seed m (length old) d.t.doubling (low d) (high d) r)
    (marked : evacuated r.0 ≡ true) (key : Bytes) where
  abbrev hash : ℕ
  hash = hash_of hash_seed m key

  abbrev value_in : Chain → Option (Option Counters)
  value_in c = some (find_slot key (top_hash_of hash) c)

  -- Both searches read a chain of the table, or an old chain.
  reads_old :
      (c e : Chain)
      → get_elem? m.buckets (hash % (length old * 2)) ≡ some c
      → get_elem? old (hash % length old) ≡ some e
      → search hash_seed m key ≡ value_in (if evacuated e then c else e)
  reads_old c e p q =
      search-growing hash_seed m old key c e d.is_old d.t.doubling d.grown.half
        (ap (λ (n : ℕ). get_elem? m.buckets (hash % n)) d.grown.half ∙ p) q

  reads_moved :
      (c e : Chain)
      → get_elem? (moved m old i r).buckets (hash % (length old * 2)) ≡ some c
      → get_elem? (set old i r.0) (hash % length old) ≡ some e
      → search hash_seed (moved m old i r) key ≡ value_in (if evacuated e then c else e)
  unfolding moved
  reads_moved c e p q =
      search-growing hash_seed (moved m old i r) (set old i r.0) key c e refl d.t.doubling
        (length-buckets d sp marked ∙ ap (λ (n : ℕ). n * 2) (sym (length-set old i r.0)))
        (ap (λ (n : ℕ). get_elem? (moved m old i r).buckets (hash % n)) (length-buckets d sp marked)
          ∙ p)
        (ap (λ (n : ℕ). get_elem? (set old i r.0) (hash % n)) (length-set old i r.0) ∙ q)

  place : hash % (length old * 2) ≡ (
      if goes_high (hash_of hash_seed m) (length old) key
      then hash % length old + length old
      else hash % length old)
  place = mod_double hash (length old) (omega (arith, in_old d))

  -- A key of another bucket is searched where it was.
  moved-search_other :
      hash % length old ≢ i → search hash_seed (moved m old i r) key ≡ search hash_seed m key
  moved-search_other n =
      let pos : 0 < length old = omega (arith, in_old d) in
      let l = mod-lt hash pos in
      let (e, at_e) = get_elem?-within old (hash % length old) l in
      let inside : hash % (length old * 2) < length m.buckets =
        ground (arith, place, d.grown.half) in
      let (c, at_c) = get_elem?-within m.buckets (hash % (length old * 2)) inside in
      let not_low : hash % (length old * 2) ≢ i = ground (arith, place, in_old d) in
      let not_high : hash % (length old * 2) ≢ i + length old = ground (arith, place, in_old d) in
      reads_moved c e (at_other d sp marked _ not_low not_high ∙ at_c)
        (get_elem?-set_ne old i _ r.0 n ∙ at_e)
      ∙ sym (reads_old c e at_c at_e)

  -- A key of the bucket was found in the old chain, and is found in the half that it belongs to.
  module _ (here : hash % length old ≡ i) where
    search_before : search hash_seed m key ≡ some (find key es)
    search_before =
        let inside : i < length m.buckets = omega (arith, in_old d, d.grown.half) in
        let pos : 0 < length old = omega (arith, in_old d) in
        let within : hash % (length old * 2) < length m.buckets =
          ground (arith, place, d.grown.half, mod-lt hash pos) in
        let (c, at_c) = get_elem?-within m.buckets (hash % (length old * 2)) within in
        let live = evacuated-Fills (hash_of hash_seed m) (length old) i d.f d.a in
        reads_old c b at_c (ap (get_elem? old) here ∙ d.at)
        ∙ ap (λ (t : Bool). value_in (if t then c else b)) live
        ∙ ap some (find_slot-Fills (hash_of hash_seed m) (length old) i d.f d.a key)

    reads_half :
        (c : Chain)
        → get_elem? (moved m old i r).buckets (hash % (length old * 2)) ≡ some c
        → search hash_seed (moved m old i r) key ≡ value_in c
    reads_half c p =
        reads_moved c r.0 p
          (ap (get_elem? (set old i r.0)) here ∙ get_elem?-set_self old i b r.0 d.at)
        ∙ ap (λ (t : Bool). value_in (if t then c else r.0)) marked

    search_low :
        goes_high (hash_of hash_seed m) (length old) key ≡ false
        → search hash_seed (moved m old i r) key ≡ some (find key es)
    search_low e =
        let there : hash % (length old * 2) ≡ i = ground (arith, place) in
        reads_half r.1.chain (ap (get_elem? (moved m old i r).buckets) there ∙ at_low d sp marked)
        ∙ ap some (
            find_slot-Fills (hash_of hash_seed m) (length old * 2) i (Receives-Fills sp.low)
              (low-AreEntries d sp marked) key)
        ∙ ap some (find-low_half (hash_of hash_seed m) (length old) key es)
        ∙ ap (λ (t : Bool). some (if t then none else find key es)) e

    search_high :
        goes_high (hash_of hash_seed m) (length old) key ≡ true
        → search hash_seed (moved m old i r) key ≡ some (find key es)
    search_high e =
        let there : hash % (length old * 2) ≡ i + length old = ground (arith, place) in
        reads_half r.2.chain (ap (get_elem? (moved m old i r).buckets) there ∙ at_high d sp marked)
        ∙ ap some (
            find_slot-Fills (hash_of hash_seed m) (length old * 2) (i + length old)
              (Receives-Fills sp.high) (high-AreEntries d sp marked) key)
        ∙ ap some (find-high_half (hash_of hash_seed m) (length old) key es)
        ∙ ap (λ (t : Bool). some (if t then find key es else none)) e

    moved-search_here : search hash_seed (moved m old i r) key ≡ search hash_seed m key
    moved-search_here = elim (Bool-cases (goes_high (hash_of hash_seed m) (length old) key)) [
      | inl e ↦ search_high e ∙ sym search_before
      | inr e ↦ search_low e ∙ sym search_before
    ]

  pub moved-search : search hash_seed (moved m old i r) key ≡ search hash_seed m key
  moved-search = elim (ℕ_discrete (hash % length old) i) [
    | yes p ↦ moved-search_here p
    | no n ↦ moved-search_other n
  ]
