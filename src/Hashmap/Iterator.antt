-- ===== src/Hashmap/Iterator.antt =====
-- `Iter` of pkg/types/hashmap/iterator.go, over a map that does not change meanwhile. The slots of the
-- current chain that have not been visited stand for its pointer and its index; the offset in a bucket
-- is 0, since the iteration starts from the constant 1. `none` is a panic, or fuel that has run out.
use go_probe.Common.{
  ℕ, zero, suc, ◌+◌, ◌%◌, Bool, true, false, not, ◌&&◌, ◌||◌, Option, none, some, List, [], ◌∷◌,
  ◌==◌, if◌then◌else◌, ◌>>=◌, length, get_elem?,
}
use go_probe.Common.Bytes.{Bytes}
use go_probe.Types.Counters.{Counters, zero_counters}
use go_probe.Hashmap.Slots.{
  Slot, Chain, is_empty, evacuated, evacuated_x, evacuated_y, evacuated_empty,
}
use go_probe.Hashmap.Table.{Map}
use go_probe.Hashmap.Access.{get}

pub record Iter : Type 0 where
  pub key : Bytes
  pub val : Counters
  pub buckets : List Chain
  pub rest : Chain
  pub start_bucket : ℕ
  pub wrapped : Bool
  pub bucket : ℕ
  pub check_bucket : Option ℕ

-- The start of an iteration; a map without entries has none, and its Next answers false.
unfoldable pub iter : Map → Option Iter
iter m =
    if m.count == 0
    then none
    else some (record {
      key = [];
      val = zero_counters;
      buckets = m.buckets;
      rest = [];
      start_bucket = 1 % length m.buckets;
      wrapped = false;
      bucket = 1 % length m.buckets;
      check_bucket = none;
    })

-- The place that an entry was found at: its key, its value and the slots behind it.
pub record Found : Type 0 where
  pub found_key : Bytes
  pub found_val : Counters
  pub behind : Chain

-- The next bucket in the round.
unfoldable pub move_on : Iter → Chain → Option ℕ → Iter
move_on it c check =
    if it.bucket + 1 == length it.buckets
    then record it { rest = c; check_bucket = check; bucket = 0; wrapped = true }
    else record it { rest = c; check_bucket = check; bucket = it.bucket + 1 }

-- A bucket is read from the old ones, if it has not been evacuated there.
unfoldable pub open_bucket : Map → Iter → Option Iter
open_bucket m it = get_elem? it.buckets it.bucket >>= λ b. elim m.old_buckets [
  | none ↦ some (move_on it b none)
  | some old ↦
      if length it.buckets == length m.buckets
      then (get_elem? old (it.bucket % length old) >>= λ oldb.
          some (if evacuated oldb then move_on it b none else move_on it oldb (some it.bucket)))
      else some (move_on it b none)
]

module _ (hash_seed : Bytes → ℕ → ℕ) where
  -- The key of an old bucket belongs to the other half of the larger table. The seed is the one that the
  -- loop uses.
  unfoldable pub is_other_half : ℕ → Map → Option ℕ → Bytes → Bool
  is_other_half seed m none key = false
  is_other_half seed m (some bucket) key =
      not m.same_size_grow && not (hash_seed key seed % length m.buckets == bucket)

  -- What is found at a slot: an evacuated entry is looked up where it is now.
  unfoldable pub visit_slot : ℕ → Map → Option ℕ → Slot → Chain → Option (Option Found)
  unfolding is_other_half
  visit_slot seed m check s rest =
      if is_empty s.top_hash || s.top_hash == evacuated_empty
      then some none
      else if is_other_half seed m check s.key
      then some none
      else if not (s.top_hash == evacuated_x) && not (s.top_hash == evacuated_y)
      then some (some (record { found_key = s.key; found_val = s.val; behind = rest }))
      else (get hash_seed m s.key >>= λ o. elim o [
        | none ↦ some none
        | some v ↦ some (some (record { found_key = s.key; found_val = v; behind = rest }))
      ])

  -- The loop over the slots of a chain.
  unfoldable pub scan_slots : ℕ → Map → Option ℕ → Chain → Option (Option Found)
  unfolding visit_slot
  scan_slots seed m check [] = some none
  scan_slots seed m check (s ∷ rest) =
      let later = scan_slots seed m check rest in
      visit_slot seed m check s rest >>= λ o. elim o [ none ↦ later | some f ↦ some (some f) ]

  -- What Next does after a chain: it stops at a found entry, or goes to the next bucket of the round.
  unfoldable pub after_scan :
      (Iter → Option (Iter × Bool)) → Map → Iter → Option Found → Option (Iter × Bool)
  after_scan again m it (some f) =
      some (record it { key = f.found_key; val = f.found_val; rest = f.behind }, true)
  after_scan again m it none =
      let further = open_bucket m it >>= again in
      if it.bucket == it.start_bucket && it.wrapped
      then some (record it { key = []; val = zero_counters }, false)
      else further

  unfoldable pub next_from : ℕ → ℕ → Map → Iter → Option (Iter × Bool)
  unfolding after_scan
  next_from zero seed m it = none
  next_from (suc fuel) seed m it =
      scan_slots seed m it.check_bucket it.rest >>= after_scan (next_from fuel seed m) m it

  -- Next goes through each bucket once at most.
  unfoldable pub next : ℕ → Map → Iter → Option (Iter × Bool)
  unfolding next_from
  next seed m it = next_from (length it.buckets + 1) seed m it

  -- The pairs that a loop over Next meets; each takes one of the fuel.
  unfoldable pub pairs_from : ℕ → ℕ → Map → Iter → Option (List (Bytes × Counters))
  pairs_from zero seed m it = none
  pairs_from (suc fuel) seed m it = next seed m it >>= λ r.
      let later = pairs_from fuel seed m r.0 in
      if r.1 then (later >>= λ l. some ((r.0.key, r.0.val) ∷ l)) else some []

  unfoldable pub pairs_over : ℕ → ℕ → Map → Option Iter → Option (List (Bytes × Counters))
  pairs_over fuel seed m none = some []
  pairs_over fuel seed m (some it) = pairs_from fuel seed m it

  unfoldable pub pairs : ℕ → ℕ → Map → Option (List (Bytes × Counters))
  unfolding iter pairs_over
  pairs fuel seed m = pairs_over fuel seed m (iter m)
