-- ===== src/Tests/Hashmap.antt =====
-- The theorems about the hash map at concrete inputs, and runs of it.
use go_probe.Common.{
  ℕ, zero, suc, ◌+◌, ◌*◌, ◌≤◌, ◌≡◌, ◌≢◌, refl, none, some, List, [], ◌∷◌, ◌>>=◌, arith, length,
  subst, ◌<◌, ◌⊎◌, Bool, ltb, ◌++◌, inl, Option, sym, ap, ◌∙◌,
}
use go_probe.Common.Bytes.{Bytes}
use go_probe.Types.Counters.{Counters, add, zero_counters}
use go_probe.Capture.FlowLog.Rotate.{joined}
use go_probe.Hashmap.Slots.{Chain, empty_bucket}
use go_probe.Hashmap.Table.{Map, new_hint}
use go_probe.Hashmap.Access.{get, set_val, set_or_update}
use go_probe.Hashmap.Table.{
  is_growing, make_bucket_array, load_factor, too_many_overflow_buckets, hash_grow, is_some, made,
  n_buckets_for, with_buckets,
}
use go_probe.Hashmap.Slots.{update_slot, top_hash_of, insert_slot, is_empty, evacuated, find_slot}
use go_probe.Hashmap.Growth.{
  evacuate, move_slots, advance_evacuation_mark, after_evacuation, evacuate_bucket, finish_growth,
  grow_work, mark_of, moved, new_dst, pass_evacuated, put_slot, second_half, uses_y, with_space,
}
use go_probe.Hashmap.Access.{
  after_search, needs_growth, insert_entry, attempt, inserted, key_data_for, select_chain,
  set_entry,
}
use go_probe.Capture.EpHash.{same_bytes, same_bytes_iff}
use go_probe.Hashmap.Valid.{IsTable}
use go_probe.Hashmap.Fresh.{AreShort}
use go_probe.Hashmap.Merge.{fill_list, write_all}
use go_probe.Hashmap.Pairs.{pairs-values}
use go_probe.Hashmap.Scanning.{values, to_list}
use go_probe.Hashmap.Iterator.{pairs}
use go_probe.Hashmap.Merge.{merge_map}
use go_probe.Hashmap.Merged.{merge_map-combined, combined}
use go_probe.Hashmap.Meta.{meta_pairs}
use go_probe.Hashmap.Chained.{meta_pairs-accepted, accepted}
use go_probe.Hashmap.Aggregate.{AggFlowMap}
use go_probe.Hashmap.Settles.{write_all-Settles}
use go_probe.Hashmap.Map.{IsValid, count-table}
use go_probe.Hashmap.Setting.{new_keys}
use go_probe.Hashmap.Updates.{set_or_update-Writes, set_val-Writes}
use go_probe.Hashmap.Fresh.{new_hint-IsValid, new_hint-Represents, new_hint-write_all, replay}

abbrev toy_hash : Bytes → ℕ → ℕ
toy_hash [] seed = seed
toy_hash (b ∷ key) seed = b * 7 + seed

abbrev one : Counters
one = record { bytes_rcvd = 100; bytes_sent = 20; packets_rcvd = 1; packets_sent = 1 }

abbrev numbered : ℕ → List (Bytes × Counters)
numbered zero = []
numbered (suc n) = (n ∷ [], one) ∷ numbered n

-- Thirty keys, which make the table grow from one bucket to four, and one of them once more.
abbrev thirty : List (Bytes × Counters)
thirty = (7 ∷ [], one) ∷ numbered 30

write_all-get :
    (write_all toy_hash (new_hint 5 0) thirty >>= λ m. get toy_hash m (7 ∷ []))
    ≡ some (some (add one one))
unfolding write_all new_hint set_or_update get is_growing make_bucket_array after_search update_slot
    empty_bucket top_hash_of needs_growth load_factor too_many_overflow_buckets insert_entry
    insert_slot is_empty same_bytes hash_grow evacuate evacuated move_slots attempt inserted
    key_data_for select_chain set_entry advance_evacuation_mark after_evacuation evacuate_bucket
    finish_growth grow_work mark_of moved new_dst pass_evacuated put_slot second_half uses_y
    with_space find_slot is_some made n_buckets_for with_buckets add
write_all-get = refl

set_or_update-Writes_example :
    (n : Map) × (set_or_update toy_hash (new_hint 5 0) (1 ∷ 2 ∷ []) one ≡ some n)
    × IsValid toy_hash n
    × (get toy_hash n (1 ∷ 2 ∷ []) ≡ some (some (joined none one)))
    × ((q : Bytes) → q ≢ (1 ∷ 2 ∷ []) → get toy_hash n q ≡ some none)
    × (n.count ≡ (new_hint 5 0).count + new_keys none)
    × ((new_hint 5 0).key_data_len ≤ n.key_data_len)
unfolding new_hint
set_or_update-Writes_example =
    set_or_update-Writes toy_hash (new_hint 5 0) (λ _. none) (1 ∷ 2 ∷ []) one
      (new_hint-IsValid toy_hash 5 0) (new_hint-Represents toy_hash 5 0) (omega arith)

set_val-Writes_example :
    (n : Map) × (set_val toy_hash (new_hint 5 100) (1 ∷ 2 ∷ []) one ≡ some n)
    × IsValid toy_hash n
    × (get toy_hash n (1 ∷ 2 ∷ []) ≡ some (some one))
    × ((q : Bytes) → q ≢ (1 ∷ 2 ∷ []) → get toy_hash n q ≡ some none)
    × (n.count ≡ (new_hint 5 100).count + new_keys none)
unfolding new_hint
set_val-Writes_example =
    set_val-Writes toy_hash (new_hint 5 100) (λ _. none) (1 ∷ 2 ∷ []) one
      (new_hint-IsValid toy_hash 5 100) (new_hint-Represents toy_hash 5 100) (omega arith)

abbrev two_writes : List (Bytes × Counters)
two_writes = (1 ∷ [], one) ∷ (1 ∷ [], one) ∷ []

new_hint-write_all_example :
    (n : Map) × (write_all toy_hash (new_hint 5 0) two_writes ≡ some n)
    × IsValid toy_hash n
    × ((key : Bytes) → get toy_hash n key ≡ some (replay (λ _. none) two_writes key))
new_hint-write_all_example = new_hint-write_all toy_hash 5 0 two_writes (omega arith)

two_written :
    (n : Map) × (write_all toy_hash (new_hint 5 0) two_writes ≡ some n)
    × IsValid toy_hash n
    × ((key : Bytes) → get toy_hash n key ≡ some (replay (λ _. none) two_writes key))
two_written = new_hint-write_all toy_hash 5 0 two_writes (omega arith)

pairs-values_example :
    (enough : ℕ) × (l : List (Bytes × Counters)) × ((fuel : ℕ)
      → enough ≤ fuel
      → pairs toy_hash fuel two_written.0.seed two_written.0 ≡ some l)
    × ((q : Bytes) → values q l ≡ to_list (replay (λ _. none) two_writes q))
pairs-values_example =
    pairs-values toy_hash two_written.0 (replay (λ _. none) two_writes) two_written.2 two_written.3

-- A list that is too long for the pairs, and one that is too short.
fill_list_runs :
    (fill_list 2 ((1 ∷ [], one) ∷ []) ≡ some ((1 ∷ [], one) ∷ ([], zero_counters) ∷ []))
    × (fill_list 1 two_writes ≡ none)
unfolding fill_list
fill_list_runs = (refl, refl)

-- Another map with the same seed.
abbrev other_writes : List (Bytes × Counters)
other_writes = (2 ∷ [], one) ∷ (1 ∷ [], one) ∷ []

other_written :
    (n : Map) × (write_all toy_hash (new_hint 5 0) other_writes ≡ some n)
    × IsValid toy_hash n
    × ((key : Bytes) → get toy_hash n key ≡ some (replay (λ _. none) other_writes key))
other_written = new_hint-write_all toy_hash 5 0 other_writes (omega arith)

abbrev seed_and_room : Option Map → ℕ × ℕ
seed_and_room none = (0, 0)
seed_and_room (some m) = (m.seed, m.key_data_len)

-- The fields after the writes, by running them.
abbrev Keeps : List (Bytes × Counters) → Type 0
Keeps l = seed_and_room (write_all toy_hash (new_hint 5 0) l) ≡ (5, 65536)

two_writes-Keeps : Keeps two_writes
unfolding write_all new_hint set_or_update get is_growing make_bucket_array after_search update_slot
    empty_bucket top_hash_of needs_growth load_factor too_many_overflow_buckets insert_entry
    insert_slot is_empty same_bytes hash_grow evacuate evacuated move_slots attempt inserted
    key_data_for select_chain set_entry advance_evacuation_mark after_evacuation evacuate_bucket
    finish_growth grow_work mark_of moved new_dst pass_evacuated put_slot second_half uses_y
    with_space find_slot is_some made n_buckets_for with_buckets add
two_writes-Keeps = refl

other_writes-Keeps : Keeps other_writes
unfolding write_all new_hint set_or_update get is_growing make_bucket_array after_search update_slot
    empty_bucket top_hash_of needs_growth load_factor too_many_overflow_buckets insert_entry
    insert_slot is_empty same_bytes hash_grow evacuate evacuated move_slots attempt inserted
    key_data_for select_chain set_entry advance_evacuation_mark after_evacuation evacuate_bucket
    finish_growth grow_work mark_of moved new_dst pass_evacuated put_slot second_half uses_y
    with_space find_slot is_some made n_buckets_for with_buckets add
other_writes-Keeps = refl

two_fields : seed_and_room (some two_written.0) ≡ (5, 65536)
two_fields = sym (ap seed_and_room two_written.1) ∙ two_writes-Keeps

other_fields : seed_and_room (some other_written.0) ≡ (5, 65536)
other_fields = sym (ap seed_and_room other_written.1) ∙ other_writes-Keeps

other_keys :
    (q : Bytes) → replay (λ _. none) other_writes q ≢ none → length q ≤ two_written.0.key_data_len
other_keys q v = ground (
  arith,
  v,
  same_bytes_iff q (1 ∷ []),
  same_bytes_iff q (2 ∷ []),
  ap (λ (x : ℕ × ℕ). x.1) two_fields,
)

merge_map-combined_example :
    (enough : ℕ) × (n : Map) × ((fuel : ℕ)
      → enough ≤ fuel
      → merge_map toy_hash fuel two_written.0 other_written.0 ≡ some n)
    × IsValid toy_hash n
    × ((q : Bytes)
        → get toy_hash n q
          ≡ some (combined (replay (λ _. none) two_writes q) (replay (λ _. none) other_writes q)))
merge_map-combined_example =
    merge_map-combined toy_hash two_written.0 other_written.0 (replay (λ _. none) two_writes)
      (replay (λ _. none) other_writes) two_written.2 other_written.2 two_written.3 other_written.3
      other_keys (inl (ap (λ (x : ℕ × ℕ). x.0) (two_fields ∙ sym other_fields)))

abbrev both_written : AggFlowMap
both_written = record { primary_map = two_written.0; secondary_map = other_written.0 }

-- More than one packet was received.
abbrev is_busy : Counters → Bool
is_busy c = ltb 1 c.packets_rcvd

meta_pairs-accepted_example :
    (enough : ℕ) × (l : List (Bytes × Counters)) × (k : List (Bytes × Counters)) × ((fuel : ℕ)
      → enough ≤ fuel
      → (pairs toy_hash fuel two_written.0.seed two_written.0 ≡ some l)
        × (pairs toy_hash fuel other_written.0.seed other_written.0 ≡ some k)
        × (meta_pairs toy_hash fuel both_written is_busy
            ≡ some (accepted is_busy l ++ accepted is_busy k)))
    × ((q : Bytes)
        → (values q l ≡ to_list (replay (λ _. none) two_writes q))
          × (values q k ≡ to_list (replay (λ _. none) other_writes q)))
meta_pairs-accepted_example =
    meta_pairs-accepted toy_hash both_written is_busy (replay (λ _. none) two_writes)
      (replay (λ _. none) other_writes) two_written.2 other_written.2 two_written.3 other_written.3

numbered-AreShort : (n : ℕ) → AreShort 65536 (numbered n)
numbered-AreShort zero = tt
numbered-AreShort (suc n) = (omega arith, numbered-AreShort n)

-- A map that is growing from four buckets to eight, after 27 writes to a new one.
grown :
    (n : Map) × (write_all toy_hash (new_hint 5 0) (numbered 27) ≡ some n)
    × IsValid toy_hash n
    × ((key : Bytes) → get toy_hash n key ≡ some (replay (λ _. none) (numbered 27) key))
grown = new_hint-write_all toy_hash 5 0 (numbered 27) (numbered-AreShort 27)

-- The count, the length of the key data, the number of old buckets and the mark.
abbrev sizes : Map → Option (List Chain) → ℕ × ℕ × ℕ × ℕ
sizes m none = (m.count, m.key_data_len, 0, 0)
sizes m (some old) = (m.count, m.key_data_len, length old, m.n_evacuate)

abbrev sizes_of : Option Map → ℕ × ℕ × ℕ × ℕ
sizes_of none = (0, 0, 0, 0)
sizes_of (some m) = sizes m m.old_buckets

grown_run : sizes_of (write_all toy_hash (new_hint 5 0) (numbered 27)) ≡ (27, 65536, 4, 2)
unfolding write_all new_hint set_or_update get is_growing make_bucket_array after_search update_slot
    empty_bucket top_hash_of needs_growth load_factor too_many_overflow_buckets insert_entry
    insert_slot is_empty same_bytes hash_grow evacuate evacuated move_slots attempt inserted
    key_data_for select_chain set_entry advance_evacuation_mark after_evacuation evacuate_bucket
    finish_growth grow_work mark_of moved new_dst pass_evacuated put_slot second_half uses_y
    with_space find_slot is_some made n_buckets_for with_buckets add
grown_run = refl

grown_sizes : sizes grown.0 grown.0.old_buckets ≡ (27, 65536, 4, 2)
grown_sizes = sym (ap sizes_of grown.1) ∙ grown_run

old_lem :
    (m : Map) (o : Option (List Chain))
    → sizes m o ≡ (27, 65536, 4, 2)
    → (old : List Chain) × (o ≡ some old) × (length old ≡ 4) × (m.n_evacuate ≡ 2)
old_lem m none e = absurd (omega (arith, ap (λ (x : ℕ × ℕ × ℕ × ℕ). x.2) e))
old_lem m (some old) e =
    (old, refl, ap (λ (x : ℕ × ℕ × ℕ × ℕ). x.2) e, ap (λ (x : ℕ × ℕ × ℕ × ℕ). x.3) e)

counts_lem :
    (m : Map) (o : Option (List Chain))
    → sizes m o ≡ (27, 65536, 4, 2)
    → (m.count ≡ 27) × (m.key_data_len ≡ 65536)
counts_lem m none e = (ap (λ (x : ℕ × ℕ × ℕ × ℕ). x.0) e, ap (λ (x : ℕ × ℕ × ℕ × ℕ). x.1) e)
counts_lem m (some old) e = (ap (λ (x : ℕ × ℕ × ℕ × ℕ). x.0) e, ap (λ (x : ℕ × ℕ × ℕ × ℕ). x.1) e)

grown_old :
    (old : List Chain) × (grown.0.old_buckets ≡ some old)
    × (length old ≡ 4)
    × (grown.0.n_evacuate ≡ 2)
grown_old = old_lem grown.0 grown.0.old_buckets grown_sizes

grown_counts : (grown.0.count ≡ 27) × (grown.0.key_data_len ≡ 65536)
grown_counts = counts_lem grown.0 grown.0.old_buckets grown_sizes

grown-IsTable : IsTable toy_hash grown.0
grown-IsTable =
    subst (IsTable toy_hash)
      (count-table toy_hash grown.0 grown.2 (λ z. absurd (omega (arith, z, grown_counts.0))))
      grown.2

two_more-AreShort : AreShort grown.0.key_data_len two_writes
two_more-AreShort = (omega (arith, grown_counts.1), (omega (arith, grown_counts.1), tt))

write_all-Settles_example :
    (done : List (Bytes × Counters)) × (left : List (Bytes × Counters)) × (n : Map) × (two_writes
      ≡ done ++ left)
    × (write_all toy_hash grown.0 done ≡ some n)
    × IsTable toy_hash n
    × ((n.old_buckets ≡ none) ⊎ (length grown.0.buckets < length n.buckets))
write_all-Settles_example =
    write_all-Settles toy_hash two_writes grown.0 grown_old.0 grown-IsTable grown_old.1
      two_more-AreShort (omega (arith, grown_old.2, grown_old.3))
