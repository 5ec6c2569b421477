-- ===== src/Hashmap/Slots.antt =====
-- The slots of `bucket` of pkg/types/hashmap/hashmap.go. A chain is a bucket with the overflow buckets
-- behind it, all their slots in one list: eight for each bucket. A slot is its place in the three arrays
-- `topHash`, `keys` and `vals`.
use go_probe.Common.{
  ℕ, ◌+◌, ◌/◌, ◌%◌, ◌^◌, Bool, true, false, ◌&&◌, Option, none, some, List, [], ◌∷◌, ltb, leb, ◌==◌,
  if◌then◌else◌, replicate,
}
use mathlib.Core.Option
use go_probe.Common.Bytes.{Bytes}
use go_probe.Types.Counters.{Counters, zero_counters}
use go_probe.Capture.EpHash.{same_bytes}

abbrev pub bucket_cnt : ℕ
bucket_cnt = 8

-- emptyRest: neither this slot nor one behind it holds an entry.
abbrev pub empty_rest : ℕ
empty_rest = 0

abbrev pub empty_one : ℕ
empty_one = 1

abbrev pub evacuated_x : ℕ
evacuated_x = 2

abbrev pub evacuated_y : ℕ
evacuated_y = 3

abbrev pub evacuated_empty : ℕ
evacuated_empty = 4

abbrev pub min_top_hash : ℕ
min_top_hash = 5

pub record Slot : Type 0 where
  pub top_hash : ℕ
  pub key : Bytes
  pub val : Counters

abbrev pub Chain : Type 0
Chain = List Slot

-- A slot of bucket{}.
abbrev pub empty_slot : Slot
empty_slot = record { top_hash = empty_rest; key = []; val = zero_counters }

unfoldable pub empty_bucket : Chain
empty_bucket = replicate bucket_cnt empty_slot

unfoldable pub is_empty : ℕ → Bool
is_empty x = leb x empty_one

-- The first slot of a bucket tells whether the whole chain has been evacuated.
unfoldable pub evacuated : Chain → Bool
evacuated [] = false
evacuated (s ∷ rest) = ltb empty_one s.top_hash && ltb s.top_hash min_top_hash

-- topHash: the uppermost byte of a hash of 64 bits, above the marks.
unfoldable pub top_hash_of : ℕ → ℕ
top_hash_of hash =
    let top = (hash / 2 ^ 56) % 256 in if ltb top min_top_hash then top + min_top_hash else top

-- The loop of `mapaccessK` over a chain.
unfoldable pub find_slot : Bytes → ℕ → Chain → Option Counters
find_slot key top [] = none
find_slot key top (s ∷ rest) =
    let later = find_slot key top rest in
    if s.top_hash == top
    then (if same_bytes key s.key then some s.val else later)
    else if s.top_hash == empty_rest
    then none
    else later

-- The same loop where it writes to the slot that it finds.
unfoldable pub update_slot : Bytes → ℕ → (Counters → Counters) → Chain → Option Chain
update_slot key top change [] = none
update_slot key top change (s ∷ rest) =
    let later = Option.map (λ (c : Chain). s ∷ c) (update_slot key top change rest) in
    if s.top_hash == top
    then (if same_bytes key s.key then some (record s { val = change s.val } ∷ rest) else later)
    else if s.top_hash == empty_rest
    then none
    else later

-- The new entry goes to the first empty slot, which the loop remembers in `insertI`, `insertK` and
-- `insertV`; where the chain has none, to the first slot of one more overflow bucket. With it whether
-- there is one more.
unfoldable pub insert_slot : Slot → Chain → Chain × Bool
insert_slot new [] = (new ∷ replicate 7 empty_slot, true)
insert_slot new (s ∷ rest) =
    let later = insert_slot new rest in
    if is_empty s.top_hash then (new ∷ rest, false) else (s ∷ later.0, later.1)
