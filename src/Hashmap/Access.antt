-- ===== src/Hashmap/Access.antt =====
-- Get, Set and SetOrUpdate of `Map` of pkg/types/hashmap/hashmap.go. Set and SetOrUpdate differ in what
-- they do to a value that is there already. The hash function is a parameter; `none` is a panic.
use go_probe.Common.{
  ℕ, suc, zero, ◌+◌, ◌*◌, ◌/◌, ◌%◌, Bool, not, ◌&&◌, ◌||◌, Option, none, some, ltb, leb, ◌==◌,
  if◌then◌else◌, ◌>>=◌, length, get_elem?, set,
}
use go_probe.Common.Bytes.{Bytes}
use go_probe.Types.Counters.{Counters, add}
use go_probe.Hashmap.Slots.{
  Slot, Chain, evacuated, top_hash_of, find_slot, update_slot, insert_slot,
}
use go_probe.Hashmap.Table.{
  Map, is_growing, hash_grow, with_buckets, load_factor, too_many_overflow_buckets,
}
use go_probe.Hashmap.Growth.{grow_work}

-- A key, the value that it starts with, and the change of the value that it has already.
pub record Entry : Type 0 where
  pub key : Bytes
  pub fresh : Counters
  pub change : Counters → Counters

-- The key data is doubled once where it is too short for the key; a key that is longer panics.
unfoldable pub key_data_for : Map → ℕ → ℕ
key_data_for m n =
    if ltb m.key_data_len (m.key_data_pos + n) then m.key_data_len * 2 else m.key_data_len

unfoldable pub inserted : Map → ℕ → ℕ → Chain × Bool → Map
unfolding key_data_for
inserted m i n r = record m {
  count = m.count + 1;
  n_overflow = if r.1 then m.n_overflow + 1 else m.n_overflow;
  buckets = set m.buckets i r.0;
  key_data_len = key_data_for m n;
  key_data_pos = m.key_data_pos + n;
}

unfoldable pub insert_entry : Map → ℕ → Chain → Slot → Option Map
unfolding key_data_for inserted
insert_entry m i b new =
    if leb (m.key_data_pos + length new.key) (key_data_for m (length new.key))
    then some (inserted m i (length new.key) (insert_slot new b))
    else none

unfoldable pub needs_growth : Map → Bool
needs_growth m =
    not (is_growing m)
    && (load_factor (m.count + 1) (length m.buckets)
        || too_many_overflow_buckets m.n_overflow (length m.buckets))

-- What follows the search of a bucket: the changed chain is put back, or the table grows and the
-- whole is done again, or the entry is inserted.
unfoldable pub after_search :
    (Map → Option Map) → Map → ℕ → Chain → Slot → Option Chain → Option Map
after_search again m i b new (some c) = some (record m { buckets = set m.buckets i c })
after_search again m i b new none =
    let next = again (hash_grow m) in if needs_growth m then next else insert_entry m i b new

-- The chain that `mapaccessK` searches.
unfoldable pub select_chain : Map → ℕ → Option Chain
select_chain m hash = get_elem? m.buckets (hash % length m.buckets) >>= λ b. elim m.old_buckets [
  | none ↦ some b
  | some old ↦
      get_elem? old (hash % (if m.same_size_grow then length m.buckets else length m.buckets / 2))
      >>= λ oldb. some (if evacuated oldb then b else oldb)
]

module _ (hash_seed : Bytes → ℕ → ℕ) where
  -- The value of a key, if it has one.
  unfoldable pub get : Map → Bytes → Option (Option Counters)
  unfolding select_chain
  get m key =
      if m.count == 0
      then some none
      else let hash = hash_seed key m.seed in
        select_chain m hash >>= λ c. some (find_slot key (top_hash_of hash) c)

  -- From the label `again` on.
  unfoldable pub attempt : ℕ → Entry → Map → Option Map
  unfolding grow_work
  attempt zero e m = none
  attempt (suc fuel) e m =
      let hash = hash_seed e.key m.seed in
      let top = top_hash_of hash in
      (if is_growing m then grow_work hash_seed m (hash % length m.buckets) else some m) >>= λ m₁.
      get_elem? m₁.buckets (hash % length m₁.buckets) >>= λ b.
      after_search (attempt fuel e) m₁ (hash % length m₁.buckets) b
        (record { top_hash = top; key = e.key; val = e.fresh }) (update_slot e.key top e.change b)

  -- One attempt more than the count is enough.
  unfoldable pub set_entry : Entry → Map → Option Map
  unfolding attempt with_buckets
  set_entry e m = attempt (m.count + 3) e (with_buckets m)

  unfoldable pub set_val : Map → Bytes → Counters → Option Map
  unfolding set_entry
  set_val m key val = set_entry (record { key = key; fresh = val; change = λ _. val }) m

  unfoldable pub set_or_update : Map → Bytes → Counters → Option Map
  unfolding set_entry
  set_or_update m key c = set_entry (record { key = key; fresh = c; change = λ v. add v c }) m
