-- ===== src/Hashmap/Growth.antt =====
-- Growing of `Map` of pkg/types/hashmap/hashmap.go: an old bucket is evacuated to one or two new ones.
-- The hash function is a parameter; `none` is a panic.
use go_probe.Common.{
  ℕ, suc, zero, ◌+◌, ◌-◌, ◌/◌, ◌%◌, Bool, false, not, ◌&&◌, Option, none, some, List, [], ◌∷◌, ltb,
  ◌==◌, if◌then◌else◌, ◌>>=◌, length, get_elem?, set, min, take, ◌++◌,
}
use go_probe.Common.Bytes.{Bytes}
use go_probe.Hashmap.Slots.{
  Slot, Chain, empty_bucket, bucket_cnt, is_empty, evacuated, evacuated_x, evacuated_y,
  evacuated_empty, min_top_hash,
}
use go_probe.Hashmap.Table.{Map, is_growing}

-- A destination of `evacuate`: the chain, the number of slots in front of the next one to be written,
-- and the overflow buckets that were added.
pub record EvacDst : Type 0 where
  pub chain : Chain
  pub pos : ℕ
  pub added : ℕ

unfoldable pub new_dst : Chain → EvacDst
new_dst c = record { chain = c; pos = 0; added = 0 }

-- A full bucket gets an overflow bucket, which replaces what stood behind it.
unfoldable pub with_space : EvacDst → EvacDst
with_space d =
    if ltb 0 d.pos && d.pos % bucket_cnt == 0
    then record d { chain = take d.pos d.chain ++ empty_bucket; added = d.added + 1 }
    else d

unfoldable pub put_slot : Slot → EvacDst → EvacDst
unfolding with_space
put_slot s d = let e = with_space d in record e { chain = set e.chain e.pos s; pos = e.pos + 1 }

abbrev pub mark : ℕ → Slot → Slot
mark top s = record s { top_hash = top }

-- From the place of `nEvacuate` on, at most the fuel many evacuated buckets are passed over.
unfoldable pub pass_evacuated : ℕ → List Chain → ℕ → Option ℕ
pass_evacuated zero old n = some n
pass_evacuated (suc fuel) old n = get_elem? old n >>= λ b.
    let later = pass_evacuated fuel old (n + 1) in if evacuated b then later else some n

-- The state after the mark has come to `n`.
unfoldable pub finish_growth : Map → ℕ → ℕ → Map
finish_growth m new_bit n =
    if n == new_bit
    then record m { n_evacuate = n; old_buckets = none; same_size_grow = false }
    else record m { n_evacuate = n }

unfoldable pub advance_evacuation_mark : Map → List Chain → Option Map
advance_evacuation_mark m old =
    let n = m.n_evacuate + 1 in
    let stop = min (n + 1024) (length old) in
    pass_evacuated (stop - n) old n >>= λ n₁. some (finish_growth m (length old) n₁)

-- m.buckets[oldBucket+newBit], which is used where the table grows to twice its size only.
unfoldable pub second_half : Map → ℕ → Option Chain
second_half m i = if m.same_size_grow then some [] else get_elem? m.buckets i

unfoldable pub moved : Map → List Chain → ℕ → Chain × EvacDst × EvacDst → Map
moved m old i r =
    let low = set m.buckets i r.1.chain in
    record m {
      n_overflow = m.n_overflow + r.1.added + r.2.added;
      buckets = if m.same_size_grow then low else set low (i + length old) r.2.chain;
      old_buckets = some (set old i r.0);
    }

-- The mark is advanced over the old buckets as they are now.
unfoldable pub after_evacuation : ℕ → Map → Option Map
after_evacuation i m =
    m.old_buckets >>= λ old. if i == m.n_evacuate then advance_evacuation_mark m old else some m

module _ (hash_seed : Bytes → ℕ → ℕ) where
  -- The half of the larger table that an entry moves to.
  unfoldable pub uses_y : Map → ℕ → Bytes → Bool
  uses_y m new_bit key = not m.same_size_grow && (hash_seed key m.seed / new_bit) % 2 == 1

  -- The mark that an evacuated slot gets; a mark that is there already panics.
  unfoldable pub mark_of : Map → ℕ → Slot → Option ℕ
  unfolding uses_y
  mark_of m new_bit s =
      if is_empty s.top_hash
      then some evacuated_empty
      else if ltb s.top_hash min_top_hash
      then none
      else if uses_y m new_bit s.key
      then some evacuated_y
      else some evacuated_x

  -- The loop over a chain: the marked chain and the two destinations.
  unfoldable pub move_slots :
      Map → ℕ → Chain → EvacDst → EvacDst → Option (Chain × EvacDst × EvacDst)
  unfolding mark_of
  move_slots m new_bit [] x y = some ([], x, y)
  move_slots m new_bit (s ∷ rest) x y = mark_of m new_bit s >>= λ top.
      move_slots m new_bit rest (if top == evacuated_x then put_slot s x else x)
        (if top == evacuated_y then put_slot s y else y)
      >>= λ r. some (mark top s ∷ r.0, r.1, r.2)

  unfoldable pub evacuate_bucket : Map → List Chain → ℕ → Chain → Option Map
  unfolding second_half moved
  evacuate_bucket m old i b = get_elem? m.buckets i >>= λ x. second_half m (i + length old) >>= λ y.
      move_slots m (length old) b (new_dst x) (new_dst y) >>= λ r. some (moved m old i r)

  unfoldable pub evacuate : Map → ℕ → Option Map
  unfolding evacuate_bucket after_evacuation
  evacuate m i = m.old_buckets >>= λ old. get_elem? old i >>= λ b.
      (if evacuated b then some m else evacuate_bucket m old i b) >>= after_evacuation i

  unfoldable pub grow_work : Map → ℕ → Option Map
  grow_work m i = m.old_buckets >>= λ old. evacuate m (i % length old) >>= λ m₁.
      if is_growing m₁ then evacuate m₁ m₁.n_evacuate else some m₁
