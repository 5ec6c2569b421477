-- ===== src/Hashmap/Table.antt =====
-- `Map` of pkg/types/hashmap/hashmap.go. The hash function xxh3.HashSeed is a parameter. The number of
-- buckets is a power of two, so that a mask of its predecessor is a remainder. `none` is a panic: an
-- index out of range, a nil pointer, or the map's own. The memory that `newoverflow` takes an overflow
-- bucket from is not distinguished; the memory of the keys is known by its length and fill.
use go_probe.Common.{
  ℕ, suc, zero, ◌+◌, ◌*◌, ◌/◌, Bool, true, false, not, ◌&&◌, ◌||◌, Option, none, some, List, [],
  ◌∷◌, ltb, leb, ◌==◌, if◌then◌else◌, length, replicate,
}
use go_probe.Hashmap.Slots.{Chain, empty_bucket, bucket_cnt}

abbrev pub load_factor_num : ℕ
load_factor_num = 13

abbrev pub load_factor_den : ℕ
load_factor_den = 2

abbrev pub key_data_size : ℕ
key_data_size = 65536

pub record Map : Type 0 where
  pub count : ℕ
  pub same_size_grow : Bool
  pub n_overflow : ℕ
  pub buckets : List Chain
  pub old_buckets : Option (List Chain)
  pub key_data_len : ℕ
  pub key_data_pos : ℕ
  pub n_evacuate : ℕ
  pub seed : ℕ

unfoldable pub load_factor : ℕ → ℕ → Bool
load_factor count n = ltb bucket_cnt count && ltb (load_factor_num * (n / load_factor_den)) count

unfoldable pub too_many_overflow_buckets : ℕ → ℕ → Bool
too_many_overflow_buckets n_overflow n = leb n n_overflow

unfoldable pub make_bucket_array : ℕ → List Chain
make_bucket_array n = replicate n empty_bucket

-- Doubling from one bucket until the hint fits; each doubling takes one of the fuel.
unfoldable pub n_buckets_for : ℕ → ℕ → ℕ → ℕ
n_buckets_for zero hint n = n
n_buckets_for (suc fuel) hint n =
    let more = n_buckets_for fuel hint (n * 2) in if load_factor hint n then more else n

-- The seed is drawn by the caller of the model.
unfoldable pub new_hint : ℕ → ℕ → Map
new_hint seed hint = record {
  count = 0;
  same_size_grow = false;
  n_overflow = 0;
  buckets = if hint == 0 then [] else make_bucket_array (n_buckets_for hint hint 1);
  old_buckets = none;
  key_data_len = key_data_size;
  key_data_pos = 0;
  n_evacuate = 0;
  seed = seed;
}

-- oldBuckets != nil
unfoldable pub is_some : Option (List Chain) → Bool
is_some none = false
is_some (some old) = true

unfoldable pub is_growing : Map → Bool
unfolding is_some
is_growing m = is_some m.old_buckets

unfoldable pub hash_grow : Map → Map
hash_grow m =
    let fits = not (load_factor (m.count + 1) (length m.buckets)) in
    record m {
      same_size_grow = fits || m.same_size_grow;
      n_overflow = 0;
      buckets = make_bucket_array (if fits then length m.buckets else length m.buckets * 2);
      old_buckets = some m.buckets;
      n_evacuate = 0;
    }

-- The first write makes one bucket where m.buckets == nil.
unfoldable pub made : Map → List Chain → Map
made m [] = record m { buckets = make_bucket_array 1 }
made m (b ∷ bs) = m

unfoldable pub with_buckets : Map → Map
unfolding made
with_buckets m = made m m.buckets
