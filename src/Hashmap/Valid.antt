-- ===== src/Hashmap/Valid.antt =====
-- The invariant of `Map` of pkg/types/hashmap/hashmap.go.
use go_probe.Common.{
  ℕ, ◌+◌, ◌*◌, ◌^◌, ◌≤◌, ◌<◌, ◌≡◌, ◌⊎◌, true, false, Option, none, some, List, ◌>>=◌, length,
  get_elem?,
}
use go_probe.Common.Bytes.{Bytes}
use go_probe.Types.Counters.{Counters}
use go_probe.Hashmap.Slots.{Chain, empty_bucket, evacuated, find_slot, top_hash_of}
use go_probe.Hashmap.Chains.{AreEntries}
use go_probe.Hashmap.Fills.{Fills, n_filled}
use go_probe.Hashmap.Sums.{sum_of}
use go_probe.Hashmap.Table.{Map}
use go_probe.Hashmap.Access.{select_chain}

abbrev pub old_filled : Option (List Chain) → ℕ
old_filled none = 0
old_filled (some old) = sum_of n_filled old

-- The chain at place `i` of `n` is a bucket in order.
abbrev pub ChainAt : (Bytes → ℕ) → ℕ → ℕ → Chain → Type 0
ChainAt h n i c = (es : Chain) × Fills es c × AreEntries h n i es

module _ (hash_seed : Bytes → ℕ → ℕ) where
  abbrev pub hash_of : Map → Bytes → ℕ
  hash_of m key = hash_seed key m.seed

  -- An old bucket has been evacuated, or it is in order and the places of its two halves are fresh.
  abbrev pub OldAt : Map → List Chain → ℕ → Chain → Type 0
  OldAt m old i c =
      ((evacuated c ≡ true) × (n_filled c ≡ 0))
      ⊎ (ChainAt (hash_of m) (length old) i c
          × (get_elem? m.buckets i ≡ some empty_bucket)
          × (get_elem? m.buckets (i + length old) ≡ some empty_bucket))

  pub record IsOld (m : Map) (old : List Chain) : Type 0 where
    pub half : length m.buckets ≡ length old * 2
    pub started : m.n_evacuate < length old
    pub passed :
        (i : ℕ) (c : Chain) → i < m.n_evacuate → get_elem? old i ≡ some c → evacuated c ≡ true
    pub pending : (i : ℕ) (c : Chain) → get_elem? old i ≡ some c → OldAt m old i c

  abbrev pub IsGrown : Map → Option (List Chain) → Type 0
  IsGrown m none = Unit {0}
  IsGrown m (some old) = IsOld m old

  -- A table that has its buckets.
  pub record IsTable (m : Map) : Type 0 where
    pub some_buckets : 0 < length m.buckets
    pub power : (k : ℕ) × (length m.buckets ≡ 2 ^ k)
    pub doubling : m.same_size_grow ≡ false
    pub chains :
        (i : ℕ) (c : Chain)
        → get_elem? m.buckets i ≡ some c
        → ChainAt (hash_of m) (length m.buckets) i c
    pub growth : IsGrown m m.old_buckets
    pub counted : m.count ≡ sum_of n_filled m.buckets + old_filled m.old_buckets
    pub overflow : 8 * m.n_overflow + 8 * length m.buckets ≡ sum_of length m.buckets
    pub key_room : m.key_data_pos ≤ m.key_data_len

  -- The search of `mapaccessK` behind its first guard.
  unfoldable pub search : Map → Bytes → Option (Option Counters)
  search m key =
      select_chain m (hash_of m key) >>= λ c. some (find_slot key (top_hash_of (hash_of m key)) c)
