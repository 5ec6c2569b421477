-- ===== src/Hashmap/Fresh.antt =====
-- NewHint of pkg/types/hashmap/hashmap.go, and what a run of writes makes of a new map.
use native.Mathlib.Nat.{pow-suc}
use go_probe.Common.{
  ℕ, zero, suc, ◌+◌, ◌*◌, ◌^◌, ◌≤◌, ◌<◌, ◌≡◌, refl, sym, ap, ◌∙◌, subst, false, Option, none, some,
  List, [], ◌∷◌, ◌>>=◌, arith, ◌==◌, ==_iff, if◌then◌else◌, length, Bool-cases, inl, inr, replicate,
  length-replicate,
}
use go_probe.Common.Bytes.{Bytes}
use go_probe.Types.Counters.{Counters}
use go_probe.Capture.EpHash.{same_bytes, same_bytes_iff}
use go_probe.Capture.FlowLog.Rotate.{joined}
use go_probe.Hashmap.Slots.{empty_bucket}
use go_probe.Hashmap.Fills.{n_filled, empty_bucket-Fills}
use go_probe.Hashmap.Sums.{sum_of-replicate}
use go_probe.Hashmap.Writes.{get_elem?-replicate_inv}
use go_probe.Hashmap.Table.{
  Map, with_buckets, made, new_hint, make_bucket_array, n_buckets_for, load_factor, key_data_size,
}
use go_probe.Hashmap.Access.{get}
use go_probe.Hashmap.Valid.{IsTable}
use go_probe.Hashmap.Merge.{write_all}
use go_probe.Hashmap.Updates.{set_or_update-Writes}
use go_probe.Hashmap.Map.{IsValid, Represents, get-zero, table-valid}

-- The doubling stops by its test, and leaves a power of two.
n_buckets_for_lem :
    (fuel hint n k : ℕ)
    → hint ≤ fuel + n
    → 0 < n
    → n ≡ 2 ^ k
    → (load_factor hint (n_buckets_for fuel hint n) ≡ false)
      × (0 < n_buckets_for fuel hint n)
      × ((j : ℕ) × (n_buckets_for fuel hint n ≡ 2 ^ j))
unfolding n_buckets_for load_factor
n_buckets_for_lem zero hint n k l pos e = (ground arith, pos, (k, e))
n_buckets_for_lem (suc fuel) hint n k l pos e = elim (Bool-cases (load_factor hint n)) [
  | inr stop ↦ rw stop (stop, pos, (k, e))
  | inl more ↦ rw more (
      n_buckets_for_lem fuel hint (n * 2) (suc k) (omega arith) (omega arith)
        (omega (arith, e, pow-suc 2 k)))
]

abbrev fresh : ℕ → ℕ → Map
fresh seed n = record {
  count = 0;
  same_size_grow = false;
  n_overflow = 0;
  buckets = replicate n empty_bucket;
  old_buckets = none;
  key_data_len = key_data_size;
  key_data_pos = 0;
  n_evacuate = 0;
  seed = seed;
}

module _ (hash_seed : Bytes → ℕ → ℕ) (seed : ℕ) where
  fresh-IsTable : (n k : ℕ) → 0 < n → n ≡ 2 ^ k → IsTable hash_seed (fresh seed n)
  unfolding empty_bucket n_filled
  fresh-IsTable n k pos e = record {
    some_buckets = omega (arith, length-replicate n empty_bucket);
    power = (k, length-replicate n empty_bucket ∙ e);
    doubling = refl;
    chains =
        λ i c at. rw (get_elem?-replicate_inv n i empty_bucket c at) ([], empty_bucket-Fills, tt);
    growth = tt;
    counted = omega (arith, sum_of-replicate n_filled n empty_bucket);
    overflow =
        omega (arith, length-replicate n empty_bucket, sum_of-replicate length n empty_bucket);
    key_room = omega arith;
  }

  new_hint_zero : with_buckets (new_hint seed 0) ≡ fresh seed 1
  unfolding new_hint with_buckets made make_bucket_array
  new_hint_zero = refl

  new_hint_fresh :
      (hint : ℕ) → (hint == 0) ≡ false → new_hint seed hint ≡ fresh seed (n_buckets_for hint hint 1)
  unfolding new_hint make_bucket_array
  new_hint_fresh hint e = rw e

  pub new_hint-IsValid : (hint : ℕ) → IsValid hash_seed (new_hint seed hint)
  new_hint-IsValid hint = elim (Bool-cases (hint == 0)) [
    | inl z ↦
        subst (λ (h : ℕ). IsValid hash_seed (new_hint seed h)) (sym ((==_iff hint 0).0 z))
          (subst (IsTable hash_seed) (sym new_hint_zero) (fresh-IsTable 1 0 (omega arith) refl))
    | inr n ↦
        let (_, pos, (j, e)) = n_buckets_for_lem hint hint 1 0 (omega arith) (omega arith) refl in
        let t = fresh-IsTable (n_buckets_for hint hint 1) j pos e in
        subst (IsValid hash_seed) (sym (new_hint_fresh hint n)) (
          subst (IsTable hash_seed)
            (sym (table-valid hash_seed (fresh seed (n_buckets_for hint hint 1)) t)) t)
  ]

  pub new_hint_fields :
      (hint : ℕ)
      → ((new_hint seed hint).count ≡ 0) × ((new_hint seed hint).key_data_len ≡ key_data_size)
  unfolding new_hint
  new_hint_fields hint = (refl, refl)

  pub new_hint-Represents : (hint : ℕ) → Represents hash_seed (new_hint seed hint) (λ _. none)
  new_hint-Represents hint key =
      get-zero hash_seed (new_hint seed hint) key (new_hint_fields hint).0

-- The writes of a loop on a function.
abbrev pub add_at : (Bytes → Option Counters) → Bytes → Counters → Bytes → Option Counters
add_at f key c q = if same_bytes q key then some (joined (f key) c) else f q

abbrev pub replay : (Bytes → Option Counters) → List (Bytes × Counters) → Bytes → Option Counters
replay f [] = f
replay f ((key, c) ∷ writes) = replay (add_at f key c) writes

-- No key is longer than the key data of a new map.
abbrev pub AreShort : ℕ → List (Bytes × Counters) → Type 0
AreShort n [] = Unit {0}
AreShort n ((key, c) ∷ writes) = (length key ≤ n) × AreShort n writes

pub AreShort-le :
    (n k : ℕ) (writes : List (Bytes × Counters)) → n ≤ k → AreShort n writes → AreShort k writes
AreShort-le n k [] l s = tt
AreShort-le n k ((key, c) ∷ writes) l s = (omega (arith, s.0), AreShort-le n k writes l s.1)

module _ (hash_seed : Bytes → ℕ → ℕ) where
  pub write_all-Represents :
      (writes : List (Bytes × Counters)) (m : Map) (f : Bytes → Option Counters)
      → IsValid hash_seed m
      → Represents hash_seed m f
      → AreShort m.key_data_len writes
      → (n : Map) × (write_all hash_seed m writes ≡ some n)
        × IsValid hash_seed n
        × Represents hash_seed n (replay f writes)
  unfolding write_all
  write_all-Represents [] m f v r s = (m, refl, v, r)
  write_all-Represents ((key, c) ∷ writes) m f v r s =
      let (n, run, valid, here, others, _, len) =
        set_or_update-Writes hash_seed m f key c v r s.0 in
      let reads : Represents hash_seed n (add_at f key c) = λ q.
        elim (Bool-cases (same_bytes q key)) [
          | inl same ↦ rw same (ap (get hash_seed n) ((same_bytes_iff q key).0 same) ∙ here)
          | inr other ↦ rw other (others q (ground (arith, same_bytes_iff q key)))
        ] in
      let (k, run₁, valid₁, reads₁) =
        write_all-Represents writes n (add_at f key c) valid reads
          (AreShort-le m.key_data_len n.key_data_len writes len s.1) in
      (
        k,
        ap (λ (o : Option Map). o >>= λ l. write_all hash_seed l writes) run ∙ run₁,
        valid₁,
        reads₁,
      )

  -- A new map, whatever the size hint, takes any run of SetOrUpdate with keys of at most 65,536 bytes
  -- without a panic, and its answers afterwards are those of a function that the same writes changed.
  pub new_hint-write_all :
      (seed hint : ℕ) (writes : List (Bytes × Counters))
      → AreShort 65536 writes
      → (n : Map) × (write_all hash_seed (new_hint seed hint) writes ≡ some n)
        × IsValid hash_seed n
        × ((key : Bytes) → get hash_seed n key ≡ some (replay (λ _. none) writes key))
  new_hint-write_all seed hint writes s =
      write_all-Represents writes (new_hint seed hint) (λ _. none)
        (new_hint-IsValid hash_seed seed hint) (new_hint-Represents hash_seed seed hint)
        (AreShort-le 65536 (new_hint seed hint).key_data_len writes
          (omega (arith, (new_hint_fields hash_seed seed hint).1)) s)
