-- ===== src/Hashmap/Doubling.antt =====
-- hashGrow of pkg/types/hashmap/hashmap.go: the table always grows to twice its size.
use native.Mathlib.Nat.{mod-lt, pow-suc}
use go_probe.Common.{
  ℕ, suc, ◌+◌, ◌*◌, ◌%◌, ◌≤◌, ◌≡◌, refl, sym, ap, ◌∙◌, Bool, true, false, Option-cases, none, some,
  [], arith, if◌then◌else◌, length, Bool-cases, inl, inr, get_elem?-within, replicate,
  length-replicate,
}
use go_probe.Common.Bytes.{Bytes}
use go_probe.Hashmap.Slots.{empty_bucket, find_slot, top_hash_of}
use go_probe.Hashmap.Fills.{
  n_filled, n_filled-Fills, length-Fills, evacuated-Fills, empty_bucket-Fills,
}
use go_probe.Hashmap.Sums.{sum_of-le, sum_of-replicate}
use go_probe.Hashmap.Writes.{get_elem?-lt, get_elem?-replicate, get_elem?-replicate_inv}
use go_probe.Hashmap.Table.{
  Map, hash_grow, load_factor, too_many_overflow_buckets, make_bucket_array,
}
use go_probe.Hashmap.Access.{needs_growth}
use go_probe.Hashmap.Valid.{IsOld, IsTable, hash_of, search, old_filled}
use go_probe.Hashmap.Evacuating.{search-growing, search-settled}
use go_probe.Hashmap.Sharing.{is_growing-some}

module _ {hash_seed : Bytes → ℕ → ℕ} {m : Map} (t : IsTable hash_seed m) where
  -- An overflow bucket stands for eight entries.
  pub n_overflow-count : 8 * m.n_overflow ≤ m.count
  n_overflow-count =
      let bound = sum_of-le length n_filled 8 m.buckets (λ i c e.
        let (es, f, a) = t.chains i c e in
        omega
          (arith, length-Fills f, n_filled-Fills (hash_of hash_seed m) (length m.buckets) i f a)) in
      omega (arith, bound, t.counted, t.overflow)

  pub needs_growth-none : needs_growth m ≡ true → m.old_buckets ≡ none
  unfolding needs_growth
  needs_growth-none e = elim (Option-cases m.old_buckets) [
    | inl n ↦ n
    | inr (old, g) ↦ absurd (ground (arith, is_growing-some hash_seed m old g))
  ]

  -- The number of overflow buckets alone never makes the table grow.
  needs_growth-load_factor :
      needs_growth m ≡ true → load_factor (m.count + 1) (length m.buckets) ≡ true
  unfolding needs_growth load_factor too_many_overflow_buckets
  needs_growth-load_factor e = ground (arith, n_overflow-count, t.some_buckets)

  -- A table with as many buckets as entries does not grow.
  pub needs_growth-width : m.count + 1 ≤ length m.buckets → needs_growth m ≡ false
  unfolding load_factor
  needs_growth-width l = elim (Bool-cases (needs_growth m)) [
    | inr e ↦ e
    | inl e ↦ absurd (ground (arith, needs_growth-load_factor e))
  ]

  module _ (grows : needs_growth m ≡ true) where
    settled : m.old_buckets ≡ none
    settled = needs_growth-none grows

    pub hash_grow-doubles : hash_grow m ≡ record m {
      n_overflow = 0;
      buckets = replicate (length m.buckets * 2) empty_bucket;
      old_buckets = some m.buckets;
      n_evacuate = 0;
    }
    unfolding hash_grow make_bucket_array
    hash_grow-doubles = ground (arith, needs_growth-load_factor grows, t.doubling)

    abbrev pub doubled : Map
    doubled = record m {
      n_overflow = 0;
      buckets = replicate (length m.buckets * 2) empty_bucket;
      old_buckets = some m.buckets;
      n_evacuate = 0;
    }

    pub length-doubled : length doubled.buckets ≡ length m.buckets * 2
    length-doubled = length-replicate (length m.buckets * 2) empty_bucket

    doubled-IsOld : IsOld hash_seed doubled m.buckets
    doubled-IsOld = record {
      half = length-doubled;
      started = t.some_buckets;
      passed = λ i c l e. absurd (omega arith);
      pending = λ i c e.
          let l = get_elem?-lt m.buckets i c e in
          inr (
            t.chains i c e,
            get_elem?-replicate (length m.buckets * 2) i empty_bucket (omega arith),
            get_elem?-replicate (length m.buckets * 2) (i + length m.buckets) empty_bucket
                (omega arith),
          );
    }

    pub doubled-IsTable : IsTable hash_seed doubled
    unfolding empty_bucket n_filled
    doubled-IsTable = record {
      some_buckets = omega (arith, t.some_buckets, length-doubled);
      power = (suc t.power.0, omega (arith, length-doubled, t.power.1, pow-suc 2 t.power.0));
      doubling = t.doubling;
      chains = λ i c e.
          rw (get_elem?-replicate_inv (length m.buckets * 2) i empty_bucket c e)
            ([], empty_bucket-Fills, tt);
      growth = doubled-IsOld;
      counted = omega (
        arith,
        t.counted,
        ap old_filled settled,
        sum_of-replicate n_filled (length m.buckets * 2) empty_bucket,
      );
      overflow =
          omega
            (arith, length-doubled, sum_of-replicate length (length m.buckets * 2) empty_bucket);
      key_room = t.key_room;
    }

    -- Each search reads the old chain as before.
    pub doubled-search : (key : Bytes) → search hash_seed doubled key ≡ search hash_seed m key
    doubled-search key =
        let hash = hash_of hash_seed m key in
        let (b, at_b) =
          get_elem?-within m.buckets (hash % length m.buckets) (mod-lt hash t.some_buckets) in
        let (c, at_c) =
          get_elem?-within doubled.buckets (hash % length doubled.buckets)
            (mod-lt hash (doubled-IsTable.some_buckets)) in
        let (es, f, a) = t.chains _ b at_b in
        search-growing hash_seed doubled m.buckets key c b refl t.doubling length-doubled at_c at_b
        ∙ ap (λ (v : Bool). some (find_slot key (top_hash_of hash) (if v then c else b)))
            (evacuated-Fills (hash_of hash_seed m) (length m.buckets) _ f a)
        ∙ sym (search-settled hash_seed m key b settled at_b)
