-- ===== src/Hashmap/Setting.antt =====
-- Set and SetOrUpdate of pkg/types/hashmap/hashmap.go: a write changes the value of its key only.
use native.Mathlib.Decide.{ℕ_discrete}
use go_probe.Common.{
  ℕ, ◌+◌, ◌*◌, ◌%◌, ◌≤◌, ◌≡◌, ◌≢◌, refl, sym, ap, ◌∙◌, Option, none, some, arith, length, get_elem?,
}
use go_probe.Common.Bytes.{Bytes}
use go_probe.Types.Counters.{Counters}
use go_probe.Hashmap.Slots.{Chain}
use go_probe.Hashmap.Chains.{AreEntries, find}
use go_probe.Hashmap.Fills.{Fills, n_filled-Fills, find_slot-Fills}
use go_probe.Hashmap.Table.{Map}
use go_probe.Hashmap.Access.{Entry}
use go_probe.Hashmap.Valid.{IsTable, hash_of, search}
use go_probe.Hashmap.Writing.{
  IsCurrent, written, search-current, next-IsTable, next-search_here, next-search_other,
}

-- The value after a write, and the number of keys that it adds.
abbrev pub put_value : Entry → Option Counters → Counters
put_value e none = e.fresh
put_value e (some v) = e.change v

abbrev pub new_keys : Option Counters → ℕ
new_keys none = 1
new_keys (some v) = 0

pub record Sets (hash_seed : Bytes → ℕ → ℕ) (e : Entry) (m n : Map) : Type 0 where
  pub table : IsTable hash_seed n
  pub seed : n.seed ≡ m.seed
  pub here :
      (old : Option Counters)
      → search hash_seed m e.key ≡ some old
      → search hash_seed n e.key ≡ some (some (put_value e old))
  pub others : (q : Bytes) → q ≢ e.key → search hash_seed n q ≡ search hash_seed m q
  pub counts :
      (old : Option Counters)
      → search hash_seed m e.key ≡ some old
      → n.count ≡ m.count + new_keys old
  pub key_len : m.key_data_len ≤ n.key_data_len

-- A write to a place of the table whose chain is known.
module _ {hash_seed : Bytes → ℕ → ℕ} {m : Map} (t : IsTable hash_seed m) (e : Entry)
    (current : IsCurrent m (hash_of hash_seed m e.key % length m.buckets)) (c es : Chain)
    (at : get_elem? m.buckets (hash_of hash_seed m e.key % length m.buckets) ≡ some c)
    (f : Fills es c)
    (a : AreEntries
      (hash_of hash_seed m)
      (length m.buckets)
      (hash_of hash_seed m e.key % length m.buckets)
      es) where
  abbrev pub p : ℕ
  p = hash_of hash_seed m e.key % length m.buckets

  abbrev pub h : Bytes → ℕ
  h = hash_of hash_seed m

  reads_chain : (q : Bytes) → h q % length m.buckets ≡ p → search hash_seed m q ≡ some (find q es)
  reads_chain q there =
      search-current t p current q c there at
      ∙ ap some (find_slot-Fills h (length m.buckets) p f a q)

  pub reads_key : search hash_seed m e.key ≡ some (find e.key es)
  reads_key = reads_chain e.key refl

  -- The written table reads as it should, where the new entries do.
  module _ (c' es' : Chain) (f' : Fills es' c') (a' : AreEntries h (length m.buckets) p es')
      (count n_overflow key_len key_pos : ℕ)
      (found : find e.key es' ≡ some (put_value e (find e.key es)))
      (kept : (q : Bytes) → q ≢ e.key → find q es' ≡ find q es)
      (counted : count ≡ m.count + new_keys (find e.key es))
      (filled : length es' ≡ length es + new_keys (find e.key es))
      (overflow : 8 * n_overflow + length c ≡ 8 * m.n_overflow + length c')
      (room : key_pos ≤ key_len) (longer : m.key_data_len ≤ key_len) where
    abbrev pub result : Map
    result = written m p c' count n_overflow key_len key_pos

    result-IsTable : IsTable hash_seed result
    result-IsTable =
        next-IsTable t p current c c' at es' f' a' count n_overflow key_len key_pos
          (omega (arith, counted, filled, n_filled-Fills h (length m.buckets) p f a)) overflow room

    result_others : (q : Bytes) → q ≢ e.key → search hash_seed result q ≡ search hash_seed m q
    result_others q n = elim (ℕ_discrete (h q % length m.buckets) p) [
      | yes there ↦
          next-search_here t p current c c' at es' f' a' count n_overflow key_len key_pos
            result-IsTable q there
          ∙ ap some (kept q n)
          ∙ sym (reads_chain q there)
      | no other ↦
          next-search_other t p current c c' at es' f' a' count n_overflow key_len key_pos
            result-IsTable q other
    ]

    pub result-Sets : Sets hash_seed e m result
    result-Sets = record {
      table = result-IsTable;
      seed = refl;
      here = λ old r.
          let same : find e.key es ≡ old = cc reads_key in
          next-search_here t p current c c' at es' f' a' count n_overflow key_len key_pos
            result-IsTable e.key refl
          ∙ ap some (found ∙ ap (λ (o : Option Counters). some (put_value e o)) same);
      others = result_others;
      counts = λ old r.
          let same : find e.key es ≡ old = cc reads_key in
          counted ∙ ap (λ (o : Option Counters). m.count + new_keys o) same;
      key_len = longer;
    }
