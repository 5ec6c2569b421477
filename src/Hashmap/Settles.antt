-- ===== src/Hashmap/Settles.antt =====
-- The growth of a map of pkg/types/hashmap/hashmap.go comes to its end.
use go_probe.Common.{
  ℕ, suc, ◌+◌, ◌≤◌, ◌<◌, ◌≡◌, ◌⊎◌, refl, ap, ◌∙◌, Option, Option-cases, none, some, List, [], ◌∷◌,
  ◌++◌, ◌>>=◌, arith, length, inl, inr,
}
use go_probe.Common.Bytes.{Bytes}
use go_probe.Types.Counters.{Counters, add}
use go_probe.Hashmap.Slots.{Chain}
use go_probe.Hashmap.Table.{Map}
use go_probe.Hashmap.Access.{Entry, set_or_update, attempt}
use go_probe.Hashmap.Valid.{IsTable}
use go_probe.Hashmap.Working.{IsGrown-IsOld}
use go_probe.Hashmap.Total.{Progress, attempt-Ends}
use go_probe.Hashmap.Map.{table-valid, set_entry-attempt}
use go_probe.Hashmap.Updates.{set_or_update-entry}
use go_probe.Hashmap.Merge.{write_all}
use go_probe.Hashmap.Fresh.{AreShort, AreShort-le}

module _ (hash_seed : Bytes → ℕ → ℕ) where
  set_or_update-Progress :
      (m : Map) (key : Bytes) (c : Counters)
      → IsTable hash_seed m
      → length key ≤ m.key_data_len
      → (n : Map) × (set_or_update hash_seed m key c ≡ some n)
        × IsTable hash_seed n
        × (m.key_data_len ≤ n.key_data_len)
        × Progress m n
  set_or_update-Progress m key c t short =
      let e : Entry = record { key = key; fresh = c; change = λ v. add v c } in
      let (n, run, sets, progress) =
        attempt-Ends hash_seed e (m.count + 2) m t short (omega arith) in
      (
        n,
        set_or_update-entry hash_seed m key c
            ∙ set_entry-attempt hash_seed e m
            ∙ ap (attempt hash_seed (suc (m.count + 2)) e) (table-valid hash_seed m t)
            ∙ run,
        sets.table,
        sets.key_len,
        progress,
      )

  -- A growing table of which at most as many old buckets remain in front of the mark as there are
  -- writes, with keys that are no longer than the key data: some of the writes, from the first one on,
  -- end the growth, whatever keys they are for. None of them panics, and the table that they leave is in
  -- order, and is either not growing or already a larger one, which has begun to grow since.
  pub write_all-Settles :
      (writes : List (Bytes × Counters)) (m : Map) (old : List Chain)
      → IsTable hash_seed m
      → m.old_buckets ≡ some old
      → AreShort m.key_data_len writes
      → length old ≤ m.n_evacuate + length writes
      → (done : List (Bytes × Counters)) × (left : List (Bytes × Counters)) × (n : Map) × (writes
          ≡ done ++ left)
        × (write_all hash_seed m done ≡ some n)
        × IsTable hash_seed n
        × ((n.old_buckets ≡ none) ⊎ (length m.buckets < length n.buckets))
  unfolding write_all
  write_all-Settles [] m old t e s l =
      absurd (omega (arith, (IsGrown-IsOld hash_seed old t e).started))
  write_all-Settles ((key, c) ∷ writes) m old t e (short, s) l =
      let (n, run, table, len, progress) = set_or_update-Progress m key c t short in
      let start = λ (ws : List (Bytes × Counters)).
        ap (λ (o : Option Map). o >>= λ k. write_all hash_seed k ws) run in
      elim (progress.1 old e) [
        | inl settled ↦ ((key, c) ∷ [], writes, n, refl, start [], table, inl settled)
        | inr (inl wide) ↦ ((key, c) ∷ [], writes, n, refl, start [], table, inr wide)
        | inr (inr (same, further)) ↦ elim (Option-cases n.old_buckets) [
          | inl settled ↦ ((key, c) ∷ [], writes, n, refl, start [], table, inl settled)
          | inr (old₁, e₁) ↦
              let half = (IsGrown-IsOld hash_seed old t e).half in
              let half₁ = (IsGrown-IsOld hash_seed old₁ table e₁).half in
              let (done, left, k, whole, runs, table₁, ended) =
                write_all-Settles writes n old₁ table e₁
                  (AreShort-le m.key_data_len n.key_data_len writes len s) (omega arith) in
              (
                (key, c) ∷ done,
                left,
                k,
                ap (λ (ws : List (Bytes × Counters)). (key, c) ∷ ws) whole,
                start done ∙ runs,
                table₁,
                elim ended [ inl settled ↦ inl settled | inr wide ↦ inr (omega arith) ],
              )
        ]
      ]
