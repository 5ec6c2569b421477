-- ===== src/Hashmap/Merged.antt =====
-- The entries after Merge of pkg/types/hashmap/hashmap.go.
use go_probe.Common.{
  ℕ, ◌≤◌, ◌≡◌, ◌≢◌, ◌⊎◌, refl, sym, ap, ◌∙◌, inl, inr, Bool, true, false, Option, none, some, List,
  [], ◌∷◌, ◌>>=◌, arith, length, if◌then◌else◌, Bool-cases,
}
use go_probe.Common.Bytes.{Bytes}
use go_probe.Types.Counters.{Counters}
use go_probe.Capture.EpHash.{same_bytes, same_bytes_iff}
use go_probe.Capture.FlowLog.Rotate.{joined}
use go_probe.Hashmap.Table.{Map}
use go_probe.Hashmap.Access.{get}
use go_probe.Hashmap.Iterator.{pairs}
use go_probe.Hashmap.Merge.{write_all, merge_map}
use go_probe.Hashmap.Map.{IsValid, Represents}
use go_probe.Hashmap.Scanning.{values, to_list}
use go_probe.Hashmap.Pairs.{pairs-values}
use go_probe.Hashmap.Seeds.{pairs-seed}
use go_probe.Hashmap.Fresh.{add_at, replay, AreShort, write_all-Represents}

-- The counters of a key that is in two maps are added.
abbrev pub combined : Option Counters → Option Counters → Option Counters
combined o none = o
combined o (some c) = some (joined o c)

abbrev join_all : Option Counters → List Counters → Option Counters
join_all o [] = o
join_all o (c ∷ cs) = join_all (some (joined o c)) cs

replay-join_all :
    (f : Bytes → Option Counters) (l : List (Bytes × Counters)) (q : Bytes)
    → replay f l q ≡ join_all (f q) (values q l)
unfolding values
replay-join_all f [] q = refl
replay-join_all f ((key, c) ∷ l) q = elim (Bool-cases (same_bytes q key)) [
  | inl same ↦
      replay-join_all (add_at f key c) l q
      ∙ rw same (
          ap (λ (k : Bytes). join_all (some (joined (f k) c)) (values q l))
            (sym ((same_bytes_iff q key).0 same)))
  | inr other ↦ replay-join_all (add_at f key c) l q ∙ rw other refl
]

join_all-to_list : (o p : Option Counters) → join_all o (to_list p) ≡ combined o p
join_all-to_list o none = refl
join_all-to_list o (some c) = refl

values_here :
    (b : Bool) (c : Counters) (l : List Counters) → b ≡ true → (if b then c ∷ l else l) ≢ []
values_here true c l e h = absurd (omega (arith, ap length h))
values_here false c l e h = absurd (ground arith)

-- A key of the pairs has a value there.
values-AreShort :
    (n : ℕ) (l : List (Bytes × Counters))
    → ((q : Bytes) → values q l ≢ [] → length q ≤ n)
    → AreShort n l
unfolding values
values-AreShort n [] short = tt
values-AreShort n ((key, c) ∷ l) short = (
  short key (values_here (same_bytes key key) c (values key l) ((same_bytes_iff key key).1 refl)),
  values-AreShort n l (λ q v. short q (elim (Bool-cases (same_bytes q key)) [
    | inl same ↦ values_here (same_bytes q key) c (values q l) same
    | inr other ↦ rw other v
  ])),
)

module _ (hash_seed : Bytes → ℕ → ℕ) where
  any_seed :
      (m m₂ : Map)
      → (m.seed ≡ m₂.seed) ⊎ (m₂.old_buckets ≡ none)
      → (fuel : ℕ) → pairs hash_seed fuel m.seed m₂ ≡ pairs hash_seed fuel m₂.seed m₂
  any_seed m m₂ (inl e) fuel = ap (λ (s : ℕ). pairs hash_seed fuel s m₂) e
  any_seed m m₂ (inr settled) fuel = pairs-seed hash_seed m₂ settled m.seed m₂.seed fuel

  -- Merge of another map into a map ends without a panic with any fuel from some amount on, always with
  -- the same map in order, whose answer for each key is that of the first map with the counters of the
  -- second added, if the maps are in order, the keys of the second fit into the key data of the first,
  -- and the second map is not growing or has the seed of the first.
  pub merge_map-combined :
      (m m₂ : Map) (f g : Bytes → Option Counters)
      → IsValid hash_seed m
      → IsValid hash_seed m₂
      → Represents hash_seed m f
      → Represents hash_seed m₂ g
      → ((q : Bytes) → g q ≢ none → length q ≤ m.key_data_len)
      → (m.seed ≡ m₂.seed) ⊎ (m₂.old_buckets ≡ none)
      → (enough : ℕ) × (n : Map) × ((fuel : ℕ)
          → enough ≤ fuel
          → merge_map hash_seed fuel m m₂ ≡ some n)
        × IsValid hash_seed n
        × ((q : Bytes) → get hash_seed n q ≡ some (combined (f q) (g q)))
  unfolding merge_map
  merge_map-combined m m₂ f g v v₂ r r₂ short seeds =
      let (enough, l, run, vals) = pairs-values hash_seed m₂ g v₂ r₂ in
      let are_short =
        values-AreShort m.key_data_len l
          (λ q some_value. short q (λ e. some_value (vals q ∙ ap to_list e))) in
      let (n, wrote, valid, reads) = write_all-Represents hash_seed l m f v r are_short in
      (
        enough,
        n,
        λ fuel le.
            ap (λ (o : Option (List (Bytes × Counters))). o >>= λ x. write_all hash_seed m x)
              (any_seed m m₂ seeds fuel ∙ run fuel le)
            ∙ wrote,
        valid,
        λ q.
            reads q
            ∙ ap some (
                replay-join_all f l q
                ∙ ap (join_all (f q)) (vals q)
                ∙ join_all-to_list (f q) (g q)),
      )
