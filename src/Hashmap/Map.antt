-- ===== src/Hashmap/Map.antt =====
-- The map of pkg/types/hashmap/hashmap.go as its users see it: a finite map from keys to counters.
use native.Mathlib.Nat.{mod-lt}
use go_probe.Common.{
  ℕ, suc, ◌+◌, ◌%◌, ◌≤◌, ◌≡◌, ◌≢◌, ◌⊎◌, refl, sym, ap, ◌∙◌, subst, Bool, true, false, Option,
  Option-cases, none, some, List, [], ◌∷◌, arith, ◌==◌, ==_iff, if◌then◌else◌, length, Bool-cases,
  inl, inr, get_elem?-within,
}
use go_probe.Common.Bytes.{Bytes}
use go_probe.Types.Counters.{Counters}
use go_probe.Hashmap.Slots.{Chain, empty_bucket, top_hash_of, find_slot}
use go_probe.Hashmap.Chains.{find}
use go_probe.Hashmap.Fills.{n_filled, n_filled-Fills, find_slot-Fills, evacuated-Fills}
use go_probe.Hashmap.Sums.{sum_of, le-sum_of}
use go_probe.Hashmap.Table.{Map, with_buckets, made, make_bucket_array}
use go_probe.Hashmap.Access.{Entry, get, set_entry, attempt}
use go_probe.Hashmap.Valid.{ChainAt, IsTable, hash_of, search, old_filled}
use go_probe.Hashmap.Evacuating.{search-growing, search-settled}
use go_probe.Hashmap.Working.{IsGrown-IsOld}
use go_probe.Hashmap.Setting.{put_value, new_keys}
use go_probe.Hashmap.Total.{attempt-Ends}

-- The map is in order once it has its buckets, which the first write makes where there are none.
abbrev pub IsValid : (Bytes → ℕ → ℕ) → Map → Type 0
IsValid hash_seed m = IsTable hash_seed (with_buckets m)

chain_empty :
    (h : Bytes → ℕ) (n i : ℕ) (c : Chain) (key : Bytes)
    → ChainAt h n i c
    → n_filled c ≡ 0
    → find_slot key (top_hash_of (h key)) c ≡ none
unfolding find
chain_empty h n i c key ([], f, a) z = find_slot-Fills h n i f a key
chain_empty h n i c key (s ∷ es, f, a) z = absurd (omega (arith, n_filled-Fills h n i f a))

made_cases : (m : Map) (bs : List Chain) → m.buckets ≡ bs → (made m bs ≡ m) ⊎ (m.buckets ≡ [])
unfolding made
made_cases m [] e = inr e
made_cases m (b ∷ bs) e = inl refl

with_buckets-cases : (m : Map) → (with_buckets m ≡ m) ⊎ (m.buckets ≡ [])
unfolding with_buckets
with_buckets-cases m = made_cases m m.buckets refl

with_buckets_nil : (m : Map) → m.buckets ≡ [] → with_buckets m ≡ made m []
unfolding with_buckets
with_buckets_nil m e = ap (made m) e

made_fields :
    (m : Map) (bs : List Chain)
    → ((made m bs).count ≡ m.count) × ((made m bs).key_data_len ≡ m.key_data_len)
unfolding made
made_fields m [] = (refl, refl)
made_fields m (b ∷ bs) = (refl, refl)

count-with_buckets : (m : Map) → (with_buckets m).count ≡ m.count
unfolding with_buckets
count-with_buckets m = (made_fields m m.buckets).0

key_data_len-with_buckets : (m : Map) → (with_buckets m).key_data_len ≡ m.key_data_len
unfolding with_buckets
key_data_len-with_buckets m = (made_fields m m.buckets).1

module _ (hash_seed : Bytes → ℕ → ℕ) where
  -- A table without entries finds nothing.
  search-empty :
      (m : Map) (key : Bytes)
      → IsTable hash_seed m
      → m.count ≡ 0
      → search hash_seed m key ≡ some none
  search-empty m key t z =
      let hash = hash_of hash_seed m key in
      let (b, at_b) =
        get_elem?-within m.buckets (hash % length m.buckets) (mod-lt hash t.some_buckets) in
      let void =
        chain_empty (hash_of hash_seed m) (length m.buckets) _ b key (t.chains _ b at_b)
          (omega (arith, t.counted, le-sum_of n_filled m.buckets _ b at_b)) in
      elim (Option-cases m.old_buckets) [
        | inl settled ↦ search-settled hash_seed m key b settled at_b ∙ ap some void
        | inr (old, e) ↦
            let grown = IsGrown-IsOld hash_seed old t e in
            let (v, at_v) =
              get_elem?-within old (hash % length old)
                (mod-lt hash (omega (arith, grown.started))) in
            let less : n_filled v ≡ 0 =
              omega (arith, t.counted, ap old_filled e, le-sum_of n_filled old _ v at_v) in
            let read = search-growing hash_seed m old key b v e t.doubling grown.half at_b at_v in
            let chosen =
              λ (x : Bool). some (find_slot key (top_hash_of hash) (if x then b else v)) in
            elim (grown.pending _ v at_v) [
              | inl p ↦ read ∙ ap chosen p.0 ∙ ap some void
              | inr p ↦
                  read
                  ∙ ap chosen (evacuated-Fills (hash_of hash_seed m) (length old) _ p.0.1 p.0.2)
                  ∙ ap some (chain_empty (hash_of hash_seed m) (length old) _ v key p.0 less)
            ]
      ]

  pub get-search :
      (m : Map) (key : Bytes)
      → get hash_seed m key ≡ (if m.count == 0 then some none else search hash_seed m key)
  unfolding get search
  get-search m key = refl

  nil-count : (m : Map) → IsTable hash_seed (made m []) → m.count ≡ 0
  unfolding made make_bucket_array n_filled empty_bucket sum_of
  nil-count m t = elim (Option-cases m.old_buckets) [
    | inl e ↦ omega (arith, t.counted, ap old_filled e)
    | inr (old, e) ↦ absurd (omega (arith, (IsGrown-IsOld hash_seed old t e).half))
  ]

  pub reads_by :
      (m : Map) (key : Bytes) (b : Bool)
      → (m.count == 0) ≡ b
      → get hash_seed m key ≡ (if b then some none else search hash_seed m key)
  reads_by m key b e =
      get-search m key ∙ ap (λ (x : Bool). if x then some none else search hash_seed m key) e

  pub get-zero : (m : Map) (key : Bytes) → m.count ≡ 0 → get hash_seed m key ≡ some none
  get-zero m key z = reads_by m key true ((==_iff m.count 0).1 z)

  -- Get reads what the table holds, also where the map has no buckets yet.
  pub get-with_buckets :
      (m : Map) (key : Bytes)
      → IsValid hash_seed m
      → get hash_seed m key ≡ search hash_seed (with_buckets m) key
  get-with_buckets m key v = elim (Bool-cases (m.count == 0)) [
    | inl z ↦
        reads_by m key true z
        ∙ sym (search-empty (with_buckets m) key v (count-with_buckets m ∙ (==_iff m.count 0).0 z))
    | inr n ↦ elim (with_buckets-cases m) [
      | inl same ↦ reads_by m key false n ∙ ap (λ (k : Map). search hash_seed k key) (sym same)
      | inr nil ↦
          absurd
            (ground (arith, nil-count m (subst (IsTable hash_seed) (with_buckets_nil m nil) v)))
    ]
  ]

  pub set_entry-attempt :
      (e : Entry) (m : Map)
      → set_entry hash_seed e m ≡ attempt hash_seed (suc (m.count + 2)) e (with_buckets m)
  unfolding set_entry
  set_entry-attempt e m =
      let fuel : m.count + 3 ≡ suc (m.count + 2) = omega arith in
      ap (λ (n : ℕ). attempt hash_seed n e (with_buckets m)) fuel

  pub table-valid : (m : Map) → IsTable hash_seed m → with_buckets m ≡ m
  table-valid m t = elim (with_buckets-cases m) [
    | inl same ↦ same
    | inr nil ↦ absurd (omega (arith, t.some_buckets, ap length nil))
  ]

  -- The answers of a map are those of a function.
  abbrev pub Represents : Map → (Bytes → Option Counters) → Type 0
  Represents m f = (key : Bytes) → get hash_seed m key ≡ some (f key)

  -- What a write makes of a map that represents `f`.
  pub record Writes (e : Entry) (f : Bytes → Option Counters) (m n : Map) : Type 0 where
    pub valid : IsValid hash_seed n
    pub here : get hash_seed n e.key ≡ some (some (put_value e (f e.key)))
    pub others : (q : Bytes) → q ≢ e.key → get hash_seed n q ≡ some (f q)
    pub counts : n.count ≡ m.count + new_keys (f e.key)
    pub key_len : m.key_data_len ≤ n.key_data_len

  pub set_entry-Writes :
      (e : Entry) (m : Map) (f : Bytes → Option Counters)
      → IsValid hash_seed m
      → Represents m f
      → length e.key ≤ m.key_data_len
      → (n : Map) × (set_entry hash_seed e m ≡ some n) × Writes e f m n
  set_entry-Writes e m f v r short =
      let w = with_buckets m in
      let (n, run, sets, _) =
        attempt-Ends hash_seed e (m.count + 2) w v (omega (arith, key_data_len-with_buckets m))
          (omega (arith, count-with_buckets m)) in
      let same = table-valid n sets.table in
      let valid = subst (IsTable hash_seed) (sym same) sets.table in
      let before = λ (q : Bytes). sym (get-with_buckets m q v) ∙ r q in
      let after =
        λ (q : Bytes). get-with_buckets n q valid ∙ ap (λ (k : Map). search hash_seed k q) same in
      (
        n,
        set_entry-attempt e m ∙ run,
        record {
          valid = valid;
          here = after e.key ∙ sets.here (f e.key) (before e.key);
          others = λ q d. after q ∙ sets.others q d ∙ before q;
          counts =
              sets.counts (f e.key) (before e.key)
              ∙ ap (λ (c : ℕ). c + new_keys (f e.key)) (count-with_buckets m);
          key_len = omega (arith, sets.key_len, key_data_len-with_buckets m);
        },
      )

-- A map in order with entries has its buckets.
pub count-table :
    (hash_seed : Bytes → ℕ → ℕ) (m : Map) → IsValid hash_seed m → m.count ≢ 0 → with_buckets m ≡ m
count-table hash_seed m v n = elim (with_buckets-cases m) [
  | inl same ↦ same
  | inr nil ↦
      absurd (n (nil-count hash_seed m (subst (IsTable hash_seed) (with_buckets_nil m nil) v)))
]
