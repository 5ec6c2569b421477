-- ===== src/Hashmap/Total.antt =====
-- Set and SetOrUpdate of pkg/types/hashmap/hashmap.go end, and do what they should.
use native.Mathlib.Nat.{mod-lt}
use go_probe.Common.{
  ℕ, zero, suc, ◌+◌, ◌%◌, ◌≤◌, ◌<◌, ◌≡◌, ◌⊎◌, List, length-set, refl, sym, ap, ◌∙◌, Bool, true,
  false, Option, Option-cases, none, some, ◌>>=◌, arith, if◌then◌else◌, length, get_elem?, set,
  Bool-cases, inl, inr, get_elem?-within,
}
use go_probe.Common.Bytes.{Bytes}
use go_probe.Hashmap.Slots.{Slot, Chain, top_hash_of, update_slot, insert_slot}
use go_probe.Hashmap.Chains.{find}
use go_probe.Hashmap.Fills.{update_slot-Fills_absent}
use go_probe.Hashmap.Table.{Map, is_growing, hash_grow}
use go_probe.Hashmap.Growth.{grow_work}
use go_probe.Hashmap.Access.{Entry, attempt, after_search, insert_entry, inserted, needs_growth}
use go_probe.Hashmap.Valid.{IsTable, hash_of, search}
use go_probe.Hashmap.Advancing.{Keeps, Keeps-refl}
use go_probe.Hashmap.Working.{IsGrown-IsOld}
use go_probe.Hashmap.Sharing.{is_growing-some, is_growing-none, grow_work-Works}
use go_probe.Hashmap.Writing.{IsCurrent}
use go_probe.Hashmap.Doubling.{
  needs_growth-none, needs_growth-width, hash_grow-doubles, doubled, doubled-IsTable,
  doubled-search, length-doubled,
}
use go_probe.Hashmap.Setting.{Sets}
use go_probe.Hashmap.Attempts.{update-Sets, insert-Sets, insert_entry-inserted}

-- What a write does for the growth of a table: it ends it, or a larger table has begun to grow since it
-- ended, or the mark is further on.
abbrev pub Progress : Map → Map → Type 0
Progress m n =
    (length m.buckets ≤ length n.buckets)
    × ((old : List Chain)
        → m.old_buckets ≡ some old
        → (n.old_buckets ≡ none)
          ⊎ ((length m.buckets < length n.buckets)
              ⊎ ((length n.buckets ≡ length m.buckets) × (m.n_evacuate < n.n_evacuate))))

module _ (hash_seed : Bytes → ℕ → ℕ) (e : Entry) where
  -- A write to a table that reads as another one is a write to that one.
  Sets-from :
      {m n k : Map}
      → n.seed ≡ m.seed
      → n.count ≡ m.count
      → n.key_data_len ≡ m.key_data_len
      → ((q : Bytes) → search hash_seed n q ≡ search hash_seed m q)
      → Sets hash_seed e n k
      → Sets hash_seed e m k
  Sets-from seed count len reads s = record {
    table = s.table;
    seed = s.seed ∙ seed;
    here = λ old r. s.here old (reads e.key ∙ r);
    others = λ q n. s.others q n ∙ reads q;
    counts = λ old r. omega (arith, s.counts old (reads e.key ∙ r), count);
    key_len = omega (arith, s.key_len, len);
  }

  abbrev new_slot : ℕ → Slot
  new_slot hash = record { top_hash = top_hash_of hash; key = e.key; val = e.fresh }

  -- What an attempt does behind its share of the growing.
  abbrev proceed : ℕ → Map → ℕ → Option Map
  proceed fuel n hash = get_elem? n.buckets (hash % length n.buckets) >>= λ b.
      after_search (attempt hash_seed fuel e) n (hash % length n.buckets) b (new_slot hash)
        (update_slot e.key (top_hash_of hash) e.change b)

  abbrev share : Map → Option Map
  share m =
      if is_growing m
      then grow_work hash_seed m (hash_of hash_seed m e.key % length m.buckets)
      else some m

  attempt-proceed :
      (fuel : ℕ) (m n : Map)
      → share m ≡ some n
      → n.seed ≡ m.seed
      → attempt hash_seed (suc fuel) e m ≡ proceed fuel n (hash_of hash_seed n e.key)
  unfolding attempt
  attempt-proceed fuel m n run seed =
      ap (λ (o : Option Map). o >>= λ k. proceed fuel k (hash_of hash_seed m e.key)) run
      ∙ ap (λ (s : ℕ). proceed fuel n (hash_seed e.key s)) (sym seed)

  IsCurrent-settled : (m : Map) (p : ℕ) → m.old_buckets ≡ none → IsCurrent m p
  IsCurrent-settled m p settled old c g at = cc

  -- A share of the growing ends it or brings it on.
  abbrev Shares : Map → Map → Type 0
  Shares m n =
      (old : List Chain)
      → m.old_buckets ≡ some old
      → (n.old_buckets ≡ none) ⊎ (m.n_evacuate < n.n_evacuate)

  -- Behind its share a write leaves the growing as it is, or makes a settled table grow to a larger one.
  abbrev Stays : Map → Map → Type 0
  Stays m n =
      ((n.old_buckets ≡ m.old_buckets)
        × (n.n_evacuate ≡ m.n_evacuate)
        × (length n.buckets ≡ length m.buckets))
      ⊎ ((m.old_buckets ≡ none) × (length m.buckets < length n.buckets))

  Progress-from :
      (m n k : Map) → length n.buckets ≡ length m.buckets → Shares m n → Stays n k → Progress m k
  Progress-from m n k width shares (inl (old, mark, same)) = (
    omega arith,
    λ o g. elim (shares o g) [
      | inl settled ↦ inl (old ∙ settled)
      | inr further ↦ inr (inr (omega arith, omega arith))
    ],
  )
  Progress-from m n k width shares (inr (settled, wide)) =
      (omega arith, λ o g. inr (inl (omega arith)))

  share-Keeps :
      (m : Map)
      → IsTable hash_seed m
      → (n : Map) × (share m ≡ some n)
        × Keeps hash_seed m n
        × IsCurrent n (hash_of hash_seed n e.key % length n.buckets)
        × Shares m n
  share-Keeps m t = elim (Option-cases m.old_buckets) [
    | inl settled ↦ (
      m,
      ap
          (λ (b : Bool).
            if b
            then grow_work hash_seed m (hash_of hash_seed m e.key % length m.buckets)
            else some m)
          (is_growing-none hash_seed m settled),
      Keeps-refl t,
      IsCurrent-settled m _ settled,
      λ old g. absurd cc,
    )
    | inr (old, g) ↦
        let (n, run, keeps, done, further) =
          grow_work-Works hash_seed m old (hash_of hash_seed m e.key % length m.buckets) t g in
        (
          n,
          ap
                (λ (b : Bool).
                  if b
                  then grow_work hash_seed m (hash_of hash_seed m e.key % length m.buckets)
                  else some m)
                (is_growing-some hash_seed m old g)
              ∙ run,
          keeps,
          λ old₁ c g₁ at.
              let half = (IsGrown-IsOld hash_seed old t g).half in
              let half₁ = (IsGrown-IsOld hash_seed old₁ keeps.table g₁).half in
              let wide : length old₁ ≡ length old = omega (arith, keeps.width) in
              let place : hash_of hash_seed n e.key % length n.buckets
                  ≡ hash_of hash_seed m e.key % length m.buckets =
                ap (λ (s : ℕ). hash_seed e.key s % length n.buckets) keeps.seed
                ∙ ap (λ (w : ℕ). hash_of hash_seed m e.key % w) keeps.width in
              let index =
                ap (λ (x : ℕ). x % length old₁) place
                ∙ ap (λ (w : ℕ). hash_of hash_seed m e.key % length m.buckets % w) wide in
              done old₁ c g₁ (ap (get_elem? old₁) (sym index) ∙ at),
          λ old₁ g₁. further,
        )
  ]

  abbrev Widens : Map → Map → Type 0
  Widens m n = length m.buckets < length n.buckets

  abbrev Ends : (Map → Map → Type 0) → Map → Option Map → Type 0
  Ends Goes m r = (n : Map) × (r ≡ some n) × Sets hash_seed e m n × Goes m n

  after_search-insert :
      (again : Map → Option Map) (m : Map) (i : ℕ) (b : Chain) (new : Slot)
      → needs_growth m ≡ false
      → after_search again m i b new none ≡ insert_entry m i b new
  unfolding after_search
  after_search-insert again m i b new g =
      ap (λ (v : Bool). if v then again (hash_grow m) else insert_entry m i b new) g

  after_search-grow :
      (again : Map → Option Map) (m : Map) (i : ℕ) (b : Chain) (new : Slot)
      → needs_growth m ≡ true
      → after_search again m i b new none ≡ again (hash_grow m)
  unfolding after_search
  after_search-grow again m i b new g =
      ap (λ (v : Bool). if v then again (hash_grow m) else insert_entry m i b new) g

  after_search-found :
      (again : Map → Option Map) (m : Map) (i : ℕ) (b c : Chain) (new : Slot)
      → after_search again m i b new (some c) ≡ some (record m { buckets = set m.buckets i c })
  unfolding after_search
  after_search-found again m i b c new = refl

  proceed-Ends :
      (fuel : ℕ) (m : Map)
      → (t : IsTable hash_seed m) → IsCurrent m (hash_of hash_seed m e.key % length m.buckets)
      → length e.key ≤ m.key_data_len
      → ((needs_growth m ≡ true) → Ends Widens m (attempt hash_seed fuel e (hash_grow m)))
      → Ends Stays m (proceed fuel m (hash_of hash_seed m e.key))
  unfolding inserted
  proceed-Ends fuel m t current short again =
      let h = hash_of hash_seed m in
      let place : ℕ = h e.key % length m.buckets in
      let (c, at) = get_elem?-within m.buckets place (mod-lt (h e.key) t.some_buckets) in
      let (es, f, a) = t.chains place c at in
      let then_search = λ (o : Option Chain).
        after_search (attempt hash_seed fuel e) m place c (new_slot (h e.key)) o in
      let start =
        ap
          (λ (o : Option Chain). o >>= λ b.
            after_search (attempt hash_seed fuel e) m place b (new_slot (h e.key))
              (update_slot e.key (top_hash_of (h e.key)) e.change b))
          at in
      elim (Option-cases (find e.key es)) [
        | inr (v, old) ↦
            let (c', run, sets) = update-Sets t e current c es at f a v old in
            (
              record m { buckets = set m.buckets place c' },
              start
                  ∙ ap then_search run
                  ∙ after_search-found (attempt hash_seed fuel e) m place c c' (new_slot (h e.key)),
              sets,
              inl (refl, refl, length-set m.buckets place c'),
            )
        | inl absent ↦
            let missing =
              start
              ∙ ap then_search
                  (update_slot-Fills_absent h (length m.buckets) place f a e.key e.change absent) in
            elim (Bool-cases (needs_growth m)) [
              | inl g ↦
                  let (n, run, sets, wide) = again g in
                  (
                    n,
                    missing
                        ∙ after_search-grow (attempt hash_seed fuel e) m place c
                            (new_slot (h e.key)) g
                        ∙ run,
                    sets,
                    inr (needs_growth-none t g, wide),
                  )
              | inr g ↦ (
                inserted m place (length e.key) (insert_slot (new_slot (h e.key)) c),
                missing
                    ∙ after_search-insert (attempt hash_seed fuel e) m place c (new_slot (h e.key))
                        g
                    ∙ insert_entry-inserted t e current c es at f a absent short,
                insert-Sets t e current c es at f a absent short,
                inl (refl, refl, length-set m.buckets place _),
              )
            ]
      ]

  -- As many attempts suffice as the buckets fall short of the entries.
  pub attempt-Ends :
      (fuel : ℕ) (m : Map)
      → IsTable hash_seed m
      → length e.key ≤ m.key_data_len
      → m.count + 1 ≤ fuel + length m.buckets
      → Ends Progress m (attempt hash_seed (suc fuel) e m)
  attempt-Ends zero m t short enough =
      let (n, run, keeps, current, shares) = share-Keeps m t in
      let (k, last, sets, stays) =
        proceed-Ends zero n keeps.table current (omega (arith, keeps.key_len)) (λ g.
          absurd (cc (needs_growth-width keeps.table (omega (arith, keeps.count, keeps.width))))) in
      (
        k,
        attempt-proceed zero m n run keeps.seed ∙ last,
        Sets-from keeps.seed keeps.count keeps.key_len keeps.reads sets,
        Progress-from m n k keeps.width shares stays,
      )
  attempt-Ends (suc fuel) m t short enough =
      let (n, run, keeps, current, shares) = share-Keeps m t in
      let (k, last, sets, stays) =
        proceed-Ends (suc fuel) n keeps.table current (omega (arith, keeps.key_len)) (λ g.
          let u = keeps.table in
          let (l, run₁, sets₁, progress) =
            attempt-Ends fuel (doubled u g) (doubled-IsTable u g) (omega (arith, keeps.key_len))
              (omega (arith, length-doubled u g, u.some_buckets, keeps.count, keeps.width)) in
          (
            l,
            ap (attempt hash_seed (suc fuel) e) (hash_grow-doubles u g) ∙ run₁,
            Sets-from refl refl refl (doubled-search u g) sets₁,
            omega (arith, progress.0, length-doubled u g, u.some_buckets),
          )) in
      (
        k,
        attempt-proceed (suc fuel) m n run keeps.seed ∙ last,
        Sets-from keeps.seed keeps.count keeps.key_len keeps.reads sets,
        Progress-from m n k keeps.width shares stays,
      )
