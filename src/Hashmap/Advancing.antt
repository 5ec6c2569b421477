-- ===== src/Hashmap/Advancing.antt =====
-- What the growing of pkg/types/hashmap/hashmap.go leaves as it was, and the mark that it advances.
use native.Mathlib.Nat.{mod-lt}
use go_probe.Common.{
  ℕ, suc, zero, ◌+◌, ◌-◌, ◌%◌, ◌≤◌, ◌<◌, ◌≡◌, refl, sym, ap, ◌∙◌, subst, Bool, true, false, Option,
  none, some, List, arith, ◌==◌, ==_iff, if◌then◌else◌, ltb, ltb→lt, length, get_elem?, min,
  Bool-cases, inl, inr, get_elem?-within,
}
use go_probe.Common.Bytes.{Bytes}
use go_probe.Hashmap.Slots.{Chain, evacuated, find_slot, top_hash_of}
use go_probe.Hashmap.Fills.{n_filled, evacuated-Fills}
use go_probe.Hashmap.Sums.{sum_of-zero}
use go_probe.Hashmap.Writes.{get_elem?-lt}
use go_probe.Hashmap.Table.{Map}
use go_probe.Hashmap.Growth.{pass_evacuated, finish_growth, advance_evacuation_mark}
use go_probe.Hashmap.Access.{select_chain}
use go_probe.Hashmap.Valid.{IsOld, IsGrown, IsTable, hash_of, search, old_filled}
use go_probe.Hashmap.Evacuating.{search-growing, search-settled}

-- The old bucket has been evacuated, or the table is not growing.
abbrev pub IsEvacuated : Map → ℕ → Type 0
IsEvacuated m i =
    (old : List Chain) (c : Chain)
    → m.old_buckets ≡ some old
    → get_elem? old i ≡ some c
    → evacuated c ≡ true

pub record Keeps (hash_seed : Bytes → ℕ → ℕ) (m n : Map) : Type 0 where
  pub table : IsTable hash_seed n
  pub seed : n.seed ≡ m.seed
  pub count : n.count ≡ m.count
  pub width : length n.buckets ≡ length m.buckets
  pub reads : (key : Bytes) → search hash_seed n key ≡ search hash_seed m key
  pub key_len : n.key_data_len ≡ m.key_data_len
  pub key_pos : n.key_data_pos ≡ m.key_data_pos
  pub stays : (i : ℕ) → IsEvacuated m i → IsEvacuated n i
  pub forward : m.n_evacuate ≤ n.n_evacuate
  pub settles : m.old_buckets ≡ none → n.old_buckets ≡ none

module _ {hash_seed : Bytes → ℕ → ℕ} where
  pub Keeps-refl : {m : Map} → IsTable hash_seed m → Keeps hash_seed m m
  Keeps-refl t = record {
    table = t;
    seed = refl;
    count = refl;
    width = refl;
    reads = λ key. refl;
    key_len = refl;
    key_pos = refl;
    stays = λ i e. e;
    forward = omega arith;
    settles = λ e. e;
  }

  pub Keeps-trans : {m n k : Map} → Keeps hash_seed m n → Keeps hash_seed n k → Keeps hash_seed m k
  Keeps-trans a b = record {
    table = b.table;
    seed = b.seed ∙ a.seed;
    count = b.count ∙ a.count;
    width = b.width ∙ a.width;
    reads = λ key. b.reads key ∙ a.reads key;
    key_len = b.key_len ∙ a.key_len;
    key_pos = b.key_pos ∙ a.key_pos;
    stays = λ i e. b.stays i (a.stays i e);
    forward = omega (arith, a.forward, b.forward);
    settles = λ e. b.settles (a.settles e);
  }

-- The loop ends at a place up to which all old buckets have been evacuated.
pass_evacuated_lem :
    (fuel : ℕ) (old : List Chain) (n : ℕ)
    → n + fuel ≤ length old
    → (k : ℕ) × (pass_evacuated fuel old n ≡ some k)
      × (n ≤ k)
      × (k ≤ length old)
      × ((j : ℕ) (c : Chain) → n ≤ j → j < k → get_elem? old j ≡ some c → evacuated c ≡ true)
unfolding pass_evacuated
pass_evacuated_lem zero old n l =
    (n, refl, omega arith, omega arith, λ j c p q e. absurd (omega arith))
pass_evacuated_lem (suc fuel) old n l =
    let (b, at) = get_elem?-within old n (omega arith) in
    elim (Bool-cases (evacuated b)) [
      | inr e ↦ rw (at, e) (n, refl, omega arith, omega arith, λ j c p q g. absurd (omega arith))
      | inl e ↦
          let (k, run, low, high, all) = pass_evacuated_lem fuel old (n + 1) (omega arith) in
          rw (at, e)
            (
              k,
              run,
              omega arith,
              high,
              λ j c p q g. elim (Bool-cases (j == n)) [
                | inl same ↦
                    let here : some b ≡ some c =
                      sym at ∙ ap (get_elem? old) (sym ((==_iff j n).0 same)) ∙ g in
                    cc
                | inr other ↦ all j c (ground arith) q g
              ],
            )
    ]

module _ {hash_seed : Bytes → ℕ → ℕ} {m : Map} (t : IsTable hash_seed m) (old : List Chain)
    (is_old : m.old_buckets ≡ some old) (grown : IsOld hash_seed m old) where
  -- An evacuated chain holds no entry any more.
  evacuated-n_filled :
      (i : ℕ) (c : Chain) → get_elem? old i ≡ some c → evacuated c ≡ true → n_filled c ≡ 0
  evacuated-n_filled i c at e = elim (grown.pending i c at) [
    | inl p ↦ p.1
    | inr p ↦ absurd (cc (evacuated-Fills (hash_of hash_seed m) (length old) i p.0.1 p.0.2))
  ]

  module _ (all : (i : ℕ) (c : Chain) → get_elem? old i ≡ some c → evacuated c ≡ true) where
    abbrev settled : Map
    settled = record m { n_evacuate = length old; old_buckets = none; same_size_grow = false }

    settled-IsTable : IsTable hash_seed settled
    settled-IsTable = record {
      some_buckets = t.some_buckets;
      power = t.power;
      doubling = refl;
      chains = t.chains;
      growth = tt;
      counted = omega (
        arith,
        t.counted,
        ap old_filled is_old,
        sum_of-zero n_filled old (λ i c e. evacuated-n_filled i c e (all i c e)),
      );
      overflow = t.overflow;
      key_room = t.key_room;
    }

    -- With every old bucket evacuated, each search reads the table already.
    settled-search : (key : Bytes) → search hash_seed settled key ≡ search hash_seed m key
    settled-search key =
        let hash = hash_of hash_seed m key in
        let pos : 0 < length old = omega (arith, grown.started) in
        let (e, at_e) = get_elem?-within old (hash % length old) (mod-lt hash pos) in
        let (c, at_c) =
          get_elem?-within m.buckets (hash % length m.buckets) (mod-lt hash t.some_buckets) in
        search-settled hash_seed settled key c refl at_c
        ∙ ap (λ (b : Bool). some (find_slot key (top_hash_of hash) (if b then c else e)))
            (sym (all _ e at_e))
        ∙ sym (search-growing hash_seed m old key c e is_old t.doubling grown.half at_c at_e)

    pub settled-Keeps : Keeps hash_seed m settled
    settled-Keeps = record {
      table = settled-IsTable;
      seed = refl;
      count = refl;
      width = refl;
      reads = settled-search;
      key_len = refl;
      key_pos = refl;
      stays = λ i e old₁ c g. absurd cc;
      forward = omega (arith, grown.started);
      settles = λ e. refl;
    }

  module _ (n : ℕ) (onward : m.n_evacuate < n) (below : n < length old)
      (all : (i : ℕ) (c : Chain) → i < n → get_elem? old i ≡ some c → evacuated c ≡ true) where
    abbrev advanced : Map
    advanced = record m { n_evacuate = n }

    pub advanced-Keeps : Keeps hash_seed m advanced
    unfolding search select_chain
    advanced-Keeps = record {
      table = record {
        some_buckets = t.some_buckets;
        power = t.power;
        doubling = t.doubling;
        chains = t.chains;
        growth =
            subst (IsGrown hash_seed advanced) (sym is_old) (record {
              half = grown.half;
              started = below;
              passed = all;
              pending = grown.pending;
            });
        counted = t.counted;
        overflow = t.overflow;
        key_room = t.key_room;
      };
      seed = refl;
      count = refl;
      width = refl;
      reads = λ key. refl;
      key_len = refl;
      key_pos = refl;
      stays = λ i e. e;
      forward = omega arith;
      settles = λ e. e;
    }

  -- The mark moves on, and the growth ends where it reaches the last old bucket.
  abbrev pub Advances : Option Map → Type 0
  Advances r = (n : Map) × (r ≡ some n) × Keeps hash_seed m n × (m.n_evacuate < n.n_evacuate)

  finish_growth-Keeps :
      (n : ℕ)
      → m.n_evacuate < n
      → n ≤ length old
      → ((i : ℕ) (c : Chain) → i < n → get_elem? old i ≡ some c → evacuated c ≡ true)
      → Keeps hash_seed m (finish_growth m (length old) n)
        × (m.n_evacuate < (finish_growth m (length old) n).n_evacuate)
  unfolding finish_growth
  finish_growth-Keeps n l k all = elim (Bool-cases (n == length old)) [
    | inl e ↦
        let last = (==_iff n (length old)).0 e in
        let whole : Keeps hash_seed m
            (record m { n_evacuate = n; old_buckets = none; same_size_grow = false }) =
          subst
            (λ (k : ℕ).
              Keeps hash_seed m
                (record m { n_evacuate = k; old_buckets = none; same_size_grow = false }))
            (sym last)
            (settled-Keeps (λ i c at. all i c (omega (arith, get_elem?-lt old i c at)) at)) in
        rw e (whole, l)
    | inr e ↦ rw e (advanced-Keeps n l (ground arith) all, l)
  ]

  pub advance_evacuation_mark-Advances :
      IsEvacuated m m.n_evacuate → Advances (advance_evacuation_mark m old)
  unfolding advance_evacuation_mark
  advance_evacuation_mark-Advances here =
      let (k, run, low, high, all) =
        pass_evacuated_lem (min (m.n_evacuate + 1 + 1024) (length old) - (m.n_evacuate + 1)) old
          (m.n_evacuate + 1) (omega (arith, grown.started)) in
      let (keeps, progress) = finish_growth-Keeps k (omega arith) high (λ i c l at.
        elim (Bool-cases (i == m.n_evacuate)) [
          | inl e ↦ here old c is_old (ap (get_elem? old) (sym ((==_iff i m.n_evacuate).0 e)) ∙ at)
          | inr e ↦ elim (Bool-cases (ltb i m.n_evacuate)) [
            | inl b ↦ grown.passed i c (ltb→lt i m.n_evacuate b) at
            | inr b ↦ all i c (ground arith) l at
          ]
        ]) in
      (finish_growth m (length old) k, rw run, keeps, progress)
