-- ===== src/Hashmap/Working.antt =====
-- evacuate of pkg/types/hashmap/hashmap.go as a whole.
use go_probe.Common.{
  ℕ, ◌+◌, ◌<◌, ◌≡◌, ◌⊎◌, refl, sym, ap, ◌∙◌, subst, Bool, true, false, Option, some, List, ◌>>=◌,
  arith, ◌==◌, ==_iff, if◌then◌else◌, length, get_elem?, set, Bool-cases, inl, inr,
  get_elem?-within, replicate, length-append, length-replicate,
}
use go_probe.Common.Bytes.{Bytes}
use go_probe.Hashmap.Slots.{Chain, empty_slot, empty_bucket, evacuated}
use go_probe.Hashmap.Writes.{get_elem?-set_cases}
use go_probe.Hashmap.Table.{Map}
use go_probe.Hashmap.Growth.{
  evacuate, evacuate_bucket, after_evacuation, moved, second_half, advance_evacuation_mark, EvacDst,
  new_dst, move_slots,
}
use go_probe.Hashmap.Valid.{IsOld, IsGrown, IsTable}
use go_probe.Hashmap.Evacuating.{IsWaiting, moves, low, high, moved-IsTable, length-buckets}
use go_probe.Hashmap.Moving.{Split}
use go_probe.Hashmap.Kept.{moved-search}
use go_probe.Hashmap.Advancing.{
  IsEvacuated, Keeps, Keeps-refl, Keeps-trans, advance_evacuation_mark-Advances,
}

after_evacuation-here :
    (m : Map) (old : List Chain) (i : ℕ)
    → m.old_buckets ≡ some old
    → (i == m.n_evacuate) ≡ true
    → after_evacuation i m ≡ advance_evacuation_mark m old
unfolding after_evacuation
after_evacuation-here m old i e same = simp (e, same)

after_evacuation-elsewhere :
    (m : Map) (old : List Chain) (i : ℕ)
    → m.old_buckets ≡ some old
    → (i == m.n_evacuate) ≡ false
    → after_evacuation i m ≡ some m
unfolding after_evacuation
after_evacuation-elsewhere m old i e other = simp (e, other)

module _ (hash_seed : Bytes → ℕ → ℕ) where
  pub IsGrown-IsOld :
      {m : Map} (old : List Chain)
      → IsTable hash_seed m
      → m.old_buckets ≡ some old
      → IsOld hash_seed m old
  IsGrown-IsOld {m} old t e = subst (IsGrown hash_seed m) e t.growth

  -- One old bucket is evacuated, and the mark moves on where it points to that bucket.
  abbrev pub Evacuates : Map → ℕ → Option Map → Type 0
  Evacuates m i r =
      (n : Map) × (r ≡ some n)
      × Keeps hash_seed m n
      × IsEvacuated n i
      × (i ≡ m.n_evacuate → m.n_evacuate < n.n_evacuate)

  after_evacuation-Evacuates :
      (m : Map) (old : List Chain) (i : ℕ)
      → IsTable hash_seed m
      → m.old_buckets ≡ some old
      → IsEvacuated m i
      → Evacuates m i (after_evacuation i m)
  after_evacuation-Evacuates m old i t e done = elim (Bool-cases (i == m.n_evacuate)) [
    | inr other ↦ (
      m,
      after_evacuation-elsewhere m old i e other,
      Keeps-refl t,
      done,
      λ same. absurd (ground arith),
    )
    | inl same ↦
        let here : i ≡ m.n_evacuate = (==_iff i m.n_evacuate).0 same in
        let (n, run, keeps, progress) =
          advance_evacuation_mark-Advances t old e (IsGrown-IsOld old t e)
            (subst (IsEvacuated m) here done) in
        (n, after_evacuation-here m old i e same ∙ run, keeps, keeps.stays i done, λ _. progress)
  ]

-- The move of one waiting bucket.
module _ {hash_seed : Bytes → ℕ → ℕ} {m : Map} {old : List Chain} {i : ℕ} {b es : Chain}
    (d : IsWaiting hash_seed m old i b es) where
  second : second_half m (i + length old) ≡ some empty_bucket
  unfolding second_half
  second = rw d.t.doubling d.fresh_high

  evacuate_bucket-moved :
      (r : Chain × EvacDst × EvacDst)
      → move_slots hash_seed m (length old) b (new_dst empty_bucket) (new_dst empty_bucket) ≡ some r
      → evacuate_bucket hash_seed m old i b ≡ some (moved m old i r)
  unfolding evacuate_bucket
  evacuate_bucket-moved r run = simp (d.fresh_low, second, run)

  set-evacuated :
      (v : Chain)
      → evacuated v ≡ true
      → (j : ℕ) → IsEvacuated m j ⊎ (j ≡ i)
      → (c : Chain) → get_elem? (set old i v) j ≡ some c
      → evacuated c ≡ true
  set-evacuated v e j was c at = elim (get_elem?-set_cases old i j v c at) [
    | inl p ↦ rw p.1 e
    | inr p ↦ elim was [ inl w ↦ w old c d.is_old p.1 | inr same ↦ absurd (p.0 same) ]
  ]

  moved-IsEvacuated :
      (r : Chain × EvacDst × EvacDst) (j : ℕ)
      → evacuated r.0 ≡ true
      → IsEvacuated m j ⊎ (j ≡ i)
      → IsEvacuated (moved m old i r) j
  unfolding moved
  moved-IsEvacuated r j e was old₁ c g at =
      let same : set old i r.0 ≡ old₁ = cc in
      set-evacuated r.0 e j was c (ap (λ (l : List Chain). get_elem? l j) same ∙ at)

  moved-Keeps :
      {r : Chain × EvacDst × EvacDst}
      (sp : Split hash_seed m (length old) d.t.doubling (low d) (high d) r)
      → evacuated r.0 ≡ true
      → Keeps hash_seed m (moved m old i r)
  unfolding moved
  moved-Keeps {r} sp marked = record {
    table = moved-IsTable d sp marked;
    seed = refl;
    count = refl;
    width = length-buckets d sp marked ∙ sym d.grown.half;
    reads = moved-search d sp marked;
    key_len = refl;
    key_pos = refl;
    stays = λ j e. moved-IsEvacuated r j marked (inl e);
    forward = omega arith;
    settles = λ e. absurd (cc d.is_old);
  }

  occupied : 0 < length b
  occupied = omega (
    arith,
    ap length d.f.layout,
    d.f.occupied,
    length-append es (replicate d.f.free empty_slot),
    length-replicate d.f.free empty_slot,
  )

  moved-n_evacuate : (r : Chain × EvacDst × EvacDst) → (moved m old i r).n_evacuate ≡ m.n_evacuate
  unfolding moved
  moved-n_evacuate r = refl

  moved-old : (r : Chain × EvacDst × EvacDst) → (moved m old i r).old_buckets ≡ some (set old i r.0)
  unfolding moved
  moved-old r = refl

  pub waiting-Evacuates :
      Evacuates hash_seed m i (evacuate_bucket hash_seed m old i b >>= after_evacuation i)
  waiting-Evacuates =
      let (r, run, sp, mark) = moves d in
      let k = moved-Keeps sp (mark occupied) in
      let (n, run₁, keeps, done, progress) =
        after_evacuation-Evacuates hash_seed (moved m old i r) (set old i r.0) i k.table
          (moved-old r) (moved-IsEvacuated r i (mark occupied) (inr refl)) in
      (
        n,
        ap (λ (q : Option Map). q >>= after_evacuation i) (evacuate_bucket-moved r run) ∙ run₁,
        Keeps-trans k keeps,
        done,
        λ e. omega (arith, progress (omega (arith, moved-n_evacuate r)), moved-n_evacuate r),
      )

module _ (hash_seed : Bytes → ℕ → ℕ) where
  old_eq : (a b : List Chain) → ◌≡◌ {A = Option (List Chain)} (some a) (some b) → a ≡ b
  old_eq a b e = cc

  evacuate-reads :
      (m : Map) (old : List Chain) (i : ℕ) (b : Chain)
      → m.old_buckets ≡ some old
      → get_elem? old i ≡ some b
      → evacuate hash_seed m i ≡ (
          (if evacuated b then some m else evacuate_bucket hash_seed m old i b)
          >>= after_evacuation i)
  unfolding evacuate
  evacuate-reads m old i b e at = simp (e, at)

  after_test :
      {x : Bool} (m : Map) (e : Option Map) (i : ℕ) (v : Bool)
      → x ≡ v
      → ((if x then some m else e) >>= after_evacuation i)
        ≡ ((if v then some m else e) >>= after_evacuation i)
  after_test m e i v p = ap (λ (t : Bool). (if t then some m else e) >>= after_evacuation i) p

  Evacuates-eq :
      {m : Map} {i : ℕ} {q r : Option Map}
      → q ≡ r
      → Evacuates hash_seed m i r
      → Evacuates hash_seed m i q
  Evacuates-eq e (n, run, keeps, done, progress) = (n, e ∙ run, keeps, done, progress)

  -- evacuate succeeds on each old bucket.
  pub evacuate-Evacuates :
      (m : Map) (old : List Chain) (i : ℕ)
      → IsTable hash_seed m
      → m.old_buckets ≡ some old
      → i < length old
      → Evacuates hash_seed m i (evacuate hash_seed m i)
  evacuate-Evacuates m old i t e l =
      let (b, at) = get_elem?-within old i l in
      let read = evacuate-reads m old i b e at in
      elim (Bool-cases (evacuated b)) [
        | inl done ↦ Evacuates-eq (read ∙ after_test m _ i true done) (
            after_evacuation-Evacuates hash_seed m old i t e (λ old₁ c g at₁.
              let same : some b ≡ some c =
                sym at
                ∙ ap (λ (o : List Chain). get_elem? o i) (old_eq old old₁ (sym e ∙ g))
                ∙ at₁ in
              let here : b ≡ c = cc in rw (← here) done))
        | inr live ↦ elim ((IsGrown-IsOld hash_seed old t e).pending i b at) [
          | inl p ↦ absurd cc
          | inr p ↦ Evacuates-eq (read ∙ after_test m _ i false live) (
              waiting-Evacuates {es = p.0.0} (record {
                t = t;
                is_old = e;
                grown = IsGrown-IsOld hash_seed old t e;
                at = at;
                f = p.0.1;
                a = p.0.2;
                fresh_low = p.1;
                fresh_high = p.2;
              }))
        ]
      ]
