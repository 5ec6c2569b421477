-- ===== src/Hashmap/Nexts.antt =====
-- Next of pkg/types/hashmap/iterator.go: from entry to entry, and once around the table.
use go_probe.Common.{
  ℕ, zero, suc, ◌+◌, ◌%◌, ◌≤◌, ◌<◌, ◌≡◌, ◌⊎◌, refl, sym, ap, ◌∙◌, subst, inl, inr, Bool, true,
  false, ◌&&◌, Option, none, some, List, [], ◌∷◌, ◌++◌, arith, ◌==◌, if◌then◌else◌, ◌>>=◌, length,
  replicate, Bool-cases,
}
use go_probe.Common.Bytes.{Bytes}
use go_probe.Types.Counters.{Counters, zero_counters}
use go_probe.Capture.EpHash.{same_bytes}
use go_probe.Hashmap.Slots.{Slot, Chain, empty_slot}
use go_probe.Hashmap.Table.{Map}
use go_probe.Hashmap.Valid.{IsTable, hash_of, search}
use go_probe.Hashmap.Iterator.{Iter, Found, open_bucket, move_on, next_from, after_scan, scan_slots}
use go_probe.Hashmap.Scanning.{AreFilled, shown, values, to_list, scan_slots-Scanned}
use go_probe.Hashmap.Opening.{open_bucket-Opens}
use go_probe.Hashmap.Round.{succ, visits}

module _ (hash_seed : Bytes → ℕ → ℕ) (m : Map) (t : IsTable hash_seed m)
    (f : Bytes → Option Counters) (reads : (q : Bytes) → search hash_seed m q ≡ some (f q)) where
  abbrev pub n : ℕ
  n = length m.buckets

  -- An iterator with the entries `es` of its chain and `k` places in front of it.
  pub record IsTurn (it : Iter) (es : Chain) (k : ℕ) : Type 0 where
    pub free : ℕ
    pub rest : it.rest ≡ es ++ replicate free empty_slot
    pub filled : AreFilled es
    pub same_buckets : it.buckets ≡ m.buckets
    pub start : it.start_bucket < n
    pub inside : it.bucket < n
    pub left :
        ((it.wrapped ≡ true) × (it.bucket + k ≡ it.start_bucket))
        ⊎ ((it.wrapped ≡ false)
            × (it.start_bucket ≤ it.bucket)
            × (it.bucket + k ≡ n + it.start_bucket))

  -- The values of a key that are still to come.
  abbrev pub to_come : Iter → Chain → ℕ → Bytes → List Counters
  to_come it es k q =
      values q (shown hash_seed m it.check_bucket es)
      ++ visits n (hash_of hash_seed m q % n) (to_list (f q)) it.bucket k

  -- Next ends the round, or gives one entry and leaves the others to come.
  abbrev pub Advanced : Chain → ℕ → (Bytes → List Counters) → Option (Iter × Bool) → Type 0
  Advanced es k come o =
      ((it : Iter) × (o ≡ some (it, false)) × ((q : Bytes) → come q ≡ []))
      ⊎ ((it : Iter) × (fs : Chain) × (l : ℕ) × (o ≡ some (it, true))
          × IsTurn it fs l
          × ((l < k) ⊎ ((l ≡ k) × (length fs < length es)))
          × ((q : Bytes)
              → come q
                ≡ (if same_bytes q it.key then it.val ∷ to_come it fs l q else to_come it fs l q)))

  -- The place that is opened next.
  moved_on :
      (it : Iter) (es fs : Chain) (k free : ℕ) (check : Option ℕ)
      → IsTurn it es (suc k)
      → AreFilled fs
      → IsTurn (move_on it (fs ++ replicate free empty_slot) check) fs k
        × ((move_on it (fs ++ replicate free empty_slot) check).bucket ≡ succ n it.bucket)
        × ((move_on it (fs ++ replicate free empty_slot) check).check_bucket ≡ check)
  unfolding move_on
  moved_on it es fs k free check s a =
      let wide : length it.buckets ≡ n = ap length s.same_buckets in
      elim (Bool-cases (it.bucket + 1 == n)) [
        | inl e ↦
            let at : (it.bucket + 1 == length it.buckets) ≡ true =
              ap (λ (w : ℕ). it.bucket + 1 == w) wide ∙ e in
            rw (at, e)
              (
                record {
                  free = free;
                  rest = refl;
                  filled = a;
                  same_buckets = s.same_buckets;
                  start = s.start;
                  inside = omega (arith, s.start);
                  left = inl (refl, ground (arith, s.left, s.start));
                },
                refl,
                refl,
              )
        | inr e ↦
            let at : (it.bucket + 1 == length it.buckets) ≡ false =
              ap (λ (w : ℕ). it.bucket + 1 == w) wide ∙ e in
            rw (at, e)
              (
                record {
                  free = free;
                  rest = refl;
                  filled = a;
                  same_buckets = s.same_buckets;
                  start = s.start;
                  inside = ground (arith, s.inside);
                  left = elim s.left [
                    | inl p ↦ inl (p.0, omega arith)
                    | inr p ↦ inr (p.0, omega arith, omega arith)
                  ];
                },
                refl,
                refl,
              )
      ]

  abbrev scan : Iter → Chain → Option (Option Found)
  scan it c = scan_slots hash_seed m.seed m it.check_bucket c

  ends_here :
      (again : Iter → Option (Iter × Bool)) (it : Iter)
      → (it.bucket == it.start_bucket && it.wrapped) ≡ true
      → after_scan hash_seed again m it none
        ≡ some (record it { key = []; val = zero_counters }, false)
  unfolding after_scan
  ends_here again it e =
      ap
        (λ (b : Bool).
          if b
          then some (record it { key = []; val = zero_counters }, false)
          else (open_bucket m it >>= again))
        e

  goes_on :
      (again : Iter → Option (Iter × Bool)) (it : Iter)
      → (it.bucket == it.start_bucket && it.wrapped) ≡ false
      → after_scan hash_seed again m it none ≡ (open_bucket m it >>= again)
  unfolding after_scan
  goes_on again it e =
      ap
        (λ (b : Bool).
          if b
          then some (record it { key = []; val = zero_counters }, false)
          else (open_bucket m it >>= again))
        e

  stops_at :
      (again : Iter → Option (Iter × Bool)) (it : Iter) (x : Found)
      → after_scan hash_seed again m it (some x)
        ≡ some (record it { key = x.found_key; val = x.found_val; rest = x.behind }, true)
  unfolding after_scan
  stops_at again it x = refl

  next_from-scan :
      (fuel : ℕ) (it : Iter) (es : Chain) (k : ℕ) (s : IsTurn it es k) (o : Option Found)
      → scan it (es ++ replicate s.free empty_slot) ≡ some o
      → next_from hash_seed (suc fuel) m.seed m it
        ≡ after_scan hash_seed (next_from hash_seed fuel m.seed m) m it o
  unfolding next_from
  next_from-scan fuel it es k s o e =
      ap
        (λ (r : Option (Option Found)).
          r >>= after_scan hash_seed (next_from hash_seed fuel m.seed m) m it)
        (ap (scan it) s.rest ∙ e)

  -- One shown entry more.
  values-front :
      (q : Bytes) (e : Slot) (l : List (Bytes × Counters)) (x : List Counters)
      → values q ((e.key, e.val) ∷ l) ++ x
        ≡ (if same_bytes q e.key then e.val ∷ (values q l ++ x) else values q l ++ x)
  unfolding values
  values-front q e l x = elim (Bool-cases (same_bytes q e.key)) [ inl b ↦ rw b | inr b ↦ rw b ]

  found_here :
      (again : Iter → Option (Iter × Bool)) (it : Iter) (es fs : Chain) (k : ℕ) (s : IsTurn it es k)
      (e : Slot)
      → AreFilled fs
      → length fs < length es
      → shown hash_seed m it.check_bucket es ≡ (e.key, e.val) ∷ shown hash_seed m it.check_bucket fs
      → Advanced es k (to_come it es k) (
          after_scan hash_seed again m it (
            some (record {
              found_key = e.key;
              found_val = e.val;
              behind = fs ++ replicate s.free empty_slot;
            })))
  found_here again it es fs k s e a l shows = inr (
    record it { key = e.key; val = e.val; rest = fs ++ replicate s.free empty_slot },
    fs,
    k,
    stops_at again it _,
    record {
      free = s.free;
      rest = refl;
      filled = a;
      same_buckets = s.same_buckets;
      start = s.start;
      inside = s.inside;
      left = s.left;
    },
    inr (refl, l),
    λ q.
        ap
          (λ (l : List (Bytes × Counters)).
            values q l ++ visits n (hash_of hash_seed m q % n) (to_list (f q)) it.bucket k)
          shows
        ∙ values-front q e (shown hash_seed m it.check_bucket fs) _,
  )

  nothing_shown :
      (it : Iter) (es : Chain) (k : ℕ) (q : Bytes)
      → shown hash_seed m it.check_bucket es ≡ []
      → to_come it es k q ≡ visits n (hash_of hash_seed m q % n) (to_list (f q)) it.bucket k
  unfolding values
  nothing_shown it es k q e =
      ap
        (λ (l : List (Bytes × Counters)).
          values q l ++ visits n (hash_of hash_seed m q % n) (to_list (f q)) it.bucket k)
        e

  -- Where a chain shows nothing more, the round ends or the next place is opened.
  next_place :
      (again : Iter → Option (Iter × Bool)) (k : ℕ) (it : Iter) (es : Chain)
      → IsTurn it es k
      → shown hash_seed m it.check_bucket es ≡ []
      → ((j : ℕ) (it' : Iter) (fs : Chain)
          → IsTurn it' fs j
          → j < k
          → Advanced fs j (to_come it' fs j) (again it'))
      → Advanced es k (to_come it es k) (after_scan hash_seed again m it none)
  unfolding visits
  next_place again zero it es s shows ih =
      let done : (it.bucket == it.start_bucket && it.wrapped) ≡ true =
        ground (arith, s.left, s.inside) in
      inl (_, ends_here again it done, λ q. nothing_shown it es 0 q shows)
  next_place again (suc k) it es s shows ih =
      let more : (it.bucket == it.start_bucket && it.wrapped) ≡ false =
        ground (arith, s.left, s.inside) in
      let (fs, free, check, run, a, opened) =
        open_bucket-Opens hash_seed m t f reads it s.same_buckets s.inside in
      let it' = move_on it (fs ++ replicate free empty_slot) check in
      let (u, bucket, checked) = moved_on it es fs k free check s a in
      let start = goes_on again it more ∙ ap (λ (o : Option Iter). o >>= again) run in
      let same = λ (q : Bytes).
        nothing_shown it es (suc k) q shows
        ∙ ap
            (λ (x : List Counters).
              x ++ visits n (hash_of hash_seed m q % n) (to_list (f q)) (succ n it.bucket) k)
            (sym (opened q))
        ∙ ap
            (λ (c : Option ℕ).
              values q (shown hash_seed m c fs)
              ++ visits n (hash_of hash_seed m q % n) (to_list (f q)) (succ n it.bucket) k)
            (sym checked)
        ∙ ap
            (λ (b : ℕ).
              values q (shown hash_seed m it'.check_bucket fs)
              ++ visits n (hash_of hash_seed m q % n) (to_list (f q)) b k)
            (sym bucket) in
      elim (ih k it' fs u (omega arith)) [
        | inl (last, e, nothing) ↦ inl (last, start ∙ e, λ q. same q ∙ nothing q)
        | inr (later, gs, j, e, v, less, come) ↦ inr (
          later,
          gs,
          j,
          start ∙ e,
          v,
          inl (elim less [ inl p ↦ omega arith | inr p ↦ omega arith ]),
          λ q. same q ∙ come q,
        )
      ]

  pub next_from-Advanced :
      (fuel k : ℕ) (it : Iter) (es : Chain)
      → IsTurn it es k
      → k < fuel
      → Advanced es k (to_come it es k) (next_from hash_seed fuel m.seed m it)
  next_from-Advanced zero k it es s l = absurd (omega arith)
  next_from-Advanced (suc fuel) k it es s l =
      elim (scan_slots-Scanned hash_seed m it.check_bucket es s.free s.filled) [
        | inr (e, fs, a, lf, shows, run) ↦
            subst (Advanced es k (to_come it es k)) (sym (next_from-scan fuel it es k s _ run))
              (found_here (next_from hash_seed fuel m.seed m) it es fs k s e a lf shows)
        | inl (shows, run) ↦
            subst (Advanced es k (to_come it es k)) (sym (next_from-scan fuel it es k s none run)) (
              next_place (next_from hash_seed fuel m.seed m) k it es s shows
                (λ j it' fs u b. next_from-Advanced fuel j it' fs u (omega arith)))
      ]
