-- ===== src/Hashmap/Pairs.antt =====
-- A loop over Next of pkg/types/hashmap/iterator.go meets each entry of the map once.
use native.Mathlib.Nat.{mod-lt}
use native.Mathlib.Decide.{ℕ_discrete}
use go_probe.Common.{
  ℕ, zero, suc, ◌+◌, ◌%◌, ◌≤◌, ◌≡◌, ◌≢◌, refl, sym, ap, ◌∙◌, subst, inl, inr, Bool, true, false,
  Option, none, some, List, [], ◌∷◌, arith, ◌==◌, ==_iff, if◌then◌else◌, ◌>>=◌, length, Bool-cases,
}
use go_probe.Common.Bytes.{Bytes}
use go_probe.Types.Counters.{Counters, zero_counters}
use go_probe.Capture.EpHash.{same_bytes}
use go_probe.Hashmap.Slots.{Chain}
use go_probe.Hashmap.Table.{Map}
use go_probe.Hashmap.Valid.{IsTable, hash_of, search}
use go_probe.Hashmap.Map.{IsValid, Represents, get-with_buckets, get-zero, count-table}
use go_probe.Hashmap.Iterator.{Iter, next, pairs_from, pairs, pairs_over}
use go_probe.Hashmap.Scanning.{shown, values, to_list}
use go_probe.Hashmap.Round.{visits-round}
use go_probe.Hashmap.Nexts.{IsTurn, to_come, Advanced, next_from-Advanced}

-- The iterator before its first call.
abbrev pub start : Map → Iter
start m = record {
  key = [];
  val = zero_counters;
  buckets = m.buckets;
  rest = [];
  start_bucket = 1 % length m.buckets;
  wrapped = false;
  bucket = 1 % length m.buckets;
  check_bucket = none;
}

module _ (hash_seed : Bytes → ℕ → ℕ) (m : Map) (t : IsTable hash_seed m)
    (f : Bytes → Option Counters) (reads : (q : Bytes) → search hash_seed m q ≡ some (f q)) where
  abbrev rest_of : ℕ → Iter × Bool → Option (List (Bytes × Counters))
  rest_of fuel r =
      let later = pairs_from hash_seed fuel m.seed m r.0 in
      if r.1 then (later >>= λ l. some ((r.0.key, r.0.val) ∷ l)) else some []

  pairs_from-next :
      (fuel : ℕ) (it : Iter)
      → pairs_from hash_seed (suc fuel) m.seed m it ≡ (next hash_seed m.seed m it >>= rest_of fuel)
  unfolding pairs_from
  pairs_from-next fuel it = refl

  -- With enough fuel, whatever it is, the loop ends with the same pairs.
  abbrev Collects : Iter → (Bytes → List Counters) → Type 0
  Collects it come =
      (enough : ℕ) × (l : List (Bytes × Counters)) × ((fuel : ℕ)
        → enough ≤ fuel
        → pairs_from hash_seed fuel m.seed m it ≡ some l)
      × ((q : Bytes) → values q l ≡ come q)

  pairs_from-Collects_end :
      (it it' : Iter) (come : Bytes → List Counters)
      → next hash_seed m.seed m it ≡ some (it', false)
      → ((q : Bytes) → come q ≡ [])
      → Collects it come
  unfolding values
  pairs_from-Collects_end it it' come e nothing =
      (1, [], λ fuel l. one_round fuel l, λ q. sym (nothing q))
    where
      one_round : (fuel : ℕ) → 1 ≤ fuel → pairs_from hash_seed fuel m.seed m it ≡ some []
      one_round zero l = absurd (omega arith)
      one_round (suc g) l =
          pairs_from-next g it ∙ ap (λ (o : Option (Iter × Bool)). o >>= rest_of g) e

  pairs_from-Collects_more :
      (it it' : Iter) (come rest : Bytes → List Counters)
      → next hash_seed m.seed m it ≡ some (it', true)
      → ((q : Bytes) → come q ≡ (if same_bytes q it'.key then it'.val ∷ rest q else rest q))
      → Collects it' rest
      → Collects it come
  unfolding values
  pairs_from-Collects_more it it' come rest e come_eq (enough, l, run, vals) = (
    suc enough,
    (it'.key, it'.val) ∷ l,
    λ fuel le. more_fuel fuel le,
    λ q.
        ap (λ (x : List Counters). if same_bytes q it'.key then it'.val ∷ x else x) (vals q)
        ∙ sym (come_eq q),
  )
    where
      more_fuel :
          (fuel : ℕ)
          → suc enough ≤ fuel
          → pairs_from hash_seed fuel m.seed m it ≡ some ((it'.key, it'.val) ∷ l)
      more_fuel zero le = absurd (omega arith)
      more_fuel (suc g) le =
          pairs_from-next g it
          ∙ ap (λ (o : Option (Iter × Bool)). o >>= rest_of g) e
          ∙ ap (λ (o : Option (List (Bytes × Counters))). o >>= λ x. some ((it'.key, it'.val) ∷ x))
              (run g (omega arith))

  next-Advanced :
      (k : ℕ) (it : Iter) (es : Chain)
      → IsTurn hash_seed m t f reads it es k
      → Advanced hash_seed m t f reads es k
          (to_come hash_seed m t f reads it es k)
          (next hash_seed m.seed m it)
  unfolding next
  next-Advanced k it es s =
      next_from-Advanced hash_seed m t f reads (length it.buckets + 1) k it es s
        (ground (arith, s.left, s.start, s.inside, ap length s.same_buckets))

  pairs_from-Collects :
      (most longest k : ℕ) (it : Iter) (es : Chain)
      → IsTurn hash_seed m t f reads it es k
      → k ≤ most
      → length es ≤ longest
      → Collects it (to_come hash_seed m t f reads it es k)
  pairs_from-Collects zero zero k it es s a b = elim (next-Advanced k it es s) [
    | inl (it', e, nothing) ↦ pairs_from-Collects_end it it' _ e nothing
    | inr (it', fs, j, e, u, less, come) ↦
        absurd (elim less [ inl p ↦ omega arith | inr p ↦ omega arith ])
  ]
  pairs_from-Collects zero (suc longest) k it es s a b = elim (next-Advanced k it es s) [
    | inl (it', e, nothing) ↦ pairs_from-Collects_end it it' _ e nothing
    | inr (it', fs, j, e, u, less, come) ↦
        let below : (j ≤ zero) × (length fs ≤ longest) = elim less [
          | inl p ↦ absurd (omega arith)
          | inr p ↦ omega arith
        ] in
        pairs_from-Collects_more it it' _ _ e come
          (pairs_from-Collects zero longest j it' fs u below.0 below.1)
  ]
  pairs_from-Collects (suc most) zero k it es s a b = elim (next-Advanced k it es s) [
    | inl (it', e, nothing) ↦ pairs_from-Collects_end it it' _ e nothing
    | inr (it', fs, j, e, u, less, come) ↦
        let below : j ≤ most = elim less [ inl p ↦ omega arith | inr p ↦ absurd (omega arith) ] in
        pairs_from-Collects_more it it' _ _ e come
          (pairs_from-Collects most (length fs) j it' fs u below (omega arith))
  ]
  pairs_from-Collects (suc most) (suc longest) k it es s a b = elim (next-Advanced k it es s) [
    | inl (it', e, nothing) ↦ pairs_from-Collects_end it it' _ e nothing
    | inr (it', fs, j, e, u, less, come) ↦ elim less [
      | inl p ↦
          pairs_from-Collects_more it it' _ _ e come
            (pairs_from-Collects most (length fs) j it' fs u (omega arith) (omega arith))
      | inr p ↦
          pairs_from-Collects_more it it' _ _ e come
            (pairs_from-Collects (suc most) longest j it' fs u (omega arith) (omega arith))
    ]
  ]

  abbrev first : Iter
  first = start m

  first-IsTurn : IsTurn hash_seed m t f reads first [] (length m.buckets)
  first-IsTurn =
      let l = mod-lt 1 t.some_buckets in
      record {
        free = 0;
        rest = refl;
        filled = tt;
        same_buckets = refl;
        start = l;
        inside = l;
        left = inr (refl, omega arith, omega arith);
      }

  pub pairs_from-Collects_all : Collects first (λ q. to_list (f q))
  unfolding values shown
  pairs_from-Collects_all =
      let (enough, l, run, vals) =
        pairs_from-Collects (length m.buckets) 0 (length m.buckets) first [] first-IsTurn
          (omega arith) (omega arith) in
      (
        enough,
        l,
        run,
        λ q.
            vals q
            ∙ visits-round (length m.buckets) (hash_of hash_seed m q % length m.buckets)
                (to_list (f q)) (1 % length m.buckets) (mod-lt 1 t.some_buckets)
                (mod-lt (hash_of hash_seed m q) t.some_buckets),
      )

module _ (hash_seed : Bytes → ℕ → ℕ) where
  pairs-first :
      (m : Map) (fuel : ℕ) (t : IsTable hash_seed m) (f : Bytes → Option Counters)
      (reads : (q : Bytes) → search hash_seed m q ≡ some (f q))
      → m.count ≢ 0
      → pairs hash_seed fuel m.seed m
        ≡ pairs_from hash_seed fuel m.seed m (first hash_seed m t f reads)
  unfolding pairs
  pairs-first m fuel t f reads c = elim (Bool-cases (m.count == 0)) [
    | inl z ↦ absurd (c ((==_iff m.count 0).0 z))
    | inr z ↦
        ap
          (λ (b : Bool).
            pairs_over hash_seed fuel m.seed m
              (if b then none else some (first hash_seed m t f reads)))
          z
  ]

  pairs-empty : (m : Map) (fuel : ℕ) → m.count ≡ 0 → pairs hash_seed fuel m.seed m ≡ some []
  unfolding pairs
  pairs-empty m fuel z =
      ap (λ (b : Bool). pairs_over hash_seed fuel m.seed m (if b then none else some (start m)))
        ((==_iff m.count 0).1 z)

  -- A loop over Next on a map in order that represents `f`, also while the map is growing, ends and does
  -- not panic with any fuel from some amount on, always with the same pairs; they have for each key the
  -- value that `f` gives, once, and none where `f` gives none.
  pub pairs-values :
      (m : Map) (f : Bytes → Option Counters)
      → IsValid hash_seed m
      → Represents hash_seed m f
      → (enough : ℕ) × (l : List (Bytes × Counters)) × ((fuel : ℕ)
          → enough ≤ fuel
          → pairs hash_seed fuel m.seed m ≡ some l)
        × ((q : Bytes) → values q l ≡ to_list (f q))
  unfolding values
  pairs-values m f v r = elim (ℕ_discrete m.count 0) [
    | yes z ↦ (
      0,
      [],
      λ fuel l. pairs-empty m fuel z,
      λ q.
          let void : some (f q) ≡ some none = sym (r q) ∙ get-zero hash_seed m q z in
          let nothing : f q ≡ none = cc in ap to_list (sym nothing),
    )
    | no c ↦
        let same = count-table hash_seed m v c in
        let t = subst (IsTable hash_seed) same v in
        let reads = λ (q : Bytes).
          ap (λ (k : Map). search hash_seed k q) (sym same)
          ∙ sym (get-with_buckets hash_seed m q v)
          ∙ r q in
        let (enough, l, run, vals) = pairs_from-Collects_all hash_seed m t f reads in
        (enough, l, λ fuel le. pairs-first m fuel t f reads c ∙ run fuel le, vals)
  ]
