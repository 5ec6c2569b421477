-- ===== src/Hashmap/Opening.antt =====
-- The bucket that Next of pkg/types/hashmap/iterator.go opens shows the entries of its place.
use native.Mathlib.Nat.{mod-lt}
use go_probe.Common.{
  ℕ, ◌%◌, ◌<◌, ◌≡◌, ◌≢◌, refl, sym, ap, ◌∙◌, inl, inr, Bool, false, not, ◌&&◌, Option, Option-cases,
  none, some, List, [], ◌∷◌, ◌++◌, arith, ◌==◌, ==_iff, if◌then◌else◌, length, replicate, get_elem?,
  get_elem?-within, Bool-cases,
}
use go_probe.Common.Bytes.{Bytes}
use go_probe.Types.Counters.{Counters}
use go_probe.Capture.EpHash.{same_bytes, same_bytes_iff}
use go_probe.Hashmap.Slots.{Chain, empty_slot, evacuated, find_slot, top_hash_of}
use go_probe.Hashmap.Chains.{AreEntries, find}
use go_probe.Hashmap.Fills.{find_slot-Fills}
use go_probe.Hashmap.Halves.{mod_half}
use go_probe.Hashmap.Table.{Map}
use go_probe.Hashmap.Valid.{IsTable, ChainAt, hash_of, search}
use go_probe.Hashmap.Evacuating.{search-growing, search-settled}
use go_probe.Hashmap.Working.{IsGrown-IsOld}
use go_probe.Hashmap.Iterator.{Iter, open_bucket, move_on, is_other_half}
use go_probe.Hashmap.Scanning.{AreFilled, AreEntries-AreFilled, shown, values, to_list}

-- A key of another place is not in the chain.
find_elsewhere :
    (h : Bytes → ℕ) (n i : ℕ) (q : Bytes) (es : Chain)
    → AreEntries h n i es
    → h q % n ≢ i
    → find q es ≡ none
unfolding find
find_elsewhere h n i q [] a d = refl
find_elsewhere h n i q (s ∷ es) a d = elim (Bool-cases (same_bytes q s.key)) [
  | inl e ↦ absurd (d (ap (λ (k : Bytes). h k % n) ((same_bytes_iff q s.key).0 e) ∙ a.1))
  | inr e ↦ rw e (find_elsewhere h n i q es a.3 d)
]

module _ (hash_seed : Bytes → ℕ → ℕ) (m : Map) where
  abbrev h : Bytes → ℕ
  h = hash_of hash_seed m

  -- A key is shown once at most.
  values-shown :
      (n i : ℕ) (check : Option ℕ) (q : Bytes) (es : Chain)
      → AreEntries h n i es
      → values q (shown hash_seed m check es)
        ≡ (if is_other_half hash_seed m.seed m check q then [] else to_list (find q es))
  unfolding values shown find
  values-shown n i check q [] a = elim (Bool-cases (is_other_half hash_seed m.seed m check q)) [
    | inl e ↦ rw e
    | inr e ↦ rw e
  ]
  values-shown n i check q (s ∷ es) a = elim (Bool-cases (same_bytes q s.key)) [
    | inr e ↦ elim (Bool-cases (is_other_half hash_seed m.seed m check s.key)) [
      | inl o ↦ rw (e, o) (values-shown n i check q es a.3)
      | inr o ↦ rw (e, o, e) (values-shown n i check q es a.3)
    ]
    | inl e ↦
        let same = (same_bytes_iff q s.key).0 e in
        let absent : find q es ≡ none = ap (λ (k : Bytes). find k es) same ∙ a.2 in
        let later = values-shown n i check q es a.3 in
        elim (Bool-cases (is_other_half hash_seed m.seed m check q)) [
          | inl o ↦
              let there = ap (is_other_half hash_seed m.seed m check) (sym same) ∙ o in
              rw (e, o, there) (later ∙ ap (λ (b : Bool). if b then [] else to_list (find q es)) o)
          | inr o ↦
              let there = ap (is_other_half hash_seed m.seed m check) (sym same) ∙ o in
              rw (e, o, there, e)
                (ap (λ (l : List Counters). s.val ∷ l)
                  (later
                    ∙ ap (λ (b : Bool). if b then [] else to_list (find q es)) o
                    ∙ ap to_list absent))
        ]
  ]

  module _ (t : IsTable hash_seed m) (f : Bytes → Option Counters)
      (reads : (q : Bytes) → search hash_seed m q ≡ some (f q)) where
    -- What the opening of a place has to show.
    abbrev pub Opens : ℕ → Iter → Option Iter → Type 0
    Opens j it r =
        (es : Chain) × (free : ℕ) × (check : Option ℕ) × (r
          ≡ some (move_on it (es ++ replicate free empty_slot) check))
        × AreFilled es
        × ((q : Bytes)
            → values q (shown hash_seed m check es)
              ≡ (if h q % length m.buckets == j then to_list (f q) else []))

    -- The chain of the table, where searches read it.
    shows_chain :
        (j : ℕ) (c : Chain) (q : Bytes) (ch : ChainAt h (length m.buckets) j c)
        → (h q % length m.buckets ≡ j
            → search hash_seed m q ≡ some (find_slot q (top_hash_of (h q)) c))
        → values q (shown hash_seed m none ch.0)
          ≡ (if h q % length m.buckets == j then to_list (f q) else [])
    unfolding is_other_half
    shows_chain j c q (es, fl, a) here = elim (Bool-cases (h q % length m.buckets == j)) [
      | inl e ↦
          let found : some (find q es) ≡ some (f q) =
            ap some (sym (find_slot-Fills h (length m.buckets) j fl a q))
            ∙ sym (here ((==_iff _ j).0 e))
            ∙ reads q in
          let same : find q es ≡ f q = cc in
          values-shown (length m.buckets) j none q es a
          ∙ ap to_list same
          ∙ ap (λ (b : Bool). if b then to_list (f q) else []) (sym e)
      | inr e ↦
          values-shown (length m.buckets) j none q es a
          ∙ ap to_list (
              find_elsewhere h (length m.buckets) j q es a
                (λ d. cc ((==_iff (h q % length m.buckets) j).1 d)))
          ∙ ap (λ (b : Bool). if b then to_list (f q) else []) (sym e)
    ]

    open_bucket-settled :
        (it : Iter) (b : Chain)
        → get_elem? it.buckets it.bucket ≡ some b
        → m.old_buckets ≡ none
        → open_bucket m it ≡ some (move_on it b none)
    unfolding open_bucket
    open_bucket-settled it b e eo = rw (e, eo)

    open_bucket-growing :
        (it : Iter) (b oldb : Chain) (old : List Chain)
        → get_elem? it.buckets it.bucket ≡ some b
        → m.old_buckets ≡ some old
        → length it.buckets ≡ length m.buckets
        → get_elem? old (it.bucket % length old) ≡ some oldb
        → open_bucket m it
          ≡ some (if evacuated oldb then move_on it b none else move_on it oldb (some it.bucket))
    unfolding open_bucket
    open_bucket-growing it b oldb old e eo el ev =
        rw (e, eo, (==_iff (length it.buckets) (length m.buckets)).1 el, ev)

    -- A waiting old chain, of which the iterator shows the entries of one half.
    shows_old :
        (j : ℕ) (old : List Chain) (c : Chain) (q : Bytes)
        → m.old_buckets ≡ some old
        → get_elem? old (j % length old) ≡ some c
        → evacuated c ≡ false
        → (ch : ChainAt h (length old) (j % length old) c)
        → values q (shown hash_seed m (some j) ch.0)
          ≡ (if h q % length m.buckets == j then to_list (f q) else [])
    unfolding is_other_half
    shows_old j old c q eo at live (es, fl, a) =
        let grown = IsGrown-IsOld hash_seed old t eo in
        let pos : 0 < length old = omega (arith, grown.started) in
        let start = values-shown (length old) (j % length old) (some j) q es a in
        let half : is_other_half hash_seed m.seed m (some j) q ≡ not (h q % length m.buckets == j) =
          ap (λ (b : Bool). not b && not (h q % length m.buckets == j)) t.doubling in
        elim (Bool-cases (h q % length m.buckets == j)) [
          | inr e ↦
              start
              ∙ ap (λ (b : Bool). if b then [] else to_list (find q es)) (half ∙ ap not e)
              ∙ ap (λ (b : Bool). if b then to_list (f q) else []) (sym e)
          | inl e ↦
              let place = (==_iff (h q % length m.buckets) j).0 e in
              let same_place : h q % length old ≡ j % length old =
                sym (mod_half (h q) (length old) pos)
                ∙ ap (λ (n : ℕ). h q % n % length old) (sym grown.half)
                ∙ ap (λ (x : ℕ). x % length old) place in
              let (b, at_b) =
                get_elem?-within m.buckets (h q % length m.buckets) (mod-lt (h q) t.some_buckets) in
              let read =
                search-growing hash_seed m old q b c eo t.doubling grown.half at_b
                  (ap (get_elem? old) same_place ∙ at)
                ∙ ap (λ (v : Bool). some (find_slot q (top_hash_of (h q)) (if v then b else c)))
                    live in
              let found : some (find q es) ≡ some (f q) =
                ap some (sym (find_slot-Fills h (length old) (j % length old) fl a q))
                ∙ sym read
                ∙ reads q in
              let same : find q es ≡ f q = cc in
              start
              ∙ ap (λ (b : Bool). if b then [] else to_list (find q es)) (half ∙ ap not e)
              ∙ ap to_list same
              ∙ ap (λ (b : Bool). if b then to_list (f q) else []) (sym e)
        ]

    -- Each place of the table opens.
    pub open_bucket-Opens :
        (it : Iter)
        → it.buckets ≡ m.buckets
        → it.bucket < length m.buckets
        → Opens it.bucket it (open_bucket m it)
    open_bucket-Opens it eb l =
        let j = it.bucket in
        let (b, at_b) = get_elem?-within m.buckets j l in
        let at_it = ap (λ (bs : List Chain). get_elem? bs j) eb ∙ at_b in
        let (es, fl, a) = t.chains j b at_b in
        let filled = AreEntries-AreFilled h (length m.buckets) j es a in
        elim (Option-cases m.old_buckets) [
          | inl settled ↦ (
            es,
            fl.free,
            none,
            open_bucket-settled it b at_it settled
                ∙ ap (λ (c : Chain). some (move_on it c none)) fl.layout,
            filled,
            λ q.
                shows_chain j b q (es, fl, a)
                  (λ e. search-settled hash_seed m q b settled (ap (get_elem? m.buckets) e ∙ at_b)),
          )
          | inr (old, eo) ↦
              let grown = IsGrown-IsOld hash_seed old t eo in
              let pos : 0 < length old = omega (arith, grown.started) in
              let (v, at_v) = get_elem?-within old (j % length old) (mod-lt j pos) in
              let run = open_bucket-growing it b v old at_it eo (ap length eb) at_v in
              elim (Bool-cases (evacuated v)) [
                | inl done ↦ (
                  es,
                  fl.free,
                  none,
                  run
                      ∙ ap
                          (λ (x : Bool).
                            some (if x then move_on it b none else move_on it v (some j)))
                          done
                      ∙ ap (λ (c : Chain). some (move_on it c none)) fl.layout,
                  filled,
                  λ q.
                      shows_chain j b q (es, fl, a)
                        (λ e.
                          let same_place : h q % length old ≡ j % length old =
                            sym (mod_half (h q) (length old) pos)
                            ∙ ap (λ (n : ℕ). h q % n % length old) (sym grown.half)
                            ∙ ap (λ (x : ℕ). x % length old) e in
                          search-growing hash_seed m old q b v eo t.doubling grown.half
                            (ap (get_elem? m.buckets) e ∙ at_b)
                            (ap (get_elem? old) same_place ∙ at_v)
                          ∙ ap
                              (λ (x : Bool).
                                some (find_slot q (top_hash_of (h q)) (if x then b else v)))
                              done),
                )
                | inr live ↦ elim (grown.pending (j % length old) v at_v) [
                  | inl p ↦ absurd (cc live)
                  | inr p ↦ (
                    p.0.0,
                    p.0.1.free,
                    some j,
                    run
                        ∙ ap
                            (λ (x : Bool).
                              some (if x then move_on it b none else move_on it v (some j)))
                            live
                        ∙ ap (λ (c : Chain). some (move_on it c (some j))) p.0.1.layout,
                    AreEntries-AreFilled h (length old) (j % length old) p.0.0 p.0.2,
                    λ q. shows_old j old v q eo at_v live p.0,
                  )
                ]
              ]
        ]
