-- ===== src/Hashmap/Evacuating.antt =====
-- The evacuation of one bucket of pkg/types/hashmap/hashmap.go keeps the table in order.
use go_probe.Common.{
  ℕ, ◌+◌, ◌*◌, ◌/◌, ◌%◌, ◌<◌, ◌≡◌, ◌≢◌, sym, ap, ◌∙◌, subst, true, false, none, some, List, [],
  arith, if◌then◌else◌, length, get_elem?, set, inl, inr, length-set, replicate, length-append,
  length-replicate,
}
use go_probe.Common.Bytes.{Bytes}
use go_probe.Hashmap.Slots.{Chain, empty_slot, empty_bucket, evacuated, find_slot, top_hash_of}
use go_probe.Hashmap.Chains.{AreEntries}
use go_probe.Hashmap.Fills.{Fills, n_filled, n_filled-Fills}
use go_probe.Hashmap.Sums.{sum_of, sum_of-set}
use go_probe.Hashmap.Halves.{
  low_half, high_half, length-halves, low_half-AreEntries, high_half-AreEntries,
}
use go_probe.Hashmap.Writes.{
  get_elem?-set_self, get_elem?-set_ne, get_elem?-set_cases, get_elem?-lt,
}
use go_probe.Hashmap.Moving.{Receives, Split, Moves, new_dst-Receives, move_slots-Moves}
use go_probe.Hashmap.Table.{Map}
use go_probe.Hashmap.Growth.{EvacDst, new_dst, moved}
use go_probe.Hashmap.Access.{select_chain}
use go_probe.Hashmap.Valid.{ChainAt, OldAt, IsOld, IsTable, hash_of, search, old_filled}

pub Receives-Fills : {xs : Chain} {d : EvacDst} → Receives xs d → Fills xs d.chain
Receives-Fills r = record {
  free = r.free;
  layout = r.layout;
  whole = r.whole;
  occupied = r.occupied;
  few = r.few;
}

length-Receives : {xs : Chain} {d : EvacDst} → Receives xs d → length d.chain ≡ 8 + 8 * d.added
length-Receives {xs} r = omega (
  arith,
  ap length r.layout,
  length-append xs (replicate r.free empty_slot),
  length-replicate r.free empty_slot,
  r.grown,
)

module _ (hash_seed : Bytes → ℕ → ℕ) (m : Map) where
  abbrev h : Bytes → ℕ
  h key = hash_seed key m.seed

  -- What the search reads: the chain of the table, or the old chain that is not evacuated yet.
  pub search-growing :
      (old : List Chain) (key : Bytes) (c b : Chain)
      → m.old_buckets ≡ some old
      → m.same_size_grow ≡ false
      → length m.buckets ≡ length old * 2
      → get_elem? m.buckets (h key % length m.buckets) ≡ some c
      → get_elem? old (h key % length old) ≡ some b
      → search hash_seed m key
        ≡ some (find_slot key (top_hash_of (h key)) (if evacuated b then c else b))
  unfolding search select_chain
  search-growing old key c b eo ed el ec eb =
      let half : length m.buckets / 2 ≡ length old = omega arith in rw (ec, eo, ed, half, eb)

  pub search-settled :
      (key : Bytes) (c : Chain)
      → m.old_buckets ≡ none
      → get_elem? m.buckets (h key % length m.buckets) ≡ some c
      → search hash_seed m key ≡ some (find_slot key (top_hash_of (h key)) c)
  unfolding search select_chain
  search-settled key c eo ec = rw (ec, eo)

-- An old bucket in order that waits for its evacuation, with the fresh places of its halves.
pub record IsWaiting (hash_seed : Bytes → ℕ → ℕ) (m : Map) (old : List Chain) (i : ℕ) (b es : Chain)
    : Type 0 where
  pub t : IsTable hash_seed m
  pub is_old : m.old_buckets ≡ some old
  pub grown : IsOld hash_seed m old
  pub at : get_elem? old i ≡ some b
  pub f : Fills es b
  pub a : AreEntries (hash_of hash_seed m) (length old) i es
  pub fresh_low : get_elem? m.buckets i ≡ some empty_bucket
  pub fresh_high : get_elem? m.buckets (i + length old) ≡ some empty_bucket

module _ {hash_seed : Bytes → ℕ → ℕ} {m : Map} {old : List Chain} {i : ℕ} {b es : Chain}
    (d : IsWaiting hash_seed m old i b es) where
  open d use {t, is_old, grown, at, f, a, fresh_low, fresh_high}

  abbrev pub o : ℕ
  o = length old

  pub in_old : i < o
  in_old = get_elem?-lt old i b at

  abbrev pub low : Chain
  low = low_half (hash_of hash_seed m) o es

  abbrev pub high : Chain
  high = high_half (hash_of hash_seed m) o es

  pub moves :
      Moves hash_seed m o t.doubling b low high (new_dst empty_bucket) (new_dst empty_bucket)
  moves = rw f.layout (
      move_slots-Moves hash_seed m o t.doubling o i es f.free [] [] _ _ a new_dst-Receives
        new_dst-Receives)

  module _ {r : Chain × EvacDst × EvacDst} (sp : Split hash_seed m o t.doubling low high r)
      (marked : evacuated r.0 ≡ true) where
    -- The table afterwards, written out.
    buckets-moved : (moved m old i r).buckets ≡ set (set m.buckets i r.1.chain) (i + o) r.2.chain
    unfolding moved
    buckets-moved = rw t.doubling

    pub length-buckets : length (moved m old i r).buckets ≡ o * 2
    length-buckets =
        ap length buckets-moved
        ∙ length-set (set m.buckets i r.1.chain) (i + o) r.2.chain
        ∙ length-set m.buckets i r.1.chain
        ∙ grown.half

    pub low-AreEntries : AreEntries (hash_of hash_seed m) (o * 2) i low
    low-AreEntries = low_half-AreEntries (hash_of hash_seed m) o i es (omega (arith, in_old)) a

    pub high-AreEntries : AreEntries (hash_of hash_seed m) (o * 2) (i + o) high
    high-AreEntries = high_half-AreEntries (hash_of hash_seed m) o i es (omega (arith, in_old)) a

    pub at_low : get_elem? (moved m old i r).buckets i ≡ some r.1.chain
    at_low =
        ap (λ (bs : List Chain). get_elem? bs i) buckets-moved
        ∙ get_elem?-set_ne (set m.buckets i r.1.chain) (i + o) i r.2.chain (omega (arith, in_old))
        ∙ get_elem?-set_self m.buckets i empty_bucket r.1.chain fresh_low

    high_before : get_elem? (set m.buckets i r.1.chain) (i + o) ≡ some empty_bucket
    high_before =
        get_elem?-set_ne m.buckets i (i + o) r.1.chain (omega (arith, in_old)) ∙ fresh_high

    pub at_high : get_elem? (moved m old i r).buckets (i + o) ≡ some r.2.chain
    at_high =
        ap (λ (bs : List Chain). get_elem? bs (i + o)) buckets-moved
        ∙ get_elem?-set_self (set m.buckets i r.1.chain) (i + o) empty_bucket r.2.chain high_before

    pub at_other :
        (j : ℕ) → j ≢ i → j ≢ i + o → get_elem? (moved m old i r).buckets j ≡ get_elem? m.buckets j
    at_other j n k =
        ap (λ (bs : List Chain). get_elem? bs j) buckets-moved
        ∙ get_elem?-set_ne (set m.buckets i r.1.chain) (i + o) j r.2.chain k
        ∙ get_elem?-set_ne m.buckets i j r.1.chain n

    moved-chains :
        (j : ℕ) (c : Chain)
        → get_elem? (moved m old i r).buckets j ≡ some c
        → ChainAt (hash_of hash_seed m) (o * 2) j c
    moved-chains j c e =
        elim (get_elem?-set_cases (set m.buckets i r.1.chain) (i + o) j r.2.chain c
          (ap (λ (bs : List Chain). get_elem? bs j) (sym buckets-moved) ∙ e)) [
            | inl p ↦ rw (p.0, p.1) (high, Receives-Fills sp.high, high-AreEntries)
            | inr p ↦ elim (get_elem?-set_cases m.buckets i j r.1.chain c p.1) [
              | inl q ↦ rw (q.0, q.1) (low, Receives-Fills sp.low, low-AreEntries)
              | inr q ↦
                  subst (λ (n : ℕ). ChainAt (hash_of hash_seed m) n j c) grown.half
                    (t.chains j c q.1)
            ]
          ]

    moved-OldAt :
        (j : ℕ) (c : Chain)
        → get_elem? (set old i r.0) j ≡ some c
        → OldAt hash_seed (moved m old i r) (set old i r.0) j c
    unfolding moved
    moved-OldAt j c e = elim (get_elem?-set_cases old i j r.0 c e) [
      | inl p ↦ rw p.1 (inl (marked, sp.emptied))
      | inr p ↦ elim (grown.pending j c p.1) [
        | inl q ↦ inl q
        | inr q ↦
            let l = get_elem?-lt old j c p.1 in
            let n : o ≡ length (set old i r.0) = sym (length-set old i r.0) in
            inr (
              subst (λ (k : ℕ). ChainAt (hash_of hash_seed m) k j c) n q.0,
              at_other j p.0 (omega (arith, in_old)) ∙ q.1,
              subst (λ (k : ℕ). get_elem? (moved m old i r).buckets (j + k) ≡ some empty_bucket) n
                  (at_other (j + o) (omega (arith, in_old))
                      (λ (u : j + o ≡ i + o). p.0 (omega arith))
                    ∙ q.2),
            )
      ]
    ]

    moved-IsOld : IsOld hash_seed (moved m old i r) (set old i r.0)
    unfolding moved
    moved-IsOld = record {
      half = length-buckets ∙ ap (λ (n : ℕ). n * 2) (sym (length-set old i r.0));
      started = omega (arith, grown.started, length-set old i r.0);
      passed = λ j c l e. elim (get_elem?-set_cases old i j r.0 c e) [
        | inl p ↦ rw p.1 marked
        | inr p ↦ grown.passed j c l p.1
      ];
      pending = moved-OldAt;
    }

    -- The entries that leave the old bucket are in the new ones.
    filled_moved :
        sum_of n_filled (moved m old i r).buckets + sum_of n_filled (set old i r.0) ≡ m.count
    unfolding n_filled empty_bucket
    filled_moved = omega (
      arith,
      t.counted,
      ap old_filled is_old,
      ap (sum_of n_filled) buckets-moved,
      sum_of-set n_filled m.buckets i empty_bucket r.1.chain fresh_low,
      sum_of-set n_filled (set m.buckets i r.1.chain) (i + o) empty_bucket r.2.chain high_before,
      sum_of-set n_filled old i b r.0 at,
      sp.emptied,
      n_filled-Fills (hash_of hash_seed m) (o * 2) i (Receives-Fills sp.low) low-AreEntries,
      n_filled-Fills (hash_of hash_seed m) (o * 2) (i + o) (Receives-Fills sp.high) high-AreEntries,
      n_filled-Fills (hash_of hash_seed m) o i f a,
      length-halves (hash_of hash_seed m) o es,
    )

    slots_moved :
        8 * (m.n_overflow + r.1.added + r.2.added) + 8 * length (moved m old i r).buckets
        ≡ sum_of length (moved m old i r).buckets
    unfolding empty_bucket
    slots_moved = omega (
      arith,
      t.overflow,
      grown.half,
      length-buckets,
      ap (sum_of length) buckets-moved,
      sum_of-set length m.buckets i empty_bucket r.1.chain fresh_low,
      sum_of-set length (set m.buckets i r.1.chain) (i + o) empty_bucket r.2.chain high_before,
      length-Receives sp.low,
      length-Receives sp.high,
    )

    pub moved-IsTable : IsTable hash_seed (moved m old i r)
    unfolding moved
    moved-IsTable = record {
      some_buckets = omega (arith, length-buckets, in_old);
      power = (t.power.0, length-buckets ∙ sym grown.half ∙ t.power.1);
      doubling = t.doubling;
      chains = λ j c e.
          subst (λ (n : ℕ). ChainAt (hash_of hash_seed m) n j c) (sym length-buckets)
            (moved-chains j c e);
      growth = moved-IsOld;
      counted = sym filled_moved;
      overflow = slots_moved;
      key_room = t.key_room;
    }
