-- ===== src/Hashmap/Writing.antt =====
-- Replacing the chain of one place of the table of pkg/types/hashmap/hashmap.go.
use native.Mathlib.Nat.{mod-lt, mod-eq_of_lt, add-mul-mod_self_left}
use go_probe.Common.{
  ℕ, ◌+◌, ◌*◌, ◌%◌, ◌≤◌, ◌<◌, ◌≡◌, ◌≢◌, sym, ap, ◌∙◌, subst, Bool, true, false, Option-cases, some,
  List, arith, if◌then◌else◌, length, get_elem?, set, inl, inr, get_elem?-within, length-set,
}
use go_probe.Common.Bytes.{Bytes}
use go_probe.Hashmap.Slots.{Chain, evacuated, find_slot, top_hash_of}
use go_probe.Hashmap.Chains.{AreEntries, find}
use go_probe.Hashmap.Fills.{Fills, n_filled, n_filled-Fills, find_slot-Fills, evacuated-Fills}
use go_probe.Hashmap.Sums.{sum_of-set}
use go_probe.Hashmap.Halves.{mod_half}
use go_probe.Hashmap.Writes.{
  get_elem?-lt, get_elem?-set_self, get_elem?-set_ne, get_elem?-set_cases,
}
use go_probe.Hashmap.Table.{Map}
use go_probe.Hashmap.Valid.{ChainAt, IsOld, IsGrown, IsTable, hash_of, search}
use go_probe.Hashmap.Evacuating.{search-growing, search-settled}
use go_probe.Hashmap.Working.{IsGrown-IsOld}

-- The place is the one that searches read: its old bucket has been evacuated.
abbrev pub IsCurrent : Map → ℕ → Type 0
IsCurrent m p =
    (old : List Chain) (c : Chain)
    → m.old_buckets ≡ some old
    → get_elem? old (p % length old) ≡ some c
    → evacuated c ≡ true

-- A table with some fields replaced: the chain of a place, the counts and the extent of the key data.
abbrev pub written : Map → ℕ → Chain → ℕ → ℕ → ℕ → ℕ → Map
written m p c count n_overflow key_data_len key_data_pos = record m {
  count = count;
  n_overflow = n_overflow;
  buckets = set m.buckets p c;
  key_data_len = key_data_len;
  key_data_pos = key_data_pos;
}

module _ {hash_seed : Bytes → ℕ → ℕ} {m : Map} (t : IsTable hash_seed m) (p : ℕ)
    (current : IsCurrent m p) where
  -- A search at the place reads its chain.
  pub search-current :
      (key : Bytes) (c : Chain)
      → hash_of hash_seed m key % length m.buckets ≡ p
      → get_elem? m.buckets p ≡ some c
      → search hash_seed m key ≡ some (find_slot key (top_hash_of (hash_of hash_seed m key)) c)
  search-current key c here at = elim (Option-cases m.old_buckets) [
    | inl settled ↦ search-settled hash_seed m key c settled (ap (get_elem? m.buckets) here ∙ at)
    | inr (old, e) ↦
        let grown = IsGrown-IsOld hash_seed old t e in
        let hash = hash_of hash_seed m key in
        let pos : 0 < length old = omega (arith, grown.started) in
        let (b, at_b) = get_elem?-within old (hash % length old) (mod-lt hash pos) in
        let same_place : p % length old ≡ hash % length old =
          ap (λ (n : ℕ). n % length old) (sym here ∙ ap (λ (n : ℕ). hash % n) grown.half)
          ∙ mod_half hash (length old) pos in
        let done = current old b e (ap (get_elem? old) same_place ∙ at_b) in
        search-growing hash_seed m old key c b e t.doubling grown.half
          (ap (get_elem? m.buckets) here ∙ at) at_b
        ∙ ap (λ (v : Bool). some (find_slot key (top_hash_of hash) (if v then c else b))) done
  ]

module _ {hash_seed : Bytes → ℕ → ℕ} {m : Map} (t : IsTable hash_seed m) (p : ℕ)
    (current : IsCurrent m p) where
  module _ (c c' : Chain) (at : get_elem? m.buckets p ≡ some c) (es' : Chain) (f : Fills es' c')
      (a : AreEntries (hash_of hash_seed m) (length m.buckets) p es')
      (count n_overflow key_len key_pos : ℕ) where
    abbrev pub next : Map
    next = written m p c' count n_overflow key_len key_pos

    next-chains :
        (j : ℕ) (b : Chain)
        → get_elem? (set m.buckets p c') j ≡ some b
        → ChainAt (hash_of hash_seed m) (length (set m.buckets p c')) j b
    next-chains j b e =
        subst (λ (n : ℕ). ChainAt (hash_of hash_seed m) n j b) (sym (length-set m.buckets p c'))
          (elim (get_elem?-set_cases m.buckets p j c' b e) [
            | inl q ↦ rw (q.0, q.1) (es', f, a)
            | inr q ↦ t.chains j b q.1
          ])

    module _ (old : List Chain) (is_old : m.old_buckets ≡ some old) where
      -- A waiting bucket has its places elsewhere.
      elsewhere :
          (j : ℕ) (b : Chain)
          → get_elem? old j ≡ some b
          → evacuated b ≡ false
          → (j ≢ p) × (j + length old ≢ p)
      elsewhere j b at_j live =
          let inside = get_elem?-lt old j b at_j in
          let low = mod-eq_of_lt inside in
          let high : (j + length old) % length old ≡ j =
            ap (λ (n : ℕ). (j + n) % length old) (omega arith)
            ∙ add-mul-mod_self_left j (length old) 1
            ∙ low in
          (
            λ e. cc (
                current old b is_old
                  (ap (get_elem? old) (ap (λ (n : ℕ). n % length old) (sym e) ∙ low) ∙ at_j)),
            λ e. cc (
                current old b is_old
                  (ap (get_elem? old) (ap (λ (n : ℕ). n % length old) (sym e) ∙ high) ∙ at_j)),
          )

      next-IsOld : IsOld hash_seed next old
      next-IsOld =
          let grown = IsGrown-IsOld hash_seed old t is_old in
          record {
            half = length-set m.buckets p c' ∙ grown.half;
            started = grown.started;
            passed = grown.passed;
            pending = λ j b e. elim (grown.pending j b e) [
              | inl q ↦ inl q
              | inr q ↦
                  let (n, k) =
                    elsewhere j b e
                      (evacuated-Fills (hash_of hash_seed m) (length old) j q.0.1 q.0.2) in
                  inr (
                    q.0,
                    get_elem?-set_ne m.buckets p j c' n ∙ q.1,
                    get_elem?-set_ne m.buckets p (j + length old) c' k ∙ q.2,
                  )
            ];
          }

    next-IsGrown : IsGrown hash_seed next m.old_buckets
    next-IsGrown = elim (Option-cases m.old_buckets) [
      | inl e ↦ subst (IsGrown hash_seed next) (sym e) tt
      | inr (old, e) ↦ subst (IsGrown hash_seed next) (sym e) (next-IsOld old e)
    ]

    pub next-IsTable :
        count + n_filled c ≡ m.count + length es'
        → 8 * n_overflow + length c ≡ 8 * m.n_overflow + length c'
        → key_pos ≤ key_len
        → IsTable hash_seed next
    next-IsTable counted overflow room =
        let (es, f₀, a₀) = t.chains p c at in
        record {
          some_buckets = omega (arith, t.some_buckets, length-set m.buckets p c');
          power = (t.power.0, length-set m.buckets p c' ∙ t.power.1);
          doubling = t.doubling;
          chains = next-chains;
          growth = next-IsGrown;
          counted = omega (
            arith,
            counted,
            t.counted,
            sum_of-set n_filled m.buckets p c c' at,
            n_filled-Fills (hash_of hash_seed m) (length m.buckets) p f a,
          );
          overflow = omega (
            arith,
            overflow,
            t.overflow,
            length-set m.buckets p c',
            sum_of-set length m.buckets p c c' at,
          );
          key_room = room;
        }

    module _ (u : IsTable hash_seed next) (key : Bytes) where
      -- A search at the place reads the new chain.
      pub next-search_here :
          hash_of hash_seed m key % length m.buckets ≡ p
          → search hash_seed next key ≡ some (find key es')
      next-search_here here =
          search-current u p current key c'
            (ap (λ (n : ℕ). hash_of hash_seed m key % n) (length-set m.buckets p c') ∙ here)
            (get_elem?-set_self m.buckets p c c' at)
          ∙ ap some (find_slot-Fills (hash_of hash_seed m) (length m.buckets) p f a key)

      -- A search at another place reads what it read before.
      pub next-search_other :
          hash_of hash_seed m key % length m.buckets ≢ p
          → search hash_seed next key ≡ search hash_seed m key
      next-search_other other =
          let hash = hash_of hash_seed m key in
          let (b, at_b) =
            get_elem?-within m.buckets (hash % length m.buckets) (mod-lt hash t.some_buckets) in
          let at_next : get_elem? next.buckets (hash % length next.buckets) ≡ some b =
            ap (λ (n : ℕ). get_elem? next.buckets (hash % n)) (length-set m.buckets p c')
            ∙ get_elem?-set_ne m.buckets p _ c' other
            ∙ at_b in
          elim (Option-cases m.old_buckets) [
            | inl e ↦
                search-settled hash_seed next key b e at_next
                ∙ sym (search-settled hash_seed m key b e at_b)
            | inr (old, e) ↦
                let grown = IsGrown-IsOld hash_seed old t e in
                let pos : 0 < length old = omega (arith, grown.started) in
                let (v, at_v) = get_elem?-within old (hash % length old) (mod-lt hash pos) in
                search-growing hash_seed next old key b v e t.doubling
                  (length-set m.buckets p c' ∙ grown.half) at_next at_v
                ∙ sym (search-growing hash_seed m old key b v e t.doubling grown.half at_b at_v)
          ]
