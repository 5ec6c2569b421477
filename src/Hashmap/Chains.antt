-- ===== src/Hashmap/Chains.antt =====
-- What a chain of slots holds: entries in its first slots, and empty slots behind them.
use go_probe.Common.{
  ℕ, suc, zero, ◌%◌, ◌≤◌, ◌≡◌, refl, sym, ap, true, false, Option, none, some, [], ◌∷◌, ◌++◌, arith,
  if◌then◌else◌, length, replicate, Bool-cases, inl, inr,
}
use mathlib.Core.Option
use go_probe.Common.Bytes.{Bytes}
use go_probe.Types.Counters.{Counters}
use go_probe.Capture.EpHash.{same_bytes, same_bytes_iff}
use go_probe.Hashmap.Slots.{
  Slot, Chain, empty_slot, top_hash_of, find_slot, update_slot, insert_slot, is_empty,
}

pub top_hash_of-range : (hash : ℕ) → 5 ≤ top_hash_of hash
unfolding top_hash_of
top_hash_of-range hash = ground arith

-- The value of the first entry with a key.
unfoldable pub find : Bytes → Chain → Option Counters
find key [] = none
find key (s ∷ es) = if same_bytes key s.key then some s.val else find key es

unfoldable pub change_entry : Bytes → (Counters → Counters) → Chain → Chain
change_entry key change [] = []
change_entry key change (s ∷ es) =
    if same_bytes key s.key
    then record s { val = change s.val } ∷ es
    else s ∷ change_entry key change es

module _ (h : Bytes → ℕ) where
  -- Each entry carries the top of its hash, belongs to place `i` of `n`, and has a key of its own.
  abbrev pub AreEntries : ℕ → ℕ → Chain → Type 0
  AreEntries n i [] = Unit {0}
  AreEntries n i (s ∷ es) =
      (s.top_hash ≡ top_hash_of (h s.key))
      × (h s.key % n ≡ i)
      × (find s.key es ≡ none)
      × AreEntries n i es

  find_slot-replicate :
      (key : Bytes) (j : ℕ) → find_slot key (top_hash_of (h key)) (replicate j empty_slot) ≡ none
  unfolding find_slot
  find_slot-replicate key zero = refl
  find_slot-replicate key (suc j) = ground (arith, top_hash_of-range (h key))

  update_slot-replicate :
      (key : Bytes) (change : Counters → Counters) (j : ℕ)
      → update_slot key (top_hash_of (h key)) change (replicate j empty_slot) ≡ none
  unfolding update_slot
  update_slot-replicate key change zero = refl
  update_slot-replicate key change (suc j) = ground (arith, top_hash_of-range (h key))

  same-top : (key k : Bytes) → same_bytes key k ≡ true → top_hash_of (h k) ≡ top_hash_of (h key)
  same-top key k e = ap (λ (x : Bytes). top_hash_of (h x)) (sym ((same_bytes_iff key k).0 e))

  -- The search by the top of the hash finds the entry with the key.
  pub find_slot-append :
      (key : Bytes) (n i : ℕ) (es : Chain) (j : ℕ)
      → AreEntries n i es
      → find_slot key (top_hash_of (h key)) (es ++ replicate j empty_slot) ≡ find key es
  unfolding find_slot find
  find_slot-append key n i [] j a = find_slot-replicate key j
  find_slot-append key n i (s ∷ es) j a =
      ground
        (arith, find_slot-append key n i es j a.3, same-top key s.key, top_hash_of-range (h s.key))

  -- The same search, where it writes.
  pub update_slot-found :
      (key : Bytes) (change : Counters → Counters) (n i : ℕ) (es : Chain) (j : ℕ) (v : Counters)
      → AreEntries n i es
      → find key es ≡ some v
      → update_slot key (top_hash_of (h key)) change (es ++ replicate j empty_slot)
        ≡ some (change_entry key change es ++ replicate j empty_slot)
  unfolding update_slot find change_entry
  update_slot-found key change n i [] j v a e = absurd cc
  update_slot-found key change n i (s ∷ es) j v a e = ground (
    arith,
    update_slot-found key change n i es j v a.3,
    same-top key s.key,
    top_hash_of-range (h s.key),
  )

  pub update_slot-absent :
      (key : Bytes) (change : Counters → Counters) (n i : ℕ) (es : Chain) (j : ℕ)
      → AreEntries n i es
      → find key es ≡ none
      → update_slot key (top_hash_of (h key)) change (es ++ replicate j empty_slot) ≡ none
  unfolding update_slot find
  update_slot-absent key change n i [] j a e = update_slot-replicate key change j
  update_slot-absent key change n i (s ∷ es) j a e = ground (
    arith,
    update_slot-absent key change n i es j a.3,
    same-top key s.key,
    top_hash_of-range (h s.key),
  )

  -- A change of the value under one key.
  pub find-change_entry :
      (key q : Bytes) (change : Counters → Counters) (es : Chain)
      → find q (change_entry key change es)
        ≡ (if same_bytes q key then Option.map change (find key es) else find q es)
  unfolding find change_entry
  find-change_entry key q change [] = ground arith
  find-change_entry key q change (s ∷ es) = ground (
    arith,
    find-change_entry key q change es,
    same_bytes_iff key s.key,
    same_bytes_iff q s.key,
    same_bytes_iff q key,
  )

  pub length-change_entry :
      (key : Bytes) (change : Counters → Counters) (es : Chain)
      → length (change_entry key change es) ≡ length es
  unfolding change_entry
  length-change_entry key change [] = refl
  length-change_entry key change (s ∷ es) = ground (arith, length-change_entry key change es)

  find-change_entry-none :
      (key q : Bytes) (change : Counters → Counters) (es : Chain)
      → find q es ≡ none
      → find q (change_entry key change es) ≡ none
  find-change_entry-none key q change es e =
      ground (arith, find-change_entry key q change es, same_bytes_iff q key)

  pub change_entry-AreEntries :
      (key : Bytes) (change : Counters → Counters) (n i : ℕ) (es : Chain)
      → AreEntries n i es
      → AreEntries n i (change_entry key change es)
  unfolding change_entry
  change_entry-AreEntries key change n i [] a = tt
  change_entry-AreEntries key change n i (s ∷ es) a = elim (Bool-cases (same_bytes key s.key)) [
    | inl e ↦ rw e a
    | inr e ↦ rw e (
      a.0,
      a.1,
      find-change_entry-none key s.key change es a.2,
      change_entry-AreEntries key change n i es a.3,
    )
  ]

  pub find-append :
      (q : Bytes) (es fs : Chain) → find q (es ++ fs) ≡ Option.or_else (find q es) (find q fs)
  unfolding find Option.or_else
  find-append q [] fs = refl
  find-append q (s ∷ es) fs = ground (arith, find-append q es fs)

  -- One more entry, with a key that is not there.
  pub append-AreEntries :
      (n i : ℕ) (es : Chain) (new : Slot)
      → AreEntries n i es
      → new.top_hash ≡ top_hash_of (h new.key)
      → h new.key % n ≡ i
      → find new.key es ≡ none
      → AreEntries n i (es ++ new ∷ [])
  unfolding find Option.or_else
  append-AreEntries n i [] new a t p e = (t, p, refl, tt)
  append-AreEntries n i (s ∷ es) new a t p e = (
    a.0,
    a.1,
    ground (
      arith,
      find-append s.key es (new ∷ []),
      same_bytes_iff new.key s.key,
      same_bytes_iff s.key new.key,
    ),
    append-AreEntries n i es new a.3 t p (ground arith),
  )

  pub insert_slot-suc :
      (n i : ℕ) (es : Chain) (new : Slot) (j : ℕ)
      → AreEntries n i es
      → insert_slot new (es ++ replicate (suc j) empty_slot)
        ≡ ((es ++ new ∷ []) ++ replicate j empty_slot, false)
  unfolding insert_slot is_empty
  insert_slot-suc n i [] new j a = refl
  insert_slot-suc n i (s ∷ es) new j a =
      ground (arith, insert_slot-suc n i es new j a.3, top_hash_of-range (h s.key))

  pub insert_slot-zero :
      (n i : ℕ) (es : Chain) (new : Slot)
      → AreEntries n i es
      → insert_slot new (es ++ []) ≡ ((es ++ new ∷ []) ++ replicate 7 empty_slot, true)
  unfolding insert_slot is_empty
  insert_slot-zero n i [] new a = refl
  insert_slot-zero n i (s ∷ es) new a =
      ground (arith, insert_slot-zero n i es new a.3, top_hash_of-range (h s.key))
