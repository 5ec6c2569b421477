-- ===== src/Hashmap/Fills.antt =====
-- A chain filled with entries under the operations on slots of pkg/types/hashmap/hashmap.go.

use go_probe.Common.{
  ℕ, suc, zero, ◌+◌, ◌%◌, ◌≤◌, ◌<◌, ◌≡◌, refl, ap, Bool, false, none, some, [], ◌∷◌, ◌++◌, arith,
  leb, if◌then◌else◌, length, replicate, length-append, length-replicate,
}
use go_probe.Common.Bytes.{Bytes}
use go_probe.Types.Counters.{Counters}
use go_probe.Hashmap.Slots.{
  Slot, Chain, empty_slot, empty_bucket, top_hash_of, find_slot, update_slot, insert_slot,
  evacuated, min_top_hash,
}
use go_probe.Hashmap.Chains.{
  AreEntries, find, change_entry, top_hash_of-range, find_slot-append, update_slot-found,
  update_slot-absent, length-change_entry, insert_slot-suc, insert_slot-zero,
}

-- The chain holds the entries `es`, and at most one bucket of empty slots behind them.
pub record Fills (es c : Chain) : Type 0 where
  pub free : ℕ
  pub layout : c ≡ es ++ replicate free empty_slot
  pub whole : (length es + free) % 8 ≡ 0
  pub occupied : 0 < length es + free
  pub few : free ≤ 8

-- The number of slots that hold an entry which has not been evacuated.
unfoldable pub n_filled : Chain → ℕ
n_filled [] = 0
n_filled (s ∷ c) = (if leb min_top_hash s.top_hash then 1 else 0) + n_filled c

pub length-Fills : {es c : Chain} → Fills es c → length c ≤ length es + 8
length-Fills {es} f = omega (
  arith,
  ap length f.layout,
  length-append es (replicate f.free empty_slot),
  length-replicate f.free empty_slot,
  f.few,
)

pub empty_bucket-Fills : Fills [] empty_bucket
unfolding empty_bucket
empty_bucket-Fills = record {
  free = 8;
  layout = refl;
  whole = refl;
  occupied = omega arith;
  few = omega arith;
}

n_filled-replicate : (j : ℕ) → n_filled (replicate j empty_slot) ≡ 0
unfolding n_filled
n_filled-replicate zero = refl
n_filled-replicate (suc j) = ground (arith, n_filled-replicate j)

module _ (h : Bytes → ℕ) where
  n_filled-append :
      (n i : ℕ) (es : Chain) (j : ℕ)
      → AreEntries h n i es
      → n_filled (es ++ replicate j empty_slot) ≡ length es
  unfolding n_filled
  n_filled-append n i [] j a = n_filled-replicate j
  n_filled-append n i (s ∷ es) j a =
      ground (arith, n_filled-append n i es j a.3, top_hash_of-range (h s.key))

  evacuated-append :
      (n i : ℕ) (es : Chain) (j : ℕ)
      → AreEntries h n i es
      → evacuated (es ++ replicate j empty_slot) ≡ false
  unfolding evacuated
  evacuated-append n i [] zero a = refl
  evacuated-append n i [] (suc j) a = refl
  evacuated-append n i (s ∷ es) j a = ground (arith, top_hash_of-range (h s.key))

  module _ {es c : Chain} (n i : ℕ) (f : Fills es c) (a : AreEntries h n i es) where
    pub n_filled-Fills : n_filled c ≡ length es
    n_filled-Fills = rw f.layout (n_filled-append n i es f.free a)

    pub evacuated-Fills : evacuated c ≡ false
    evacuated-Fills = rw f.layout (evacuated-append n i es f.free a)

    pub find_slot-Fills : (key : Bytes) → find_slot key (top_hash_of (h key)) c ≡ find key es
    find_slot-Fills key = rw f.layout (find_slot-append h key n i es f.free a)

    pub update_slot-Fills_absent :
        (key : Bytes) (change : Counters → Counters)
        → find key es ≡ none
        → update_slot key (top_hash_of (h key)) change c ≡ none
    update_slot-Fills_absent key change e =
        rw f.layout (update_slot-absent h key change n i es f.free a e)

    -- A chain with the value of a found key changed.
    pub update_slot-Fills :
        (key : Bytes) (change : Counters → Counters) (v : Counters)
        → find key es ≡ some v
        → (c' : Chain) × (update_slot key (top_hash_of (h key)) change c ≡ some c')
          × Fills (change_entry key change es) c'
          × (length c' ≡ length c)
    update_slot-Fills key change v e = (
      change_entry key change es ++ replicate f.free empty_slot,
      rw f.layout (update_slot-found h key change n i es f.free v a e),
      record {
        free = f.free;
        layout = refl;
        whole = rw (length-change_entry h key change es) f.whole;
        occupied = rw (length-change_entry h key change es) f.occupied;
        few = f.few;
      },
      omega (
        arith,
        ap length f.layout,
        length-append (change_entry key change es) (replicate f.free empty_slot),
        length-append es (replicate f.free empty_slot),
        length-change_entry h key change es,
      ),
    )

  -- One entry more, and one overflow bucket more where the answer says so.
  abbrev pub Gains : Chain → Chain → Slot → Chain × Bool → Type 0
  Gains es c new r = Fills (es ++ new ∷ []) r.0 × (length r.0 ≡ length c + (if r.1 then 8 else 0))

  insert_slot-append :
      (n i : ℕ) (es : Chain) (new : Slot) (j : ℕ)
      → AreEntries h n i es
      → (length es + j) % 8 ≡ 0
      → j ≤ 8
      → Gains es (es ++ replicate j empty_slot) new (insert_slot new (es ++ replicate j empty_slot))
  insert_slot-append n i es new zero a w l = rw (insert_slot-zero h n i es new a) (
    record {
      free = 7;
      layout = refl;
      whole = omega (arith, length-append es (new ∷ []));
      occupied = omega arith;
      few = omega arith;
    },
    omega (
      arith,
      length-append es [],
      length-append es (new ∷ []),
      length-append (es ++ new ∷ []) (replicate 7 empty_slot),
    ),
  )
  insert_slot-append n i es new (suc j) a w l = rw (insert_slot-suc h n i es new j a) (
    record {
      free = j;
      layout = refl;
      whole = omega (arith, length-append es (new ∷ []));
      occupied = omega (arith, length-append es (new ∷ []));
      few = omega arith;
    },
    omega (
      arith,
      length-append es (replicate (suc j) empty_slot),
      length-append es (new ∷ []),
      length-append (es ++ new ∷ []) (replicate j empty_slot),
    ),
  )

  pub insert_slot-Gains :
      {es c : Chain} (n i : ℕ) (new : Slot)
      → Fills es c
      → AreEntries h n i es
      → Gains es c new (insert_slot new c)
  insert_slot-Gains {es} n i new f a =
      rw f.layout (insert_slot-append n i es new f.free a f.whole f.few)
