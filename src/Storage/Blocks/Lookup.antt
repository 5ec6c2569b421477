-- ===== src/Storage/Blocks/Lookup.antt =====
-- The look-up of time stamps in a block header agrees with its list.
use mathlib.Core.List.{append_assoc}
use go_probe.Common.{
  get_elem?-middle, get_elem?-within, ℕ, suc, ◌+◌, ◌≡◌, refl, sym, ap, ◌∙◌, Bool, true, false,
  Option, none, some, List, [], ◌∷◌, ◌++◌, ◌==◌, if◌then◌else◌, if_elim, ◌<◌, length, get_elem?,
  arith, length-append,
}
use go_probe.Storage.Blocks.{
  Block, BlockAtTime, Index, BlockHeader, find, index_from, populate_lookup_map, ensured_index,
  ensure_lookup_map, block_index, block_at, block_at_time, add_block,
}

-- The index of the last block at a time, counted from `i`, or what was found before.
abbrev pub last_index : ℕ → List BlockAtTime → ℕ → Option ℕ → Option ℕ
last_index i [] ts before = before
last_index i (b ∷ bs) ts before =
    last_index (suc i) bs ts (if b.timestamp == ts then some i else before)

-- The look-up of a header, where there is one, finds the last block of each time.
abbrev pub IsIndex : Option Index → List BlockAtTime → Type 0
IsIndex none bs = Unit {0}
IsIndex (some index) bs = (ts : ℕ) → find index ts ≡ last_index 0 bs ts none

abbrev pub IsIndexed : BlockHeader → Type 0
IsIndexed h = IsIndex h.blocks h.block_list

find-index_from :
    (i : ℕ) (bs : List BlockAtTime) (index : Index) (ts : ℕ)
    → find (index_from i bs index) ts ≡ last_index i bs ts (find index ts)
unfolding index_from find
find-index_from i [] index ts = refl
find-index_from i (b ∷ bs) index ts = find-index_from (suc i) bs ((b.timestamp, i) ∷ index) ts

last_index-append :
    (i : ℕ) (bs : List BlockAtTime) (b : BlockAtTime) (ts : ℕ) (before : Option ℕ)
    → last_index i (bs ++ b ∷ []) ts before
      ≡ (if b.timestamp == ts then some (i + length bs) else last_index i bs ts before)
last_index-append i [] b ts before =
    ap (λ j. if b.timestamp == ts then some j else before) (omega arith)
last_index-append i (c ∷ bs) b ts before =
    last_index-append (suc i) bs b ts (if c.timestamp == ts then some i else before)
    ∙ ap (λ j. if b.timestamp == ts then some j else last_index i (c ∷ bs) ts before) (omega arith)

-- The last block at a time, or what was found before.
abbrev pub last_block : List BlockAtTime → ℕ → Option BlockAtTime → Option BlockAtTime
last_block [] ts before = before
last_block (b ∷ bs) ts before = last_block bs ts (if b.timestamp == ts then some b else before)

abbrev elem_at : List BlockAtTime → Option ℕ → Option BlockAtTime
elem_at bs none = none
elem_at bs (some i) = get_elem? bs i

elem_at-if :
    (c : Bool) (pre : List BlockAtTime) (b : BlockAtTime) (bs : List BlockAtTime)
    (before : Option ℕ)
    → elem_at (pre ++ b ∷ bs) (if c then some (length pre) else before)
      ≡ (if c then some b else elem_at (pre ++ b ∷ bs) before)
elem_at-if true pre b bs before = get_elem?-middle pre bs b
elem_at-if false pre b bs before = refl

last_index-last_block :
    (pre bs : List BlockAtTime) (ts : ℕ) (before : Option ℕ)
    → elem_at (pre ++ bs) (last_index (length pre) bs ts before)
      ≡ last_block bs ts (elem_at (pre ++ bs) before)
last_index-last_block pre [] ts before = refl
last_index-last_block pre (b ∷ bs) ts before =
    let whole : (pre ++ b ∷ []) ++ bs ≡ pre ++ b ∷ bs = append_assoc pre (b ∷ []) bs in
    let one_more : length (pre ++ b ∷ []) ≡ suc (length pre) =
      omega (arith, length-append pre (b ∷ [])) in
    let next =
      last_index-last_block (pre ++ b ∷ []) bs ts
        (if b.timestamp == ts then some (length pre) else before) in
    (rw (whole, one_more) at next)
    ∙ ap (last_block bs ts) (elem_at-if (b.timestamp == ts) pre b bs before)

-- A look-up that is made sure of finds the last block of each time.
pub ensured-IsIndexed :
    (o : Option Index) (bs : List BlockAtTime) (ts : ℕ)
    → IsIndex o bs
    → find (ensured_index o bs) ts ≡ last_index 0 bs ts none
unfolding ensured_index populate_lookup_map find
ensured-IsIndexed none bs ts v = find-index_from 0 bs [] ts
ensured-IsIndexed (some index) bs ts v = v ts

last_block-append :
    (bs : List BlockAtTime) (b : BlockAtTime) (ts : ℕ) (before : Option BlockAtTime)
    → last_block (bs ++ b ∷ []) ts before
      ≡ (if b.timestamp == ts then some b else last_block bs ts before)
last_block-append [] b ts before = refl
last_block-append (c ∷ bs) b ts before =
    last_block-append bs b ts (if c.timestamp == ts then some c else before)

-- The block of an entry of the list.
abbrev pub block_of : Option BlockAtTime → Option Block
block_of none = none
block_of (some b) = some b.block

-- An index that is found lies in the list.
IsWithin : Option ℕ → List BlockAtTime → Type 0
IsWithin none bs = Unit {0}
IsWithin (some i) bs = i < length bs

last_index-IsWithin :
    (pre bs : List BlockAtTime) (ts : ℕ) (before : Option ℕ)
    → IsWithin before (pre ++ bs)
    → IsWithin (last_index (length pre) bs ts before) (pre ++ bs)
unfolding IsWithin
last_index-IsWithin pre [] ts before w = w
last_index-IsWithin pre (b ∷ bs) ts before w =
    let whole : (pre ++ b ∷ []) ++ bs ≡ pre ++ b ∷ bs = append_assoc pre (b ∷ []) bs in
    let one_more : length (pre ++ b ∷ []) ≡ suc (length pre) =
      omega (arith, length-append pre (b ∷ [])) in
    let found : IsWithin (if b.timestamp == ts then some (length pre) else before)
        ((pre ++ b ∷ []) ++ bs) =
      rw whole (
        if_elim (λ o. IsWithin o (pre ++ b ∷ bs)) (b.timestamp == ts)
          (omega (arith, length-append pre (b ∷ bs))) w) in
    rw (whole, one_more) at
      (last_index-IsWithin (pre ++ b ∷ []) bs ts
        (if b.timestamp == ts then some (length pre) else before) found)

block_at_lem :
    (o : Option ℕ) (bs : List BlockAtTime)
    → IsWithin o bs
    → block_at o bs ≡ some (block_of (elem_at bs o))
unfolding block_at IsWithin
block_at_lem none bs w = refl
block_at_lem (some i) bs w = let (b, e) = get_elem?-within bs i w in rw (e, block_at) refl

block_at_time_lem :
    (h : BlockHeader) (ts : ℕ)
    → IsIndexed h
    → (block_at_time h ts).0 ≡ some (block_of (last_block h.block_list ts none))
unfolding block_at_time block_index ensure_lookup_map IsWithin
block_at_time_lem h ts v =
    let e = ensured-IsIndexed h.blocks h.block_list ts v in
    rw
      (
        e,
        block_at_lem (last_index 0 h.block_list ts none) h.block_list
            (last_index-IsWithin [] h.block_list ts none tt),
      )
      (ap (λ o. some (block_of o)) (last_index-last_block [] h.block_list ts none))

block_of-if :
    (c : Bool) (block : Block) (ts : ℕ) (o : Option BlockAtTime) {a : Option (Option Block)}
    → a ≡ some (block_of o)
    → some (block_of (if c then some (record { timestamp = ts; block = block }) else o))
      ≡ (if c then some (some block) else a)
block_of-if true block ts o e = refl
block_of-if false block ts o e = sym e

add_block-IsIndexed :
    (h : BlockHeader) (ts : ℕ) (block : Block) → IsIndexed h → IsIndexed (add_block h ts block)
unfolding add_block find
add_block-IsIndexed h ts block v t =
    rw
      (
        ensured-IsIndexed h.blocks h.block_list t v,
        last_index-append 0 h.block_list (record { timestamp = ts; block = block }) t none,
      )
      (ap (λ i. if ts == t then some i else last_index 0 h.block_list t none) (omega arith))

-- Where the look-up of a header agrees with its list, it still does after a block is added; the new
-- block is the one of its time from then on, and each other time keeps its block.
pub add_block-block_at_time :
    (h : BlockHeader) (ts : ℕ) (block : Block) (t : ℕ)
    → IsIndexed h
    → IsIndexed (add_block h ts block)
      × ((block_at_time (add_block h ts block) t).0
          ≡ (if ts == t then some (some block) else (block_at_time h t).0))
unfolding add_block
add_block-block_at_time h ts block t v =
    let kept = add_block-IsIndexed h ts block v in
    (
      kept,
      block_at_time_lem (add_block h ts block) t kept
          ∙ ap (λ o. some (block_of o))
              (last_block-append h.block_list (record { timestamp = ts; block = block }) t none)
          ∙ block_of-if (ts == t) block ts (last_block h.block_list t none)
              (block_at_time_lem h t v),
    )
