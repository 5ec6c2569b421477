-- ===== src/Storage/Blocks.antt =====
-- pkg/goDB/storage/storage.go: the list of the blocks of a column, with the look-up of a time stamp that
-- is built when it is first needed. A time stamp is the bit pattern of an int64.
pub mod Lookup
pub mod Around
use go_probe.Common.{
  ℕ, suc, ◌+◌, ◌-◌, ◌%◌, ◌^◌, Bool, true, false, ◌&&◌, Option, none, some, List, [], ◌∷◌, ◌++◌, ltb,
  ◌==◌, if◌then◌else◌, length, get_elem?,
}

pub record Block : Type 0 where
  pub offset : ℕ
  pub len : ℕ
  pub raw_len : ℕ
  pub encoder_type : ℕ

pub record BlockAtTime : Type 0 where
  pub timestamp : ℕ
  pub block : Block

-- The Go map from time stamps to indices: the entry that was written last comes first.
abbrev pub Index : Type 0
Index = List (ℕ × ℕ)

pub record BlockHeader : Type 0 where
  pub block_list : List BlockAtTime
  pub current_offset : ℕ
  pub blocks : Option Index

unfoldable pub is_empty : Block → Bool
is_empty b = b.len == 0 && b.raw_len == 0

-- blocks[ts]
unfoldable pub find : Index → ℕ → Option ℕ
find [] ts = none
find ((t, i) ∷ index) ts = let rest = find index ts in if t == ts then some i else rest

-- The loop of `populateLookupMap` from index `i` on.
unfoldable pub index_from : ℕ → List BlockAtTime → Index → Index
index_from i [] index = index
index_from i (b ∷ bs) index = index_from (suc i) bs ((b.timestamp, i) ∷ index)

unfoldable pub populate_lookup_map : List BlockAtTime → Index
populate_lookup_map bs = index_from 0 bs []

-- The map of a header, built where it is nil.
unfoldable pub ensured_index : Option Index → List BlockAtTime → Index
ensured_index none bs = populate_lookup_map bs
ensured_index (some index) bs = index

-- if b.blocks == nil { b.populateLookupMap() }
unfoldable pub ensure_lookup_map : BlockHeader → BlockHeader
ensure_lookup_map h = record h { blocks = some (ensured_index h.blocks h.block_list) }

unfoldable pub block_index : BlockHeader → ℕ → Option ℕ × BlockHeader
block_index h ts = (find (ensured_index h.blocks h.block_list) ts, ensure_lookup_map h)

-- BlockList[idx].Block where the time is found; outside, `none` is an index out of range.
unfoldable pub block_at : Option ℕ → List BlockAtTime → Option (Option Block)
block_at none bs = some none
block_at (some i) bs = elim (get_elem? bs i) [ none ↦ none | some b ↦ some (some b.block) ]

unfoldable pub block_at_time : BlockHeader → ℕ → Option (Option Block) × BlockHeader
block_at_time h ts =
    let (idx, filled) = block_index h ts in (block_at idx filled.block_list, filled)

unfoldable pub n_blocks : BlockHeader → ℕ
n_blocks h = length h.block_list

unfoldable pub add_block : BlockHeader → ℕ → Block → BlockHeader
add_block h ts block = record h {
  block_list = h.block_list ++ record { timestamp = ts; block = block } ∷ [];
  blocks = some ((ts, length h.block_list) ∷ ensured_index h.blocks h.block_list);
}

-- a < b for the bit patterns of int64s
abbrev pub signed_lt : ℕ → ℕ → Bool
signed_lt a b = ltb ((a + 2 ^ 63) % 2 ^ 64) ((b + 2 ^ 63) % 2 ^ 64)

unfoldable pub blocks_before : List BlockAtTime → ℕ → List BlockAtTime
blocks_before [] ts = []
blocks_before (b ∷ bs) ts =
    let rest = blocks_before bs ts in if signed_lt b.timestamp ts then b ∷ rest else []

-- The blocks behind the first one at or after `ts`, whose index is `i` from here on.
unfoldable pub blocks_after : ℕ → List BlockAtTime → ℕ → List BlockAtTime × ℕ
blocks_after i [] ts = ([], 0)
blocks_after i (b ∷ bs) ts =
    let rest = blocks_after (suc i) bs ts in if signed_lt b.timestamp ts then rest else (bs, i + 1)
