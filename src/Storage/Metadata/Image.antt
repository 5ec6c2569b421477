-- ===== src/Storage/Metadata/Image.antt =====
-- Metadata that can be stored, and the file that holds it (gpdir.go).
use go_probe.Common.{
  ℕ, zero, suc, ap, ◌+◌, ◌*◌, ◌<◌, ◌≤◌, ◌≡◌, refl, List, [], ◌∷◌, ◌++◌, none, arith, length,
  length-append,
}
use go_probe.Common.Bytes.{Bytes, be_bytes, length-be_bytes}
use go_probe.Common.Writer.{fields_image, length-fields_image}
use go_probe.Common.Reader.{AllFit}
use go_probe.Types.Counters.{u64_mod, add_u64, sub_u64}
use go_probe.Storage.Blocks.{BlockAtTime, BlockHeader}
use go_probe.Storage.Metadata.{TrafficMetadata, Metadata, col_idx_count}
use go_probe.Storage.Metadata.Marshal.{max_uint32, header_fields, block_fields, traffic_fields}

-- The blocks of a column: one for each time stamp, each starting where the one before ended.
abbrev pub AreBlocks : List ℕ → ℕ → List BlockAtTime → Type 0
AreBlocks [] cur_offset [] = Unit {0}
AreBlocks (t ∷ ts) cur_offset (b ∷ bs) =
    (b.timestamp ≡ t)
    × (b.block.offset ≡ cur_offset)
    × (b.block.len ≤ max_uint32)
    × (b.block.raw_len ≤ max_uint32)
    × (b.block.encoder_type < 256)
    × AreBlocks ts (add_u64 cur_offset b.block.len) bs
AreBlocks [] cur_offset (b ∷ bs) = ⊥
AreBlocks (t ∷ ts) cur_offset [] = ⊥

abbrev pub IsColumn : List ℕ → BlockHeader → Type 0
IsColumn ts h = (h.current_offset < u64_mod) × (h.blocks ≡ none) × AreBlocks ts 0 h.block_list

abbrev pub AreColumns : List ℕ → ℕ → List BlockHeader → Type 0
AreColumns ts zero [] = Unit {0}
AreColumns ts (suc n) [] = ⊥
AreColumns ts zero (h ∷ hs) = ⊥
AreColumns ts (suc n) (h ∷ hs) = IsColumn ts h × AreColumns ts n hs

-- The traffic of the blocks: one for each time stamp, and no time stamp more than a uint32 behind the one
-- before.
abbrev pub AreTraffics : List ℕ → ℕ → List TrafficMetadata → Type 0
AreTraffics [] last_timestamp [] = Unit {0}
AreTraffics (t ∷ ts) last_timestamp (x ∷ xs) =
    (t < u64_mod)
    × (sub_u64 t last_timestamp ≤ max_uint32)
    × (x.num_v4_entries ≤ max_uint32)
    × (x.num_v6_entries ≤ max_uint32)
    × (x.num_drops ≤ max_uint32)
    × AreTraffics ts t xs
AreTraffics [] last_timestamp (x ∷ xs) = ⊥
AreTraffics (t ∷ ts) last_timestamp [] = ⊥

-- Metadata of blocks at these times, the first of them and the others.
pub record IsStorable (first : ℕ) (later : List ℕ) (m : Metadata) : Type 0 where
  pub header_fits : AllFit (header_fields m)
  pub columns : AreColumns (first ∷ later) col_idx_count m.block_metadata
  pub traffics : AreTraffics (first ∷ later) first m.block_traffic

unfoldable pub blocks_image : List BlockAtTime → Bytes
blocks_image [] = []
blocks_image (b ∷ bs) = fields_image (block_fields b.block) ++ blocks_image bs

unfoldable pub column_image : BlockHeader → Bytes
column_image h = be_bytes 8 h.current_offset ++ blocks_image h.block_list

unfoldable pub columns_image : List BlockHeader → Bytes
columns_image [] = []
columns_image (h ∷ hs) = column_image h ++ columns_image hs

unfoldable pub traffics_image : List ℕ → ℕ → List TrafficMetadata → Bytes
traffics_image (t ∷ ts) last_timestamp (x ∷ xs) =
    fields_image (traffic_fields x (sub_u64 t last_timestamp)) ++ traffics_image ts t xs
traffics_image _ last_timestamp _ = []

unfoldable pub times_image : ℕ → List ℕ → List TrafficMetadata → Bytes
times_image first later xs = be_bytes 8 first ++ traffics_image (first ∷ later) first xs

unfoldable pub image : ℕ → List ℕ → Metadata → Bytes
image first later m =
    fields_image (header_fields m)
    ++ (columns_image m.block_metadata ++ times_image first later m.block_traffic)

length-blocks_image :
    (ts : List ℕ) (o : ℕ) (bs : List BlockAtTime)
    → AreBlocks ts o bs
    → length (blocks_image bs) ≡ 9 * length ts
unfolding blocks_image block_fields
length-blocks_image [] o [] h = refl
length-blocks_image [] o (b ∷ bs) h = absurd h
length-blocks_image (t ∷ ts) o [] h = absurd h
length-blocks_image (t ∷ ts) o (b ∷ bs) (_, _, _, _, _, h) = omega (
  arith,
  length-append (fields_image (block_fields b.block)) (blocks_image bs),
  length-fields_image (block_fields b.block),
  length-blocks_image ts (add_u64 o b.block.len) bs h,
)

pub length-columns_image :
    (ts : List ℕ) (n : ℕ) (hs : List BlockHeader)
    → AreColumns ts n hs
    → length (columns_image hs) ≡ n * (8 + 9 * length ts)
unfolding columns_image column_image
length-columns_image ts zero [] h = omega arith
length-columns_image ts (suc n) [] h = absurd h
length-columns_image ts zero (c ∷ hs) h = absurd h
length-columns_image ts (suc n) (c ∷ hs) ((_, _, h), hs_ok) = omega (
  arith,
  length-append (column_image c) (columns_image hs),
  length-append (be_bytes 8 c.current_offset) (blocks_image c.block_list),
  length-be_bytes 8 c.current_offset,
  length-blocks_image ts 0 c.block_list h,
  length-columns_image ts n hs hs_ok,
)

pub length-traffics_image :
    (ts : List ℕ) (last : ℕ) (xs : List TrafficMetadata)
    → AreTraffics ts last xs
    → (length (traffics_image ts last xs) ≡ 16 * length ts) × (length xs ≡ length ts)
unfolding traffics_image traffic_fields
length-traffics_image [] last [] h = (refl, refl)
length-traffics_image [] last (x ∷ xs) h = absurd h
length-traffics_image (t ∷ ts) last [] h = absurd h
length-traffics_image (t ∷ ts) last (x ∷ xs) (_, _, _, _, _, h) =
    let (image_length, count) = length-traffics_image ts t xs h in
    let fs = traffic_fields x (sub_u64 t last) in
    (
      omega (
        arith,
        length-append (fields_image fs) (traffics_image ts t xs),
        length-fields_image fs,
        image_length,
      ),
      ap suc count,
    )
