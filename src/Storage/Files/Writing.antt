-- ===== src/Storage/Files/Writing.antt =====
-- `writeBlock` of gpfile.go.
use mathlib.Core.List.{append-nil}
use go_probe.Common.{
  ℕ, suc, ◌+◌, ◌%◌, ◌^◌, ◌<◌, ◌≤◌, ◌≡◌, refl, sym, ap, ◌∙◌, ◌⊎◌, inl, inr, true, false, none, some,
  List, [], ◌∷◌, ◌++◌, ◌==◌, ltb, arith, length, length-append, Bool-cases, ltb→lt,
}
use go_probe.Common.Bytes.{Bytes}
use go_probe.Common.Result.{Result, ok}
use go_probe.Types.Counters.{add_u64}
use go_probe.Storage.Blocks.{Block, BlockHeader, ensure_lookup_map, block_index, add_block}
use go_probe.Storage.Blocks.Lookup.{ensured-IsIndexed, last_index}
use go_probe.Storage.Files.{
  Encoders, FileError, GpFile, encoder_type_null, writer_size, write_position, add_written,
  write_compressed, compress_block, write_new, write_block,
}
use go_probe.Storage.Files.Written.{
  Written, IsWritten, IsNew, block_of, bytes_of, Stores, bytes_of-append, last_index-IsNew,
}
use go_probe.Storage.Files.Appending.{
  flush-write_through, reset-write_through, added-Stores, add_zero,
}

-- What `writeBlock` may be called on: a file in write mode that holds some blocks, a time stamp that none
-- of them has, and data that is compressed to bytes which decompress to it. Where these are longer than
-- the data, they fit the buffer of the writer.
pub record IsWrite (encoders : Encoders) (g : GpFile) (ws : List Written) (timestamp : ℕ)
    (raw compressed : Bytes) : Type 0 where
  pub stores : Stores g.header g.disk ws
  pub at_end : write_position g ≡ length (bytes_of ws)
  pub writable : g.write_mode ≡ true
  pub is_new : IsNew timestamp ws
  pub compresses : encoders.compress raw ≡ some compressed
  pub not_null : (encoders.default_type == encoder_type_null) ≡ false
  pub decompresses : encoders.decompress encoders.default_type compressed (length raw) ≡ some raw
  pub fits_writer : (length compressed ≤ length raw) ⊎ (length compressed ≤ writer_size)
  pub raw_fits : length raw < 2 ^ 32
  pub compressed_fits : length compressed < 2 ^ 32
  pub file_fits : length (bytes_of ws) + length raw + length compressed < 2 ^ 64

-- A file that holds one more block.
abbrev pub Extends : Encoders → List Written → ℕ → Bytes → Result FileError GpFile → Type 0
Extends encoders ws timestamp raw r =
    (after : GpFile) × (w : Written) × (r ≡ ok after)
    × (w.timestamp ≡ timestamp)
    × (w.raw ≡ raw)
    × IsWritten encoders w
    × Stores after.header after.disk (ws ++ w ∷ [])
    × (write_position after ≡ length (bytes_of (ws ++ w ∷ [])))

-- The file with these bytes behind its blocks, and its writer behind them.
abbrev extended : GpFile → List Written → Bytes → Bytes → GpFile
extended g ws bs more = record g {
  disk = bytes_of ws ++ (bs ++ more);
  writer = some (record { position = length (bytes_of ws) + length bs; buffered = [] });
}

-- The block is listed.
add_written-Extends :
    (encoders : Encoders) (g : GpFile) (ws : List Written) (w : Written) (more : Bytes)
    → Stores g.header g.disk ws
    → IsWritten encoders w
    → length (bytes_of ws) + length w.stored < 2 ^ 64
    → Extends encoders ws w.timestamp w.raw (
        ok (
          add_written
            (extended g ws w.stored more)
            w.timestamp
            (length w.stored)
            (length w.raw)
            w.encoder_type))
unfolding add_written write_position
add_written-Extends encoders g ws w more s (raw_fits, stored_fits, how) fits =
    let block : Block = record {
      offset = g.header.current_offset;
      len = length w.stored % 2 ^ 32;
      raw_len = length w.raw % 2 ^ 32;
      encoder_type = w.encoder_type;
    } in
    let len_lem : length w.stored % 2 ^ 32 ≡ length w.stored = omega (arith, stored_fits) in
    let raw_len_lem : length w.raw % 2 ^ 32 ≡ length w.raw = omega (arith, raw_fits) in
    let same : block ≡ (block_of (length (bytes_of ws)) w).block = λ i. record {
      offset = s.current_offset_lem i;
      len = len_lem i;
      raw_len = raw_len_lem i;
      encoder_type = w.encoder_type;
    } in
    (
      add_written (extended g ws w.stored more) w.timestamp (length w.stored) (length w.raw)
          w.encoder_type,
      w,
      refl,
      refl,
      refl,
      (raw_fits, stored_fits, how),
      added-Stores g.header g.disk (bytes_of ws ++ (w.stored ++ more)) ws w block
          (add_u64 g.header.current_offset (length w.stored)) more s refl same
          (omega (arith, s.current_offset_lem, fits)),
      sym (length-append (bytes_of ws) w.stored) ∙ ap length (sym (bytes_of-append ws w)),
    )

module _ (encoders : Encoders) (g : GpFile) (ws : List Written) (timestamp : ℕ)
    (raw compressed : Bytes) (h : IsWrite encoders g ws timestamp raw compressed) where
  write_compressed-Extends :
      Extends encoders ws timestamp raw (ok (write_compressed encoders g timestamp raw compressed))
  unfolding write_compressed write_position add_written
  write_compressed-Extends = elim (Bool-cases (ltb (length raw) (length compressed))) [
    | inl longer ↦
        let small : length compressed ≤ writer_size = elim h.fits_writer [
          | inl shorter ↦ absurd (omega (arith, ltb→lt _ _ longer, shorter))
          | inr fits ↦ fits
        ] in
        let again : GpFile = record g {
          writer = some (record { position = length (bytes_of ws); buffered = [] });
        } in
        let (more, flushed) =
          flush-write_through again (bytes_of ws) h.stores.beyond raw h.stores.disk_lem in
        rw
          (longer, h.at_end, reset-write_through g (length (bytes_of ws)) compressed small, flushed)
          (add_written-Extends encoders g ws
            (record {
              timestamp = timestamp;
              raw = raw;
              stored = raw;
              encoder_type = encoder_type_null;
            })
            more h.stores (h.raw_fits, h.raw_fits, inl (refl, refl)) (omega (arith, h.file_fits)))
    | inr short ↦
        let (more, flushed) =
          flush-write_through g (bytes_of ws) h.stores.beyond compressed h.stores.disk_lem in
        rw (short, h.at_end, flushed)
          (add_written-Extends encoders g ws
            (record {
              timestamp = timestamp;
              raw = raw;
              stored = compressed;
              encoder_type = encoders.default_type;
            })
            more h.stores (h.raw_fits, h.compressed_fits, inr (h.not_null, h.decompresses))
            (omega (arith, h.file_fits)))
  ]

-- A block of no data is listed and nothing is written.
empty-Extends :
    (encoders : Encoders) (g : GpFile) (ws : List Written) (timestamp : ℕ)
    → Stores g.header g.disk ws
    → write_position g ≡ length (bytes_of ws)
    → g.write_mode ≡ true
    → Extends encoders ws timestamp [] (write_new encoders g timestamp [] none)
unfolding write_new add_block write_position
empty-Extends encoders g ws timestamp s at_end writable =
    let w : Written = record {
      timestamp = timestamp;
      raw = [];
      stored = [];
      encoder_type = encoder_type_null;
    } in
    let block : Block = record {
      offset = g.header.current_offset;
      len = 0;
      raw_len = 0;
      encoder_type = encoder_type_null;
    } in
    (
      record g { header = add_block g.header timestamp block },
      w,
      rw writable refl,
      refl,
      refl,
      (omega arith, omega arith, inl (refl, refl)),
      added-Stores g.header g.disk g.disk ws w block g.header.current_offset s.beyond s s.disk_lem
          (ap (λ o. (block_of o w).block) s.current_offset_lem)
          (s.current_offset_lem ∙ add_zero (length (bytes_of ws))),
      at_end ∙ ap length (sym (bytes_of-append ws w ∙ append-nil (bytes_of ws))),
    )

nonzero : (n : ℕ) → (suc n == 0) ≡ false
nonzero n = ground arith

write_new-Extends :
    (encoders : Encoders) (g : GpFile) (ws : List Written) (timestamp : ℕ) (raw compressed : Bytes)
    → IsWrite encoders g ws timestamp raw compressed
    → Extends encoders ws timestamp raw (write_new encoders g timestamp raw none)
unfolding write_new compress_block
write_new-Extends encoders g ws timestamp [] compressed h =
    empty-Extends encoders g ws timestamp h.stores h.at_end h.writable
write_new-Extends encoders g ws timestamp (b ∷ raw) compressed h =
    simp (h.writable, nonzero (length raw), h.compresses)
      (write_compressed-Extends encoders g ws timestamp (b ∷ raw) compressed h)

-- The look-up finds nothing for a new time stamp, and leaves a header that is still right.
looked_up :
    (header : BlockHeader) (disk : Bytes) (ws : List Written) (timestamp : ℕ)
    → Stores header disk ws
    → IsNew timestamp ws
    → ((block_index header timestamp).0 ≡ none) × Stores (block_index header timestamp).1 disk ws
unfolding block_index ensure_lookup_map
looked_up header disk ws timestamp s new = (
  ensured-IsIndexed header.blocks header.block_list timestamp s.is_indexed
      ∙ ap (λ bs. last_index 0 bs timestamp none) s.block_list_lem
      ∙ last_index-IsNew 0 0 timestamp ws none new,
  record {
    beyond = s.beyond;
    disk_lem = s.disk_lem;
    block_list_lem = s.block_list_lem;
    current_offset_lem = s.current_offset_lem;
    is_indexed = λ t. ensured-IsIndexed header.blocks header.block_list t s.is_indexed;
  },
)

-- `writeBlock` does not fail on a file in write mode for a time stamp that is new: the file holds the
-- data as one more block behind the others, under its time stamp, and stays as it must be for the next
-- block. The data are compressed to bytes that decompress to them and that, where they are longer than
-- the data, are no longer than the buffer of the writer; the lengths fit their widths.
pub write_block-Extends :
    (encoders : Encoders) (g : GpFile) (ws : List Written) (timestamp : ℕ) (raw compressed : Bytes)
    → IsWrite encoders g ws timestamp raw compressed
    → Extends encoders ws timestamp raw (write_block encoders g timestamp raw)
unfolding write_block block_index ensure_lookup_map write_position
write_block-Extends encoders g ws timestamp raw compressed h =
    let (absent, stores) = looked_up g.header g.disk ws timestamp h.stores h.is_new in
    let new_file : IsWrite encoders (record g { header = (block_index g.header timestamp).1 }) ws
        timestamp raw compressed =
      record {
        stores = stores;
        at_end = h.at_end;
        writable = h.writable;
        is_new = h.is_new;
        compresses = h.compresses;
        not_null = h.not_null;
        decompresses = h.decompresses;
        fits_writer = h.fits_writer;
        raw_fits = h.raw_fits;
        compressed_fits = h.compressed_fits;
        file_fits = h.file_fits;
      } in
    rw absent (
      write_new-Extends encoders (record g { header = (block_index g.header timestamp).1 }) ws
        timestamp raw compressed new_file)
