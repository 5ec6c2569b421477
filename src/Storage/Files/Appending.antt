-- ===== src/Storage/Files/Appending.antt =====
-- Bytes that go through the writer of a column file, and a block that is added to its header (gpfile.go,
-- storage.go).
use mathlib.Core.List.{append_assoc, append-nil}
use go_probe.Common.{
  ℕ, ◌+◌, ◌-◌, ◌≤◌, ◌≡◌, refl, sym, ap, ◌∙◌, inl, inr, some, List, [], ◌∷◌, ◌++◌, ltb, arith,
  length, drop, length-append, take-append_length, Bool-cases, ge→ltb,
}
use go_probe.Common.Bytes.{Bytes}
use go_probe.Storage.Blocks.{Block, BlockHeader, add_block}
use go_probe.Storage.Blocks.Lookup.{add_block-block_at_time}
use go_probe.Storage.Files.{
  GpFile, writer_size, write_at, flush, write_through, write_position, reset_writer, flush_writer,
}
use go_probe.Storage.Files.Written.{
  Written, block_of, blocks_of, bytes_of, Stores, blocks_of-append, bytes_of-append,
}

write_at-append :
    (kept beyond bs : Bytes)
    → write_at (kept ++ beyond) (length kept) bs
      ≡ kept ++ (bs ++ drop (length kept + length bs) (kept ++ beyond))
unfolding write_at
write_at-append kept beyond bs =
    let within : length kept - length (kept ++ beyond) ≡ 0 =
      omega (arith, length-append kept beyond) in
    rw (within, append-nil (kept ++ beyond), take-append_length kept beyond) refl

pub add_zero : (a : ℕ) → a ≡ a + 0
add_zero a = omega arith

-- What is written through the writer and flushed stands on disk behind what is kept.
pub flush-write_through :
    (g : GpFile) (kept beyond bs : Bytes)
    → g.disk ≡ kept ++ beyond
    → (more : Bytes) × (flush_writer (write_through g (length kept) bs) ≡ record g {
      disk = kept ++ (bs ++ more);
      writer = some (record { position = length kept + length bs; buffered = [] });
    })
unfolding flush_writer write_through flush
flush-write_through g kept beyond [] e = (
  beyond,
  λ i. record g {
    disk = e i;
    writer = some (record { position = add_zero (length kept) i; buffered = [] });
  },
)
flush-write_through g kept beyond (b ∷ bs) e =
    let on_disk =
      ap (λ d. write_at d (length kept) (b ∷ bs)) e ∙ write_at-append kept beyond (b ∷ bs) in
    (
      drop (length kept + length (b ∷ bs)) (kept ++ beyond),
      elim (Bool-cases (ltb writer_size (length (b ∷ bs)))) [
        | inl large ↦ rw (large, on_disk) refl
        | inr small ↦ rw (small, on_disk) refl
      ],
    )

-- What is held back is thrown away.
pub reset-write_through :
    (g : GpFile) (pos : ℕ) (bs : Bytes)
    → length bs ≤ writer_size
    → reset_writer (write_through g pos bs)
      ≡ record g { writer = some (record { position = pos; buffered = [] }) }
unfolding reset_writer write_through write_position
reset-write_through g pos bs h = rw (ge→ltb _ _ h) refl

-- The header and the file after a block was added to both.
pub added-Stores :
    (header : BlockHeader) (disk after : Bytes) (ws : List Written) (w : Written) (block : Block)
    (new_offset : ℕ) (more : Bytes)
    → Stores header disk ws
    → after ≡ bytes_of ws ++ (w.stored ++ more)
    → block ≡ (block_of (length (bytes_of ws)) w).block
    → new_offset ≡ length (bytes_of ws) + length w.stored
    → Stores
        (record (add_block header w.timestamp block) { current_offset = new_offset })
        after
        (ws ++ w ∷ [])
unfolding add_block
added-Stores header disk after ws w block new_offset more s on_disk same offset = record {
  beyond = more;
  disk_lem =
      on_disk
      ∙ sym (append_assoc (bytes_of ws) w.stored more)
      ∙ ap (λ bs. bs ++ more) (sym (bytes_of-append ws w));
  block_list_lem =
      ap (λ bs. bs ++ record { timestamp = w.timestamp; block = block } ∷ []) s.block_list_lem
      ∙ ap (λ (b : Block). blocks_of 0 ws ++ record { timestamp = w.timestamp; block = b } ∷ [])
          (same ∙ ap (λ o. (block_of o w).block) (omega arith))
      ∙ sym (blocks_of-append 0 ws w);
  current_offset_lem =
      offset ∙ sym (length-append (bytes_of ws) w.stored) ∙ ap length (sym (bytes_of-append ws w));
  is_indexed = (add_block-block_at_time header w.timestamp block 0 s.is_indexed).0;
}
