-- ===== src/Storage/Files/Seeking.antt =====
-- One read of gpfile.go: the file is at the block, its data are taken, and the position moves on.
use go_probe.Common.{
  ℕ, ◌+◌, ◌^◌, ◌%◌, ◌<◌, ◌≡◌, refl, sym, ap, ◌∙◌, inl, inr, true, Option, some, [], ◌∷◌, ◌++◌, ◌==◌,
  ==_iff, ◌||◌, Bool, if◌then◌else◌, arith, length, length-append, Bool-cases,
}
use go_probe.Common.Bytes.{Bytes}
use go_probe.Common.Slices.{slice, slice-append}
use go_probe.Common.Result.{Result, ok}
use go_probe.Storage.Blocks.{Block}
use go_probe.Storage.Files.{
  encoder_type_null, Encoders, FileReader, FileError, file_position, stored_len, decompress_block,
  seek_block, switch_decoder, read_from, after_read, position_after, read_switched, read_block,
}
use go_probe.Storage.Files.Written.{Written, IsWritten, block_of}

empty_lem : (xs : Bytes) → (length xs == 0) ≡ true → xs ≡ []
empty_lem [] h = refl
empty_lem (x ∷ xs) h = absurd (ground arith)

itself : (x : ℕ) → (x == x) ≡ true
itself x = ground arith

-- The bytes of a block are decompressed to its data.
decompress_block_lem :
    (encoders : Encoders) (offset : ℕ) (w : Written)
    → IsWritten encoders w
    → (stored_len (block_of offset w).block ≡ length w.stored)
      × (decompress_block encoders (block_of offset w).block (some w.stored) ≡ ok w.raw)
unfolding stored_len decompress_block
decompress_block_lem encoders offset w (_, _, how) = elim how [
  | inl (is_null, same) ↦ (rw is_null (ap length (sym same)), rw is_null (ap ok same))
  | inr (not_null, raw) ↦ (rw not_null refl, rw (not_null, raw, itself (length w.raw)) refl)
]

-- The same file, which may be read elsewhere.
abbrev pub IsSameFile : FileReader → FileReader → Type 0
IsSameFile g h = (h.header ≡ g.header) × (h.disk ≡ g.disk) × (h.read_mode ≡ g.read_mode)

-- The same file at a position that it is taken to be at.
abbrev IsAt : FileReader → FileReader → ℕ → Type 0
IsAt g h pos = IsSameFile g h × (file_position h ≡ pos) × (h.last_seek_pos ≡ pos)

seek_block-IsAt :
    (g : FileReader) (offset : ℕ)
    → g.last_seek_pos ≡ file_position g
    → IsAt g (seek_block g offset) offset
unfolding seek_block file_position
seek_block-IsAt g offset in_step = elim (Bool-cases (offset == g.last_seek_pos)) [
  | inl e ↦
      let same = (==_iff offset g.last_seek_pos).0 e in
      rw e ((refl, refl, refl), sym (same ∙ in_step), sym same)
  | inr e ↦ rw e ((refl, refl, refl), refl, refl)
]

switch_decoder-IsAt :
    (encoders : Encoders) (g : FileReader) (pos t : ℕ)
    → encoders.is_known t ≡ true
    → file_position g ≡ pos
    → g.last_seek_pos ≡ pos
    → (h : FileReader) × (switch_decoder encoders g t ≡ some h) × IsAt g h pos
unfolding switch_decoder file_position
switch_decoder-IsAt encoders g pos t known at last =
    elim (Bool-cases (t == encoder_type_null || t == g.decoder)) [
      | inl e ↦ (g, rw e refl, ((refl, refl, refl), at, last))
      | inr e ↦ (record g { decoder = t }, rw (e, known) refl, ((refl, refl, refl), at, last))
    ]

position_after_lem :
    (pre bs post : Bytes)
    → position_after (pre ++ (bs ++ post)) (length pre) (length bs) ≡ length pre + length bs
unfolding position_after
position_after_lem pre bs post =
    ground (arith, length-append pre (bs ++ post), length-append bs post)

module _ (encoders : Encoders) (pre post : Bytes) (w : Written) (v : IsWritten encoders w) where
  abbrev block : Block
  block = (block_of (length pre) w).block

  -- From the position of the block its data are read, and the position is then behind it.
  read_from_lem :
      (g : FileReader)
      → g.disk ≡ pre ++ (w.stored ++ post)
      → file_position g ≡ length pre
      → g.last_seek_pos ≡ length pre
      → length (pre ++ w.stored) < 2 ^ 64
      → read_from encoders g block ≡ (
        record g {
          file = some (length pre + length w.stored);
          last_seek_pos = length pre + length w.stored;
        },
        ok w.raw,
      )
  unfolding read_from after_read position_after
  read_from_lem g on_disk pos last small =
      let n = length w.stored in
      let (stored, raw) = decompress_block_lem encoders (length pre) w v in
      let taken : slice g.disk (length pre) (length pre + n) ≡ some w.stored =
        ap (λ (d : Bytes). slice d (length pre) (length pre + n)) on_disk
        ∙ slice-append pre w.stored post (length pre) (length pre + n) refl refl in
      let behind : position_after g.disk (length pre) n ≡ length pre + n =
        ap (λ (d : Bytes). position_after d (length pre) n) on_disk
        ∙ position_after_lem pre w.stored post in
      let further : (g.last_seek_pos + n) % 2 ^ 64 ≡ length pre + n =
        omega (arith, last, small, length-append pre w.stored) in
      ap
        (λ (k : ℕ).
          after_read (record g { file = some (position_after g.disk (file_position g) k) }) block
            (decompress_block encoders block
              (slice g.disk (file_position g) (file_position g + k))))
        stored
      ∙ ap
          (λ (p : ℕ).
            after_read (record g { file = some (position_after g.disk p n) }) block
              (decompress_block encoders block (slice g.disk p (p + n))))
          pos
      ∙ ap
          (λ (o : Option Bytes).
            after_read (record g { file = some (position_after g.disk (length pre) n) }) block
              (decompress_block encoders block o))
          taken
      ∙ ap
          (λ (r : Result FileError Bytes).
            after_read (record g { file = some (position_after g.disk (length pre) n) }) block r)
          raw
      ∙ ap
          (λ (p : ℕ).
            (record g { file = some p; last_seek_pos = (g.last_seek_pos + n) % 2 ^ 64 }, ok w.raw))
          behind
      ∙ ap (λ (l : ℕ). (record g { file = some (length pre + n); last_seek_pos = l }, ok w.raw))
          further

  abbrev read_further : FileReader → FileReader × Result FileError Bytes
  read_further g =
      read_switched encoders (seek_block g (length pre)) block
        (switch_decoder encoders (seek_block g (length pre)) w.encoder_type)

  -- The same for a file whose position is where it is taken to be.
  pub read_block_lem :
      (g : FileReader)
      → g.disk ≡ pre ++ (w.stored ++ post)
      → g.last_seek_pos ≡ file_position g
      → encoders.is_known w.encoder_type ≡ true
      → length (pre ++ w.stored) < 2 ^ 64
      → (h : FileReader) × (read_block encoders g block ≡ (h, ok w.raw))
        × IsSameFile g h
        × (h.last_seek_pos ≡ file_position h)
  unfolding read_block read_switched file_position
  read_block_lem g on_disk in_step known small = elim (Bool-cases (length w.raw == 0)) [
    | inl e ↦ (
      g,
      ap (λ (b : Bool). if b then (g, ok []) else read_further g) e
          ∙ ap (λ (bs : Bytes). (g, ok bs)) (sym (empty_lem w.raw e)),
      (refl, refl, refl),
      in_step,
    )
    | inr e ↦
        let there = seek_block-IsAt g (length pre) in_step in
        let (h, switched, at) =
          switch_decoder-IsAt encoders (seek_block g (length pre)) (length pre) w.encoder_type known
            there.1 there.2 in
        let same = at.0 in
        (
          _,
          ap (λ (b : Bool). if b then (g, ok []) else read_further g) e
              ∙ ap
                  (λ (o : Option FileReader).
                    read_switched encoders (seek_block g (length pre)) block o)
                  switched
              ∙ read_from_lem h (same.1 ∙ there.0.1 ∙ on_disk) at.1 at.2 small,
          (same.0 ∙ there.0.0, same.1 ∙ there.0.1, same.2 ∙ there.0.2),
          refl,
        )
  ]
