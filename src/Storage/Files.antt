-- ===== src/Storage/Files.antt =====
-- `GPFile` of pkg/goDB/storage/gpfile/gpfile.go: the file of a column, to which blocks are appended through
-- a bufio.Writer. The file is what is on disk, from its start on. The encoders are a parameter; the buffers
-- for (de)compressed data, which are allocated anew where they are too short, are left out. So are the
-- errors of the file system.
pub mod Written
mod Appending
pub mod Writing
mod Seeking
pub mod Reading
use go_probe.Common.{
  ℕ, zero, suc, ◌+◌, ◌-◌, ◌*◌, ◌%◌, ◌^◌, Bool, true, false, ◌||◌, Option, none, some, List, [], ◌∷◌,
  ◌++◌, leb, ltb, ◌==◌, if◌then◌else◌, length, take, drop, replicate, get_elem?,
}
use go_probe.Common.Bytes.{Bytes}
use go_probe.Common.Slices.{slice}
use go_probe.Common.Result.{Result, ok, err, panic, or_panic, ◌>>=◌}
use go_probe.Types.Counters.{add_u64}
use go_probe.Storage.Blocks.{Block, BlockAtTime, BlockHeader, block_index, add_block}

-- The numbers of the encoders in encoders.go that the file itself uses.
abbrev pub encoder_type_null : ℕ
encoder_type_null = 1

-- The encoders: `compress` of the default one, and for each type the decompression of all the bytes of a
-- block to a length, and the types of which encoder.New knows an encoder. The null encoder, which copies,
-- is no part of it.
pub record Encoders : Type 0 where
  pub default_type : ℕ
  pub compress : Bytes → Option Bytes
  pub decompress : ℕ → Bytes → ℕ → Option Bytes
  pub is_known : ℕ → Bool

pub data FileError : Type 0 where
  dir_not_open already_present wrong_mode not_compressed not_decompressed : FileError

-- Where the next byte is written to disk, and what a bufio.Writer holds back.
pub record FileWriter : Type 0 where
  pub position : ℕ
  pub buffered : Bytes

pub record GpFile : Type 0 where
  pub header : BlockHeader
  pub disk : Bytes
  pub writer : Option FileWriter
  pub write_mode : Bool

-- The default size of a bufio.Writer.
abbrev pub writer_size : ℕ
writer_size = 4096

-- A write at a position of a file, with zeros up to there where the file is shorter.
unfoldable pub write_at : Bytes → ℕ → Bytes → Bytes
write_at disk pos bs =
    take pos (disk ++ replicate (pos - length disk) 0) ++ (bs ++ drop (pos + length bs) disk)

-- Where nothing is held back, nothing is written.
unfoldable pub flush : GpFile → ℕ → Bytes → GpFile
flush g pos [] = record g { writer = some (record { position = pos; buffered = [] }) }
flush g pos (b ∷ bs) = record g {
  disk = write_at g.disk pos (b ∷ bs);
  writer = some (record { position = pos + length (b ∷ bs); buffered = [] });
}

-- `Write` of a bufio.Writer that holds nothing back: what is longer than its buffer goes to disk at once.
unfoldable pub write_through : GpFile → ℕ → Bytes → GpFile
write_through g pos bs =
    if ltb writer_size (length bs)
    then record g {
      disk = write_at g.disk pos bs;
      writer = some (record { position = pos + length bs; buffered = [] });
    }
    else record g { writer = some (record { position = pos; buffered = bs }) }

-- The position of the writer, which the opening of the file sets behind the last block.
unfoldable pub write_position : GpFile → ℕ
write_position g = elim g.writer [ none ↦ g.header.current_offset | some w ↦ w.position ]

-- What is held back is thrown away, and the position on disk stays.
unfoldable pub reset_writer : GpFile → GpFile
reset_writer g = record g { writer = some (record { position = write_position g; buffered = [] }) }

unfoldable pub flush_writer : GpFile → GpFile
flush_writer g = elim g.writer [ none ↦ g | some w ↦ flush g w.position w.buffered ]

unfoldable pub add_written : GpFile → ℕ → ℕ → ℕ → ℕ → GpFile
add_written g timestamp n_written raw_len encoder_type =
    let added = add_block g.header timestamp (record {
      offset = g.header.current_offset;
      len = n_written % 2 ^ 32;
      raw_len = raw_len % 2 ^ 32;
      encoder_type = encoder_type;
    }) in
    record g {
      header = record added { current_offset = add_u64 g.header.current_offset n_written };
    }

-- The part of `writeBlock` behind the compression, which `Compress` has written already.
unfoldable pub write_compressed : Encoders → GpFile → ℕ → Bytes → Bytes → GpFile
write_compressed encoders g timestamp block_data compressed =
    let written = write_through g (write_position g) compressed in
    if ltb (length block_data) (length compressed)
    then (let again = reset_writer written in
        let raw = write_through again (write_position again) block_data in
        add_written (flush_writer raw) timestamp (length block_data) (length block_data)
          encoder_type_null)
    else add_written (flush_writer written) timestamp (length compressed) (length block_data)
        encoders.default_type

unfoldable pub compress_block :
    Encoders → GpFile → ℕ → Bytes → Option Bytes → Result FileError GpFile
compress_block encoders g timestamp block_data none = err not_compressed
compress_block encoders g timestamp block_data (some compressed) =
    ok (write_compressed encoders g timestamp block_data compressed)

-- `writeBlock` for a time stamp whose index was looked up.
unfoldable pub write_new : Encoders → GpFile → ℕ → Bytes → Option ℕ → Result FileError GpFile
write_new encoders g timestamp block_data (some i) = err already_present
write_new encoders g timestamp block_data none =
    if g.write_mode
    then (if length block_data == 0
        then ok (record g {
          header = add_block g.header timestamp (record {
            offset = g.header.current_offset;
            len = 0;
            raw_len = 0;
            encoder_type = encoder_type_null;
          });
        })
        else compress_block encoders g timestamp block_data (encoders.compress block_data))
    else err wrong_mode

-- The look-up may build the map of the header.
unfoldable pub write_block : Encoders → GpFile → ℕ → Bytes → Result FileError GpFile
write_block encoders g timestamp block_data =
    let (idx, header) = block_index g.header timestamp in
    write_new encoders (record g { header = header }) timestamp block_data idx

-- The bytes of a block: all that the length says, or for the null encoder as many as are needed.
unfoldable pub stored_len : Block → ℕ
stored_len b = if b.encoder_type == encoder_type_null then b.raw_len else b.len

-- The state of a GPFile that reads: the position of the opened file, the position that the last read is
-- taken to have left it at, and the type of its encoder, which decodes until another one is needed.
pub record FileReader : Type 0 where
  pub header : BlockHeader
  pub disk : Bytes
  pub read_mode : Bool
  pub file : Option ℕ
  pub last_seek_pos : ℕ
  pub decoder : ℕ

-- open, if the file is not open yet.
unfoldable pub file_position : FileReader → ℕ
file_position g = elim g.file [ none ↦ 0 | some pos ↦ pos ]

-- Seek is called unless the last read is taken to have ended there.
unfoldable pub seek_block : FileReader → ℕ → FileReader
unfolding file_position
seek_block g offset =
    if offset == g.last_seek_pos
    then record g { file = some (file_position g) }
    else record g { file = some offset; last_seek_pos = offset }

-- The decoder of the block: another one is instantiated where the type is not that of the current one.
unfoldable pub switch_decoder : Encoders → FileReader → ℕ → Option FileReader
switch_decoder encoders g t =
    if t == encoder_type_null || t == g.decoder
    then some g
    else if encoders.is_known t
    then some (record g { decoder = t })
    else none

-- The bytes that a read takes; at the end of the file it takes fewer, or none.
unfoldable pub position_after : Bytes → ℕ → ℕ → ℕ
position_after disk pos n =
    if leb (pos + n) (length disk)
    then pos + n
    else if ltb pos (length disk)
    then length disk
    else pos

-- The data of a block from its bytes, `none` where they could not be read in full.
unfoldable pub decompress_block : Encoders → Block → Option Bytes → Result FileError Bytes
decompress_block encoders b none = err not_decompressed
decompress_block encoders b (some bs) =
    if b.encoder_type == encoder_type_null
    then ok bs
    else elim (encoders.decompress b.encoder_type bs b.raw_len) [
      | none ↦ err not_decompressed
      | some raw ↦ if length raw == b.raw_len then ok raw else err not_decompressed
    ]

-- The read and what follows: where it succeeds, lastSeekPos moves on by the length of the block.
unfoldable pub after_read :
    FileReader → Block → Result FileError Bytes → FileReader × Result FileError Bytes
after_read g b (ok raw) = (record g { last_seek_pos = (g.last_seek_pos + b.len) % 2 ^ 64 }, ok raw)
after_read g b (err e) = (g, err e)
after_read g b panic = (g, panic)

unfoldable pub read_from : Encoders → FileReader → Block → FileReader × Result FileError Bytes
unfolding position_after after_read
read_from encoders g b =
    let n = stored_len b in
    let pos = file_position g in
    after_read (record g { file = some (position_after g.disk pos n) }) b
      (decompress_block encoders b (slice g.disk pos (pos + n)))

unfoldable pub read_switched :
    Encoders → FileReader → Block → Option FileReader → FileReader × Result FileError Bytes
read_switched encoders g b none = (g, err not_decompressed)
read_switched encoders g b (some h) = read_from encoders h b

unfoldable pub read_block : Encoders → FileReader → Block → FileReader × Result FileError Bytes
unfolding seek_block switch_decoder read_switched
read_block encoders g b =
    if b.raw_len == 0
    then (g, ok [])
    else (let at_block = seek_block g b.offset in
        read_switched encoders at_block b (switch_decoder encoders at_block b.encoder_type))

-- `ReadBlockAtIndex`: the file after it and its result; an index out of range panics.
unfoldable pub read_block_at_index : Encoders → FileReader → ℕ → FileReader × Result FileError Bytes
unfolding read_block
read_block_at_index encoders g i =
    if g.read_mode
    then elim (get_elem? g.header.block_list i) [
      | none ↦ (g, panic)
      | some b ↦ read_block encoders g b.block
    ]
    else (g, err wrong_mode)

-- The reads of a loop over indices, on one file.
unfoldable pub read_all :
    Encoders → FileReader → List ℕ → FileReader × List (Result FileError Bytes)
unfolding read_block_at_index
read_all encoders g [] = (g, [])
read_all encoders g (i ∷ is) =
    let (h, r) = read_block_at_index encoders g i in
    let (k, rs) = read_all encoders h is in (k, r ∷ rs)
