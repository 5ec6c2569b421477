-- ===== src/Storage/Directory.antt =====
-- `GPDir` of pkg/goDB/storage/gpfile/gpdir.go: `WriteBlocks`, which appends a block to the file of each
-- column, and the time stamp of the directory that a block belongs to. An error leaves a directory that
-- the writer of the database gives up, and is returned without it.
pub mod Times
pub mod Blocks
use go_probe.Common.{ℕ, ◌+◌, ◌-◌, ◌*◌, ◌/◌, ◌%◌, ◌^◌, Bool, List, [], ◌∷◌, ◌++◌, ltb, if◌then◌else◌}
use go_probe.Common.Bytes.{Bytes}
use go_probe.Common.Result.{Result, ok, err, panic, ◌>>=◌}
use go_probe.Types.Counters.{Counters}
use go_probe.Storage.Files.{Encoders, FileError, dir_not_open, GpFile, write_block}
use go_probe.Storage.Metadata.{TrafficMetadata, Stats, add_stats}

-- The files of all columns, which hold the headers of the metadata, and the rest of the metadata.
pub record GpDir : Type 0 where
  pub is_open : Bool
  pub files : List GpFile
  pub block_traffic : List TrafficMetadata
  pub stats : Stats

-- The loop over the columns; each column has data, since both are arrays of one length.
unfoldable pub write_columns :
    Encoders → ℕ → List GpFile → List Bytes → Result FileError (List GpFile)
write_columns encoders timestamp [] db_data = ok []
write_columns encoders timestamp (f ∷ fs) [] = panic
write_columns encoders timestamp (f ∷ fs) (block_data ∷ db_data) =
    write_block encoders f timestamp block_data >>= λ g.
    write_columns encoders timestamp fs db_data >>= λ gs. ok (g ∷ gs)

unfoldable pub write_blocks :
    Encoders → ℕ → TrafficMetadata → Counters → List Bytes → GpDir → Result FileError GpDir
write_blocks encoders timestamp block_traffic counters db_data d =
    if d.is_open
    then write_columns encoders timestamp d.files db_data >>= (λ fs. ok (record d {
      files = fs;
      block_traffic = d.block_traffic ++ block_traffic ∷ [];
      stats = add_stats d.stats (record { counts = counters; traffic = block_traffic });
    }))
    else err dir_not_open

abbrev pub epoch_day : ℕ
epoch_day = 86400

-- The quotient of int64s is rounded towards zero.
unfoldable pub dir_timestamp : ℕ → ℕ
dir_timestamp timestamp =
    if ltb timestamp (2 ^ 63)
    then timestamp / epoch_day * epoch_day
    else (2 ^ 64 - (2 ^ 64 - timestamp) / epoch_day * epoch_day) % 2 ^ 64
