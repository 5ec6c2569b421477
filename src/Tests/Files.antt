-- ===== src/Tests/Files.antt =====
-- Runs of the column file of pkg/goDB/storage/gpfile.
use go_probe.Common.{
  ◌+◌, ◌%◌, ◌≤◌, ◌<◌, ◌≡◌, refl, inr, true, some, none, [], ◌∷◌, ◌++◌, take, arith,
}
use go_probe.Common.Result.{ok}
use go_probe.Storage.Blocks.{BlockHeader}
use go_probe.Storage.Files.{Encoders, GpFile, FileReader, write_block, write_position}
use go_probe.Storage.Files.Written.{Written, Stores, block_of}
use go_probe.Storage.Files.Writing.{IsWrite, Extends, write_block-Extends}
use go_probe.Types.Counters.{zero_counters}
use go_probe.Storage.Metadata.{TrafficMetadata, no_traffic}
use go_probe.Storage.Directory.{GpDir, write_blocks, dir_timestamp}
use go_probe.Storage.Directory.Times.{dir_timestamp-day}
use go_probe.Storage.Directory.Blocks.{
  ColumnWrite, AreExtended, total_from, write_blocks-AreExtended,
}

-- A compression that appends a byte.
abbrev appending : Encoders
appending = record {
  default_type = 3;
  compress = λ bs. some (bs ++ 255 ∷ []);
  decompress = λ t bs n. some (take n bs);
  is_known = λ t. true;
}

abbrev new_header : BlockHeader
new_header = record { block_list = []; current_offset = 0; blocks = none }

abbrev new_file : GpFile
new_file = record { header = new_header; disk = []; writer = none; write_mode = true }

new_file-Stores : Stores new_header [] []
new_file-Stores = record {
  beyond = [];
  disk_lem = refl;
  block_list_lem = refl;
  current_offset_lem = refl;
  is_indexed = tt;
}

first-IsWrite : IsWrite appending new_file [] 300 (7 ∷ 8 ∷ []) (7 ∷ 8 ∷ 255 ∷ [])
unfolding write_position
first-IsWrite = record {
  stores = new_file-Stores;
  at_end = refl;
  writable = refl;
  is_new = tt;
  compresses = refl;
  not_null = refl;
  decompresses = refl;
  fits_writer = inr (omega arith);
  raw_fits = omega arith;
  compressed_fits = omega arith;
  file_fits = omega arith;
}

write_block-Extends_example :
    Extends appending [] 300 (7 ∷ 8 ∷ []) (write_block appending new_file 300 (7 ∷ 8 ∷ []))
write_block-Extends_example =
    write_block-Extends appending new_file [] 300 (7 ∷ 8 ∷ []) (7 ∷ 8 ∷ 255 ∷ []) first-IsWrite

-- A block that is stored as it is, and one that is compressed.
abbrev plain : Written
plain = record { timestamp = 300; raw = 7 ∷ 8 ∷ []; stored = 7 ∷ 8 ∷ []; encoder_type = 1 }

abbrev packed : Written
packed = record { timestamp = 600; raw = 9 ∷ []; stored = 9 ∷ 255 ∷ []; encoder_type = 3 }

abbrev two_listed : BlockHeader
two_listed = record {
  block_list = block_of 0 plain ∷ block_of 2 packed ∷ [];
  current_offset = 4;
  blocks = none;
}

-- The file, not opened yet.
abbrev two_reader : FileReader
two_reader = record {
  header = two_listed;
  disk = 7 ∷ 8 ∷ 9 ∷ 255 ∷ 1 ∷ [];
  read_mode = true;
  file = none;
  last_seek_pos = 0;
  decoder = 0;
}

abbrev column_write : ColumnWrite
column_write = record {
  file = new_file;
  written = [];
  raw = 7 ∷ 8 ∷ [];
  compressed = 7 ∷ 8 ∷ 255 ∷ [];
}

abbrev traffic : TrafficMetadata
traffic = record { num_v4_entries = 1; num_v6_entries = 0; num_drops = 0 }

write_blocks-AreExtended_example :
    (after : GpDir) × (write_blocks appending 300 traffic zero_counters
        ((7 ∷ 8 ∷ []) ∷ (7 ∷ 8 ∷ []) ∷ [])
        (record {
          is_open = true;
          files = new_file ∷ new_file ∷ [];
          block_traffic = [];
          stats = record { counts = zero_counters; traffic = no_traffic };
        })
      ≡ ok after)
    × AreExtended appending 300 (column_write ∷ column_write ∷ []) after.files
    × (after.block_traffic ≡ [] ++ traffic ∷ [])
    × (after.stats.traffic ≡ total_from no_traffic after.block_traffic)
unfolding total_from
write_blocks-AreExtended_example =
    write_blocks-AreExtended appending 300 traffic zero_counters (column_write ∷ column_write ∷ [])
      [] (record { counts = zero_counters; traffic = no_traffic })
      (first-IsWrite, (first-IsWrite, tt)) refl

dir_timestamp-day_example :
    (dir_timestamp 1700000000 ≤ 1700000000)
    × (1700000000 < dir_timestamp 1700000000 + 86400)
    × (dir_timestamp 1700000000 % 86400 ≡ 0)
    × (dir_timestamp 1700003000 ≡ dir_timestamp 1700000000)
unfolding dir_timestamp
dir_timestamp-day_example =
    dir_timestamp-day 1700000000 1700003000 (omega arith) (omega arith) (omega arith) (omega arith)
