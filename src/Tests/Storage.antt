-- ===== src/Tests/Storage.antt =====
-- Runs of the definitions of pkg/goDB/storage.
use go_probe.Common.{
  ◌⊎◌, ◌++◌, length, false, ◌+◌, ◌≡◌, refl, none, some, [], ◌∷◌, replicate, if◌then◌else◌, ◌==◌,
  arith,
}
use go_probe.Common.Result.{ok, ◌>>=◌}
use go_probe.Storage.Blocks.{
  BlockAtTime, BlockHeader, add_block, block_at_time, signed_lt, blocks_before, blocks_after,
}
use go_probe.Storage.Blocks.Around.{AreBefore, blocks_before-blocks_after}
use go_probe.Storage.Blocks.Lookup.{IsIndexed, add_block-block_at_time}
use go_probe.Storage.Metadata.{Metadata, col_idx_count, header_version}
use go_probe.Storage.Metadata.Marshal.{marshal, unmarshal, marshal_size, header_fields}
use go_probe.Storage.Metadata.Image.{IsColumn, AreColumns, IsStorable}
use go_probe.Storage.Metadata.RoundTrip.{unmarshal-marshal}

abbrev column : BlockHeader
column = record {
  block_list =
      record {
        timestamp = 300;
        block = record { offset = 0; len = 10; raw_len = 70; encoder_type = 1 };
      }
      ∷ record {
        timestamp = 600;
        block = record { offset = 10; len = 0; raw_len = 0; encoder_type = 0 };
      }
      ∷ [];
  current_offset = 10;
  blocks = none;
}

abbrev two_blocks : Metadata
two_blocks = record {
  block_metadata = replicate col_idx_count column;
  block_traffic =
      record { num_v4_entries = 3; num_v6_entries = 1; num_drops = 0 }
      ∷ record { num_v4_entries = 0; num_v6_entries = 0; num_drops = 2 }
      ∷ [];
  stats = record {
    counts = record { bytes_rcvd = 500; bytes_sent = 100; packets_rcvd = 5; packets_sent = 1 };
    traffic = record { num_v4_entries = 3; num_v6_entries = 1; num_drops = 2 };
  };
  version = header_version;
}

column-IsColumn : IsColumn (300 ∷ 600 ∷ []) column
column-IsColumn = (omega arith, refl, ground arith)

all_columns : AreColumns (300 ∷ 600 ∷ []) col_idx_count (replicate col_idx_count column)
all_columns = let c = column-IsColumn in (c, (c, (c, (c, (c, (c, (c, (c, tt))))))))

two_blocks-IsStorable : IsStorable 300 (600 ∷ []) two_blocks
unfolding header_fields
two_blocks-IsStorable = record {
  header_fits = ground arith;
  columns = all_columns;
  traffics = ground arith;
}

-- The buffer of the pool holds what was written before.
unmarshal-marshal_example : (marshal two_blocks (replicate 320 170) >>= unmarshal) ≡ ok two_blocks
unfolding marshal_size
unmarshal-marshal_example =
    unmarshal-marshal 300 (600 ∷ []) two_blocks two_blocks-IsStorable (replicate 320 170) refl

-- A second block at a time stamp takes the place of the first.
add_block-block_at_time_example :
    IsIndexed
      (add_block column 600 (record { offset = 10; len = 4; raw_len = 9; encoder_type = 1 }))
    × ((block_at_time
          (add_block column 600 (record { offset = 10; len = 4; raw_len = 9; encoder_type = 1 }))
          300).0
        ≡ (if 600 == 300
            then some (some (record { offset = 10; len = 4; raw_len = 9; encoder_type = 1 }))
            else (block_at_time column 300).0))
add_block-block_at_time_example =
    add_block-block_at_time column 600
      (record { offset = 10; len = 4; raw_len = 9; encoder_type = 1 }) 300 tt

-- The block at 600 is neither before nor after 400.
blocks_before-blocks_after_example :
    (AreBefore 400 column.block_list
      × (blocks_before column.block_list 400 ≡ column.block_list)
      × (blocks_after 0 column.block_list 400 ≡ ([], 0)))
    ⊎ ((b : BlockAtTime) × (signed_lt b.timestamp 400 ≡ false)
        × AreBefore 400 (blocks_before column.block_list 400)
        × (column.block_list
            ≡ blocks_before column.block_list 400 ++ b ∷ (blocks_after 0 column.block_list 400).0)
        × ((blocks_after 0 column.block_list 400).1
            ≡ 0 + length (blocks_before column.block_list 400) + 1))
blocks_before-blocks_after_example = blocks_before-blocks_after 0 column.block_list 400
