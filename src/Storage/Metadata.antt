-- ===== src/Storage/Metadata.antt =====
-- The metadata of a directory of the database: pkg/goDB/storage/gpfile/gpdir.go. Counters and offsets
-- are uint64s, lengths uint32s, a time stamp is the bit pattern of an int64.
pub mod Marshal
pub mod Image
mod Emits
mod Reads
pub mod RoundTrip
use go_probe.Common.{ℕ, ◌+◌, ◌-◌, ◌%◌, ◌^◌, Bool, ◌&&◌, Option, none, List, [], leb, ltb, replicate}
use go_probe.Types.Counters.{Counters, zero_counters, add_u64, sub_u64}
use go_probe.Types.Counters as Counters
use go_probe.Storage.Blocks.{BlockHeader}

pub record TrafficMetadata : Type 0 where
  pub num_v4_entries : ℕ
  pub num_v6_entries : ℕ
  pub num_drops : ℕ

pub record Stats : Type 0 where
  pub counts : Counters
  pub traffic : TrafficMetadata

abbrev pub no_traffic : TrafficMetadata
no_traffic = record { num_v4_entries = 0; num_v6_entries = 0; num_drops = 0 }

unfoldable pub num_flows : TrafficMetadata → ℕ
num_flows t = add_u64 t.num_v4_entries t.num_v6_entries

unfoldable pub add_traffic : TrafficMetadata → TrafficMetadata → TrafficMetadata
add_traffic t u = record {
  num_v4_entries = add_u64 t.num_v4_entries u.num_v4_entries;
  num_v6_entries = add_u64 t.num_v6_entries u.num_v6_entries;
  num_drops = add_u64 t.num_drops u.num_drops;
}

unfoldable pub sub_traffic : TrafficMetadata → TrafficMetadata → TrafficMetadata
sub_traffic t u = record {
  num_v4_entries = sub_u64 t.num_v4_entries u.num_v4_entries;
  num_v6_entries = sub_u64 t.num_v6_entries u.num_v6_entries;
  num_drops = sub_u64 t.num_drops u.num_drops;
}

unfoldable pub add_stats : Stats → Stats → Stats
add_stats s t = record {
  counts = Counters.add s.counts t.counts;
  traffic = add_traffic s.traffic t.traffic;
}

unfoldable pub sub_stats : Stats → Stats → Stats
sub_stats s t = record {
  counts = Counters.sub s.counts t.counts;
  traffic = sub_traffic s.traffic t.traffic;
}

-- types.ColIdxCount
abbrev pub col_idx_count : ℕ
col_idx_count = 8

abbrev pub header_version : ℕ
header_version = 1

-- The array of the headers of the columns is a list.
pub record Metadata : Type 0 where
  pub block_metadata : List BlockHeader
  pub block_traffic : List TrafficMetadata
  pub stats : Stats
  pub version : ℕ

unfoldable pub new_metadata : Metadata
new_metadata = record {
  block_metadata =
      replicate col_idx_count (record { block_list = []; current_offset = 0; blocks = none });
  block_traffic = [];
  stats = record { counts = zero_counters; traffic = no_traffic };
  version = header_version;
}
