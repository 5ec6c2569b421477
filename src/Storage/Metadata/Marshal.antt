-- ===== src/Storage/Metadata/Marshal.antt =====
-- `Marshal` and `Unmarshal` of gpdir.go. The file is a byte slice: `Marshal` fills a buffer that the
-- memory pool delivers, whatever it holds, and the file is what `Unmarshal` reads.
use go_probe.Common.{
  ℕ, zero, suc, ◌+◌, ◌-◌, ◌*◌, ◌%◌, ◌^◌, Bool, ◌&&◌, ◌||◌, Option, none, some, List, [], ◌∷◌, ltb,
  length, if◌then◌else◌, map,
}
use go_probe.Common.Bytes.{Bytes, be_bytes}
use go_probe.Common.Result.{Result, ok, err, panic, ◌>>=◌, or_panic}
use go_probe.Common.Writer.{Writer, Fields, put, put_list}
use go_probe.Common.Reader as Reader
use go_probe.Common.Reader.{Reader, return, lift, get_value, get_list}
use go_probe.Types.Counters.{add_u64, sub_u64}
use go_probe.Storage.Blocks.{Block, BlockAtTime, BlockHeader}
use go_probe.Storage.Metadata.{TrafficMetadata, Metadata, new_metadata, col_idx_count}

pub data MetadataError : Type 0 where
  exceeds_encoding_size input_size_too_small : MetadataError

abbrev pub max_uint32 : ℕ
max_uint32 = 2 ^ 32 - 1

abbrev pub Step : Type 0
Step = Writer → Result MetadataError Writer

unfoldable pub marshal_size : ℕ → ℕ
marshal_size n_blocks =
    8
    + 8
    + 8
    + 8
    + 8
    + 8 * 4
    + 8
    + n_blocks * 4
    + n_blocks * 4
    + n_blocks * 4
    + n_blocks * 4
    + col_idx_count * 8
    + n_blocks * col_idx_count * 4
    + n_blocks * col_idx_count * 4
    + n_blocks * col_idx_count

-- The numbers of the header, each a uint64.
unfoldable pub header_fields : Metadata → Fields
header_fields m =
    (8, m.version)
    ∷ (8, length m.block_traffic)
    ∷ (8, m.stats.traffic.num_v4_entries)
    ∷ (8, m.stats.traffic.num_v6_entries)
    ∷ (8, m.stats.traffic.num_drops)
    ∷ (8, m.stats.counts.bytes_rcvd)
    ∷ (8, m.stats.counts.bytes_sent)
    ∷ (8, m.stats.counts.packets_rcvd)
    ∷ (8, m.stats.counts.packets_sent)
    ∷ []

unfoldable pub block_fields : Block → Fields
block_fields b = (4, b.len) ∷ (4, b.raw_len) ∷ (1, b.encoder_type) ∷ []

unfoldable pub put_block : Block → Step
put_block b w =
    if ltb max_uint32 b.len || ltb max_uint32 b.raw_len
    then err exceeds_encoding_size
    else put_list (block_fields b) w

unfoldable pub put_blocks : List BlockAtTime → Step
put_blocks [] w = ok w
put_blocks (b ∷ bs) w = put_block b.block w >>= put_blocks bs

unfoldable pub put_columns : List BlockHeader → Step
put_columns [] w = ok w
put_columns (h ∷ hs) w =
    put (be_bytes 8 h.current_offset) w >>= put_blocks h.block_list >>= put_columns hs

-- A difference of int64s that is greater than maxUint32; a negative one is not.
unfoldable pub delta_exceeds : ℕ → Bool
delta_exceeds delta = ltb delta (2 ^ 63) && ltb max_uint32 delta

unfoldable pub traffic_exceeds : TrafficMetadata → Bool
traffic_exceeds t =
    ltb max_uint32 t.num_v4_entries
    || (ltb max_uint32 t.num_v6_entries || ltb max_uint32 t.num_drops)

-- A conversion to uint32 keeps the low 32 bits.
unfoldable pub traffic_fields : TrafficMetadata → ℕ → Fields
traffic_fields t delta =
    (4, t.num_v4_entries) ∷ (4, t.num_v6_entries) ∷ (4, t.num_drops) ∷ (4, delta % 2 ^ 32) ∷ []

unfoldable pub put_traffic : TrafficMetadata → ℕ → Step
put_traffic t delta w =
    if traffic_exceeds t || delta_exceeds delta
    then err exceeds_encoding_size
    else put_list (traffic_fields t delta) w

-- The loop over BlockTraffic, with the blocks of the first column that it has not reached; where there
-- are too few, their index is out of range.
unfoldable pub put_traffics : List TrafficMetadata → List BlockAtTime → ℕ → Step
put_traffics [] bs last_timestamp w = ok w
put_traffics (t ∷ ts) [] last_timestamp w =
    if traffic_exceeds t then err exceeds_encoding_size else panic
put_traffics (t ∷ ts) (b ∷ bs) last_timestamp w =
    put_traffic t (sub_u64 b.timestamp last_timestamp) w >>= put_traffics ts bs b.timestamp

-- BlockMetadata[0].BlockList
unfoldable pub first_list : List BlockHeader → List BlockAtTime
first_list [] = []
first_list (h ∷ hs) = h.block_list

unfoldable pub put_times : List TrafficMetadata → List BlockAtTime → Step
put_times ts [] w = panic
put_times ts (b ∷ bs) w = put (be_bytes 8 b.timestamp) w >>= put_traffics ts (b ∷ bs) b.timestamp

unfoldable pub marshal : Metadata → Bytes → Result MetadataError Bytes
marshal m pooled =
    put_list (header_fields m) (record { buffer = pooled; pos = 0 })
    >>= (λ w.
        if ltb 0 (length m.block_traffic)
        then put_columns m.block_metadata w
          >>= put_times m.block_traffic (first_list m.block_metadata)
        else ok w)
    >>= λ w. ok w.buffer

-- The loop over the blocks of a column, whose offsets add up from `cur_offset`; the time stamps are set
-- later.
unfoldable pub block_of_fields : ℕ → List ℕ → Option BlockAtTime
block_of_fields cur_offset (len ∷ raw_len ∷ encoder_type ∷ []) = some (record {
  timestamp = 0;
  block = record { offset = cur_offset; len = len; raw_len = raw_len; encoder_type = encoder_type };
})
block_of_fields cur_offset _ = none

unfoldable pub get_block : ℕ → Reader BlockAtTime
get_block cur_offset =
    Reader.◌>>=◌ (get_list (4 ∷ 4 ∷ 1 ∷ [])) λ vs. lift (block_of_fields cur_offset vs)

unfoldable pub get_blocks : ℕ → ℕ → Reader (List BlockAtTime)
get_blocks zero cur_offset = return []
get_blocks (suc n) cur_offset =
    Reader.◌>>=◌ (get_block cur_offset)
      λ b. Reader.◌>>=◌ (get_blocks n (add_u64 cur_offset b.block.len)) λ bs. return (b ∷ bs)

unfoldable pub get_column : ℕ → Reader BlockHeader
get_column n_blocks = Reader.◌>>=◌ (get_value 8) λ current_offset.
    Reader.◌>>=◌ (get_blocks n_blocks 0)
      λ bs. return (record { block_list = bs; current_offset = current_offset; blocks = none })

unfoldable pub get_columns : ℕ → ℕ → Reader (List BlockHeader)
get_columns zero n_blocks = return []
get_columns (suc columns) n_blocks =
    Reader.◌>>=◌ (get_column n_blocks)
      λ h. Reader.◌>>=◌ (get_columns columns n_blocks) λ hs. return (h ∷ hs)

-- The traffic of a block, and its time stamp.
unfoldable pub traffic_of_fields : ℕ → List ℕ → Option (TrafficMetadata × ℕ)
traffic_of_fields last_timestamp (v4 ∷ v6 ∷ drops ∷ delta ∷ []) = some (
  record { num_v4_entries = v4; num_v6_entries = v6; num_drops = drops },
  add_u64 last_timestamp delta,
)
traffic_of_fields last_timestamp _ = none

unfoldable pub get_traffic : ℕ → Reader (TrafficMetadata × ℕ)
get_traffic last_timestamp =
    Reader.◌>>=◌ (get_list (4 ∷ 4 ∷ 4 ∷ 4 ∷ [])) λ vs. lift (traffic_of_fields last_timestamp vs)

unfoldable pub get_traffics : ℕ → ℕ → Reader (List (TrafficMetadata × ℕ))
get_traffics zero last_timestamp = return []
get_traffics (suc n) last_timestamp =
    Reader.◌>>=◌ (get_traffic last_timestamp)
      λ t. Reader.◌>>=◌ (get_traffics n t.1) λ ts. return (t ∷ ts)

-- BlockMetadata[j].BlockList[i].Timestamp = thisTimestamp, for all i
unfoldable pub set_timestamps : List (TrafficMetadata × ℕ) → List BlockAtTime → List BlockAtTime
set_timestamps [] bs = bs
set_timestamps (t ∷ ts) [] = []
set_timestamps (t ∷ ts) (b ∷ bs) = record b { timestamp = t.1 } ∷ set_timestamps ts bs

unfoldable pub assemble : Metadata → List BlockHeader → List (TrafficMetadata × ℕ) → Metadata
assemble m hs ts = record m {
  block_metadata =
      map (λ (h : BlockHeader). record h { block_list = set_timestamps ts h.block_list }) hs;
  block_traffic = map (λ (t : TrafficMetadata × ℕ). t.0) ts;
}

-- The nine numbers of the header: the metadata without blocks, and the number of blocks.
unfoldable pub header_of_fields : List ℕ → Option (Metadata × ℕ)
header_of_fields
      (version ∷ n_blocks ∷ v4 ∷ v6 ∷ drops ∷ bytes_rcvd ∷ bytes_sent ∷ packets_rcvd ∷ packets_sent
        ∷ []) =
    some (
      record new_metadata {
        version = version;
        stats = record {
          counts = record {
            bytes_rcvd = bytes_rcvd;
            bytes_sent = bytes_sent;
            packets_rcvd = packets_rcvd;
            packets_sent = packets_sent;
          };
          traffic = record { num_v4_entries = v4; num_v6_entries = v6; num_drops = drops };
        };
      },
      n_blocks,
    )
header_of_fields _ = none

unfoldable pub get_header : Reader (Metadata × ℕ)
get_header =
    Reader.◌>>=◌ (get_list (8 ∷ 8 ∷ 8 ∷ 8 ∷ 8 ∷ 8 ∷ 8 ∷ 8 ∷ 8 ∷ []))
      λ vs. lift (header_of_fields vs)

unfoldable pub get_metadata : Reader Metadata
get_metadata = Reader.◌>>=◌ get_header λ h. Reader.◌>>=◌ (get_columns col_idx_count h.1) λ hs.
    Reader.◌>>=◌ (get_value 8)
      λ first. Reader.◌>>=◌ (get_traffics h.1 first) λ ts. return (assemble h.0 hs ts)

unfoldable pub unmarshal : Bytes → Result MetadataError Metadata
unmarshal stored =
    if ltb (length stored) 16
    then err input_size_too_small
    else or_panic (get_metadata stored 0) >>= λ r. ok r.0
