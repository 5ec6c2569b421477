-- ===== src/Storage/Directory/Blocks.antt =====
-- `WriteBlocks` of gpdir.go.
use go_probe.Common.{ℕ, ◌≡◌, refl, sym, ap, ◌∙◌, true, List, [], ◌∷◌, ◌++◌, map, length}
use go_probe.Common.Bytes.{Bytes}
use go_probe.Common.Result.{ok}
use go_probe.Types.Counters.{Counters}
use go_probe.Storage.Files.{Encoders, GpFile, write_position}
use go_probe.Storage.Files.Written.{Written, IsWritten, Stores, bytes_of}
use go_probe.Storage.Files.Writing.{IsWrite, write_block-Extends}
use go_probe.Storage.Metadata.{TrafficMetadata, Stats, no_traffic, add_traffic, add_stats}
use go_probe.Storage.Directory.{GpDir, write_columns, write_blocks}

-- A column that a block is written to: its file with the blocks it holds, and the data with what they are
-- compressed to.
pub record ColumnWrite : Type 0 where
  pub file : GpFile
  pub written : List Written
  pub raw : Bytes
  pub compressed : Bytes

abbrev pub AreWrites : Encoders → ℕ → List ColumnWrite → Type 0
AreWrites encoders timestamp [] = Unit {0}
AreWrites encoders timestamp (c ∷ cs) =
    IsWrite encoders c.file c.written timestamp c.raw c.compressed × AreWrites encoders timestamp cs

-- Each file holds one more block, with the data of its column.
abbrev pub AreExtended : Encoders → ℕ → List ColumnWrite → List GpFile → Type 0
AreExtended encoders timestamp [] [] = Unit {0}
AreExtended encoders timestamp (c ∷ cs) (f ∷ fs) =
    ((w : Written) × (w.timestamp ≡ timestamp)
      × (w.raw ≡ c.raw)
      × IsWritten encoders w
      × Stores f.header f.disk (c.written ++ w ∷ [])
      × (write_position f ≡ length (bytes_of (c.written ++ w ∷ []))))
    × AreExtended encoders timestamp cs fs
AreExtended encoders timestamp [] (f ∷ fs) = ⊥
AreExtended encoders timestamp (c ∷ cs) [] = ⊥

-- The traffic of all blocks.
unfoldable pub total_from : TrafficMetadata → List TrafficMetadata → TrafficMetadata
total_from t [] = t
total_from t (u ∷ us) = total_from (add_traffic t u) us

total_from-append :
    (t : TrafficMetadata) (us : List TrafficMetadata) (v : TrafficMetadata)
    → total_from t (us ++ v ∷ []) ≡ add_traffic (total_from t us) v
unfolding total_from
total_from-append t [] v = refl
total_from-append t (u ∷ us) v = total_from-append (add_traffic t u) us v

write_columns-AreExtended :
    (encoders : Encoders) (timestamp : ℕ) (cs : List ColumnWrite)
    → AreWrites encoders timestamp cs
    → (fs : List GpFile) × (write_columns encoders timestamp
          (map (λ (c : ColumnWrite). c.file) cs)
          (map (λ (c : ColumnWrite). c.raw) cs)
        ≡ ok fs)
      × AreExtended encoders timestamp cs fs
unfolding write_columns
write_columns-AreExtended encoders timestamp [] h = ([], refl, tt)
write_columns-AreExtended encoders timestamp (c ∷ cs) (h, hs) =
    let (f, w, ran, at, raw, valid, stores, position) =
      write_block-Extends encoders c.file c.written timestamp c.raw c.compressed h in
    let (fs, rest, extended) = write_columns-AreExtended encoders timestamp cs hs in
    (f ∷ fs, rw (ran, rest) refl, ((w, at, raw, valid, stores, position), extended))

-- Where every column can be written to, an open directory gets one more block in each column, all under
-- the one time stamp, and its traffic in the list of the metadata; where the statistics were the total of
-- this list before, they are so afterwards.
pub write_blocks-AreExtended :
    (encoders : Encoders) (timestamp : ℕ) (block_traffic : TrafficMetadata) (counters : Counters)
    (cs : List ColumnWrite) (block_traffics : List TrafficMetadata) (stats : Stats)
    → AreWrites encoders timestamp cs
    → stats.traffic ≡ total_from no_traffic block_traffics
    → (after : GpDir) × (write_blocks encoders timestamp block_traffic counters
          (map (λ (c : ColumnWrite). c.raw) cs)
          (record {
            is_open = true;
            files = map (λ (c : ColumnWrite). c.file) cs;
            block_traffic = block_traffics;
            stats = stats;
          })
        ≡ ok after)
      × AreExtended encoders timestamp cs after.files
      × (after.block_traffic ≡ block_traffics ++ block_traffic ∷ [])
      × (after.stats.traffic ≡ total_from no_traffic after.block_traffic)
unfolding write_blocks add_stats
write_blocks-AreExtended encoders timestamp block_traffic counters cs block_traffics stats h total =
    let (fs, ran, extended) = write_columns-AreExtended encoders timestamp cs h in
    (
      record {
        is_open = true;
        files = fs;
        block_traffic = block_traffics ++ block_traffic ∷ [];
        stats = add_stats stats (record { counts = counters; traffic = block_traffic });
      },
      rw ran refl,
      extended,
      refl,
      ap (λ t. add_traffic t block_traffic) total
          ∙ sym (total_from-append no_traffic block_traffics block_traffic),
    )
