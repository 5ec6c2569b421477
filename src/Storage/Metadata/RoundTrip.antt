-- ===== src/Storage/Metadata/RoundTrip.antt =====
-- `Marshal` and `Unmarshal` of gpdir.go are inverse to each other.
use mathlib.Core.List.{append-nil}
use go_probe.Common.{
  ℕ, zero, suc, ◌^◌, ◌<◌, ◌≤◌, ◌≡◌, subst, refl, sym, ap, ◌∙◌, List, [], ◌∷◌, ◌++◌, map, arith,
  length, length-append, lt→ltb, ge→ltb, ltb, if◌then◌else◌,
}
use go_probe.Common.Bytes.{Bytes, be_bytes, length-be_bytes}
use go_probe.Common.Result.{Result, ok, or_panic, ◌>>=◌}
use go_probe.Common.Writer.{
  Writer, Emits, put_list, put_list-Emits, then-Emits, fields_image, length-fields_image,
}
use go_probe.Common.Reader as Reader
use go_probe.Common.Reader.{
  Reader, Reads, return, lift, get_value, get_value-Reads, get_list-Reads, then-Reads, map-Reads,
  AllFit,
}
use go_probe.Types.Counters.{add_u64}
use go_probe.Storage.Blocks.{BlockAtTime, BlockHeader}
use go_probe.Storage.Metadata.{TrafficMetadata, Metadata, new_metadata, col_idx_count}
use go_probe.Storage.Metadata.Marshal.{
  MetadataError, header_fields, put_columns, put_times, marshal, marshal_size, first_list,
  set_timestamps, assemble, header_of_fields, get_header, get_columns, get_traffics, get_metadata,
  unmarshal,
}
use go_probe.Storage.Metadata.Image.{
  AreBlocks, AreColumns, AreTraffics, IsStorable, columns_image, traffics_image, times_image, image,
  length-columns_image, length-traffics_image,
}
use go_probe.Storage.Metadata.Emits.{put_columns-Emits, put_times-Emits}
use go_probe.Storage.Metadata.Reads.{
  untimed, untimed_column, timed, get_columns-Reads, get_traffics-Reads,
}

set_timestamps-untimed :
    (ts : List ℕ) (o last : ℕ) (bs : List BlockAtTime) (xs : List TrafficMetadata)
    → AreBlocks ts o bs
    → AreTraffics ts last xs
    → set_timestamps (timed ts xs) (map untimed bs) ≡ bs
unfolding set_timestamps
set_timestamps-untimed [] o last [] xs h k = refl
set_timestamps-untimed [] o last (b ∷ bs) xs h k = absurd h
set_timestamps-untimed (t ∷ ts) o last [] xs h k = absurd h
set_timestamps-untimed (t ∷ ts) o last (b ∷ bs) [] h k = absurd k
set_timestamps-untimed (t ∷ ts) o last (b ∷ bs) (x ∷ xs) (e, _, _, _, _, h) (_, _, _, _, _, k) =
    λ i.
      record { timestamp = sym e i; block = b.block }
      ∷ set_timestamps-untimed ts (add_u64 o b.block.len) t bs xs h k i

columns-untimed :
    (ts : List ℕ) (n last : ℕ) (hs : List BlockHeader) (xs : List TrafficMetadata)
    → AreColumns ts n hs
    → AreTraffics ts last xs
    → map
        (λ (h : BlockHeader). record h { block_list = set_timestamps (timed ts xs) h.block_list })
        (map untimed_column hs)
      ≡ hs
columns-untimed ts zero last [] xs h k = refl
columns-untimed ts (suc n) last [] xs h k = absurd h
columns-untimed ts zero last (c ∷ hs) xs h k = absurd h
columns-untimed ts (suc n) last (c ∷ hs) xs ((_, no_map, h), hs_ok) k = λ i.
    record {
      block_list = set_timestamps-untimed ts 0 last c.block_list xs h k i;
      current_offset = c.current_offset;
      blocks = sym no_map i;
    }
    ∷ columns-untimed ts n last hs xs hs_ok k i

traffics-timed :
    (ts : List ℕ) (last : ℕ) (xs : List TrafficMetadata)
    → AreTraffics ts last xs
    → map (λ (t : TrafficMetadata × ℕ). t.0) (timed ts xs) ≡ xs
traffics-timed [] last [] k = refl
traffics-timed [] last (x ∷ xs) k = absurd k
traffics-timed (t ∷ ts) last [] k = absurd k
traffics-timed (t ∷ ts) last (x ∷ xs) (_, _, _, _, _, k) =
    ap (λ rs. x ∷ rs) (traffics-timed ts t xs k)

-- The header is read back, with the number of blocks.
get_header-Reads :
    (m : Metadata)
    → AllFit (header_fields m)
    → Reads get_header
        (fields_image (header_fields m))
        (record new_metadata { version = m.version; stats = m.stats }, length m.block_traffic)
unfolding get_header header_of_fields header_fields
get_header-Reads m h pre rest = rw (get_list-Reads (header_fields m) h pre rest) refl

first_fits :
    (ts : List ℕ) (last : ℕ) (xs : List TrafficMetadata)
    → AreTraffics (last ∷ ts) last xs
    → last < 2 ^ 64
first_fits ts last [] k = absurd k
first_fits ts last (x ∷ xs) (t_fits, _, _, _, _, _) = t_fits

first_list-AreBlocks :
    (ts : List ℕ) (n : ℕ) (hs : List BlockHeader)
    → AreColumns ts (suc n) hs
    → AreBlocks ts 0 (first_list hs)
unfolding first_list
first_list-AreBlocks ts n [] h = absurd h
first_list-AreBlocks ts n (c ∷ hs) ((_, _, h), _) = h

module _ (first : ℕ) (later : List ℕ) (m : Metadata) (m_ok : IsStorable first later m) where
  abbrev times : List ℕ
  times = first ∷ later

  abbrev header : Metadata
  header = record new_metadata { version = m.version; stats = m.stats }

  count : length m.block_traffic ≡ length times
  count = (length-traffics_image times first m.block_traffic m_ok.traffics).1

  restored : assemble header (map untimed_column m.block_metadata) (timed times m.block_traffic) ≡ m
  unfolding assemble
  restored i = record {
    block_metadata =
        columns-untimed times col_idx_count first m.block_metadata m.block_traffic m_ok.columns
          m_ok.traffics i;
    block_traffic = traffics-timed times first m.block_traffic m_ok.traffics i;
    stats = m.stats;
    version = m.version;
  }

  get_metadata-Reads : Reads get_metadata (image first later m) m
  unfolding get_metadata image times_image
  get_metadata-Reads =
      let columns = map untimed_column m.block_metadata in
      let traffics = traffics_image times first m.block_traffic in
      let with_traffics : ℕ → Reader Metadata = λ t.
        Reader.◌>>=◌ (get_traffics (length times) t) λ ts. return (assemble header columns ts) in
      let with_times : List BlockHeader → Reader Metadata = λ hs.
        Reader.◌>>=◌ (get_value 8)
          λ t. Reader.◌>>=◌ (get_traffics (length times) t) λ ts. return (assemble header hs ts) in
      let with_columns : Metadata × ℕ → Reader Metadata = λ h.
        Reader.◌>>=◌ (get_columns col_idx_count h.1) λ hs.
          Reader.◌>>=◌ (get_value 8)
            λ t. Reader.◌>>=◌ (get_traffics h.1 t) λ ts. return (assemble h.0 hs ts) in
      then-Reads get_header with_columns (fields_image (header_fields m))
        (columns_image m.block_metadata ++ (be_bytes 8 first ++ traffics)) (header, length times) m
        (subst (λ n. Reads get_header (fields_image (header_fields m)) (header, n)) count
          (get_header-Reads m m_ok.header_fits))
        (then-Reads (get_columns col_idx_count (length times)) with_times
          (columns_image m.block_metadata) (be_bytes 8 first ++ traffics) columns m
          (get_columns-Reads times col_idx_count m.block_metadata m_ok.columns)
          (then-Reads (get_value 8) with_traffics (be_bytes 8 first) traffics first m
            (get_value-Reads 8 first (first_fits later first m.block_traffic m_ok.traffics))
            (subst (λ r. Reads (with_traffics first) traffics r) restored
              (map-Reads (get_traffics (length times) first) (assemble header columns) traffics
                (timed times m.block_traffic)
                (get_traffics-Reads times first m.block_traffic
                  (first_fits later first m.block_traffic m_ok.traffics) m_ok.traffics)))))

  length-image : length (image first later m) ≡ marshal_size (length m.block_traffic)
  unfolding image times_image marshal_size header_fields
  length-image = omega (
    arith,
    count,
    length-append (fields_image (header_fields m))
        (columns_image m.block_metadata ++ times_image first later m.block_traffic),
    length-append (columns_image m.block_metadata) (times_image first later m.block_traffic),
    length-append (be_bytes 8 first) (traffics_image times first m.block_traffic),
    length-be_bytes 8 first,
    length-fields_image (header_fields m),
    length-columns_image times col_idx_count m.block_metadata m_ok.columns,
    length-traffics_image times first m.block_traffic m_ok.traffics,
  )

  marshal_lem :
      (pooled : Bytes)
      → length pooled ≡ marshal_size (length m.block_traffic)
      → marshal m pooled ≡ ok (image first later m)
  unfolding marshal image
  marshal_lem pooled h =
      let body : Writer → Result MetadataError Writer = λ w.
        if ltb 0 (length m.block_traffic)
        then put_columns m.block_metadata w
          >>= put_times m.block_traffic (first_list m.block_metadata)
        else ok w in
      let some_block : 0 < length m.block_traffic = omega (arith, count) in
      let body-Emits : Emits body
          (columns_image m.block_metadata ++ times_image first later m.block_traffic) =
        λ pre old rest g. rw (lt→ltb _ _ some_block) (
          then-Emits (put_columns m.block_metadata)
            (put_times m.block_traffic (first_list m.block_metadata))
            (columns_image m.block_metadata) (times_image first later m.block_traffic)
            (put_columns-Emits times col_idx_count m.block_metadata m_ok.columns)
            (put_times-Emits first later (first_list m.block_metadata) 0 m.block_traffic
              (first_list-AreBlocks times 7 m.block_metadata m_ok.columns) m_ok.traffics)
            pre old rest g) in
      let written =
        then-Emits (put_list (header_fields m)) body (fields_image (header_fields m)) _
          (put_list-Emits (header_fields m)) body-Emits [] pooled [] (h ∙ sym length-image) in
      ap (λ r. r >>= λ (w : Writer). ok w.buffer) (rw (append-nil pooled) at written)
      ∙ ap ok (append-nil (image first later m))

  -- Metadata of at least one block that can be stored is marshalled without an error, whatever a pooled
  -- buffer of the length asked for held before, and unmarshalling the file restores it, the time stamps
  -- and offsets of the blocks included.
  pub unmarshal-marshal :
      (pooled : Bytes)
      → length pooled ≡ marshal_size (length m.block_traffic)
      → (marshal m pooled >>= unmarshal) ≡ ok m
  unfolding unmarshal marshal_size
  unmarshal-marshal pooled h =
      let long : 16 ≤ length (image first later m) = omega (arith, length-image) in
      let parsed = rw (append-nil (image first later m)) at (get_metadata-Reads [] []) in
      rw (marshal_lem pooled h, ge→ltb _ _ long)
        (ap (λ r. or_panic r >>= λ (s : Metadata × ℕ). ok s.0) parsed)
