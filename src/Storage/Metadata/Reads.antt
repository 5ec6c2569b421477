-- ===== src/Storage/Metadata/Reads.antt =====
-- What `Unmarshal` of gpdir.go reads, step by step.
use go_probe.Common.{
  ℕ, zero, suc, ◌+◌, ◌%◌, ◌^◌, ◌<◌, ◌≤◌, ◌≡◌, refl, sym, ap, List, [], ◌∷◌, none, some, arith,
  length, map,
}
use go_probe.Common.Reader as Reader
use go_probe.Common.Reader.{
  Reader, Reads, return, lift, get_value, get_value-Reads, get_list, get_list-Reads, return-Reads,
  then-Reads, map-Reads, AllFit,
}
use go_probe.Common.Bytes.{be_bytes}
use go_probe.Common.Writer.{fields_image}
use go_probe.Types.Counters.{add_u64, sub_u64}
use go_probe.Storage.Blocks.{BlockAtTime, BlockHeader}
use go_probe.Storage.Metadata.{TrafficMetadata}
use go_probe.Storage.Metadata.Marshal.{
  max_uint32, block_fields, traffic_fields, block_of_fields, get_block, get_blocks, get_column,
  get_columns, traffic_of_fields, get_traffic, get_traffics,
}
use go_probe.Storage.Metadata.Image.{
  AreBlocks, IsColumn, AreColumns, AreTraffics, blocks_image, column_image, columns_image,
  traffics_image,
}

-- A block as it is read, before its time stamp is set.
abbrev pub untimed : BlockAtTime → BlockAtTime
untimed b = record b { timestamp = 0 }

abbrev pub untimed_column : BlockHeader → BlockHeader
untimed_column h = record h { block_list = map untimed h.block_list; blocks = none }

abbrev pub timed : List ℕ → List TrafficMetadata → List (TrafficMetadata × ℕ)
timed (t ∷ ts) (x ∷ xs) = (x, t) ∷ timed ts xs
timed _ _ = []

get_block-Reads :
    (b : BlockAtTime) (cur_offset : ℕ)
    → b.block.offset ≡ cur_offset
    → b.block.len ≤ max_uint32
    → b.block.raw_len ≤ max_uint32
    → b.block.encoder_type < 256
    → Reads (get_block cur_offset) (fields_image (block_fields b.block)) (untimed b)
unfolding get_block block_fields block_of_fields
get_block-Reads b cur_offset at l r e pre rest =
    rw
      (get_list-Reads (block_fields b.block) (omega arith, (omega arith, (omega arith, tt))) pre
        rest)
      (ap
        (λ (off : ℕ). some (
          record { timestamp = 0; block = record b.block { offset = off } },
          length pre + length (fields_image (block_fields b.block)),
        ))
        (sym at))

get_blocks-Reads :
    (ts : List ℕ) (o : ℕ) (bs : List BlockAtTime)
    → AreBlocks ts o bs
    → Reads (get_blocks (length ts) o) (blocks_image bs) (map untimed bs)
unfolding get_blocks blocks_image
get_blocks-Reads [] o [] h = return-Reads []
get_blocks-Reads [] o (b ∷ bs) h = absurd h
get_blocks-Reads (t ∷ ts) o [] h = absurd h
get_blocks-Reads (t ∷ ts) o (b ∷ bs) (_, at, l, r, e, h) =
    let next = get_blocks (length ts) (add_u64 o b.block.len) in
    then-Reads (get_block o)
      (λ c. Reader.◌>>=◌ (get_blocks (length ts) (add_u64 o c.block.len)) λ cs. return (c ∷ cs))
      (fields_image (block_fields b.block)) (blocks_image bs) (untimed b) (map untimed (b ∷ bs))
      (get_block-Reads b o at l r e)
      (map-Reads next (λ rs. untimed b ∷ rs) (blocks_image bs) (map untimed bs)
        (get_blocks-Reads ts (add_u64 o b.block.len) bs h))

get_column-Reads :
    (ts : List ℕ) (h : BlockHeader)
    → IsColumn ts h
    → Reads (get_column (length ts)) (column_image h) (untimed_column h)
unfolding get_column column_image
get_column-Reads ts h (offset_fits, no_map, bs_ok) pre rest =
    then-Reads (get_value 8)
      (λ x.
        Reader.◌>>=◌ (get_blocks (length ts) 0)
          λ bs. return (record { block_list = bs; current_offset = x; blocks = none }))
      (be_bytes 8 h.current_offset) (blocks_image h.block_list) h.current_offset (untimed_column h)
      (get_value-Reads 8 h.current_offset (omega arith))
      (map-Reads (get_blocks (length ts) 0)
        (λ bs. record { block_list = bs; current_offset = h.current_offset; blocks = none })
        (blocks_image h.block_list) (map untimed h.block_list)
        (get_blocks-Reads ts 0 h.block_list bs_ok))
      pre rest

pub get_columns-Reads :
    (ts : List ℕ) (n : ℕ) (hs : List BlockHeader)
    → AreColumns ts n hs
    → Reads (get_columns n (length ts)) (columns_image hs) (map untimed_column hs)
unfolding get_columns columns_image
get_columns-Reads ts zero [] h = return-Reads []
get_columns-Reads ts (suc n) [] h = absurd h
get_columns-Reads ts zero (c ∷ hs) h = absurd h
get_columns-Reads ts (suc n) (c ∷ hs) (c_ok, hs_ok) =
    then-Reads (get_column (length ts))
      (λ r. Reader.◌>>=◌ (get_columns n (length ts)) λ rs. return (r ∷ rs)) (column_image c)
      (columns_image hs) (untimed_column c) (map untimed_column (c ∷ hs))
      (get_column-Reads ts c c_ok)
      (map-Reads (get_columns n (length ts)) (λ rs. untimed_column c ∷ rs) (columns_image hs)
        (map untimed_column hs) (get_columns-Reads ts n hs hs_ok))

-- The difference to the time stamp before, added to it again, is the time stamp.
add-sub_u64 : (t last : ℕ) → t < 2 ^ 64 → last < 2 ^ 64 → add_u64 last (sub_u64 t last) ≡ t
add-sub_u64 t last h k = omega arith

get_traffic-Reads :
    (x : TrafficMetadata) (t last : ℕ)
    → t < 2 ^ 64
    → last < 2 ^ 64
    → sub_u64 t last ≤ max_uint32
    → x.num_v4_entries ≤ max_uint32
    → x.num_v6_entries ≤ max_uint32
    → x.num_drops ≤ max_uint32
    → Reads (get_traffic last) (fields_image (traffic_fields x (sub_u64 t last))) (x, t)
unfolding get_traffic traffic_fields traffic_of_fields
get_traffic-Reads x t last h k d v4 v6 drops pre rest =
    let fs = traffic_fields x (sub_u64 t last) in
    let small : sub_u64 t last % 2 ^ 32 ≡ sub_u64 t last = omega arith in
    rw
      (
        get_list-Reads fs (omega arith, (omega arith, (omega arith, (omega arith, tt)))) pre rest,
        small,
        add-sub_u64 t last h k,
      )
      refl

pub get_traffics-Reads :
    (ts : List ℕ) (last : ℕ) (xs : List TrafficMetadata)
    → last < 2 ^ 64
    → AreTraffics ts last xs
    → Reads (get_traffics (length ts) last) (traffics_image ts last xs) (timed ts xs)
unfolding get_traffics traffics_image
get_traffics-Reads [] last [] h k = return-Reads []
get_traffics-Reads [] last (x ∷ xs) h k = absurd k
get_traffics-Reads (t ∷ ts) last [] h k = absurd k
get_traffics-Reads (t ∷ ts) last (x ∷ xs) h (t_fits, d, v4, v6, drops, k) =
    then-Reads (get_traffic last)
      (λ r. Reader.◌>>=◌ (get_traffics (length ts) r.1) λ rs. return (r ∷ rs))
      (fields_image (traffic_fields x (sub_u64 t last))) (traffics_image ts t xs) (x, t)
      (timed (t ∷ ts) (x ∷ xs)) (get_traffic-Reads x t last t_fits h d v4 v6 drops)
      (map-Reads (get_traffics (length ts) t) (λ rs. (x, t) ∷ rs) (traffics_image ts t xs)
        (timed ts xs) (get_traffics-Reads ts t xs t_fits k))
