-- ===== src/Storage/Metadata/Emits.antt =====
-- What `Marshal` of gpdir.go writes, step by step.
use go_probe.Common.{
  ℕ, zero, suc, ◌^◌, ◌≤◌, ◌≡◌, refl, sym, List, [], ◌∷◌, true, false, ◌&&◌, subst, ltb, ge→ltb,
}
use go_probe.Common.Bytes.{be_bytes}
use go_probe.Common.Result.{◌>>=◌}
use go_probe.Common.Writer.{
  Emits, fields_image, put, put-Emits, put_list-Emits, done-Emits, then-Emits,
}
use go_probe.Types.Counters.{add_u64, sub_u64}
use go_probe.Storage.Blocks.{Block, BlockAtTime, BlockHeader}
use go_probe.Storage.Metadata.{TrafficMetadata}
use go_probe.Storage.Metadata.Marshal.{
  max_uint32, block_fields, traffic_fields, put_block, put_blocks, put_columns, put_traffic,
  put_traffics, put_times, traffic_exceeds, delta_exceeds,
}
use go_probe.Storage.Metadata.Image.{
  AreBlocks, AreColumns, AreTraffics, blocks_image, column_image, columns_image, traffics_image,
  times_image,
}

put_block-Emits :
    (b : Block)
    → b.len ≤ max_uint32
    → b.raw_len ≤ max_uint32
    → Emits (put_block b) (fields_image (block_fields b))
unfolding put_block
put_block-Emits b h k pre old rest g =
    rw (ge→ltb _ _ h, ge→ltb _ _ k) (put_list-Emits (block_fields b) pre old rest g)

put_blocks-Emits :
    (ts : List ℕ) (o : ℕ) (bs : List BlockAtTime)
    → AreBlocks ts o bs
    → Emits (put_blocks bs) (blocks_image bs)
unfolding put_blocks blocks_image
put_blocks-Emits [] o [] h = done-Emits
put_blocks-Emits [] o (b ∷ bs) h = absurd h
put_blocks-Emits (t ∷ ts) o [] h = absurd h
put_blocks-Emits (t ∷ ts) o (b ∷ bs) (_, _, len_fits, raw_len_fits, _, h) =
    then-Emits (put_block b.block) (put_blocks bs) (fields_image (block_fields b.block))
      (blocks_image bs) (put_block-Emits b.block len_fits raw_len_fits)
      (put_blocks-Emits ts (add_u64 o b.block.len) bs h)

pub put_columns-Emits :
    (ts : List ℕ) (n : ℕ) (hs : List BlockHeader)
    → AreColumns ts n hs
    → Emits (put_columns hs) (columns_image hs)
unfolding put_columns columns_image column_image
put_columns-Emits ts zero [] h = done-Emits
put_columns-Emits ts (suc n) [] h = absurd h
put_columns-Emits ts zero (c ∷ hs) h = absurd h
put_columns-Emits ts (suc n) (c ∷ hs) ((_, _, h), hs_ok) =
    then-Emits (λ w. put (be_bytes 8 c.current_offset) w >>= put_blocks c.block_list)
      (put_columns hs) (column_image c) (columns_image hs)
      (then-Emits (put (be_bytes 8 c.current_offset)) (put_blocks c.block_list)
        (be_bytes 8 c.current_offset) (blocks_image c.block_list)
        (put-Emits (be_bytes 8 c.current_offset)) (put_blocks-Emits ts 0 c.block_list h))
      (put_columns-Emits ts n hs hs_ok)

put_traffic-Emits :
    (x : TrafficMetadata) (delta : ℕ)
    → delta ≤ max_uint32
    → x.num_v4_entries ≤ max_uint32
    → x.num_v6_entries ≤ max_uint32
    → x.num_drops ≤ max_uint32
    → Emits (put_traffic x delta) (fields_image (traffic_fields x delta))
unfolding put_traffic traffic_exceeds delta_exceeds
put_traffic-Emits x delta d v4 v6 drops pre old rest g =
    let no_excess : (ltb delta (2 ^ 63) && false) ≡ false =
      elim (ltb delta (2 ^ 63)) as (λ c. (c && false) ≡ false) [ true ↦ refl | false ↦ refl ] in
    rw (ge→ltb _ _ d, ge→ltb _ _ v4, ge→ltb _ _ v6, ge→ltb _ _ drops, no_excess)
      (put_list-Emits (traffic_fields x delta) pre old rest g)

put_traffics-Emits :
    (ts : List ℕ) (bs : List BlockAtTime) (o last : ℕ) (xs : List TrafficMetadata)
    → AreBlocks ts o bs
    → AreTraffics ts last xs
    → Emits (put_traffics xs bs last) (traffics_image ts last xs)
unfolding put_traffics traffics_image
put_traffics-Emits [] bs o last [] h k = done-Emits
put_traffics-Emits [] bs o last (x ∷ xs) h k = absurd k
put_traffics-Emits (t ∷ ts) bs o last [] h k = absurd k
put_traffics-Emits (t ∷ ts) [] o last (x ∷ xs) h k = absurd h
put_traffics-Emits (t ∷ ts) (b ∷ bs) o last (x ∷ xs) (e, _, _, _, _, h) (_, d, v4, v6, drops, k) =
    rw e (
      then-Emits (put_traffic x (sub_u64 t last)) (put_traffics xs bs t)
        (fields_image (traffic_fields x (sub_u64 t last))) (traffics_image ts t xs)
        (put_traffic-Emits x (sub_u64 t last) d v4 v6 drops)
        (put_traffics-Emits ts bs (add_u64 o b.block.len) t xs h k))

pub put_times-Emits :
    (first : ℕ) (later : List ℕ) (bs : List BlockAtTime) (o : ℕ) (xs : List TrafficMetadata)
    → AreBlocks (first ∷ later) o bs
    → AreTraffics (first ∷ later) first xs
    → Emits (put_times xs bs) (times_image first later xs)
unfolding put_times times_image
put_times-Emits first later [] o xs h k = absurd h
put_times-Emits first later (b ∷ bs) o xs h k =
    subst
      (λ s.
        Emits (λ w. put (be_bytes 8 s) w >>= put_traffics xs (b ∷ bs) s)
          (times_image first later xs))
      (sym h.0)
      (then-Emits (put (be_bytes 8 first)) (put_traffics xs (b ∷ bs) first) (be_bytes 8 first)
        (traffics_image (first ∷ later) first xs) (put-Emits (be_bytes 8 first))
        (put_traffics-Emits (first ∷ later) (b ∷ bs) o first xs h k))
