-- ===== src/Storage/Files/Written.antt =====
-- The blocks that were written to a column file, with their data.
use mathlib.Core.List.{append_assoc, append-nil}
use go_probe.Common.{
  ℕ, suc, ◌+◌, ◌^◌, ◌<◌, ◌≡◌, refl, sym, ap, ◌∙◌, ◌⊎◌, true, false, Option, some, List, [], ◌∷◌,
  ◌++◌, ◌==◌, arith, length, length-append,
}
use go_probe.Common.Bytes.{Bytes}
use go_probe.Storage.Blocks.{BlockAtTime, BlockHeader}
use go_probe.Storage.Blocks.Lookup.{IsIndexed, last_index}
use go_probe.Storage.Files.{Encoders, encoder_type_null}

-- The data of a block, and the bytes on disk.
pub record Written : Type 0 where
  pub timestamp : ℕ
  pub raw : Bytes
  pub stored : Bytes
  pub encoder_type : ℕ

-- The bytes are the data or decompress to them, and the lengths are uint32s.
abbrev pub IsWritten : Encoders → Written → Type 0
IsWritten encoders w =
    (length w.raw < 2 ^ 32)
    × (length w.stored < 2 ^ 32)
    × ((((w.encoder_type == encoder_type_null) ≡ true) × (w.stored ≡ w.raw))
        ⊎ (((w.encoder_type == encoder_type_null) ≡ false)
            × (encoders.decompress w.encoder_type w.stored (length w.raw) ≡ some w.raw)))

abbrev pub AreWritten : Encoders → List Written → Type 0
AreWritten encoders [] = Unit {0}
AreWritten encoders (w ∷ ws) = IsWritten encoders w × AreWritten encoders ws

-- No block has this time stamp.
abbrev pub IsNew : ℕ → List Written → Type 0
IsNew timestamp [] = Unit {0}
IsNew timestamp (w ∷ ws) = ((w.timestamp == timestamp) ≡ false) × IsNew timestamp ws

abbrev pub block_of : ℕ → Written → BlockAtTime
block_of offset w = record {
  timestamp = w.timestamp;
  block = record {
    offset = offset;
    len = length w.stored;
    raw_len = length w.raw;
    encoder_type = w.encoder_type;
  };
}

abbrev pub blocks_of : ℕ → List Written → List BlockAtTime
blocks_of offset [] = []
blocks_of offset (w ∷ ws) = block_of offset w ∷ blocks_of (offset + length w.stored) ws

abbrev pub bytes_of : List Written → Bytes
bytes_of [] = []
bytes_of (w ∷ ws) = w.stored ++ bytes_of ws

-- The file holds the bytes of the blocks, one behind the other from its start, and the header lists them.
pub record Stores (header : BlockHeader) (disk : Bytes) (ws : List Written) : Type 0 where
  pub beyond : Bytes
  pub disk_lem : disk ≡ bytes_of ws ++ beyond
  pub block_list_lem : header.block_list ≡ blocks_of 0 ws
  pub current_offset_lem : header.current_offset ≡ length (bytes_of ws)
  pub is_indexed : IsIndexed header

pub blocks_of-append :
    (offset : ℕ) (ws : List Written) (w : Written)
    → blocks_of offset (ws ++ w ∷ [])
      ≡ blocks_of offset ws ++ block_of (offset + length (bytes_of ws)) w ∷ []
blocks_of-append offset [] w = ap (λ o. block_of o w ∷ []) (omega arith)
blocks_of-append offset (x ∷ ws) w =
    let further : offset + length x.stored + length (bytes_of ws)
        ≡ offset + length (x.stored ++ bytes_of ws) =
      omega (arith, length-append x.stored (bytes_of ws)) in
    ap (λ bs. block_of offset x ∷ bs)
      (blocks_of-append (offset + length x.stored) ws w
        ∙ ap (λ o. blocks_of (offset + length x.stored) ws ++ block_of o w ∷ []) further)

pub bytes_of-append :
    (ws : List Written) (w : Written) → bytes_of (ws ++ w ∷ []) ≡ bytes_of ws ++ w.stored
bytes_of-append [] w = append-nil w.stored
bytes_of-append (x ∷ ws) w =
    ap (λ bs. x.stored ++ bs) (bytes_of-append ws w)
    ∙ sym (append_assoc x.stored (bytes_of ws) w.stored)

pub last_index-IsNew :
    (i offset timestamp : ℕ) (ws : List Written) (before : Option ℕ)
    → IsNew timestamp ws
    → last_index i (blocks_of offset ws) timestamp before ≡ before
last_index-IsNew i offset timestamp [] before h = refl
last_index-IsNew i offset timestamp (w ∷ ws) before (other, h) =
    rw (other, last_index)
      (last_index-IsNew (suc i) (offset + length w.stored) timestamp ws before h)
