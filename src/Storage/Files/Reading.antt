-- ===== src/Storage/Files/Reading.antt =====
-- `ReadBlockAtIndex` of gpfile.go, over and over on one file.
use go_probe.Common.{ℕ, ◌≡◌, true, Option, none, some, List, [], ◌∷◌, get_elem?}
use go_probe.Common.Bytes.{Bytes}
use go_probe.Common.Result.{Result, ok, panic}
use go_probe.Storage.Blocks.{BlockAtTime}
use go_probe.Storage.Files.{Encoders, FileReader, FileError, file_position, read_block}
use go_probe.Storage.Files.Written.{Written, Stores}

-- A file in read mode that stores the blocks, whose position is where it is taken to be.
pub record IsReading (encoders : Encoders) (ws : List Written) (g : FileReader) : Type 0 where
  pub stores : Stores g.header g.disk ws
  pub reads : g.read_mode ≡ true
  pub in_step : g.last_seek_pos ≡ file_position g

-- An encoder is known for each type of block.
abbrev pub AreKnown : Encoders → List Written → Type 0
AreKnown encoders [] = Unit {0}
AreKnown encoders (w ∷ ws) = (encoders.is_known w.encoder_type ≡ true) × AreKnown encoders ws

module _ (encoders : Encoders) (ws : List Written) where
  abbrev read_found : FileReader → Option BlockAtTime → FileReader × Result FileError Bytes
  read_found g none = (g, panic)
  read_found g (some b) = read_block encoders g b.block

  -- The blocks at a list of indices.
  abbrev pub AreAt : List ℕ → List Written → Type 0
  AreAt [] [] = Unit {0}
  AreAt (i ∷ is) (w ∷ vs) = (get_elem? ws i ≡ some w) × AreAt is vs
  AreAt _ _ = ⊥

  abbrev pub data_of : List Written → List (Result FileError Bytes)
  data_of [] = []
  data_of (w ∷ vs) = ok w.raw ∷ data_of vs
