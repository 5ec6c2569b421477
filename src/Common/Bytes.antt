-- ===== src/Common/Bytes.antt =====
-- Big-endian numbers of any width (encoding/binary's BigEndian.PutUint64, Uint16 and their kin).
use native.Mathlib.Nat.{pow-suc}
use go_probe.Common.{
  ℕ, zero, suc, ◌+◌, ◌*◌, ◌/◌, ◌%◌, ◌^◌, ◌<◌, ◌≡◌, refl, List, [], ◌∷◌, ◌++◌, arith, length,
  length-append,
}

abbrev pub Bytes : Type 0
Bytes = List ℕ

-- Every element is a byte.
abbrev pub AreBytes : Bytes → Type 0
AreBytes [] = Unit {0}
AreBytes (b ∷ bs) = (b < 256) × AreBytes bs

-- The last `w` bytes of `v`, the highest first.
unfoldable pub be_bytes : ℕ → ℕ → Bytes
be_bytes zero v = []
be_bytes (suc w) v = be_bytes w (v / 256) ++ (v % 256) ∷ []

be_fold : ℕ → Bytes → ℕ
be_fold acc [] = acc
be_fold acc (b ∷ bs) = be_fold (acc * 256 + b) bs

unfoldable pub be_value : Bytes → ℕ
unfolding be_fold
be_value bs = be_fold 0 bs

pub length-be_bytes : (w v : ℕ) → length (be_bytes w v) ≡ w
unfolding be_bytes
length-be_bytes zero v = refl
length-be_bytes (suc w) v =
    omega
      (arith, length-append (be_bytes w (v / 256)) ((v % 256) ∷ []), length-be_bytes w (v / 256))

be_fold-append :
    (acc : ℕ) (bs : Bytes) (b : ℕ) → be_fold acc (bs ++ b ∷ []) ≡ be_fold acc bs * 256 + b
unfolding be_fold
be_fold-append acc [] b = refl
be_fold-append acc (c ∷ bs) b = be_fold-append (acc * 256 + c) bs b

-- A number that fits the width is read back from its bytes.
pub be_value-be_bytes : (w v : ℕ) → v < 256 ^ w → be_value (be_bytes w v) ≡ v
unfolding be_value be_bytes
be_value-be_bytes zero v h = omega arith
be_value-be_bytes (suc w) v h = omega (
  arith,
  be_fold-append 0 (be_bytes w (v / 256)) (v % 256),
  be_value-be_bytes w (v / 256) (omega (arith, pow-suc 256 w)),
)
