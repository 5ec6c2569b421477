-- ===== src/Common/Writer.antt =====
-- Writing to a buffer of a fixed length field by field: each write starts where the last one ended.
use mathlib.Core.List.{append_assoc, append-nil}
use go_probe.Common.{ℕ, ◌+◌, List, ◌≡◌, refl, sym, ◌∙◌, [], ◌∷◌, ◌++◌, arith, length, length-append}
use go_probe.Common.Bytes.{Bytes, be_bytes, length-be_bytes}
use go_probe.Common.Slices.{copy_at, copy_at-append, split_at}
use go_probe.Common.Result as Result
use go_probe.Common.Result.{Result, ok, err, panic, or_panic}

pub record Writer : Type 0 where
  pub buffer : Bytes
  pub pos : ℕ

-- copy(data[pos:pos+len(bs)], bs), with the position moved on.
unfoldable pub put {ℓ} : {E : Type ℓ} → Bytes → Writer → Result E Writer
put bs w =
    Result.◌>>=◌ (or_panic (copy_at w.buffer w.pos (length bs) bs))
      λ filled. ok (record { buffer = filled; pos = w.pos + length bs })

-- A writer behind the first part of its buffer.
abbrev pub behind : Bytes → Bytes → Writer
behind pre rest = record { buffer = pre ++ rest; pos = length pre }

module _ {ℓ} {E : Type ℓ} where
  -- The step writes these bytes over as many that stood there, and nothing else.
  abbrev pub Emits : (Writer → Result E Writer) → Bytes → Type ℓ
  Emits step bs =
      (pre old rest : Bytes)
      → length old ≡ length bs
      → step (behind pre (old ++ rest)) ≡ ok (behind (pre ++ bs) rest)

  pub put-Emits : (bs : Bytes) → Emits (put bs) bs
  unfolding put
  put-Emits bs pre old rest h =
      rw
        (
          copy_at-append pre old rest (length pre) (length bs) bs refl (sym h) (omega arith)
              (omega arith),
          ← length-append pre bs,
          ← append_assoc pre bs rest,
        )
        refl

  pub done-Emits : Emits ok []
  done-Emits pre [] rest h = simp append-nil refl
  done-Emits pre (x ∷ old) rest h = absurd (omega arith)

  pub then-Emits :
      (f g : Writer → Result E Writer) (a b : Bytes)
      → Emits f a
      → Emits g b
      → Emits (λ w. Result.◌>>=◌ (f w) g) (a ++ b)
  then-Emits f g a b p q pre old rest h =
      let (x, y, e, hx, hy) = split_at (length a) (length b) old (h ∙ length-append a b) in
      rw (e, append_assoc x y rest, p pre x (y ++ rest) hx, ← append_assoc pre a b)
        (q (pre ++ a) y rest hy)

-- Numbers with their widths, one behind the other, the highest byte first.
abbrev pub Fields : Type 0
Fields = List (ℕ × ℕ)

abbrev pub fields_image : Fields → Bytes
fields_image [] = []
fields_image ((w, v) ∷ fs) = be_bytes w v ++ fields_image fs

unfoldable pub put_list {ℓ} : {E : Type ℓ} → Fields → Writer → Result E Writer
put_list [] w = ok w
put_list ((n, v) ∷ fs) w = Result.◌>>=◌ (put (be_bytes n v) w) (put_list fs)

pub put_list-Emits {ℓ} : {E : Type ℓ} (fs : Fields) → Emits {E = E} (put_list fs) (fields_image fs)
unfolding put_list
put_list-Emits [] = done-Emits
put_list-Emits ((n, v) ∷ fs) =
    then-Emits (put (be_bytes n v)) (put_list fs) (be_bytes n v) (fields_image fs)
      (put-Emits (be_bytes n v)) (put_list-Emits fs)

abbrev pub total_width : Fields → ℕ
total_width [] = 0
total_width ((w, v) ∷ fs) = w + total_width fs

pub length-fields_image : (fs : Fields) → length (fields_image fs) ≡ total_width fs
length-fields_image [] = refl
length-fields_image ((w, v) ∷ fs) = omega (
  arith,
  length-append (be_bytes w v) (fields_image fs),
  length-be_bytes w v,
  length-fields_image fs,
)
