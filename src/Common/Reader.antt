-- ===== src/Common/Reader.antt =====
-- Reading a buffer field by field. A reader takes the buffer and a position and returns what it read
-- and the position behind it; `none` is the panic of a slice out of range.
use mathlib.Core.List.{append_assoc}
use go_probe.Common.{
  ℕ, ◌+◌, ◌^◌, ◌<◌, ◌≡◌, refl, sym, ap, ◌∙◌, Option, none, some, List, [], ◌∷◌, ◌++◌, arith, length,
  length-append,
}
use go_probe.Common as Base
use go_probe.Common.Bytes.{Bytes, be_bytes, length-be_bytes, be_value, be_value-be_bytes}
use go_probe.Common.Slices.{slice, slice-append}
use go_probe.Common.Writer.{Fields, fields_image}

abbrev pub Reader {ℓ} : Type ℓ → Type ℓ
Reader A = Bytes → ℕ → Option (A × ℕ)

unfoldable pub get_bytes : ℕ → Reader Bytes
get_bytes n buffer pos = Base.◌>>=◌ (slice buffer pos (pos + n)) λ bs. some (bs, pos + n)

-- binary.BigEndian.Uint64 and Uint32, and a single byte.
unfoldable pub get_value : ℕ → Reader ℕ
get_value n buffer pos = Base.◌>>=◌ (slice buffer pos (pos + n)) λ bs. some (be_value bs, pos + n)

infixl 5 ◌>>=◌
abbrev pub ◌>>=◌ {ℓ κ} : {A : Type ℓ} {B : Type κ} → Reader A → (A → Reader B) → Reader B
◌>>=◌ {A} {B} r f buffer pos =
    Base.◌>>=◌ {A = A × ℕ} {B = B × ℕ} (r buffer pos) λ s. f s.0 buffer s.1

abbrev pub return {ℓ} : {A : Type ℓ} → A → Reader A
return a buffer pos = some (a, pos)

-- A step that reads nothing and may panic.
abbrev pub lift {ℓ} : {A : Type ℓ} → Option A → Reader A
lift none buffer pos = none
lift (some a) buffer pos = some (a, pos)

-- In front of these bytes, the reader returns the value and steps over them.
abbrev pub Reads {ℓ} : {A : Type ℓ} → Reader A → Bytes → A → Type ℓ
Reads r bs a =
    (pre rest : Bytes) → r (pre ++ (bs ++ rest)) (length pre) ≡ some (a, length pre + length bs)

pub get_bytes-Reads : (n : ℕ) (bs : Bytes) → length bs ≡ n → Reads (get_bytes n) bs bs
unfolding get_bytes
get_bytes-Reads n bs e pre rest =
    rw (sym e, slice-append pre bs rest (length pre) (length pre + length bs) refl refl) refl

pub get_value-Reads : (n v : ℕ) → v < 256 ^ n → Reads (get_value n) (be_bytes n v) v
unfolding get_value
get_value-Reads n v h pre rest =
    rw
      (
        slice-append pre (be_bytes n v) rest (length pre) (length pre + n) refl
            (omega (arith, length-be_bytes n v)),
        be_value-be_bytes n v h,
        length-be_bytes n v,
      )
      refl

pub return-Reads {ℓ} : {A : Type ℓ} (a : A) → Reads (return a) [] a
return-Reads a pre rest = ap (λ n. some (a, n)) (omega arith)

pub then-Reads {ℓ κ} :
    {A : Type ℓ} {B : Type κ} (r : Reader A) (f : A → Reader B) (bs cs : Bytes) (a : A) (b : B)
    → Reads r bs a
    → Reads (f a) cs b
    → Reads (r >>= f) (bs ++ cs) b
then-Reads r f bs cs a b p q pre rest =
    let next : f a (pre ++ (bs ++ (cs ++ rest))) (length pre + length bs)
        ≡ some (b, length pre + length bs + length cs) =
      rw (← append_assoc pre bs (cs ++ rest), ← length-append pre bs) (q (pre ++ bs) rest) in
    rw (append_assoc bs cs rest, p pre (cs ++ rest), next, length-append bs cs)
      (ap (λ n. some (b, n)) (omega arith))

pub map-Reads {ℓ κ} :
    {A : Type ℓ} {B : Type κ} (r : Reader A) (f : A → B) (bs : Bytes) (a : A)
    → Reads r bs a
    → Reads (r >>= λ x. return (f x)) bs (f a)
map-Reads r f bs a p pre rest = rw (p pre rest) refl

abbrev pub widths : Fields → List ℕ
widths [] = []
widths ((w, v) ∷ fs) = w ∷ widths fs

abbrev pub values : Fields → List ℕ
values [] = []
values ((w, v) ∷ fs) = v ∷ values fs

-- Each number fits its width.
abbrev pub AllFit : Fields → Type 0
AllFit [] = Unit {0}
AllFit ((w, v) ∷ fs) = (v < 256 ^ w) × AllFit fs

unfoldable pub get_list : List ℕ → Reader (List ℕ)
get_list [] = return []
get_list (w ∷ ws) = get_value w >>= λ v. get_list ws >>= λ vs. return (v ∷ vs)

pub get_list-Reads :
    (fs : Fields) → AllFit fs → Reads (get_list (widths fs)) (fields_image fs) (values fs)
unfolding get_list
get_list-Reads [] h = return-Reads []
get_list-Reads ((w, v) ∷ fs) (h, hs) =
    then-Reads (get_value w) (λ u. get_list (widths fs) >>= λ us. return (u ∷ us)) (be_bytes w v)
      (fields_image fs) v (v ∷ values fs) (get_value-Reads w v h)
      (map-Reads (get_list (widths fs)) (λ us. v ∷ us) (fields_image fs) (values fs)
        (get_list-Reads fs hs))
