-- ===== src/Common/Slices.antt =====
-- Go slices of bytes whose capacity is their length: `none` is the run-time panic of an index or a
-- slice expression that is out of range.
use go_probe.Common.{
  get_elem?-middle, ℕ, zero, suc, ◌+◌, ◌-◌, ◌≤◌, ◌<◌, ◌≡◌, refl, sym, ap, Option, none, some, [],
  ◌∷◌, ◌++◌, ◌&&◌, arith, leb, ltb, le→leb, lt→ltb, if◌then◌else◌, length, get_elem?, set, take,
  drop, length-append, length-take, length-drop, take-append-drop, take-append_length,
  drop-append_length,
}
use go_probe.Common.Bytes.{Bytes}

-- xs[lo:hi]
unfoldable pub slice : Bytes → ℕ → ℕ → Option Bytes
slice xs lo hi =
    if leb lo hi && leb hi (length xs) then some (take (hi - lo) (drop lo xs)) else none

-- xs[i] = v
unfoldable pub store : Bytes → ℕ → ℕ → Option Bytes
store xs i v = if ltb i (length xs) then some (set xs i v) else none

-- The built-in `copy` onto the first `w` places of `xs`: the shorter of the two lengths counts.
unfoldable pub overwrite : ℕ → Bytes → Bytes → Bytes
overwrite zero src xs = xs
overwrite (suc w) [] xs = xs
overwrite (suc w) (s ∷ src) [] = []
overwrite (suc w) (s ∷ src) (x ∷ xs) = s ∷ overwrite w src xs

-- copy(xs[lo:lo+w], src)
unfoldable pub copy_at : Bytes → ℕ → ℕ → Bytes → Option Bytes
unfolding overwrite
copy_at xs lo w src =
    if leb (lo + w) (length xs) then some (take lo xs ++ overwrite w src (drop lo xs)) else none

pub overwrite-append :
    (w : ℕ) (src mid rest : Bytes)
    → length src ≡ length mid
    → length src ≤ w
    → overwrite w src (mid ++ rest) ≡ src ++ rest
unfolding overwrite
overwrite-append zero [] [] rest h k = refl
overwrite-append (suc w) [] [] rest h k = refl
overwrite-append w [] (m ∷ mid) rest h k = absurd (omega arith)
overwrite-append w (s ∷ src) [] rest h k = absurd (omega arith)
overwrite-append zero (s ∷ src) (m ∷ mid) rest h k = absurd (omega arith)
overwrite-append (suc w) (s ∷ src) (m ∷ mid) rest h k =
    ap (λ t. s ∷ t) (overwrite-append w src mid rest (omega arith) (omega arith))

set-append : (pre rest : Bytes) (x v : ℕ) → set (pre ++ x ∷ rest) (length pre) v ≡ pre ++ v ∷ rest
set-append [] rest x v = refl
set-append (p ∷ pre) rest x v = ap (λ t. p ∷ t) (set-append pre rest x v)

-- A list is cut in two at any place within it.
pub split_at :
    (n m : ℕ) (xs : Bytes)
    → length xs ≡ n + m
    → (pre : Bytes) × (rest : Bytes) × (xs ≡ pre ++ rest) × (length pre ≡ n) × (length rest ≡ m)
split_at n m xs h = (
  take n xs,
  drop n xs,
  sym (take-append-drop n xs),
  omega (arith, length-take n xs),
  omega (arith, length-drop n xs),
)

module _ (pre mid rest : Bytes) where
  -- The middle part of three is cut out, and is overwritten by a part of its length.
  pub slice-append :
      (lo hi : ℕ)
      → lo ≡ length pre
      → hi ≡ length pre + length mid
      → slice (pre ++ (mid ++ rest)) lo hi ≡ some mid
  unfolding slice
  slice-append lo hi g h =
      let low : length pre ≤ hi = omega arith in
      let high : hi ≤ length (pre ++ (mid ++ rest)) =
        omega (arith, length-append pre (mid ++ rest), length-append mid rest) in
      let width : hi - length pre ≡ length mid = omega arith in
      rw (g, le→leb _ _ low, le→leb _ _ high, width, drop-append_length pre (mid ++ rest))
        (ap some (take-append_length mid rest))

  pub copy_at-append :
      (lo w : ℕ) (src : Bytes)
      → lo ≡ length pre
      → length src ≡ length mid
      → length src ≤ w
      → w ≤ length mid + length rest
      → copy_at (pre ++ (mid ++ rest)) lo w src ≡ some (pre ++ (src ++ rest))
  unfolding copy_at
  copy_at-append lo w src g h k l =
      let fits : length pre + w ≤ length (pre ++ (mid ++ rest)) =
        omega (arith, length-append pre (mid ++ rest), length-append mid rest) in
      rw (
        g,
        le→leb _ _ fits,
        drop-append_length pre (mid ++ rest),
        take-append_length pre (mid ++ rest),
        overwrite-append w src mid rest h k,
      )

module _ (pre rest : Bytes) (x : ℕ) where
  pub store-append :
      (i v : ℕ) → i ≡ length pre → store (pre ++ x ∷ rest) i v ≡ some (pre ++ v ∷ rest)
  unfolding store
  store-append i v g =
      let fits : length pre < length (pre ++ x ∷ rest) =
        omega (arith, length-append pre (x ∷ rest)) in
      rw (g, lt→ltb _ _ fits, set-append pre rest x v)

  -- xs[i]
  pub get-append : (i : ℕ) → i ≡ length pre → get_elem? (pre ++ x ∷ rest) i ≡ some x
  get-append i g = rw g (get_elem?-middle pre rest x)
