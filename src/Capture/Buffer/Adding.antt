-- ===== src/Capture/Buffer/Adding.antt =====
-- `Add` of pkg/capture/buffer.go.
use mathlib.Core.List.{append_assoc, append-nil}
use go_probe.Common.{
  ℕ, zero, suc, ◌+◌, ◌*◌, ◌-◌, ◌<◌, ◌≤◌, min, ◌≡◌, refl, sym, ap, ◌∙◌, ◌⊎◌, inl, inr, true, false,
  none, some, List, [], ◌∷◌, ◌++◌, leb, ◌==◌, arith, length, replicate, length-append,
  length-replicate, Bool-cases, leb→le, leb→gt,
}
use go_probe.Common.Bytes.{Bytes}
use go_probe.Common.Slices.{overwrite-append, split_at}
use go_probe.Common.Result.{ok, ◌>>=◌}
use go_probe.Common.Writer.{Writer}
use go_probe.Capture.Buffer.{
  Limits, LocalBuffer, Element, buf_element_size, grow, allocated, with_room, transfer, add,
}
use go_probe.Capture.Buffer.Held.{
  IsElement, doubled, AreLimits, IsSize, element_image, images, Holds, length-element_image,
  images-append, put_element-Emits,
}

le-doubled : (s j : ℕ) → s ≤ doubled s j
le-doubled s zero = omega arith
le-doubled s (suc j) = omega (arith, le-doubled s j)

-- A size below the limit can be doubled.
doubled-lt : (s j k : ℕ) → doubled s j < doubled s k → 2 * doubled s j ≤ doubled s k
doubled-lt s zero zero h = absurd (omega arith)
doubled-lt s zero (suc k) h = omega (arith, le-doubled s k)
doubled-lt s (suc j) zero h = absurd (omega (arith, le-doubled s j))
doubled-lt s (suc j) (suc k) h = omega (arith, doubled-lt s j k (omega arith))

-- A slice that is grown keeps what it held.
grow-append :
    (kept unused : Bytes) (new_size : ℕ)
    → length (kept ++ unused) ≤ new_size
    → (more : Bytes) × (grow (kept ++ unused) new_size ≡ kept ++ more)
      × (length kept + length more ≡ new_size)
unfolding grow
grow-append kept unused new_size h =
    let whole = kept ++ unused in
    let (front, back, e, front_length, back_length) =
      split_at (length whole) (new_size - length whole) (replicate new_size 0)
        (omega (arith, length-replicate {A = ℕ} new_size 0)) in
    (
      unused ++ back,
      rw (e, overwrite-append new_size whole front back (sym front_length) h)
          (append_assoc kept unused back),
      omega (arith, length-append kept unused, length-append unused back),
    )

-- What `Add` has before it makes room: some slice that holds the elements.
record IsSlice (limits : Limits) (contents kept : Bytes) : Type 0 where
  unused : Bytes
  contents_lem : contents ≡ kept ++ unused
  size_lem : (j : ℕ) × (length contents ≡ doubled limits.initial_buffer_size j)

empty_lem : (xs ys zs : Bytes) → xs ≡ ys ++ zs → length xs ≡ 0 → ys ≡ []
empty_lem xs [] zs e h = refl
empty_lem xs (y ∷ ys) zs e h = absurd (omega (arith, ap length e))

allocated-IsSlice :
    (limits : Limits) (contents kept unused : Bytes)
    → contents ≡ kept ++ unused
    → IsSize limits (length contents)
    → AreLimits limits
    → IsSlice limits (allocated limits contents) kept
unfolding allocated
allocated-IsSlice limits contents kept unused e (inl empty) w =
    rw (empty, empty_lem contents kept unused e empty)
      (record {
        unused = replicate limits.initial_buffer_size 0;
        contents_lem = refl;
        size_lem = (zero, length-replicate limits.initial_buffer_size 0);
      })
allocated-IsSlice limits contents kept unused e (inr (j, size)) (large, _, _) =
    let used : (length contents == 0) ≡ false =
      ground (arith, le-doubled limits.initial_buffer_size j) in
    rw used (record { unused = unused; contents_lem = e; size_lem = (j, size) })

-- Either the slice is full at its limit, or it has room for an element, behind what it held.
data IsRoomy (limits : Limits) (contents kept : Bytes) : Type 0 where
  full :
      with_room limits contents (length kept) ≡ none
      → limits.max_buffer_size ≤ length kept + buf_element_size
      → IsRoomy limits contents kept
  room :
      (old rest : Bytes)
      → with_room limits contents (length kept) ≡ some (kept ++ (old ++ rest))
      → length old ≡ buf_element_size
      → ((j : ℕ) × (length (kept ++ (old ++ rest)) ≡ doubled limits.initial_buffer_size j))
      → IsRoomy limits contents kept

unused-IsRoomy :
    (limits : Limits) (contents kept unused : Bytes)
    → with_room limits contents (length kept) ≡ some (kept ++ unused)
    → buf_element_size ≤ length unused
    → ((j : ℕ) × (length (kept ++ unused) ≡ doubled limits.initial_buffer_size j))
    → IsRoomy limits contents kept
unused-IsRoomy limits contents kept unused e h size =
    let (old, rest, cut, old_length, _) =
      split_at buf_element_size (length unused - buf_element_size) unused (omega arith) in
    room old rest (rw cut at e) old_length (rw cut at size)

with_room-IsRoomy :
    (limits : Limits) (contents kept : Bytes)
    → AreLimits limits
    → IsSlice limits contents kept
    → IsRoomy limits contents kept
unfolding with_room
with_room-IsRoomy limits contents kept (large, k, limit) s =
    let (j, size) = s.size_lem in
    let within = length-append kept s.unused in
    let as_parts = ap length s.contents_lem in
    elim (Bool-cases (leb (length contents) (length kept + buf_element_size))) [
      | inr loose ↦
          let enough = leb→gt _ _ loose in
          unused-IsRoomy limits contents kept s.unused (rw loose (ap some s.contents_lem))
            (omega (arith, within, as_parts)) (j, sym as_parts ∙ size)
      | inl tight ↦ elim (Bool-cases (leb limits.max_buffer_size (length contents))) [
        | inl at_limit ↦
            full (rw (tight, at_limit) refl) (omega (arith, leb→le _ _ tight, leb→le _ _ at_limit))
        | inr below ↦
            let smaller = leb→gt _ _ below in
            let doubles : 2 * length contents ≤ limits.max_buffer_size = omega (
              arith,
              size,
              limit,
              doubled-lt limits.initial_buffer_size j k (omega (arith, size, limit, smaller)),
            ) in
            let new_size = min limits.max_buffer_size (2 * length contents) in
            let new_size_lem : new_size ≡ 2 * length contents = omega (arith, doubles) in
            let (more, grown, more_length) =
              grow-append kept s.unused new_size (omega (arith, as_parts, new_size_lem)) in
            unused-IsRoomy limits contents kept more
              (rw (tight, below) (ap some (ap (λ c. grow c new_size) s.contents_lem ∙ grown)))
              (omega (
                arith,
                within,
                as_parts,
                more_length,
                new_size_lem,
                size,
                le-doubled limits.initial_buffer_size j,
              ))
              (suc j, omega (arith, length-append kept more, more_length, new_size_lem, size))
      ]
    ]

-- Behind the elements of the buffer, an element is written and the position moves behind it.
transfer_lem :
    (limits : Limits) (e : Element) (kept old rest contents : Bytes)
    → length old ≡ length (element_image e)
    → transfer e (length kept) (some (kept ++ (old ++ rest))) contents
      ≡ ok (
        true,
        record {
          contents = (kept ++ element_image e) ++ rest;
          buf_pos = length (kept ++ element_image e);
        },
      )
unfolding transfer
transfer_lem limits e kept old rest contents h =
    ap (λ r. r >>= λ (w : Writer). ok (true, record { contents = w.buffer; buf_pos = w.pos }))
      (put_element-Emits e kept old rest h)

-- With a limit that is the initial size doubled some times, `Add` does not panic on a buffer that holds
-- some elements: the buffer then holds the new one behind them, or it is full, up to the limit less one
-- element, and holds what it held.
pub add-Holds :
    (limits : Limits) (e : Element) (l : LocalBuffer) (es : List Element)
    → AreLimits limits
    → IsElement e
    → Holds limits l es
    → (after : LocalBuffer) × (((add limits e l ≡ ok (true, after))
          × Holds limits after (es ++ e ∷ []))
        ⊎ ((add limits e l ≡ ok (false, after))
            × Holds limits after es
            × (limits.max_buffer_size ≤ l.buf_pos + buf_element_size)))
unfolding add images transfer
add-Holds limits e l es w v s =
    let kept = images es in
    let contents = allocated limits l.contents in
    let slice = allocated-IsSlice limits l.contents kept s.unused s.contents_lem s.size_lem w in
    elim (with_room-IsRoomy limits contents kept w slice) [
      | full no_room at_limit ↦ (
        record { contents = contents; buf_pos = length kept },
        inr (
          ap (λ p. transfer e p (with_room limits contents p) contents) s.buf_pos_lem
              ∙ ap (λ o. transfer e (length kept) o contents) no_room,
          record {
            unused = slice.unused;
            contents_lem = slice.contents_lem;
            buf_pos_lem = refl;
            size_lem = inr slice.size_lem;
          },
          omega (arith, at_limit, s.buf_pos_lem),
        ),
      )
      | room old rest has_room old_length (j, size) ↦
          let image = element_image e in
          let image_length = length-element_image e v in
          let as_elements : images (es ++ e ∷ []) ≡ kept ++ image =
            images-append es (e ∷ []) ∙ ap (λ t. kept ++ t) (append-nil image) in
          (
            record { contents = (kept ++ image) ++ rest; buf_pos = length (kept ++ image) },
            inl (
              rw (s.buf_pos_lem, has_room)
                  (transfer_lem limits e kept old rest contents (old_length ∙ sym image_length)),
              record {
                unused = rest;
                contents_lem = ap (λ t. t ++ rest) (sym as_elements);
                buf_pos_lem = ap length (sym as_elements);
                size_lem = inr (
                  j,
                  omega (
                    arith,
                    size,
                    old_length,
                    image_length,
                    length-append (kept ++ image) rest,
                    length-append kept image,
                    length-append kept (old ++ rest),
                    length-append old rest,
                  ),
                );
              },
            ),
          )
    ]
