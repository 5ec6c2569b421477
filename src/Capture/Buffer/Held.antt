-- ===== src/Capture/Buffer/Held.antt =====
-- The elements that a local buffer holds.
use mathlib.Core.List.{append_assoc}
use go_probe.Common.{
  ℕ, zero, suc, ◌*◌, ◌<◌, ◌≤◌, ◌≡◌, refl, sym, ap, ◌∙◌, ◌⊎◌, List, [], ◌∷◌, ◌++◌, arith, length,
  length-append,
}
use go_probe.Common.Bytes.{Bytes, be_bytes, length-be_bytes}
use go_probe.Common.Writer.{
  Emits, put, put-Emits, put_list, put_list-Emits, then-Emits, fields_image, length-fields_image,
}
use go_probe.Common.Reader.{AllFit}
use go_probe.Capture.FlowLog.Rotate.Correct.{IsArray}
use go_probe.Capture.Buffer.{
  Limits, LocalBuffer, Element, buf_element_size, hash_bytes, element_fields, put_element,
}

-- An element whose hash is an array of 37 bytes, and whose bytes and size fit.
abbrev pub IsElement : Element → Type 0
IsElement e = IsArray e.ep_hash × (e.ep_hash.protocol < 256) × AllFit (element_fields e)

abbrev pub AreElements : List Element → Type 0
AreElements [] = Unit {0}
AreElements (e ∷ es) = IsElement e × AreElements es

-- The limit is the initial size doubled some times, and an element fits the initial size.
abbrev pub doubled : ℕ → ℕ → ℕ
doubled s zero = s
doubled s (suc j) = 2 * doubled s j

abbrev pub AreLimits : Limits → Type 0
AreLimits limits =
    (buf_element_size ≤ limits.initial_buffer_size)
    × (k : ℕ) × (limits.max_buffer_size ≡ doubled limits.initial_buffer_size k)

-- The size of a slice that was never allocated, or of one that has grown.
abbrev pub IsSize : Limits → ℕ → Type 0
IsSize limits size = (size ≡ 0) ⊎ ((j : ℕ) × (size ≡ doubled limits.initial_buffer_size j))

unfoldable pub element_image : Element → Bytes
element_image e = hash_bytes e.ep_hash ++ fields_image (element_fields e)

unfoldable pub images : List Element → Bytes
images [] = []
images (e ∷ es) = element_image e ++ images es

-- The buffer holds these elements, one behind the other from its start, and its position is behind them.
pub record Holds (limits : Limits) (l : LocalBuffer) (es : List Element) : Type 0 where
  pub unused : Bytes
  pub contents_lem : l.contents ≡ images es ++ unused
  pub buf_pos_lem : l.buf_pos ≡ length (images es)
  pub size_lem : IsSize limits (length l.contents)

pub length-element_image : (e : Element) → IsElement e → length (element_image e) ≡ buf_element_size
unfolding element_image hash_bytes element_fields
length-element_image e (a, _, _) =
    let h = e.ep_hash in
    omega (
      arith,
      a,
      length-append (hash_bytes h) (fields_image (element_fields e)),
      length-fields_image (element_fields e),
      length-append h.source (h.destination ++ (h.dport ++ (h.sport ++ be_bytes 1 h.protocol))),
      length-append h.destination (h.dport ++ (h.sport ++ be_bytes 1 h.protocol)),
      length-append h.dport (h.sport ++ be_bytes 1 h.protocol),
      length-append h.sport (be_bytes 1 h.protocol),
      length-be_bytes 1 h.protocol,
    )

pub length-images :
    (es : List Element) → AreElements es → length (images es) ≡ buf_element_size * length es
unfolding images
length-images [] h = refl
length-images (e ∷ es) (v, vs) = omega (
  arith,
  length-append (element_image e) (images es),
  length-element_image e v,
  length-images es vs,
)

pub images-append : (es fs : List Element) → images (es ++ fs) ≡ images es ++ images fs
unfolding images
images-append [] fs = refl
images-append (e ∷ es) fs =
    ap (λ t. element_image e ++ t) (images-append es fs)
    ∙ sym (append_assoc (element_image e) (images es) (images fs))

pub put_element-Emits : (e : Element) → Emits (put_element e) (element_image e)
unfolding put_element element_image
put_element-Emits e =
    then-Emits (put (hash_bytes e.ep_hash)) (put_list (element_fields e)) (hash_bytes e.ep_hash)
      (fields_image (element_fields e)) (put-Emits (hash_bytes e.ep_hash))
      (put_list-Emits (element_fields e))
