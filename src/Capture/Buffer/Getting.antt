-- ===== src/Capture/Buffer/Getting.antt =====
-- `Get` and `N` of pkg/capture/buffer.go.
use mathlib.Core.List.{append_assoc}
use go_probe.Common.{
  ℕ, zero, suc, ◌*◌, ◌<◌, ◌≡◌, refl, ap, ◌∙◌, subst, Bool, true, false, not, some, some-injective,
  ltb, List, [], ◌∷◌, ◌++◌, arith, length, get_elem?,
}
use go_probe.Common.Bytes.{Bytes, be_bytes}
use go_probe.Common.Result.{ok}
use go_probe.Common.Writer.{fields_image}
use go_probe.Common.Reader as Reader
use go_probe.Common.Reader.{
  Reader, Reads, values, return, lift, get_bytes, get_value, get_list, get_bytes-Reads,
  get_value-Reads, get_list-Reads, then-Reads, map-Reads, AllFit,
}
use go_probe.Capture.EpHash.{EpHash}
use go_probe.Capture.FlowLog.{
  ParsingErrno, errno_ok, errno_packet_fragment_ignore, errno_invalid_ip_header,
  errno_packet_truncated,
}
use go_probe.Capture.FlowLog.Rotate.Correct.{IsArray}
use go_probe.Capture.Buffer.{
  Limits, LocalBuffer, Element, buf_element_size, errno_byte, errno_of_byte, hash_bytes, ipv4_byte,
  element_fields, element_of_fields, get_hash, get_element, get, n_elements,
}
use go_probe.Capture.Buffer.Held.{
  IsElement, AreElements, element_image, images, Holds, length-images, images-append,
}

-- An element as it comes out of the buffer.
abbrev pub version_inverted : Element → Element
version_inverted e = record e { is_ipv4 = not e.is_ipv4 }

get_hash-Reads : (h : EpHash) → IsArray h → h.protocol < 256 → Reads get_hash (hash_bytes h) h
unfolding get_hash hash_bytes
get_hash-Reads h (s, d, p, q) fits =
    let after_sport : Bytes → Reader EpHash = λ sport.
      Reader.◌>>=◌ (get_value 1)
        λ protocol. return (record h { sport = sport; protocol = protocol }) in
    let after_dport : Bytes → Reader EpHash = λ dport. Reader.◌>>=◌ (get_bytes 2) λ sport.
      Reader.◌>>=◌ (get_value 1)
        λ protocol. return (record h { dport = dport; sport = sport; protocol = protocol }) in
    let after_destination : Bytes → Reader EpHash = λ destination.
      Reader.◌>>=◌ (get_bytes 2) λ dport. Reader.◌>>=◌ (get_bytes 2) λ sport.
        Reader.◌>>=◌ (get_value 1) λ protocol. return (record h {
          destination = destination;
          dport = dport;
          sport = sport;
          protocol = protocol;
        }) in
    let after_source : Bytes → Reader EpHash = λ source. Reader.◌>>=◌ (get_bytes 16) λ destination.
      Reader.◌>>=◌ (get_bytes 2) λ dport. Reader.◌>>=◌ (get_bytes 2) λ sport.
        Reader.◌>>=◌ (get_value 1) λ protocol. return (record {
          source = source;
          destination = destination;
          dport = dport;
          sport = sport;
          protocol = protocol;
        }) in
    let tail = be_bytes 1 h.protocol in
    then-Reads (get_bytes 16) after_source h.source
      (h.destination ++ (h.dport ++ (h.sport ++ tail))) h.source h (get_bytes-Reads 16 h.source s)
      (then-Reads (get_bytes 16) after_destination h.destination (h.dport ++ (h.sport ++ tail))
        h.destination h (get_bytes-Reads 16 h.destination d)
        (then-Reads (get_bytes 2) after_dport h.dport (h.sport ++ tail) h.dport h
          (get_bytes-Reads 2 h.dport p)
          (then-Reads (get_bytes 2) after_sport h.sport tail h.sport h (get_bytes-Reads 2 h.sport q)
            (map-Reads (get_value 1) (λ protocol. record h { protocol = protocol }) tail h.protocol
              (get_value-Reads 1 h.protocol fits)))))

errno_lem : (e : ParsingErrno) → errno_of_byte (errno_byte e) ≡ some e
unfolding errno_of_byte errno_byte
errno_lem errno_ok = refl
errno_lem errno_packet_fragment_ignore = refl
errno_lem errno_invalid_ip_header = refl
errno_lem errno_packet_truncated = refl

-- `Add` writes 0 for IPv4, and `Get` reads IPv4 where the byte is not 0.
version_lem : (v4 : Bool) → ltb 0 (ipv4_byte v4) ≡ not v4
unfolding ipv4_byte
version_lem true = refl
version_lem false = refl

element_of_fields-values :
    (e : Element)
    → element_of_fields e.ep_hash (values (element_fields e)) ≡ some (version_inverted e)
unfolding element_of_fields element_fields
element_of_fields-values e = rw (errno_lem e.errno, version_lem e.is_ipv4) refl

get_element-Reads :
    (e : Element) → IsElement e → Reads get_element (element_image e) (version_inverted e)
unfolding get_element element_image element_fields
get_element-Reads e (a, fits, fields) =
    then-Reads get_hash
      (λ h. Reader.◌>>=◌ (get_list (1 ∷ 1 ∷ 1 ∷ 1 ∷ 4 ∷ [])) λ vs. lift (element_of_fields h vs))
      (hash_bytes e.ep_hash) (fields_image (element_fields e)) e.ep_hash (version_inverted e)
      (get_hash-Reads e.ep_hash a fits)
      (λ pre rest.
        rw (get_list-Reads (element_fields e) fields pre rest, element_of_fields-values e) refl)

-- The elements in front of one, and those behind it.
split_elem :
    (es : List Element) (i : ℕ) (e : Element)
    → get_elem? es i ≡ some e
    → (pre : List Element) × (post : List Element) × (es ≡ pre ++ e ∷ post) × (length pre ≡ i)
split_elem [] i e h = absurd (ground arith)
split_elem (x ∷ es) zero e h = ([], es, ap (λ y. y ∷ es) (some-injective x e h), refl)
split_elem (x ∷ es) (suc i) e h =
    let (pre, post, whole, count) = split_elem es i e h in
    (x ∷ pre, post, ap (λ ys. x ∷ ys) whole, ap suc count)

split-AreElements :
    (pre post : List Element) (e : Element)
    → AreElements (pre ++ e ∷ post)
    → AreElements pre × IsElement e
split-AreElements [] post e (v, vs) = (tt, v)
split-AreElements (x ∷ pre) post e (v, vs) =
    let (ws, w) = split-AreElements pre post e vs in ((v, ws), w)

-- `Get` of an index below the number of elements returns the element that was added at that place,
-- except that its IP version is the other one; `N` is the number of elements.
pub get-version_inverted :
    (limits : Limits) (l : LocalBuffer) (es : List Element) (i : ℕ) (e : Element)
    → Holds limits l es
    → AreElements es
    → get_elem? es i ≡ some e
    → (get l i ≡ ok (version_inverted e)) × (n_elements l ≡ length es)
unfolding get n_elements images
get-version_inverted limits l es i e s vs found =
    let (pre, post, whole, count) = split_elem es i e found in
    let contents_parts : l.contents ≡ images pre ++ (element_image e ++ (images post ++ s.unused)) =
      s.contents_lem
      ∙ ap (λ t. t ++ s.unused) (ap images whole ∙ images-append pre (e ∷ post))
      ∙ append_assoc (images pre) (element_image e ++ images post) s.unused
      ∙ ap (λ t. images pre ++ t) (append_assoc (element_image e) (images post) s.unused) in
    let (before, valid) = split-AreElements pre post e (subst AreElements whole vs) in
    let at : i * buf_element_size ≡ length (images pre) =
      omega (arith, length-images pre before, count) in
    let read = get_element-Reads e valid (images pre) (images post ++ s.unused) in
    (rw (contents_parts, at, read) refl, omega (arith, s.buf_pos_lem, length-images es vs))
