-- ===== src/Capture/Buffer.antt =====
-- `LocalBuffer` of pkg/capture/buffer.go, which keeps packets while the capture is locked. The size that
-- is allocated first, the page size of the machine, and the limit of the configuration are parameters. A
-- uint32 is written in the order of the machine's bytes; reading and writing share it, and here the
-- highest byte comes first.
pub mod Held
pub mod Adding
pub mod Getting
use go_probe.Common.{
  ℕ, ◌+◌, ◌*◌, ◌/◌, min, Bool, true, false, not, Option, none, some, List, [], ◌∷◌, ◌++◌, leb, ltb,
  ◌==◌, if◌then◌else◌, length, replicate,
}
use go_probe.Common as Base
use go_probe.Common.Bytes.{Bytes, be_bytes}
use go_probe.Common.Slices.{overwrite}
use go_probe.Common.Result.{Result, ok, or_panic, ◌>>=◌}
use go_probe.Common.Writer.{Writer, Fields, put, put_list}
use go_probe.Common.Reader as Reader
use go_probe.Common.Reader.{Reader, return, lift, get_bytes, get_value, get_list}
use go_probe.Capture.EpHash.{EpHash}
use go_probe.Capture.FlowLog.{
  ParsingErrno, errno_ok, errno_packet_fragment_ignore, errno_invalid_ip_header,
  errno_packet_truncated,
}

-- The initial and the largest size of the slice.
pub record Limits : Type 0 where
  pub initial_buffer_size : ℕ
  pub max_buffer_size : ℕ

pub record LocalBuffer : Type 0 where
  pub contents : Bytes
  pub buf_pos : ℕ

-- The arguments of `Add` and the results of `Get`.
pub record Element : Type 0 where
  pub ep_hash : EpHash
  pub pkt_type : ℕ
  pub pkt_size : ℕ
  pub is_ipv4 : Bool
  pub aux_info : ℕ
  pub errno : ParsingErrno

-- The error of a function that has none: it returns or panics.
pub data NoError : Type 0 where

abbrev pub buf_element_size : ℕ
buf_element_size = 45

abbrev pub empty_buffer : LocalBuffer
empty_buffer = record { contents = []; buf_pos = 0 }

unfoldable pub assign_data : LocalBuffer → Bytes → LocalBuffer
assign_data l bs = record l { contents = bs }

unfoldable pub release : LocalBuffer → LocalBuffer
release l = record { contents = []; buf_pos = 0 }

-- The int8 of an error number as a byte.
unfoldable pub errno_byte : ParsingErrno → ℕ
errno_byte errno_ok = 254
errno_byte errno_packet_fragment_ignore = 255
errno_byte errno_invalid_ip_header = 0
errno_byte errno_packet_truncated = 1

-- The error number of a byte that `Add` wrote; other bytes have no name.
unfoldable pub errno_of_byte : ℕ → Option ParsingErrno
errno_of_byte b =
    if b == 254
    then some errno_ok
    else if b == 255
    then some errno_packet_fragment_ignore
    else if b == 0
    then some errno_invalid_ip_header
    else if b == 1
    then some errno_packet_truncated
    else none

-- epHash[:]
unfoldable pub hash_bytes : EpHash → Bytes
hash_bytes h = h.source ++ (h.destination ++ (h.dport ++ (h.sport ++ be_bytes 1 h.protocol)))

unfoldable pub ipv4_byte : Bool → ℕ
ipv4_byte v4 = if v4 then 0 else 1

unfoldable pub element_fields : Element → Fields
element_fields e =
    (1, e.pkt_type)
    ∷ (1, ipv4_byte e.is_ipv4)
    ∷ (1, e.aux_info)
    ∷ (1, errno_byte e.errno)
    ∷ (4, e.pkt_size)
    ∷ []

-- A slice of zeros with the old contents at its front.
unfoldable pub grow : Bytes → ℕ → Bytes
grow contents new_size = overwrite new_size contents (replicate new_size 0)

unfoldable pub allocated : Limits → Bytes → Bytes
allocated limits contents =
    if length contents == 0 then replicate limits.initial_buffer_size 0 else contents

-- The slice with room for one more element, if it may grow to have it.
unfoldable pub with_room : Limits → Bytes → ℕ → Option Bytes
with_room limits contents pos =
    if leb (length contents) (pos + buf_element_size)
    then (if leb limits.max_buffer_size (length contents)
        then none
        else some (grow contents (min limits.max_buffer_size (2 * length contents))))
    else some contents

-- Transfer data to the buffer; where an element reaches beyond the slice, an index is out of range.
unfoldable pub put_element : Element → Writer → Result NoError Writer
put_element e w = put (hash_bytes e.ep_hash) w >>= put_list (element_fields e)

unfoldable pub transfer : Element → ℕ → Option Bytes → Bytes → Result NoError (Bool × LocalBuffer)
transfer e pos none contents = ok (false, record { contents = contents; buf_pos = pos })
transfer e pos (some room) contents = put_element e (record { buffer = room; pos = pos }) >>= λ w.
    ok (true, record { contents = w.buffer; buf_pos = w.pos })

unfoldable pub add : Limits → Element → LocalBuffer → Result NoError (Bool × LocalBuffer)
add limits e l =
    let contents = allocated limits l.contents in
    transfer e l.buf_pos (with_room limits contents l.buf_pos) contents

unfoldable pub element_of_fields : EpHash → List ℕ → Option Element
element_of_fields h (pkt_type ∷ v4 ∷ aux_info ∷ errno ∷ pkt_size ∷ []) =
    Base.◌>>=◌ (errno_of_byte errno) λ named. some (record {
      ep_hash = h;
      pkt_type = pkt_type;
      pkt_size = pkt_size;
      is_ipv4 = ltb 0 v4;
      aux_info = aux_info;
      errno = named;
    })
element_of_fields h _ = none

unfoldable pub get_hash : Reader EpHash
get_hash = Reader.◌>>=◌ (get_bytes 16) λ source. Reader.◌>>=◌ (get_bytes 16) λ destination.
    Reader.◌>>=◌ (get_bytes 2) λ dport. Reader.◌>>=◌ (get_bytes 2) λ sport.
      Reader.◌>>=◌ (get_value 1) λ protocol. return (record {
        source = source;
        destination = destination;
        dport = dport;
        sport = sport;
        protocol = protocol;
      })

unfoldable pub get_element : Reader Element
get_element =
    Reader.◌>>=◌ get_hash
      λ h. Reader.◌>>=◌ (get_list (1 ∷ 1 ∷ 1 ∷ 1 ∷ 4 ∷ [])) λ vs. lift (element_of_fields h vs)

unfoldable pub get : LocalBuffer → ℕ → Result NoError Element
get l i = or_panic (get_element l.contents (i * buf_element_size)) >>= λ r. ok r.0

unfoldable pub n_elements : LocalBuffer → ℕ
n_elements l = l.buf_pos / buf_element_size
