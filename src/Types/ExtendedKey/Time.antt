-- ===== src/Types/ExtendedKey/Time.antt =====
-- Extending a key by a timestamp and taking it apart again.
use mathlib.Core.List.{append-nil}
use go_probe.Common.{
  ℕ, zero, suc, ◌+◌, ◌-◌, ◌^◌, ◌≤◌, ◌<◌, ◌≡◌, refl, sym, ap, ◌∙◌, ◌⊎◌, inl, inr, some, Bool, true,
  false, [], ◌∷◌, ◌++◌, arith, length, length-append, length-replicate, replicate, get_elem?, ◌>>=◌,
  take, drop, length-drop, le→leb, if◌then◌else◌, Bool-cases,
}
use go_probe.Common.Bytes.{Bytes, be_bytes, length-be_bytes, be_value-be_bytes}
use go_probe.Common.Slices.{slice, copy_at, split_at, slice-append, copy_at-append}
use go_probe.Types.Widths.{key_width_ipv4, key_width_ipv6}
use go_probe.Types.Key
use go_probe.Types.Key.{Key}
use go_probe.Types.ExtendedKey.{
  ExtendedKey, not_positive, extend, is_ipv4, key, attr_time, get_sip, get_dip, get_dport,
  get_proto,
}

-- The two lengths of a key.
abbrev pub IsKeyLength : ℕ → Type 0
IsKeyLength n = (n ≡ key_width_ipv4) ⊎ (n ≡ key_width_ipv6)

-- What the readers of an extended key say, in terms of the key and the timestamp.
pub record Extends (k : Key) (time : ℕ × Bool) (e : ExtendedKey) : Type 0 where
  pub base : key e ≡ some k
  pub time_of : attr_time e ≡ some time
  pub version : is_ipv4 e ≡ Key.is_ipv4 k
  pub source : get_sip e ≡ Key.get_sip k
  pub destination : get_dip e ≡ Key.get_dip k
  pub port : get_dport e ≡ Key.get_dport k
  pub protocol : get_proto e ≡ Key.get_proto k

fill :
    (k old a b : Bytes) (ts n : ℕ)
    → old ≡ a ++ b
    → length a ≡ length k
    → length b ≡ 8
    → n ≡ length k + 8
    → (copy_at old 0 n k >>= λ e. copy_at e (length k) 8 (be_bytes 8 ts))
      ≡ some (k ++ be_bytes 8 ts)
fill k old a b ts n e ha hb hn =
    let first : copy_at (a ++ b) 0 n k ≡ some (k ++ b) =
      copy_at-append [] a b 0 n k refl (sym ha) (omega arith) (omega arith) in
    let last : copy_at (k ++ (b ++ [])) (length k) 8 (be_bytes 8 ts)
        ≡ some (k ++ (be_bytes 8 ts ++ [])) =
      copy_at-append k b [] (length k) 8 (be_bytes 8 ts) refl (length-be_bytes 8 ts ∙ sym hb)
        (omega (arith, length-be_bytes 8 ts)) (omega arith) in
    rw (e, first) (simp append-nil at last)

extend-eq : (k : Key) (ts : ℕ) → not_positive ts ≡ false → extend k ts ≡ some (k ++ be_bytes 8 ts)
unfolding extend
extend-eq k ts h =
    let old = replicate {A = ℕ} (length k + 8) 0 in
    let (a, b, e, ha, hb) = split_at (length k) 8 old (length-replicate (length k + 8) 0) in
    rw h (fill k old a b ts (length k + 8) e ha hb refl)

take-append_le : (n : ℕ) (k t : Bytes) → n ≤ length k → take n (k ++ t) ≡ take n k
take-append_le zero k t h = refl
take-append_le (suc n) [] t h = absurd (omega arith)
take-append_le (suc n) (x ∷ k) t h = ap (λ r. x ∷ r) (take-append_le n k t (omega arith))

drop-append_le : (n : ℕ) (k t : Bytes) → n ≤ length k → drop n (k ++ t) ≡ drop n k ++ t
drop-append_le zero k t h = refl
drop-append_le (suc n) [] t h = absurd (omega arith)
drop-append_le (suc n) (x ∷ k) t h = drop-append_le n k t (omega arith)

-- A read within the first part of an append is one of that part.
slice-append_left :
    (k t : Bytes) (lo hi : ℕ) → lo ≤ hi → hi ≤ length k → slice (k ++ t) lo hi ≡ slice k lo hi
unfolding slice
slice-append_left k t lo hi h g =
    let whole : hi ≤ length (k ++ t) = omega (arith, length-append k t) in
    rw (le→leb _ _ h, le→leb _ _ g, le→leb _ _ whole, drop-append_le lo k t (omega arith))
      (ap some (take-append_le (hi - lo) (drop lo k) t (omega (arith, length-drop lo k))))

get_elem?-append_left : (k t : Bytes) (i : ℕ) → i < length k → get_elem? (k ++ t) i ≡ get_elem? k i
get_elem?-append_left [] t i h = elim h [ ]
get_elem?-append_left (x ∷ k) t zero h = refl
get_elem?-append_left (x ∷ k) t (suc i) h = get_elem?-append_left k t i (omega arith)

module _ (k : Key) (ts : ℕ) (h : ts < 2 ^ 64) where
  whole_slice : slice (k ++ be_bytes 8 ts) 0 (length k) ≡ some k
  whole_slice = slice-append [] k (be_bytes 8 ts) 0 (length k) refl (omega arith)

  time_slice : slice (k ++ be_bytes 8 ts) (length k) (length k + 8) ≡ some (be_bytes 8 ts)
  time_slice = simp append-nil at (
      slice-append k (be_bytes 8 ts) [] (length k) (length k + 8) refl
        (omega (arith, length-be_bytes 8 ts)))

  length-append_time : length (k ++ be_bytes 8 ts) ≡ length k + 8
  length-append_time = omega (arith, length-append k (be_bytes 8 ts), length-be_bytes 8 ts)

  cut : (lo hi : ℕ) → lo ≤ hi → hi ≤ length k → slice (k ++ be_bytes 8 ts) lo hi ≡ slice k lo hi
  cut = slice-append_left k (be_bytes 8 ts)

  at : (i : ℕ) → i < length k → get_elem? (k ++ be_bytes 8 ts) i ≡ get_elem? k i
  at = get_elem?-append_left k (be_bytes 8 ts)

  append-Extends : IsKeyLength (length k) → Extends k (ts, true) (k ++ be_bytes 8 ts)
  unfolding key attr_time get_sip get_dip get_dport get_proto Key.get_sip Key.get_dip Key.get_dport
      Key.get_proto
  append-Extends (inl n) =
      let len : length (k ++ be_bytes 8 ts) ≡ 19 = omega (arith, length-append_time) in
      let bytes : slice (k ++ be_bytes 8 ts) 11 19 ≡ some (be_bytes 8 ts) = rw n at time_slice in
      record {
        base = rw len (rw n at whole_slice);
        time_of = rw (len, bytes, be_value-be_bytes 8 ts h);
        version = rw (len, n);
        source = rw (len, n) (cut 0 4 (omega arith) (omega arith));
        destination = rw (len, n) (cut 4 8 (omega arith) (omega arith));
        port = rw (len, n) (cut 8 10 (omega arith) (omega arith));
        protocol = rw (len, n) (at 10 (omega arith));
      }
  append-Extends (inr n) =
      let len : length (k ++ be_bytes 8 ts) ≡ 43 = omega (arith, length-append_time) in
      let bytes : slice (k ++ be_bytes 8 ts) 35 43 ≡ some (be_bytes 8 ts) = rw n at time_slice in
      record {
        base = rw len (rw n at whole_slice);
        time_of = rw (len, bytes, be_value-be_bytes 8 ts h);
        version = rw (len, n);
        source = rw (len, n) (cut 0 16 (omega arith) (omega arith));
        destination = rw (len, n) (cut 16 32 (omega arith) (omega arith));
        port = rw (len, n) (cut 32 34 (omega arith) (omega arith));
        protocol = rw (len, n) (at 34 (omega arith));
      }

slice_all : (k : Bytes) → slice k 0 (length k) ≡ some k
slice_all k = simp append-nil at (slice-append [] k [] 0 (length k) refl (omega arith))

plain-Extends : (k : Key) → IsKeyLength (length k) → Extends k (0, false) k
unfolding key attr_time get_sip get_dip get_dport get_proto Key.get_sip Key.get_dip Key.get_dport
    Key.get_proto
plain-Extends k (inl n) =
    let all : slice k 0 11 ≡ some k = rw n at (slice_all k) in
    record {
      base = rw n all;
      time_of = rw n;
      version = rw n;
      source = rw n;
      destination = rw n;
      port = rw n;
      protocol = rw n;
    }
plain-Extends k (inr n) =
    let all : slice k 0 35 ≡ some k = rw n at (slice_all k) in
    record {
      base = rw n all;
      time_of = rw n;
      version = rw n;
      source = rw n;
      destination = rw n;
      port = rw n;
      protocol = rw n;
    }

-- Extending an IPv4 or IPv6 key by an int64 does not panic. `Key` gives the key back, `AttrTime` the
-- timestamp if it was positive and none otherwise, and the other readers say what they say of the key.
pub extend-Extends :
    (k : Key) (ts : ℕ)
    → IsKeyLength (length k)
    → ts < 2 ^ 64
    → (e : ExtendedKey) × (extend k ts ≡ some e)
      × Extends k (if not_positive ts then (0, false) else (ts, true)) e
unfolding extend
extend-Extends k ts n h = elim (Bool-cases (not_positive ts)) [
  | inl none_given ↦ (k, rw none_given, rw none_given (plain-Extends k n))
  | inr positive ↦
      (k ++ be_bytes 8 ts, extend-eq k ts positive, rw positive (append-Extends k ts h n))
]
