-- ===== src/Types/Key/RoundTrip.antt =====
-- A key that is built from its fields gives them back, and a field that is stored replaces itself.
use go_probe.Common.{
  ℕ, ◌+◌, ◌≡◌, [], ◌∷◌, ◌++◌, length-append, ◌≢◌, ◌⊎◌, inl, inr, some, none, Bool, true, false,
  arith, ◌==◌, length, length-replicate,
}
use go_probe.Common.Bytes.{Bytes}
use go_probe.Common.Slices.{store, copy_at}
use go_probe.Types.Widths.{ipv4_width, ipv6_width}
use go_probe.Types.Key.{
  Key, new_empty_v4_key, new_empty_v6_key, is_ipv4, put_sip, put_dip, put_dport, put_proto, new_key,
  new_v4_key, new_v6_key, get_sip, get_dip, get_dport, get_proto,
}
use go_probe.Types.Key.Layout.{
  HasWidth, flow_key, length-flow_key, get_parts, put_all_v4-eq-flow_key, put_all_v6-eq-flow_key,
  sip_step, dip_step, port_step, proto_step,
}

-- What the readers say of a key.
pub record Reads (k : Key) (v4 : Bool) (sip dip dport : Bytes) (proto : ℕ) : Type 0 where
  pub version : is_ipv4 k ≡ some v4
  pub source : get_sip k ≡ some sip
  pub destination : get_dip k ≡ some dip
  pub port : get_dport k ≡ some dport
  pub protocol : get_proto k ≡ some proto

module _ {sip dip dport : Bytes} (proto : ℕ) where
  pub flow_key-Reads_v4 :
      HasWidth ipv4_width sip dip dport
      → Reads (flow_key sip dip dport proto) true sip dip dport proto
  unfolding get_sip get_dip get_dport get_proto is_ipv4
  flow_key-Reads_v4 fields =
      let (s, d, p, t) = get_parts proto 4 fields in
      let n = length-flow_key 4 proto fields in
      record {
        version = rw n;
        source = rw n s;
        destination = rw n d;
        port = rw n p;
        protocol = rw n t;
      }

  pub flow_key-Reads_v6 :
      HasWidth ipv6_width sip dip dport
      → Reads (flow_key sip dip dport proto) false sip dip dport proto
  unfolding get_sip get_dip get_dport get_proto is_ipv4
  flow_key-Reads_v6 fields =
      let (s, d, p, t) = get_parts proto 16 fields in
      let n = length-flow_key 16 proto fields in
      record {
        version = rw n;
        source = rw n s;
        destination = rw n d;
        port = rw n p;
        protocol = rw n t;
      }

  new_key-eq-v4 :
      HasWidth ipv4_width sip dip dport
      → new_key sip dip dport proto ≡ some (flow_key sip dip dport proto)
  unfolding new_key new_v4_key new_empty_v4_key
  new_key-eq-v4 fields =
      rw (fields.sip_width, fields.dip_width)
        (put_all_v4-eq-flow_key proto new_empty_v4_key (length-replicate {A = ℕ} 11 0) fields)

  new_key-eq-v6 :
      HasWidth ipv6_width sip dip dport
      → new_key sip dip dport proto ≡ some (flow_key sip dip dport proto)
  unfolding new_key new_v6_key new_empty_v6_key
  new_key-eq-v6 fields =
      rw (fields.sip_width, fields.dip_width)
        (put_all_v6-eq-flow_key proto new_empty_v6_key (length-replicate {A = ℕ} 35 0) fields)

  -- From two addresses of 4 bytes, or of 16, and a port of 2 bytes `new_key` builds, with no panic,
  -- a key whose readers return the version by the width of the addresses and exactly these fields.
  pub new_key-Reads :
      (w : ℕ)
      → (w ≡ ipv4_width) ⊎ (w ≡ ipv6_width)
      → HasWidth w sip dip dport
      → (k : Key) × (new_key sip dip dport proto ≡ some k)
        × Reads k (w == ipv4_width) sip dip dport proto
  new_key-Reads w (inl e) fields =
      let f : HasWidth ipv4_width sip dip dport = omega arith in
      (flow_key sip dip dport proto, new_key-eq-v4 f, rw e (flow_key-Reads_v4 f))
  new_key-Reads w (inr e) fields =
      let f : HasWidth ipv6_width sip dip dport = omega arith in
      (flow_key sip dip dport proto, new_key-eq-v6 f, rw e (flow_key-Reads_v6 f))

  field_parts :
      (w : ℕ) (sip' dip' dport' : Bytes) (proto' : ℕ)
      → HasWidth w sip dip dport
      → HasWidth w sip' dip' dport'
      → let k = flow_key sip' dip' dport' proto' in
        (copy_at k 0 (length k) sip ≡ some (flow_key sip dip' dport' proto'))
        × (copy_at k w w dip ≡ some (flow_key sip' dip dport' proto'))
        × (copy_at k (w + w) 2 dport ≡ some (flow_key sip' dip' dport proto'))
        × (store k (w + w + 2) proto ≡ some (flow_key sip' dip' dport' proto))
  field_parts w sip' dip' dport' proto' fields old =
      let n = length-flow_key w proto' old in
      let rest : length (dip' ++ (dport' ++ proto' ∷ [])) ≡ w + 3 =
        omega (arith, length-append sip' (dip' ++ (dport' ++ proto' ∷ []))) in
      let with_dip : HasWidth w sip' dip dport' = omega arith in
      let with_dport : HasWidth w sip' dip' dport = omega arith in
      (
        sip_step w proto fields sip' (dip' ++ (dport' ++ proto' ∷ [])) _ old.sip_width rest n,
        dip_step w proto with_dip dip' (dport' ++ proto' ∷ []) old.dip_width,
        port_step w proto with_dport dport' (proto' ∷ []) old.port_width,
        proto_step w proto old proto',
      )

  -- Storing one field of a key of either version replaces that field and keeps the others.
  pub put_field-eq :
      (w : ℕ)
      → (w ≡ ipv4_width) ⊎ (w ≡ ipv6_width)
      → HasWidth w sip dip dport
      → (sip' dip' dport' : Bytes) (proto' : ℕ) → HasWidth w sip' dip' dport'
      → let k = flow_key sip' dip' dport' proto' in
        (put_sip k sip ≡ some (flow_key sip dip' dport' proto'))
        × (put_dip k dip ≡ some (flow_key sip' dip dport' proto'))
        × (put_dport k dport ≡ some (flow_key sip' dip' dport proto'))
        × (put_proto k proto ≡ some (flow_key sip' dip' dport' proto))
  unfolding put_sip put_dip put_dport put_proto
  put_field-eq w (inl e) fields sip' dip' dport' proto' old =
      let f : HasWidth ipv4_width sip dip dport = omega arith in
      let o : HasWidth ipv4_width sip' dip' dport' = omega arith in
      let n = length-flow_key 4 proto' o in
      let (a, b, c, d) = field_parts 4 sip' dip' dport' proto' f o in (a, rw n b, rw n c, rw n d)
  put_field-eq w (inr e) fields sip' dip' dport' proto' old =
      let f : HasWidth ipv6_width sip dip dport = omega arith in
      let o : HasWidth ipv6_width sip' dip' dport' = omega arith in
      let n = length-flow_key 16 proto' o in
      let (a, b, c, d) = field_parts 16 sip' dip' dport' proto' f o in (a, rw n b, rw n c, rw n d)

-- Addresses of two different widths make `new_key` panic.
pub new_key_mixture :
    (sip dip dport : Bytes) (proto : ℕ)
    → length sip ≢ length dip
    → new_key sip dip dport proto ≡ none
unfolding new_key
new_key_mixture sip dip dport proto h = ground arith
