-- ===== src/Types/Key/Layout.antt =====
-- The layout of keys: what the writers leave in the slice, and that the readers find it again.
use go_probe.Common.{
  ℕ, ◌+◌, ◌≡◌, refl, ap, ◌∙◌, some, [], ◌∷◌, ◌++◌, arith, ◌>>=◌, length, get_elem?, length-append,
}
use mathlib.Core.List.{append_assoc}
use go_probe.Common.Bytes.{Bytes}
use go_probe.Common.Slices.{
  slice, store, copy_at, split_at, slice-append, copy_at-append, store-append, get-append,
}
use go_probe.Types.Widths.{ipv4_width, ipv6_width, key_width_ipv4, key_width_ipv6}
use go_probe.Types.Key.{
  Key, put_sip, put_dip_v4, put_dport_v4, put_proto_v4, put_all_v4, put_all_v6,
}

-- The bytes of a key in the order of its fields.
abbrev pub flow_key : Bytes → Bytes → Bytes → ℕ → Bytes
flow_key sip dip dport proto = sip ++ (dip ++ (dport ++ proto ∷ []))

-- The fields have the widths of one IP version: `w` for an address and 2 for the port.
pub record HasWidth (w : ℕ) (sip dip dport : Bytes) : Type 0 where
  pub sip_width : length sip ≡ w
  pub dip_width : length dip ≡ w
  pub port_width : length dport ≡ 2

single : (xs : Bytes) → length xs ≡ 1 → (x : ℕ) × (xs ≡ x ∷ [])
single [] h = absurd (omega arith)
single (x ∷ []) h = (x, refl)
single (x ∷ y ∷ xs) h = absurd (omega arith)

module _ (w : ℕ) {sip dip dport : Bytes} (proto : ℕ) (fields : HasWidth w sip dip dport) where
  pub length-flow_key : length (flow_key sip dip dport proto) ≡ w + w + 3
  length-flow_key = omega (
    arith,
    length-append sip (dip ++ (dport ++ proto ∷ [])),
    length-append dip (dport ++ proto ∷ []),
    length-append dport (proto ∷ []),
  )

  pub port_step :
      (old rest : Bytes)
      → length old ≡ 2
      → copy_at (sip ++ (dip ++ (old ++ rest))) (w + w) 2 dport
        ≡ some (sip ++ (dip ++ (dport ++ rest)))
  port_step old rest h = simp (← append_assoc sip dip) (
      copy_at-append (sip ++ dip) old rest (w + w) 2 dport (omega (arith, length-append sip dip))
        (omega arith) (omega arith) (omega arith))

  pub proto_step :
      (old : ℕ)
      → store (sip ++ (dip ++ (dport ++ old ∷ []))) (w + w + 2) proto
        ≡ some (flow_key sip dip dport proto)
  proto_step old =
      simp (← append_assoc sip dip, ← append_assoc (sip ++ dip) dport)
        (store-append (sip ++ dip ++ dport) [] old (w + w + 2) proto
          (omega (arith, length-append (sip ++ dip) dport, length-append sip dip)))

  pub sip_step :
      (a rest : Bytes) (n : ℕ)
      → length a ≡ w
      → length rest ≡ w + 3
      → n ≡ w + w + 3
      → copy_at (a ++ rest) 0 n sip ≡ some (sip ++ rest)
  sip_step a rest n ha hr hn =
      copy_at-append [] a rest 0 n sip refl (omega arith) (omega arith) (omega arith)

  pub dip_step :
      (b rest : Bytes)
      → length b ≡ w
      → copy_at (sip ++ (b ++ rest)) w w dip ≡ some (sip ++ (dip ++ rest))
  dip_step b rest hb =
      copy_at-append sip b rest w w dip (omega arith) (omega arith) (omega arith) (omega arith)

  put_parts :
      (k a b c : Bytes) (x n : ℕ)
      → k ≡ a ++ (b ++ (c ++ x ∷ []))
      → length a ≡ w
      → length b ≡ w
      → length c ≡ 2
      → n ≡ w + w + 3
      → (copy_at k 0 n sip >>= λ k₁. copy_at k₁ w w dip >>= λ k₂.
          copy_at k₂ (w + w) 2 dport >>= λ k₃. store k₃ (w + w + 2) proto)
        ≡ some (flow_key sip dip dport proto)
  put_parts k a b c x n e ha hb hc hn =
      let rest : length (b ++ (c ++ x ∷ [])) ≡ w + 3 =
        omega (arith, length-append b (c ++ x ∷ []), length-append c (x ∷ [])) in
      rw (e, sip_step a (b ++ (c ++ x ∷ [])) n ha rest hn, dip_step b (c ++ x ∷ []) hb)
        (rw (port_step c (x ∷ []) hc) (proto_step x))

-- A list of the length of a key falls into its four fields.
key_parts :
    (w : ℕ) (k : Bytes)
    → length k ≡ w + w + 3
    → (a : Bytes) × (b : Bytes) × (c : Bytes) × (x : ℕ) × (k ≡ a ++ (b ++ (c ++ x ∷ [])))
      × (length a ≡ w)
      × (length b ≡ w)
      × (length c ≡ 2)
key_parts w k h =
    let (a, k₁, e₁, ha, h₁) = split_at w (w + 3) k (omega arith) in
    let (b, k₂, e₂, hb, h₂) = split_at w 3 k₁ h₁ in
    let (c, k₃, e₃, hc, h₃) = split_at 2 1 k₂ h₂ in
    let (x, e₄) = single k₃ h₃ in
    (
      a,
      b,
      c,
      x,
      e₁ ∙ ap (λ t. a ++ t) (e₂ ∙ ap (λ t. b ++ t) (e₃ ∙ ap (λ t. c ++ t) e₄)),
      ha,
      hb,
      hc,
    )

module _ {sip dip dport : Bytes} (proto : ℕ) where
  -- Whatever an IPv4 key held, storing all fields leaves exactly these, in order.
  pub put_all_v4-eq-flow_key :
      (k : Key)
      → length k ≡ key_width_ipv4
      → HasWidth ipv4_width sip dip dport
      → put_all_v4 k sip dip dport proto ≡ some (flow_key sip dip dport proto)
  unfolding put_all_v4 put_sip put_dip_v4 put_dport_v4 put_proto_v4
  put_all_v4-eq-flow_key k h fields =
      let (a, b, c, x, e, ha, hb, hc) = key_parts 4 k h in
      (put_parts 4 proto fields k a b c x (length k) e ha hb hc h)

  -- The same for an IPv6 key.
  pub put_all_v6-eq-flow_key :
      (k : Key)
      → length k ≡ key_width_ipv6
      → HasWidth ipv6_width sip dip dport
      → put_all_v6 k sip dip dport proto ≡ some (flow_key sip dip dport proto)
  unfolding put_all_v6
  put_all_v6-eq-flow_key k h fields =
      let (a, b, c, x, e, ha, hb, hc) = key_parts 16 k h in
      put_parts 16 proto fields k a b c x (length k) e ha hb hc h

  pub get_parts :
      (w : ℕ)
      → HasWidth w sip dip dport
      → (slice (flow_key sip dip dport proto) 0 w ≡ some sip)
        × (slice (flow_key sip dip dport proto) w (w + w) ≡ some dip)
        × (slice (flow_key sip dip dport proto) (w + w) (w + w + 2) ≡ some dport)
        × (get_elem? (flow_key sip dip dport proto) (w + w + 2) ≡ some proto)
  get_parts w fields =
      let port_pos : w + w ≡ length (sip ++ dip) = omega (arith, length-append sip dip) in
      (
        slice-append [] sip _ 0 w refl (omega arith),
        slice-append sip dip _ w (w + w) (omega arith) (omega arith),
        simp (← append_assoc sip dip)
            (slice-append (sip ++ dip) dport _ (w + w) (w + w + 2) port_pos (omega arith)),
        simp (← append_assoc sip dip, ← append_assoc (sip ++ dip) dport)
            (get-append (sip ++ dip ++ dport) [] proto (w + w + 2)
              (omega (arith, length-append (sip ++ dip) dport))),
      )
