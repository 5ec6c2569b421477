-- ===== src/Capture/FlowLog/Valid.antt =====
-- One flow for each conversation: the invariant of the flow log, which `Add` keeps.
use go_probe.Common.{
  ℕ, ◌≡◌, ◌≢◌, refl, sym, ap, ◌∙◌, subst, ◌⊎◌, inl, inr, Bool, true, false, some, [], ◌∷◌, arith,
  if◌then◌else◌, Bool-cases,
}
use go_probe.Capture.EpHash.{EpHash, reverse, reverse-reverse, same, same_iff}
use go_probe.Capture.Flow.{Flow, IsOriented, update_flow-IsOriented, new_flow-IsOriented}
use go_probe.Capture.FlowLog.{
  FlowLog, find, modify, assign, is_present, add_packet, add, above_ok, parsing_failed,
  ParsingErrno, errno_ok, errno_packet_fragment_ignore, errno_invalid_ip_header,
  errno_packet_truncated,
}

-- No entry belongs to the conversation, in either direction.
abbrev pub Apart : EpHash → FlowLog → Type 0
Apart h [] = Unit {0}
Apart h ((k, f) ∷ log) = (k ≢ h) × (k ≢ reverse h) × Apart h log

-- Each flow carries the end points that it is stored under, or their reverse, and no two flows belong
-- to one conversation.
abbrev pub IsValid : FlowLog → Type 0
IsValid [] = Unit {0}
IsValid ((k, f) ∷ log) = IsOriented k f × Apart k log × IsValid log

same_refl : (h : EpHash) → same h h ≡ true
same_refl h = (same_iff h h).1 refl

reverse-swap : (h k : EpHash) → h ≡ reverse k → k ≡ reverse h
reverse-swap h k e = sym (reverse-reverse k) ∙ ap reverse (sym e)

differ : (k h : EpHash) → same k h ≡ false → k ≢ h
differ k h n e = ground (arith, (same_iff k h).1 e)

find-Apart :
    (log : FlowLog) (h : EpHash)
    → is_present (find log h) ≡ false
    → is_present (find log (reverse h)) ≡ false
    → Apart h log
unfolding find is_present
find-Apart [] h a b = tt
find-Apart ((k, f) ∷ log) h a b = elim (Bool-cases (same k h)) [
  | inl t ↦ absurd (ground (arith, t))
  | inr n ↦ elim (Bool-cases (same k (reverse h))) [
    | inl t ↦ absurd (ground (arith, t))
    | inr m ↦ (
      differ k h n,
      differ k (reverse h) m,
      find-Apart log h (subst (λ b. is_present (if b then some f else find log h) ≡ false) n a)
          (subst (λ b. is_present (if b then some f else find log (reverse h)) ≡ false) m b),
    )
  ]
]

modify-Apart :
    (log : FlowLog) (k h : EpHash) (change : Flow → Flow)
    → Apart k log
    → Apart k (modify log h change)
unfolding modify
modify-Apart [] k h change a = tt
modify-Apart ((i, f) ∷ log) k h change (a, b, c) = elim (Bool-cases (same i h)) [
  | inl t ↦ rw t (a, b, c)
  | inr n ↦ rw n (a, b, modify-Apart log k h change c)
]

modify-IsValid :
    (log : FlowLog) (h : EpHash) (change : Flow → Flow)
    → ((f : Flow) → IsOriented h f → IsOriented h (change f))
    → IsValid log
    → IsValid (modify log h change)
unfolding modify
modify-IsValid [] h change c v = tt
modify-IsValid ((k, f) ∷ log) h change c (o, a, v) = elim (Bool-cases (same k h)) [
  | inl t ↦ rw t (
    subst (λ i. IsOriented i (change f)) (sym ((same_iff k h).0 t))
        (c f (subst (λ i. IsOriented i f) ((same_iff k h).0 t) o)),
    a,
    v,
  )
  | inr n ↦ rw n (o, modify-Apart log k h change a, modify-IsValid log h change c v)
]

assign-Apart :
    (log : FlowLog) (k h : EpHash) (g : Flow)
    → h ≢ k
    → h ≢ reverse k
    → Apart k log
    → Apart k (assign log h g)
unfolding assign
assign-Apart [] k h g x y a = (x, y, tt)
assign-Apart ((i, f) ∷ log) k h g x y (a, b, c) = elim (Bool-cases (same i h)) [
  | inl t ↦ rw t (a, b, c)
  | inr n ↦ rw n (a, b, assign-Apart log k h g x y c)
]

assign-IsValid :
    (log : FlowLog) (h : EpHash) (g : Flow)
    → IsOriented h g
    → Apart h log
    → IsValid log
    → IsValid (assign log h g)
unfolding assign
assign-IsValid [] h g o a v = (o, tt, tt)
assign-IsValid ((k, f) ∷ log) h g o (x, y, a) (p, b, v) = elim (Bool-cases (same k h)) [
  | inl t ↦ absurd (x ((same_iff k h).0 t))
  | inr n ↦ rw n (
    p,
    assign-Apart log k h g (λ e. x (sym e)) (λ e. y (reverse-swap h k e)) b,
    assign-IsValid log h g o a v,
  )
]

find-modify :
    (log : FlowLog) (h : EpHash) (change : Flow → Flow)
    → is_present (find log h) ≡ true
    → is_present (find (modify log h change) h) ≡ true
unfolding find modify is_present
find-modify [] h change e = e
find-modify ((k, f) ∷ log) h change e = elim (Bool-cases (same k h)) [
  | inl t ↦ rw (t, t) refl
  | inr n ↦
      rw (n, n)
        (find-modify log h change
          (subst (λ b. is_present (if b then some f else find log h) ≡ true) n e))
]

find-assign : (log : FlowLog) (h : EpHash) (g : Flow) → is_present (find (assign log h g) h) ≡ true
unfolding find assign is_present
find-assign [] h g = rw (same_refl h) refl
find-assign ((k, f) ∷ log) h g = elim (Bool-cases (same k h)) [
  | inl t ↦ rw (t, t) refl
  | inr n ↦ rw (n, n) (find-assign log h g)
]

module _ (packet_outgoing : ℕ) (log : FlowLog) (h : EpHash) (pkt_type size : ℕ) (v4 : Bool)
    (aux_info : ℕ) where
  add_packet-IsValid :
      IsValid log
      → IsValid (add_packet packet_outgoing log h pkt_type size v4 aux_info)
        × ((is_present (find (add_packet packet_outgoing log h pkt_type size v4 aux_info) h) ≡ true)
            ⊎ (is_present
                  (find (add_packet packet_outgoing log h pkt_type size v4 aux_info) (reverse h))
                ≡ true))
  unfolding add_packet
  add_packet-IsValid v = elim (Bool-cases (is_present (find log h))) [
    | inl t ↦ rw t (
      modify-IsValid log h _ (update_flow-IsOriented packet_outgoing h aux_info pkt_type size) v,
      inl (find-modify log h _ t),
    )
    | inr n ↦ elim (Bool-cases (is_present (find log (reverse h)))) [
      | inl t ↦
          rw (n, t)
            (
              modify-IsValid log (reverse h) _
                  (update_flow-IsOriented packet_outgoing (reverse h) aux_info pkt_type size) v,
              inr (find-modify log (reverse h) _ t),
            )
      | inr m ↦
          rw (n, m)
            (
              assign-IsValid log h _
                  (new_flow-IsOriented packet_outgoing h aux_info pkt_type size v4)
                  (find-Apart log h n m) v,
              inl (find-assign log h _),
            )
    ]
  ]

  -- In a log with one flow for each conversation, adding any packet keeps one flow for each and that
  -- flow's end points; a parsed packet then has its flow, under its end points or under their reverse,
  -- and any other packet leaves the log as it is.
  pub add-IsValid :
      IsValid log
      → (errno : ParsingErrno)
      → let after = (add packet_outgoing log h pkt_type size v4 aux_info errno).0 in
        IsValid after
        × ((errno ≡ errno_ok)
            → (is_present (find after h) ≡ true) ⊎ (is_present (find after (reverse h)) ≡ true))
        × ((errno ≢ errno_ok) → after ≡ log)
  unfolding add above_ok parsing_failed
  add-IsValid v errno_ok =
      let (valid, found) = add_packet-IsValid v in (valid, λ e. found, λ n. absurd (n refl))
  add-IsValid v errno_packet_fragment_ignore = (v, λ e. absurd (ground arith), λ n. refl)
  add-IsValid v errno_invalid_ip_header = (v, λ e. absurd (ground arith), λ n. refl)
  add-IsValid v errno_packet_truncated = (v, λ e. absurd (ground arith), λ n. refl)
