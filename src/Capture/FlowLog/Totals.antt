-- ===== src/Capture/FlowLog/Totals.antt =====
-- What the flow log holds altogether.
use go_probe.Common.{
  ◌≢◌, subst, arith, ℕ, ◌≡◌, refl, sym, ap, ◌∙◌, Bool, true, false, some, [], ◌∷◌, Bool-cases,
  if◌then◌else◌, inl, inr,
}
use go_probe.Types.Counters.{Counters, zero_counters, add as add_counters, add_comm, add_assoc}
use go_probe.Capture.EpHash.{EpHash, reverse, same}
use go_probe.Capture.Flow.{
  Flow, update_flow, packet_counters, add-count_packet, update_flow-counters, new_flow-counters,
}
use go_probe.Capture.FlowLog.{
  FlowLog, find, modify, assign, is_present, add, add_packet, above_ok, parsing_failed,
  ParsingErrno, errno_ok, errno_packet_fragment_ignore, errno_invalid_ip_header,
  errno_packet_truncated,
}

unfoldable pub total : FlowLog → Counters
total [] = zero_counters
total ((k, f) ∷ log) = add_counters f.counters (total log)

exchange :
    (c d e : Counters) → add_counters c (add_counters d e) ≡ add_counters d (add_counters c e)
exchange c d e = sym (add_assoc c d e) ∙ ap (λ t. add_counters t e) (add_comm c d) ∙ add_assoc d c e

modify-total :
    (log : FlowLog) (h : EpHash) (change : Flow → Flow) (p : Counters)
    → is_present (find log h) ≡ true
    → ((f : Flow) (d : Counters)
        → add_counters (change f).counters d ≡ add_counters p (add_counters f.counters d))
    → total (modify log h change) ≡ add_counters p (total log)
unfolding total modify find is_present
modify-total [] h change p e c = ground arith
modify-total ((k, f) ∷ log) h change p e c = elim (Bool-cases (same k h)) [
  | inl t ↦ rw t (c f (total log))
  | inr n ↦ rw n (
      ap (add_counters f.counters) (
        modify-total log h change p
          (subst (λ b. is_present (if b then some f else find log h) ≡ true) n e) c)
      ∙ exchange f.counters p (total log))
]

assign-total :
    (log : FlowLog) (h : EpHash) (g : Flow)
    → is_present (find log h) ≡ false
    → total (assign log h g) ≡ add_counters g.counters (total log)
unfolding total assign find is_present
assign-total [] h g e = refl
assign-total ((k, f) ∷ log) h g e = elim (Bool-cases (same k h)) [
  | inl t ↦ absurd (ground (arith, t))
  | inr n ↦ rw n (
      ap (add_counters f.counters) (
        assign-total log h g
          (subst (λ b. is_present (if b then some f else find log h) ≡ false) n e))
      ∙ exchange f.counters g.counters (total log))
]

module _ (packet_outgoing : ℕ) (log : FlowLog) (h : EpHash) (pkt_type size : ℕ) (v4 : Bool)
    (aux_info : ℕ) where
  update_counts :
      (k : EpHash) (f : Flow) (d : Counters)
      → add_counters (update_flow packet_outgoing f k aux_info pkt_type size).counters d
        ≡ add_counters (packet_counters packet_outgoing pkt_type size) (add_counters f.counters d)
  update_counts k f d =
      ap (λ c. add_counters c d) (update_flow-counters packet_outgoing k aux_info pkt_type size f)
      ∙ add-count_packet packet_outgoing k aux_info pkt_type size f.counters d

  total-add_packet :
      total (add_packet packet_outgoing log h pkt_type size v4 aux_info)
      ≡ add_counters (packet_counters packet_outgoing pkt_type size) (total log)
  unfolding add_packet
  total-add_packet = elim (Bool-cases (is_present (find log h))) [
    | inl t ↦ rw t (modify-total log h _ _ t (update_counts h))
    | inr n ↦ elim (Bool-cases (is_present (find log (reverse h)))) [
      | inl t ↦ rw (n, t) (modify-total log (reverse h) _ _ t (update_counts (reverse h)))
      | inr m ↦
          rw (n, m)
            (assign-total log h _ n
              ∙ ap (λ c. add_counters c (total log))
                  (new_flow-counters packet_outgoing h aux_info pkt_type size v4))
    ]
  ]

  -- A packet that was parsed raises the totals of the log by its size and by one packet, on the side of
  -- its direction at the interface, whether it belongs to a known flow, to the reverse of one, or to
  -- none; any other packet leaves the totals. Only a packet whose parsing failed gives an error.
  pub add-total :
      (errno : ParsingErrno)
      → let (after, result) = add packet_outgoing log h pkt_type size v4 aux_info errno in
        ((errno ≡ errno_ok)
          → total after ≡ add_counters (packet_counters packet_outgoing pkt_type size) (total log))
        × ((errno ≢ errno_ok) → total after ≡ total log)
        × (result ≡ (if parsing_failed errno then errno else errno_ok))
  unfolding add above_ok parsing_failed
  add-total errno_ok = (λ e. total-add_packet, λ n. absurd (n refl), refl)
  add-total errno_packet_fragment_ignore = (λ e. absurd (ground arith), λ n. refl, refl)
  add-total errno_invalid_ip_header = (λ e. absurd (ground arith), λ n. refl, refl)
  add-total errno_packet_truncated = (λ e. absurd (ground arith), λ n. refl, refl)
