-- ===== src/Capture/Process/Matched.antt =====
-- Steps of the packet loop of pkg/capture/capture.go that have several branches.
use mathlib.Core.List.{append_assoc}
use go_probe.Common.{
  ℕ, suc, ◌≡◌, refl, sym, ap, ◌∙◌, subst, ◌⊎◌, inl, inr, false, List, [], ◌∷◌, ◌++◌, map, arith,
  length, get_elem?-middle, length-append,
}
use go_probe.Common.Bytes.{Bytes}
use go_probe.Common.Result.{Result, ok, ◌>>=◌}
use go_probe.Capture.Buffer.{Limits, LocalBuffer, Element, NoError, n_elements}
use go_probe.Capture.Buffer.Held.{IsElement, AreElements, AreLimits, Holds, length-images}
use go_probe.Capture.Buffer.Adding.{add-Holds}
use go_probe.Capture.Buffer.Getting.{version_inverted, get-version_inverted}
use go_probe.Capture.Process.{
  CaptureState, local_buffer_overflow, Mode, running, buffering, waiting, Event, unlock, packet,
  ProcessState, element, add_to_flow_log, buffer_packet, drain_from, drain, after_unlock, after_add,
}
use go_probe.Capture.Process.Counts.{add_all}
use go_probe.Capture.Process.Steps.{
  takes, IsEvent, Keeps, Steps, keeps, overflows, unlocks, ignores,
}

snoc-AreElements :
    (es : List Element) (e : Element) → AreElements es → IsElement e → AreElements (es ++ e ∷ [])
snoc-AreElements [] e vs v = (v, tt)
snoc-AreElements (x ∷ es) e (w, vs) v = (w, snoc-AreElements es e vs v)

module _ (limits : Limits) (packet_outgoing : ℕ) (layer_type : Bytes → ℕ) where
  -- Draining adds the packets that are held, from any index on.
  drain_from-add_all :
      (l : LocalBuffer) (pre es : List Element) (c : CaptureState)
      → Holds limits l (pre ++ es)
      → AreElements (pre ++ es)
      → drain_from limits packet_outgoing layer_type (length es) (length pre) l c
        ≡ ok (add_all packet_outgoing c (map version_inverted es))
  unfolding drain_from add_all
  drain_from-add_all l pre [] c s vs = refl
  drain_from-add_all l pre (e ∷ es) c s vs =
      let (got, _) =
        get-version_inverted limits l (pre ++ e ∷ es) (length pre) e s vs
          (get_elem?-middle pre es e) in
      let regroup : (pre ++ e ∷ []) ++ es ≡ pre ++ e ∷ es = append_assoc pre (e ∷ []) es in
      let next =
        drain_from-add_all l (pre ++ e ∷ []) es
          (add_to_flow_log packet_outgoing c (version_inverted e))
          (subst (Holds limits l) (sym regroup) s) (subst AreElements (sym regroup) vs) in
      let one_more : length (pre ++ e ∷ []) ≡ suc (length pre) =
        omega (arith, length-append pre (e ∷ [])) in
      rw got (rw one_more at next)

  drain_lem :
      (l : LocalBuffer) (es : List Element) (c : CaptureState)
      → Holds limits l es
      → AreElements es
      → drain limits packet_outgoing layer_type l c
        ≡ ok (add_all packet_outgoing c (map version_inverted es))
  unfolding drain n_elements
  drain_lem l es c s vs =
      let count : n_elements l ≡ length es = omega (arith, s.buf_pos_lem, length-images es vs) in
      rw count (drain_from-add_all l [] es c s vs)

  -- A step that is matched.
  abbrev pub Matched : ProcessState → List Element → Event → Result NoError ProcessState → Type 0
  Matched s es e r =
      (t : ProcessState) × (fs : List Element) × (r ≡ ok t)
      × Keeps limits packet_outgoing layer_type t.mode fs
      × Steps limits packet_outgoing layer_type s es e t fs

  pub ignored :
      (s : ProcessState) (m : Mode) (es : List Element) (e : Event)
      → s.mode ≡ m
      → Keeps limits packet_outgoing layer_type m es
      → takes m e ≡ false
      → Matched s es e (ok s)
  ignored s m es e at k none_taken = (
    s,
    es,
    refl,
    subst (λ n. Keeps limits packet_outgoing layer_type n es) (sym at) k,
    ignores s es e (ap (λ n. takes n e) at ∙ none_taken),
  )

  pub after_unlock-Matched :
      (s : ProcessState) (l : LocalBuffer) (es : List Element)
      → (s.mode ≡ buffering l) ⊎ (s.mode ≡ waiting l)
      → Holds limits l es × AreElements es
      → Matched s es unlock (after_unlock limits packet_outgoing layer_type l s)
  unfolding after_unlock
  after_unlock-Matched s l es at (h, vs) =
      let t = record s {
        capture = add_all packet_outgoing s.capture (map version_inverted es);
        mode = running;
      } in
      (
        t,
        [],
        ap (λ r. r >>= λ (c : CaptureState). ok (record s { capture = c; mode = running }))
            (drain_lem l es s.capture h vs),
        tt,
        unlocks s t es l at refl,
      )

  pub buffer_packet-Matched :
      (s : ProcessState) (l : LocalBuffer) (es : List Element) (ip_layer : Bytes)
      (pkt_type pkt_size : ℕ)
      → AreLimits limits
      → s.mode ≡ buffering l
      → Holds limits l es × AreElements es
      → IsEvent limits packet_outgoing layer_type (packet ip_layer pkt_type pkt_size)
      → Matched s es (packet ip_layer pkt_type pkt_size) (
          buffer_packet limits packet_outgoing layer_type l ip_layer pkt_type pkt_size >>= λ added.
          ok (after_add limits packet_outgoing layer_type s added))
  unfolding buffer_packet after_add
  buffer_packet-Matched s l es ip_layer pkt_type pkt_size w at (h, vs) (p, parsed, v) =
      let e = element p pkt_type pkt_size in
      let (m, outcome) = add-Holds limits e l es w v h in
      elim outcome [
        | inl (added, held) ↦
            let t = record s { mode = buffering m } in
            (
              t,
              es ++ e ∷ [],
              rw (parsed, added) refl,
              (held, snoc-AreElements es e vs v),
              keeps s t es l m ip_layer pkt_type pkt_size p at parsed refl,
            )
        | inr (full, held, at_limit) ↦
            let t = record s {
              mode = waiting m;
              errors = s.errors ++ local_buffer_overflow ∷ [];
            } in
            (
              t,
              es,
              rw (parsed, full) refl,
              (held, vs),
              overflows s t es l m ip_layer pkt_type pkt_size at
                  (omega (arith, at_limit, h.buf_pos_lem, length-images es vs)) refl,
            )
      ]
