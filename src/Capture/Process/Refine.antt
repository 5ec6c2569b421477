-- ===== src/Capture/Process/Refine.antt =====
-- The packet loop of pkg/capture/capture.go against a loop that keeps a list of packets while the lock is
-- held.
use go_probe.Common.{ℕ, ◌≡◌, refl, sym, ◌∙◌, subst, ◌⊎◌, inl, inr, List, [], ◌∷◌}
use go_probe.Common.Bytes.{Bytes}
use go_probe.Common.Result.{Result, ok}
use go_probe.Capture.Buffer.{Limits, LocalBuffer, Element, NoError, assign_data}
use go_probe.Capture.Buffer.Held.{AreLimits, images}
use go_probe.Capture.Process.{
  CaptureState, Mode, running, buffering, waiting, finished, Event, lock_request, unlock, packet,
  capture_unblocked, capture_stopped, capture_failed, locked_call, ProcessState, element,
  add_to_flow_log, capture_packet, step_in, step, process,
}
use go_probe.Capture.Process.Steps.{
  IsEvent, AreEvents, Keeps, locks, adds, calls, ends, Runs, done, next,
}
use go_probe.Capture.Process.Matched.{Matched, ignored, after_unlock-Matched, buffer_packet-Matched}

module _ (limits : Limits) (packet_outgoing : ℕ) (layer_type : Bytes → ℕ) where
  abbrev Kept : Mode → List Element → Type 0
  Kept = Keeps limits packet_outgoing layer_type

  abbrev Match : ProcessState → List Element → Event → Result NoError ProcessState → Type 0
  Match = Matched limits packet_outgoing layer_type

  ended :
      (s t : ProcessState) (es : List Element) (e : Event)
      → (e ≡ capture_stopped) ⊎ (e ≡ capture_failed)
      → t.mode ≡ finished
      → t.capture ≡ s.capture
      → Match s es e (ok t)
  ended s t es e is_end at same =
      (t, es, refl, subst (λ m. Kept m es) (sym at) tt, ends s t es e is_end at same)

  called :
      (s : ProcessState) (m : Mode) (l : LocalBuffer) (es : List Element)
      (change : CaptureState → CaptureState)
      → s.mode ≡ m
      → (m ≡ buffering l) ⊎ (m ≡ waiting l)
      → Kept m es
      → Match s es (locked_call change) (ok (record s { capture = change s.capture }))
  called s m l es change at locked k =
      let t = record s { capture = change s.capture } in
      (
        t,
        es,
        refl,
        subst (λ n. Kept n es) (sym at) k,
        calls s t es l change (elim locked [ inl b ↦ inl (at ∙ b) | inr w ↦ inr (at ∙ w) ]) refl,
      )

  running-Matched :
      (s : ProcessState) (e : Event)
      → s.mode ≡ running
      → IsEvent limits packet_outgoing layer_type e
      → Match s [] e (step_in limits packet_outgoing layer_type running s e)
  unfolding step_in capture_packet assign_data images
  running-Matched s (lock_request buf) at v =
      let l : LocalBuffer = record { contents = buf; buf_pos = 0 } in
      let t = record s { mode = buffering l } in
      (
        t,
        [],
        refl,
        (record { unused = buf; contents_lem = refl; buf_pos_lem = refl; size_lem = v }, tt),
        locks s t buf l at refl,
      )
  running-Matched s unlock at v =
      ignored limits packet_outgoing layer_type s running [] unlock at tt refl
  running-Matched s (packet ip_layer pkt_type pkt_size) at (p, parsed, _) =
      let t = record s {
        capture = add_to_flow_log packet_outgoing s.capture (element p pkt_type pkt_size);
      } in
      (
        t,
        [],
        rw parsed refl,
        subst (λ m. Kept m []) (sym at) tt,
        adds s t ip_layer pkt_type pkt_size p at parsed refl,
      )
  running-Matched s capture_unblocked at v =
      ignored limits packet_outgoing layer_type s running [] capture_unblocked at tt refl
  running-Matched s capture_stopped at v = ended s _ [] capture_stopped (inl refl) refl refl
  running-Matched s capture_failed at v = ended s _ [] capture_failed (inr refl) refl refl
  running-Matched s (locked_call change) at v =
      ignored limits packet_outgoing layer_type s running [] (locked_call change) at tt refl

  running_any :
      (s : ProcessState) (es : List Element) (e : Event)
      → s.mode ≡ running
      → Kept running es
      → IsEvent limits packet_outgoing layer_type e
      → Match s es e (step_in limits packet_outgoing layer_type running s e)
  running_any s [] e at k v = running-Matched s e at v
  running_any s (x ∷ es) e at k v = absurd k

  buffering-Matched :
      (s : ProcessState) (l : LocalBuffer) (es : List Element) (e : Event)
      → AreLimits limits
      → s.mode ≡ buffering l
      → Kept (buffering l) es
      → IsEvent limits packet_outgoing layer_type e
      → Match s es e (step_in limits packet_outgoing layer_type (buffering l) s e)
  unfolding step_in
  buffering-Matched s l es (lock_request buf) w at k v =
      ignored limits packet_outgoing layer_type s (buffering l) es (lock_request buf) at k refl
  buffering-Matched s l es unlock w at k v =
      after_unlock-Matched limits packet_outgoing layer_type s l es (inl at) k
  buffering-Matched s l es (packet ip_layer pkt_type pkt_size) w at k v =
      buffer_packet-Matched limits packet_outgoing layer_type s l es ip_layer pkt_type pkt_size w at
        k v
  buffering-Matched s l es capture_unblocked w at k v =
      ignored limits packet_outgoing layer_type s (buffering l) es capture_unblocked at k refl
  buffering-Matched s l es capture_stopped w at k v =
      ended s _ es capture_stopped (inl refl) refl refl
  buffering-Matched s l es capture_failed w at k v =
      ended s _ es capture_failed (inr refl) refl refl
  buffering-Matched s l es (locked_call change) w at k v =
      called s (buffering l) l es change at (inl refl) k

  waiting-Matched :
      (s : ProcessState) (l : LocalBuffer) (es : List Element) (e : Event)
      → s.mode ≡ waiting l
      → Kept (waiting l) es
      → Match s es e (step_in limits packet_outgoing layer_type (waiting l) s e)
  unfolding step_in
  waiting-Matched s l es (lock_request buf) at k =
      ignored limits packet_outgoing layer_type s (waiting l) es (lock_request buf) at k refl
  waiting-Matched s l es unlock at k =
      after_unlock-Matched limits packet_outgoing layer_type s l es (inr at) k
  waiting-Matched s l es (packet ip_layer pkt_type pkt_size) at k =
      ignored limits packet_outgoing layer_type s (waiting l) es (packet ip_layer pkt_type pkt_size)
        at k refl
  waiting-Matched s l es capture_unblocked at k =
      ignored limits packet_outgoing layer_type s (waiting l) es capture_unblocked at k refl
  waiting-Matched s l es capture_stopped at k =
      ignored limits packet_outgoing layer_type s (waiting l) es capture_stopped at k refl
  waiting-Matched s l es capture_failed at k =
      ignored limits packet_outgoing layer_type s (waiting l) es capture_failed at k refl
  waiting-Matched s l es (locked_call change) at k =
      called s (waiting l) l es change at (inr refl) k

  -- A step of the loop does not panic and is one of the steps that are told with a list.
  step_in-Matched :
      (s : ProcessState) (m : Mode) (es : List Element) (e : Event)
      → AreLimits limits
      → s.mode ≡ m
      → Kept m es
      → IsEvent limits packet_outgoing layer_type e
      → Match s es e (step_in limits packet_outgoing layer_type m s e)
  unfolding step_in
  step_in-Matched s running es e w at k v = running_any s es e at k v
  step_in-Matched s (buffering l) es e w at k v = buffering-Matched s l es e w at k v
  step_in-Matched s (waiting l) es e w at k v = waiting-Matched s l es e at k
  step_in-Matched s finished es e w at k v =
      ignored limits packet_outgoing layer_type s finished es e at tt refl

  -- The packet loop, with a limit that is the initial size doubled some times and on packets that are
  -- parsed, does not panic over any sequence of events: each step is one of `Steps`, so that while the lock
  -- is held packets are kept in their order unless the buffer is full, and all that are kept are added to
  -- the flow log, each with its IP version inverted, when the lock is released.
  pub process-Runs :
      (es : List Event) (s : ProcessState) (kept : List Element)
      → AreLimits limits
      → Keeps limits packet_outgoing layer_type s.mode kept
      → AreEvents limits packet_outgoing layer_type es
      → (t : ProcessState) × (left : List Element) × (process limits packet_outgoing layer_type s es
          ≡ ok t)
        × Keeps limits packet_outgoing layer_type t.mode left
        × Runs limits packet_outgoing layer_type s kept es t left
  unfolding process step
  process-Runs [] s kept w k vs = (s, kept, refl, k, done s kept)
  process-Runs (e ∷ es) s kept w k (v, vs) =
      let (t, then_kept, stepped, l, matched) = step_in-Matched s s.mode kept e w refl k v in
      let (u, left, ran, m, runs) = process-Runs es t then_kept w l vs in
      (u, left, rw stepped ran, m, next s kept e t then_kept es u left matched runs)
