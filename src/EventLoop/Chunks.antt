-- ===== src/EventLoop/Chunks.antt =====
-- Characters that come in parts: `event_loop` goes on where the first part left it.
use libgdb.Prelude.{
  ℕ, zero, suc, ◌+◌, ◌<◌, ◌≡◌, refl, ap, sym, ◌∙◌, Bool, ◌||◌, not, ◌++◌, length, arith, Bool-cases,
  inl, inr,
}
use mathlib.Core.List.{append_assoc}
use libgdb.Prelude.Outcome.{Outcome, ok, fault, ◌>>=◌, >>=-assoc, >>=-cong, >>=-cong_at, Ensures-ok}
use libgdb.Util.Buffer.{Bytes}
use libgdb.Arch.Kernel.{Kernel}
use libgdb.Gdb.State.{State}
use libgdb.Gdb.Packet.{Reply, Stack}
use libgdb.Framing.{
  start, Received, waiting, packet, get_packet, after_sent, Sent, unanswered, acknowledged, resent,
}
use libgdb.Framing.Chunks.{ShorterSent-le, Shorter, get_packet-Shorter, continue, get_packet-append}
use libgdb.EventLoop.Laws.{IsWire, IsShorter, continue_put}
use libgdb.EventLoop.{
  Wire, Place, at_packet, at_reply, Debugger, handle, finished, asleep, and_sent, on_sent, on_reply,
  on_received, round, event_loop,
}
use libgdb.EventLoop.Fuel.{event_loop-fuel}

module _ (w : Wire) {W : Type 0} (k : Kernel W) (junk : State W → Bytes → Stack) where
  pub and_sent-and_sent :
      (a b : Bytes) (m : Outcome (Debugger w W × Bytes))
      → and_sent w k junk a (and_sent w k junk b m) ≡ and_sent w k junk (a ++ b) m
  and_sent-and_sent a b (ok (d, sent)) = ap (λ out. ok (d, out)) (sym (append_assoc a b sent))
  and_sent-and_sent a b (fault e) = refl

module _ (w : Wire) (laws : IsWire w) {W : Type 0} (k : Kernel W)
    (junk : State W → Bytes → Stack) where
  module _ (more : Debugger w W → Bytes → Outcome (Debugger w W × Bytes)) (s' : Bytes) where
    -- The second part, from where the first has left the debugger.
    abbrev then_rest : Debugger w W × Bytes → Outcome (Debugger w W × Bytes)
    then_rest (d, out) = and_sent w k junk out (round w k junk more d s' d.main)

    and_sent-then_rest :
        (out : Bytes) (m : Outcome (Debugger w W × Bytes))
        → and_sent w k junk out (m >>= then_rest) ≡ (and_sent w k junk out m >>= then_rest)
    and_sent-then_rest out (ok (d, sent)) =
        and_sent-and_sent w k junk out sent (round w k junk more d s' d.main)
    and_sent-then_rest out (fault e) = refl

    on_sent-resent :
        (d : Debugger w W) (resume : Bool) (out : Bytes) (s : w.Sender × Sent)
        → on_sent w k junk more d resume (s.0, resent out s.1)
          ≡ and_sent w k junk out (on_sent w k junk more d resume s)
    on_sent-resent d resume out (sender, unanswered sent) = refl
    on_sent-resent d resume out (sender, acknowledged rest sent) = sym (
        and_sent-and_sent w k junk out sent
          (more (finished w k junk resume (record d { sender = sender })) rest))

    on_sent-asleep :
        (d : Debugger w W) (old : w.Sender) (place : Place) (resume : Bool) (s : w.Sender × Sent)
        → on_sent w k junk more d resume s
          ≡ on_sent w k junk more (asleep w k junk (record d { sender = old }) place) resume s
    on_sent-asleep d old place resume (sender, unanswered sent) = refl
    on_sent-asleep d old place resume (sender, acknowledged rest sent) = refl

    on_received-after_sent :
        (d : Debugger w W) (out : Bytes) (r : Received)
        → on_received w k junk more d (after_sent out r)
          ≡ and_sent w k junk out (on_received w k junk more d r)
    on_received-after_sent d out (waiting mode buf sent) = refl
    on_received-after_sent d out (packet p buf rest sent) =
        let d' : Debugger w W = record d { input = buf; main = at_packet start } in
        >>=-cong (handle w k junk d' p) (λ reply.
          sym (and_sent-and_sent w k junk out sent (on_reply w k junk more d' rest reply)))
        ∙ sym (>>=-assoc (handle w k junk d' p) _ _)

    on_received-asleep :
        (d : Debugger w W) (buf : Bytes) (place : Place) (r : Received)
        → on_received w k junk more d r
          ≡ on_received w k junk more (asleep w k junk (record d { input = buf }) place) r
    on_received-asleep d buf place (waiting mode buf' sent) = refl
    on_received-asleep d buf place (packet p buf' rest sent) = refl

    module _ (n : ℕ)
        (splits : (d : Debugger w W) (s : Bytes)
          → length s < n
          → more d (s ++ s') ≡ (more d s >>= then_rest)) where
      on_sent-append :
          (d : Debugger w W) (resume : Bool) (s : w.Sender × Sent)
          → IsShorter w n s
          → (continue_put w d.state.output s' s >>= on_sent w k junk more d resume)
            ≡ (on_sent w k junk more d resume s >>= then_rest)
      on_sent-append d resume (sender, unanswered out) h =
          >>=-assoc (w.await_reply sender d.state.output s') _ _
          ∙ >>=-cong (w.await_reply sender d.state.output s') (λ s.
            on_sent-resent d resume out s
            ∙ ap (and_sent w k junk out) (on_sent-asleep d sender (at_reply resume) resume s))
          ∙ sym (>>=-assoc (w.await_reply sender d.state.output s') _ _)
      on_sent-append d resume (sender, acknowledged rest out) h =
          ap (and_sent w k junk out)
            (splits (finished w k junk resume (record d { sender = sender })) rest h)
          ∙ and_sent-then_rest out
              (more (finished w k junk resume (record d { sender = sender })) rest)

      on_reply-append :
          (d : Debugger w W) (rest : Bytes) (reply : Reply W)
          → length rest < n
          → on_reply w k junk more d (rest ++ s') reply
            ≡ (on_reply w k junk more d rest reply >>= then_rest)
      on_reply-append d rest reply h =
          let d' : Debugger w W = record d { state = reply.state; detached = reply.detached } in
          elim (Bool-cases (not reply.resume || reply.detached)) [
            | inl answers ↦ rw answers (
                ap (λ m. m >>= on_sent w k junk more d' reply.resume)
                  (laws.put_append d.sender reply.state.output rest s')
                ∙ >>=-assoc (w.put_packet d.sender reply.state.output rest) _ _
                ∙ >>=-cong_at (w.put_packet d.sender reply.state.output rest) (λ s e.
                  on_sent-append d' reply.resume s (
                    ShorterSent-le s.1 (omega arith) (
                      Ensures-ok (IsShorter w (length rest))
                        (w.put_packet d.sender reply.state.output rest)
                        (laws.put_shorter d.sender reply.state.output rest) e)))
                ∙ sym (>>=-assoc (w.put_packet d.sender reply.state.output rest) _ _))
            | inr silent ↦ rw silent (splits (finished w k junk reply.resume d') rest h)
          ]

      on_received-append :
          (d : Debugger w W) (r : Received)
          → Shorter n r
          → (continue w.link s' r >>= on_received w k junk more d)
            ≡ (on_received w k junk more d r >>= then_rest)
      on_received-append d (waiting mode buf sent) h =
          >>=-assoc (get_packet w.link mode buf s') _ _
          ∙ >>=-cong (get_packet w.link mode buf s') (λ r.
            on_received-after_sent d sent r
            ∙ ap (and_sent w k junk sent) (on_received-asleep d buf (at_packet mode) r))
          ∙ sym (>>=-assoc (get_packet w.link mode buf s') _ _)
      on_received-append d (packet p buf rest sent) h =
          let d' : Debugger w W = record d { input = buf; main = at_packet start } in
          >>=-cong (handle w k junk d' p) (λ reply.
            ap (and_sent w k junk sent) (on_reply-append d' rest reply h)
            ∙ and_sent-then_rest sent (on_reply w k junk more d' rest reply))
          ∙ sym (>>=-assoc (handle w k junk d' p) _ _)

    round-append :
        (d : Debugger w W) (s : Bytes) (place : Place)
        → ((d' : Debugger w W) (r : Bytes)
            → length r < length s
            → more d' (r ++ s') ≡ (more d' r >>= then_rest))
        → round w k junk more d (s ++ s') place ≡ (round w k junk more d s place >>= then_rest)
    round-append d s (at_packet mode) splits =
        ap (λ m. m >>= on_received w k junk more d) (get_packet-append w.link mode d.input s s')
        ∙ >>=-assoc (get_packet w.link mode d.input s) _ _
        ∙ >>=-cong_at (get_packet w.link mode d.input s) (λ r e.
          on_received-append (length s) splits d r (
            Ensures-ok (Shorter (length s)) (get_packet w.link mode d.input s)
              (get_packet-Shorter w.link mode d.input s) e))
        ∙ sym (>>=-assoc (get_packet w.link mode d.input s) _ _)
    round-append d s (at_reply resume) splits =
        ap (λ m. m >>= on_sent w k junk more d resume)
          (laws.await_append d.sender d.state.output s s')
        ∙ >>=-assoc (w.await_reply d.sender d.state.output s) _ _
        ∙ >>=-cong_at (w.await_reply d.sender d.state.output s) (λ r e.
          on_sent-append (length s) splits d resume r (
            Ensures-ok (IsShorter w (length s)) (w.await_reply d.sender d.state.output s)
              (laws.await_shorter d.sender d.state.output s) e))
        ∙ sym (>>=-assoc (w.await_reply d.sender d.state.output s) _ _)

  -- With fuel for each character and one round more, the event loop does with characters that come
  -- in two parts what it does with all of them at once, if put_packet does so too and uses a reply
  -- at least when it is acknowledged.
  pub event_loop-append :
      (fuel : ℕ) (d : Debugger w W) (s s' : Bytes)
      → length s + length s' < fuel
      → event_loop w k junk fuel d (s ++ s') ≡ (
          event_loop w k junk fuel d s >>= λ (d', out).
          and_sent w k junk out (event_loop w k junk fuel d' s'))
  unfolding event_loop
  event_loop-append zero d s s' h = absurd (omega arith)
  event_loop-append (suc fuel) d s s' h =
      round-append (event_loop w k junk fuel) s' d s d.main (λ d' r shorter.
        event_loop-append fuel d' r s' (omega arith)
        ∙ >>=-cong (event_loop w k junk fuel d' r) (λ (e, out).
          ap (and_sent w k junk out)
            (event_loop-fuel w laws k junk fuel (suc fuel) e s' (omega arith) (omega arith))))
