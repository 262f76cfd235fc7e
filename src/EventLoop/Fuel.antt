-- ===== src/EventLoop/Fuel.antt =====
-- The rounds of `event_loop`: each uses a character of the stream.
use libgdb.Prelude.{
  ℕ, zero, suc, ◌<◌, ◌≡◌, refl, ap, sym, ◌∙◌, Bool, ◌||◌, not, length, arith, Bool-cases, inl, inr,
}
use libgdb.Prelude.Outcome.{Outcome, >>=-cong, >>=-cong_at, Ensures-ok}
use libgdb.Util.Buffer.{Bytes}
use libgdb.Arch.Kernel.{Kernel}
use libgdb.Gdb.State.{State}
use libgdb.Gdb.Packet.{Reply, Stack}
use libgdb.Framing.{start, Received, waiting, packet, get_packet, Sent, unanswered, acknowledged}
use libgdb.Framing.Chunks.{ShorterSent-le, Shorter, get_packet-Shorter}
use libgdb.EventLoop.Laws.{IsWire, IsShorter}
use libgdb.EventLoop.{
  Wire, Place, at_packet, at_reply, Debugger, handle, finished, and_sent, on_sent, on_reply,
  on_received, round, event_loop,
}

module _ (w : Wire) (laws : IsWire w) {W : Type 0} (k : Kernel W)
    (junk : State W → Bytes → Stack) where
  -- Two ways to go on that do the same with a stream of fewer than `n` characters.
  abbrev pub Agree :
      ℕ
      → (Debugger w W → Bytes → Outcome (Debugger w W × Bytes))
      → (Debugger w W → Bytes → Outcome (Debugger w W × Bytes))
      → Type 0
  Agree n more more' =
      (d : Debugger w W) (stream : Bytes) → length stream < n → more d stream ≡ more' d stream

  module _ (n : ℕ) (more more' : Debugger w W → Bytes → Outcome (Debugger w W × Bytes))
      (agree : Agree n more more') where
    on_sent-Agree :
        (d : Debugger w W) (resume : Bool) (s : w.Sender × Sent)
        → IsShorter w n s
        → on_sent w k junk more d resume s ≡ on_sent w k junk more' d resume s
    on_sent-Agree d resume (sender, unanswered out) h = refl
    on_sent-Agree d resume (sender, acknowledged rest out) h =
        ap (and_sent w k junk out)
          (agree (finished w k junk resume (record d { sender = sender })) rest h)

    on_reply-Agree :
        (d : Debugger w W) (rest : Bytes) (reply : Reply W)
        → length rest < n
        → on_reply w k junk more d rest reply ≡ on_reply w k junk more' d rest reply
    on_reply-Agree d rest reply h = elim (Bool-cases (not reply.resume || reply.detached)) [
      | inl answers ↦ rw answers (
          >>=-cong_at (w.put_packet d.sender reply.state.output rest) (λ s e.
            on_sent-Agree (record d { state = reply.state; detached = reply.detached }) reply.resume
              s
              (ShorterSent-le s.1 (omega arith) (
                Ensures-ok (IsShorter w (length rest))
                  (w.put_packet d.sender reply.state.output rest)
                  (laws.put_shorter d.sender reply.state.output rest) e))))
      | inr silent ↦ rw silent (
          agree
            (finished w k junk reply.resume
              (record d { state = reply.state; detached = reply.detached }))
            rest h)
    ]

    on_received-Agree :
        (d : Debugger w W) (r : Received)
        → Shorter n r
        → on_received w k junk more d r ≡ on_received w k junk more' d r
    on_received-Agree d (waiting mode buf sent) h = refl
    on_received-Agree d (packet p buf rest sent) h =
        let d' : Debugger w W = record d { input = buf; main = at_packet start } in
        >>=-cong (handle w k junk d' p)
          (λ reply. ap (and_sent w k junk sent) (on_reply-Agree d' rest reply h))

  round-Agree :
      (more more' : Debugger w W → Bytes → Outcome (Debugger w W × Bytes)) (d : Debugger w W)
      (stream : Bytes) (place : Place)
      → Agree (length stream) more more'
      → round w k junk more d stream place ≡ round w k junk more' d stream place
  round-Agree more more' d stream (at_packet mode) agree =
      >>=-cong_at (get_packet w.link mode d.input stream) (λ r e.
        on_received-Agree (length stream) more more' agree d r (
          Ensures-ok (Shorter (length stream)) (get_packet w.link mode d.input stream)
            (get_packet-Shorter w.link mode d.input stream) e))
  round-Agree more more' d stream (at_reply resume) agree =
      >>=-cong_at (w.await_reply d.sender d.state.output stream) (λ s e.
        on_sent-Agree (length stream) more more' agree d resume s (
          Ensures-ok (IsShorter w (length stream)) (w.await_reply d.sender d.state.output stream)
            (laws.await_shorter d.sender d.state.output stream) e))

  -- Fuel that is enough: any two amounts that are greater than the number of characters give the same
  -- run.
  pub event_loop-fuel :
      (fuel fuel' : ℕ) (d : Debugger w W) (stream : Bytes)
      → length stream < fuel
      → length stream < fuel'
      → event_loop w k junk fuel d stream ≡ event_loop w k junk fuel' d stream
  unfolding event_loop
  event_loop-fuel zero fuel' d stream h h' = absurd (omega arith)
  event_loop-fuel (suc fuel) zero d stream h h' = absurd (omega arith)
  event_loop-fuel (suc fuel) (suc fuel') d stream h h' =
      round-Agree (event_loop w k junk fuel) (event_loop w k junk fuel') d stream d.main
        (λ d' rest shorter. event_loop-fuel fuel fuel' d' rest (omega arith) (omega arith))

  -- A function that does what the source's loop does, with no fuel: a round, and then itself.
  abbrev pub IsLoop : (Debugger w W → Bytes → Outcome (Debugger w W × Bytes)) → Type 0
  IsLoop loop =
      (d : Debugger w W) (stream : Bytes) → loop d stream ≡ round w k junk loop d stream d.main

  -- One character more of fuel than there are characters.
  abbrev pub enough : Debugger w W → Bytes → Outcome (Debugger w W × Bytes)
  enough d stream = event_loop w k junk (suc (length stream)) d stream

  pub enough-IsLoop : IsLoop enough
  unfolding event_loop
  enough-IsLoop d stream =
      round-Agree (event_loop w k junk (length stream)) enough d stream d.main (λ d' rest shorter.
        event_loop-fuel (length stream) (suc (length rest)) d' rest shorter (omega arith))

  -- For a put_packet whose replies may come in two parts and that uses one of them at least when it
  -- is acknowledged, as that of both programs: with more fuel than characters, the event loop is the
  -- loop without fuel. It does a round and then goes on as itself, from every place and on every
  -- text, and each function that does so gives the result that it gives.
  pub event_loop-IsLoop :
      (loop : Debugger w W → Bytes → Outcome (Debugger w W × Bytes)) (fuel : ℕ) (d : Debugger w W)
      (stream : Bytes)
      → IsLoop loop
      → length stream < fuel
      → (event_loop w k junk fuel d stream
          ≡ round w k junk (event_loop w k junk fuel) d stream d.main)
        × (event_loop w k junk fuel d stream ≡ loop d stream)
  unfolding event_loop
  event_loop-IsLoop loop zero d stream solves h = absurd (omega arith)
  event_loop-IsLoop loop (suc fuel) d stream solves h = (
    round-Agree (event_loop w k junk fuel) (event_loop w k junk (suc fuel)) d stream d.main
        (λ d' rest shorter. event_loop-fuel fuel (suc fuel) d' rest (omega arith) (omega arith)),
    round-Agree (event_loop w k junk fuel) loop d stream d.main
          (λ d' rest shorter. (event_loop-IsLoop loop fuel d' rest solves (omega arith)).1)
        ∙ sym (solves d stream),
  )
