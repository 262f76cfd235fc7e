-- ===== src/EventLoop/Waits.antt =====
-- Which coroutine waits after `notified` and `fault`, and what it leaves.
use libgdb.Prelude.{ℕ, ◌≡◌, ◌≢◌, refl, []}
use libgdb.Prelude.Outcome.{Ensures, Ensures-bind}
use libgdb.Util.Buffer.{Bytes}
use libgdb.Arch.Kernel.{Kernel}
use libgdb.Gdb.State.{State}
use libgdb.Gdb.Faults.{DebugException, gdb_handle_fault}
use libgdb.Gdb.Registry.{suspend_system}
use libgdb.Gdb.Packet.{Stack}
use libgdb.Framing.{Sent, unanswered, acknowledged}
use libgdb.EventLoop.{
  Wire, Debugger, Idle, EventState, none_waiting, waiting_for_input_event_loop,
  waiting_for_input_fault, event_loop, on_fault, on_fault_sent, wake_main, notified,
}

module _ (w : Wire) {W : Type 0} (k : Kernel W) (junk : State W → Bytes → Stack) where
  -- A coroutine waits for characters.
  abbrev pub Waits : Idle w W × Bytes × Bytes → Type 0
  Waits (idle, rest, sent) = idle.event_state ≢ none_waiting

  on_fault_sent-Waits :
      (d : Debugger w W) (sent : w.Sender × Sent) → Waits (on_fault_sent w k junk d sent)
  on_fault_sent-Waits d (sender, unanswered out) = λ e. cc
  on_fault_sent-Waits d (sender, acknowledged rest out) = λ e. cc

  pub on_fault-Waits :
      (d : Debugger w W) (stream : Bytes) (ch label : ℕ) (e : DebugException)
      → Ensures (λ (idle, have_reply). Waits idle) (on_fault w k junk d stream ch label e)
  unfolding on_fault
  on_fault-Waits d stream ch label e =
      Ensures-bind (λ (idle, have_reply). Waits idle)
        (gdb_handle_fault k (suspend_system k d.state) ch 0 label e) _
        λ (s, err, have_reply) e₁.
          Ensures-bind (λ (idle, have_reply). Waits idle) (w.put_packet d.sender s.output stream) _
            λ sent e₂. on_fault_sent-Waits (record d { state = s }) sent

  abbrev in_state : Debugger w W → EventState → w.Sender → Idle w W
  in_state d e sender = record { debugger = d; event_state = e; fault_sender = sender }

  wake_main-Waits :
      (fuel : ℕ) (d : Debugger w W) (e : EventState) (sender : w.Sender) (stream out : Bytes)
      → e ≢ none_waiting
      → Ensures Waits (wake_main w k junk fuel (in_state d e sender, stream, out))
  wake_main-Waits fuel d none_waiting sender stream out h = absurd (h refl)
  wake_main-Waits fuel d waiting_for_input_event_loop sender stream out h =
      Ensures-bind Waits (event_loop w k junk fuel d stream) _ (λ (d', sent) e'. h)
  wake_main-Waits fuel d waiting_for_input_fault sender stream out h = h

  pub notified-Waits :
      (fuel : ℕ) (d : Debugger w W) (e : EventState) (sender : w.Sender) (stream : Bytes)
      → e ≢ none_waiting
      → Ensures Waits (notified w k junk fuel (in_state d e sender) stream)
  unfolding notified
  notified-Waits fuel d none_waiting sender stream h = absurd (h refl)
  notified-Waits fuel d waiting_for_input_event_loop sender stream h =
      wake_main-Waits fuel d waiting_for_input_event_loop sender stream [] h
  notified-Waits fuel d waiting_for_input_fault sender stream h =
      Ensures-bind Waits (w.await_reply sender d.state.output stream) _ λ sent e'.
        let (idle, rest, out) = on_fault_sent w k junk d sent in
        wake_main-Waits fuel idle.debugger idle.event_state idle.fault_sender rest out
          (on_fault_sent-Waits d sent)

  abbrev pub IsDrained : Idle w W × Bytes × Bytes → Type 0
  IsDrained (idle, rest, sent) = rest ≡ []

  fault_sent-IsDrained :
      (fuel : ℕ) (d : Debugger w W) (sent : w.Sender × Sent)
      → Ensures IsDrained (wake_main w k junk fuel (on_fault_sent w k junk d sent))
  fault_sent-IsDrained fuel d (sender, unanswered out) = refl
  fault_sent-IsDrained fuel d (sender, acknowledged rest out) =
      Ensures-bind IsDrained
        (event_loop w k junk fuel (record d { sender = w.share d.sender sender }) rest) _
        (λ (d', sent) e. refl)

  pub notified-IsDrained :
      (fuel : ℕ) (d : Debugger w W) (e : EventState) (sender : w.Sender) (stream : Bytes)
      → e ≢ none_waiting
      → Ensures IsDrained (notified w k junk fuel (in_state d e sender) stream)
  unfolding notified
  notified-IsDrained fuel d none_waiting sender stream h = absurd (h refl)
  notified-IsDrained fuel d waiting_for_input_event_loop sender stream h =
      Ensures-bind IsDrained (event_loop w k junk fuel d stream) _ (λ (d', sent) e. refl)
  notified-IsDrained fuel d waiting_for_input_fault sender stream h =
      Ensures-bind IsDrained (w.await_reply sender d.state.output stream) _
        λ sent e. fault_sent-IsDrained fuel d sent
