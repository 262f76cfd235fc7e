-- ===== src/Serial/Fault.antt =====
-- The report of a fault: `fault` starts it, and `notified` takes GDB's replies.
use libgdb.Prelude.{
  ℕ, zero, suc, ◌==◌, ne→==, ◌≡◌, refl, ap, sym, ◌∙◌, Bool, false, [], ◌∷◌, ◌++◌, length, Option,
}
use mathlib.Core.List.{append_assoc, append-nil}
use libgdb.Prelude.Outcome.{ok, ◌>>=◌}
use libgdb.Util.Buffer.{Bytes, NonNul}
use libgdb.Arch.Kernel.{Kernel}
use libgdb.Gdb.State.{State, DebuggerError}
use libgdb.Gdb.Registry.{suspend_system}
use libgdb.Gdb.Faults.{DebugException, gdb_handle_fault}
use libgdb.Gdb.Packet.{Stack}
use libgdb.Framing.{put_packet, acknowledged}
use libgdb.Framing.Receive.{frame}
use libgdb.Framing.Frame.{Refused, repeated, put_packet-acknowledged, send_packet-frame}
use libgdb.Serial.{wire}
use libgdb.EventLoop.{
  Debugger, Idle, waiting_for_input_event_loop, waiting_for_input_fault, event_loop, on_fault,
  notified,
}

repeated_comm : (n : ℕ) (out : Bytes) → repeated n out ++ out ≡ out ++ repeated n out
repeated_comm zero out = sym (append-nil out)
repeated_comm (suc n) out =
    append_assoc out (repeated n out) out ∙ ap (λ l. out ++ l) (repeated_comm n out)

module _ {W : Type 0} (k : Kernel W) (junk : State W → Bytes → Stack) where
  -- The debugger while t_fault waits.
  abbrev pub reporting : Debugger wire W → State W → Idle wire W
  reporting d s = record {
    debugger = record d { state = s };
    event_state = waiting_for_input_fault;
    fault_sender = tt;
  }

  abbrev pub listening : Debugger wire W → Idle wire W
  listening d = record {
    debugger = d;
    event_state = waiting_for_input_event_loop;
    fault_sender = tt;
  }

  -- A fault while no characters wait: the system is suspended, and the report is sent once.
  pub on_fault-reports :
      (d : Debugger wire W) (ch label : ℕ) (e : DebugException) (s : State W) (err : DebuggerError)
      (have_reply : Option Bool) (u tail : Bytes)
      → gdb_handle_fault k (suspend_system k d.state) ch 0 label e ≡ ok (s, err, have_reply)
      → s.output ≡ u ++ (0 ∷ tail)
      → NonNul u
      → on_fault wire k junk d [] ch label e ≡ ok ((reporting d s, [], frame u), have_reply)
  unfolding on_fault put_packet
  on_fault-reports d ch label e s err have_reply u tail handled text h =
      rw (handled, text, send_packet-frame u tail h) refl

  -- While fault_message waits for the reply to a report without a NUL, a notification with
  -- characters sends the frame of the report again for each that is no `+`; what comes behind the
  -- first `+` goes to t_main, which goes on from its place, and the debugger then waits for input
  -- of the event loop.
  pub notified-after_fault :
      (fuel : ℕ) (d : Debugger wire W) (s : State W) (u tail refused stream : Bytes)
      → s.output ≡ u ++ (0 ∷ tail)
      → NonNul u
      → Refused refused
      → notified wire k junk fuel (reporting d s) (refused ++ (b'+' ∷ stream)) ≡ (
          event_loop wire k junk fuel (record d { state = s }) stream >>= λ (d', sent).
          ok (listening d', [], repeated (length refused) (frame u) ++ sent))
  unfolding notified
  notified-after_fault fuel d s u tail [] stream text h none = refl
  notified-after_fault fuel d s u tail (c ∷ refused) stream text h (no_ack, none) =
      let other : (c == b'+') ≡ false = ne→== c b'+' no_ack in
      let sent : put_packet s.output (refused ++ (b'+' ∷ stream))
          ≡ ok (acknowledged stream (repeated (length refused) (frame u) ++ frame u)) =
        ap (λ b. put_packet b (refused ++ (b'+' ∷ stream))) text
        ∙ put_packet-acknowledged u tail refused stream h none in
      rw (other, sent, repeated_comm (length refused) (frame u)) refl
