-- ===== src/Tests/Serial.antt =====
-- The serial debugger at concrete inputs.
use libgdb.Prelude.{◌+◌, ◌≡◌, refl, false, [], ◌∷◌, ◌++◌, length, drop, arith}
use libgdb.Prelude.Outcome.{ok, ◌>>=◌}
use libgdb.Prelude.Text.{codes}
use libgdb.Util.Buffer.{Bytes}
use libgdb.Arch.Regs.RoundTrip.{context_text, context_text-NonNul}
use libgdb.Gdb.State.{State}
use libgdb.Gdb.Registry.Report.{with_text}
use libgdb.Gdb.Packet.{Stack}
use libgdb.Gdb.Packet.Answers.{answer, gdb_handle_packet-read_regs}
use libgdb.Framing.{start}
use libgdb.Framing.Receive.{frame}
use libgdb.Framing.Frame.{repeated}
use libgdb.EventLoop.{at_packet, Debugger, and_sent, round, event_loop, notified}
use libgdb.EventLoop.Fuel.{enough, enough-IsLoop, event_loop-IsLoop}
use libgdb.EventLoop.Session.{after_packet, exchange}
use libgdb.Serial.{wire}
use libgdb.Serial.Sends.{wire-IsWire}
use libgdb.Serial.Session.{event_loop-answers, event_loop-interrupt}
use libgdb.Serial.Fault.{reporting, listening, notified-after_fault}
use libgdb.Tests.Gdb.{debugged_target}
use libgdb.Tests.World.{World, world, kernel, context, debugged, zeros, zeros-length}

-- What variables that are not initialised hold.
abbrev junk : State World → Bytes → Stack
junk s input = record { context = context; proc_id = 7; thread_id = 8; address = 0x10000 }

-- A debugger that waits for a packet.
abbrev waiting_debugger : Debugger wire World
waiting_debugger = record {
  state = debugged;
  detached = false;
  input = zeros;
  main = at_packet start;
  sender = tt;
}

abbrev answered : State World
answered =
    with_text (record debugged { world = record world { log = 11 ∷ [] } }) (context_text context)

event_loop-IsLoop_example :
    (event_loop wire kernel junk 20 waiting_debugger (frame (b'g' ∷ []) ++ (b'+' ∷ []))
      ≡ round wire kernel junk
          (event_loop wire kernel junk 20)
          waiting_debugger
          (frame (b'g' ∷ []) ++ (b'+' ∷ []))
          (at_packet start))
    × (event_loop wire kernel junk 20 waiting_debugger (frame (b'g' ∷ []) ++ (b'+' ∷ []))
        ≡ event_loop wire kernel junk 7 waiting_debugger (frame (b'g' ∷ []) ++ (b'+' ∷ [])))
event_loop-IsLoop_example =
    event_loop-IsLoop wire wire-IsWire kernel junk (enough wire wire-IsWire kernel junk) 20
      waiting_debugger (frame (b'g' ∷ []) ++ (b'+' ∷ []))
      (enough-IsLoop wire wire-IsWire kernel junk) (omega arith)

event_loop-answers_example :
    event_loop wire kernel junk 9 waiting_debugger
      ((b'+' ∷ []) ++ (frame (b'g' ∷ []) ++ ((b'-' ∷ []) ++ (b'+' ∷ (b'$' ∷ [])))))
    ≡ and_sent wire kernel junk (b'+' ∷ exchange (b'-' ∷ []) (context_text context)) (
        event_loop wire kernel junk 8
          (after_packet wire kernel junk waiting_debugger
            (b'g' ∷ [])
            (record { state = answered; resume = false; detached = false })
            tt)
          (b'$' ∷ []))
event_loop-answers_example =
    event_loop-answers kernel junk 8 waiting_debugger (b'+' ∷ []) (b'g' ∷ []) (b'-' ∷ [])
      (b'$' ∷ []) (context_text context) (drop (length (context_text context) + 1) zeros) b'g' 0
      answered refl refl zeros-length ((λ e. absurd (omega arith)), (λ e. absurd (omega arith)), tt)
      ((λ e. absurd (omega arith)), (λ e. absurd (omega arith)), omega arith, tt) (omega arith) refl
      (λ e. absurd (omega arith)) refl (λ e. absurd (omega arith))
      (gdb_handle_packet-read_regs kernel debugged (junk debugged []) (0 ∷ drop 2 zeros)
        debugged_target refl zeros-length)
      refl (context_text-NonNul context) ((λ e. absurd (omega arith)), tt)

event_loop-interrupt_example :
    event_loop wire kernel junk 5 waiting_debugger
      ((b'x' ∷ []) ++ (3 ∷ ((b'-' ∷ []) ++ (b'+' ∷ []))))
    ≡ and_sent wire kernel junk (exchange (b'-' ∷ []) (codes "S02")) (
        event_loop wire kernel junk 4
          (after_packet wire kernel junk waiting_debugger
            (3 ∷ [])
            (answer (record debugged { world = record world { log = 12 ∷ 11 ∷ [] } }) (codes "S02"))
            tt)
          [])
event_loop-interrupt_example =
    event_loop-interrupt kernel junk 4 waiting_debugger (b'x' ∷ []) (b'-' ∷ []) [] refl zeros-length
      zeros-length ((λ e. absurd (omega arith)), (λ e. absurd (omega arith)), tt)
      ((λ e. absurd (omega arith)), tt)

notified-after_fault_example :
    notified wire kernel junk 3
      (reporting kernel junk waiting_debugger (with_text debugged (codes "T06")))
      ((b'-' ∷ []) ++ (b'+' ∷ (b'$' ∷ [])))
    ≡ (event_loop wire kernel junk 3
          (record waiting_debugger { state = with_text debugged (codes "T06") })
          (b'$' ∷ [])
        >>= λ (d', sent).
            ok (listening kernel junk d', [], repeated 1 (frame (codes "T06")) ++ sent))
notified-after_fault_example =
    notified-after_fault kernel junk 3 waiting_debugger (with_text debugged (codes "T06"))
      (codes "T06") (drop 4 zeros) (b'-' ∷ []) (b'$' ∷ []) refl
      (omega arith, (omega arith, (omega arith, tt))) ((λ e. absurd (omega arith)), tt)
