-- ===== src/Tests/NetDebugger.antt =====
-- The entry points of the network debugger at concrete inputs.
use libgdb.Prelude.{ℕ, ◌+◌, ◌≡◌, refl, true, false, none, some, [], ◌∷◌, ◌++◌, length, drop, arith}
use libgdb.Prelude.Outcome.{ok, fault, ◌>>=◌}
use libgdb.Prelude.Text.{codes}
use libgdb.Util.Buffer.{Bytes, NonNul, object_bytes}
use libgdb.Util.Buffer.Write.{NonNul-append}
use libgdb.Gdb.Faults.Watch.{thread_id_text-NonNul}
use libgdb.Arch.Regs.RoundTrip.{context_text, context_text-NonNul}
use libgdb.Gdb.State.{Thread, Inferior, zero_thread, State, no_error, bufsize}
use libgdb.Gdb.Registry.Report.{with_text}
use libgdb.Gdb.Packet.{Stack}
use libgdb.Gdb.Packet.Answers.{gdb_handle_packet-read_regs}
use libgdb.Gdb.Faults.{DebugException}
use libgdb.Gdb.Faults.Stop.{stopped, gdb_handle_fault-fault}
use libgdb.Gdb.Registry.{suspend_system}
use libgdb.Gdb.Registry.Found.{Found}
use libgdb.Gdb.ThreadId.{lookup_inferior_from_id, lookup_thread_from_id}
use libgdb.Gdb.ThreadId.Text.{thread_id_text}
use libgdb.Prelude.Search.{find_index}
use libgdb.Framing.{start}
use libgdb.Framing.Receive.{frame}
use libgdb.EventLoop.{
  at_packet, Debugger, Idle, none_waiting, waiting_for_input_event_loop, waiting_for_input_fault,
  and_sent, event_loop, notified,
}
use libgdb.EventLoop.Session.{exchange, after_packet}
use libgdb.EventLoop.Notified.{notified-append}
use libgdb.Net.Output.{Assembly}
use libgdb.Net.Output.Sends.{wire, wire-IsWire}
use libgdb.Net.Transmit.{Pbufs}
use libgdb.Net.Debugger.{Channels, Platform, NetDebugger, init, net_fault}
use libgdb.Net.Debugger.Session.{event_loop-sends}
use libgdb.Net.Debugger.Connect.{connection, then_connects, net_fault-lost}
use libgdb.Tests.Gdb.{debugged_target}
use libgdb.Tests.Net.{device, unused}
use libgdb.Tests.World.{
  world, World, kernel, context, initial, debugged, program, running_thread, held_thread, zeros,
  zeros-length,
}

-- What variables that are not initialised hold.
abbrev junk : State World → Bytes → Stack
junk s input = record { context = context; proc_id = 7; thread_id = 8; address = 0x10000 }

-- A debugger that waits for a packet.
abbrev waiting_debugger : Debugger wire World
waiting_debugger = record {
  state = debugged;
  detached = false;
  input = zeros;
  main = at_packet start;
  sender = unused;
}

-- t_fault has sent its report and waits.
abbrev reporting : Idle wire World
reporting = record {
  debugger = record waiting_debugger { state = with_text debugged (codes "T06") };
  event_state = waiting_for_input_fault;
  fault_sender = record unused { tcp_output_tmp = 8; taken = 3 };
}

-- The reply to the report, and then a packet, come in two parts.
notified-append_example :
    notified wire kernel junk 9 reporting ((b'+' ∷ b'$' ∷ []) ++ (b'g' ∷ b'#' ∷ b'6' ∷ [])) ≡ (
      notified wire kernel junk 9 reporting (b'+' ∷ b'$' ∷ []) >>= λ (idle, rest, out).
      notified wire kernel junk 9 idle (rest ++ (b'g' ∷ b'#' ∷ b'6' ∷ []))
      >>= λ (idle', rest', out'). ok (idle', rest', out ++ out'))
notified-append_example =
    notified-append wire wire-IsWire kernel junk 9 reporting (b'+' ∷ b'$' ∷ [])
      (b'g' ∷ b'#' ∷ b'6' ∷ []) (λ e. cc) (omega arith)

abbrev answered : State World
answered =
    with_text (record debugged { world = record world { log = 11 ∷ [] } }) (context_text context)

event_loop-sends_example :
    (a : Assembly) × (length a.tcp_output_buf ≡ bufsize)
    × (event_loop wire kernel junk 9 waiting_debugger
          ((b'+' ∷ []) ++ (frame (b'g' ∷ []) ++ ((b'-' ∷ []) ++ (b'+' ∷ (b'$' ∷ [])))))
        ≡ and_sent wire kernel junk (b'+' ∷ exchange (b'-' ∷ []) (context_text context)) (
            event_loop wire kernel junk 8
              (after_packet wire kernel junk waiting_debugger
                (b'g' ∷ [])
                (record { state = answered; resume = false; detached = false })
                a)
              (b'$' ∷ [])))
unfolding object_bytes
event_loop-sends_example =
    event_loop-sends kernel junk 8 waiting_debugger (b'+' ∷ []) (b'g' ∷ []) (b'-' ∷ []) (b'$' ∷ [])
      (context_text context) (drop (length (context_text context) + 1) zeros) b'g' 0 answered refl
      refl zeros-length zeros-length ((λ e. absurd (omega arith)), (λ e. absurd (omega arith)), tt)
      ((λ e. absurd (omega arith)), (λ e. absurd (omega arith)), omega arith, tt) (omega arith) refl
      (λ e. absurd (omega arith)) refl (λ e. absurd (omega arith))
      (gdb_handle_packet-read_regs kernel debugged (junk debugged []) (0 ∷ drop 2 zeros)
        debugged_target refl zeros-length)
      refl (context_text-NonNul context) ((λ e. absurd (omega arith)), tt) (omega arith)

-- A program whose first thread has the id 0, as `init` gives it.
abbrev first_thread : Thread
first_thread = record running_thread { id = 0 }

abbrev faulting_program : Inferior
faulting_program = record program { threads = first_thread ∷ held_thread ∷ zero_thread ∷ [] }

abbrev faulting : State World
faulting = record debugged { inferiors = faulting_program ∷ [] }

-- The platform: one connection comes with each notification, and then nothing.
abbrev platform : Platform ℕ
platform = record {
  device = device;
  sddf_lwip_process_rx = λ net. (net, connection);
  sddf_lwip_process_timeout = λ net. (net, record { accepted = false; characters = [] });
  sddf_timer_set_timeout = λ n. n;
  sddf_lwip_maybe_notify = λ n. n;
}

abbrev channels : Channels
channels = record { rx = 1; tx = 2; timer = 3 }

abbrev no_pbufs : Pbufs
no_pbufs = record { head = none; tail = none; next_chain = λ i. none }

-- The debugger after `init`.
abbrev begun : NetDebugger World ℕ
begun = record {
  idle = record {
    debugger = record waiting_debugger { state = faulting };
    event_state = none_waiting;
    fault_sender = unused;
  };
  queue = [];
  tcp_initialized = false;
  debugger_initialized = false;
  net = (0, no_pbufs);
}

faulting-Found : Found (suspend_system kernel faulting) 3 0 0 0 faulting_program first_thread
unfolding lookup_inferior_from_id lookup_thread_from_id find_index suspend_system
faulting-Found = record {
  by_id = refl;
  at_slot = refl;
  thread_by_id = refl;
  thread_at_slot = refl;
  owner = refl;
}

abbrev exception : DebugException
exception = record { reason = 3; fault_ip = 0x400010; trigger_address = 0; bp_num = 0 }

abbrev report : Bytes
report = (codes "T06thread:" ++ thread_id_text 1 1) ++ codes ";"

report-NonNul : NonNul report
report-NonNul =
    NonNul-append (codes "T06thread:" ++ thread_id_text 1 1) (codes ";")
      (NonNul-append (codes "T06thread:") (thread_id_text 1 1) (omega arith)
        (thread_id_text-NonNul 1 1))
      (omega arith, tt)

net_fault-lost_example :
    (net_fault kernel platform junk begun 3 5 exception
      >>= then_connects kernel platform junk channels 4)
    ≡ ok (frame report, [], waiting_for_input_event_loop)
unfolding suspend_system
net_fault-lost_example =
    net_fault-lost kernel platform junk begun 3 5 exception
      (stopped (suspend_system kernel faulting) (0, 0) faulting_program first_thread "T06thread:"
        ";")
      no_error (some false) report (drop 18 zeros) refl refl
      (gdb_handle_fault-fault kernel (suspend_system kernel faulting) 3 0 5 exception faulting-Found
        zeros-length (omega arith))
      refl report-NonNul zeros-length (omega arith) channels 3 (0, no_pbufs) refl

abbrev empty : State World
empty = record initial { output = zeros }

-- The debugger after `init` from a table without inferiors.
abbrev initialised : NetDebugger World ℕ
initialised = elim (init kernel platform junk 10 20 empty zeros unused (0, no_pbufs)) [
  | ok n ↦ n
  | fault e ↦ begun
]

-- The debugger after GDB has connected.
abbrev connected : NetDebugger World ℕ
connected = record initialised {
  idle = record initialised.idle { event_state = waiting_for_input_event_loop };
  tcp_initialized = true;
  debugger_initialized = true;
}
