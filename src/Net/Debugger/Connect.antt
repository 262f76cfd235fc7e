-- ===== src/Net/Debugger/Connect.antt =====
-- A fault before GDB has connected.
use libgdb.Prelude.{
  ℕ, suc, ◌+◌, ◌≤◌, ◌≡◌, eq→==, refl, Bool, true, false, Option, [], ◌∷◌, ◌++◌, length,
}
use libgdb.Prelude.Outcome.{Outcome, ok, ◌>>=◌}
use libgdb.Util.Buffer.{Bytes, NonNul}
use libgdb.Arch.Kernel.{Kernel}
use libgdb.Gdb.State.{State, DebuggerError, bufsize}
use libgdb.Gdb.Registry.{suspend_system}
use libgdb.Gdb.Faults.{DebugException, gdb_handle_fault}
use libgdb.Gdb.Packet.{Stack}
use libgdb.Framing.{get_packet, unanswered}
use libgdb.EventLoop.Session.{or-true}
use libgdb.Framing.Receive.{frame}
use libgdb.EventLoop.{
  EventState, waiting_for_input_event_loop, waiting_for_input_fault, event_loop, on_fault,
}
use libgdb.Net.Output.{Assembly, put_packet}
use libgdb.Net.Output.Resend.{put_packet-once}
use libgdb.Net.Output.Sends.{wire}
use libgdb.Net.Transmit.{Pbufs}
use libgdb.Net.Debugger.{
  Channels, Arrival, Platform, NetDebugger, gdb_connected, notified_channel, net_notified,
  net_fault,
}

-- A new connection, on which nothing was received yet.
abbrev pub connection : Arrival
connection = record { accepted = true; characters = [] }

module _ {W World : Type 0} (k : Kernel W) (platform : Platform World)
    (junk : State W → Bytes → Stack) where
  -- What the fault and then the connection send, and which coroutine waits at last.
  abbrev pub then_connects :
      Channels
      → ℕ
      → (NetDebugger W World × Bytes) × Option Bool
      → Outcome (Bytes × Bytes × EventState)
  then_connects ids fuel ((n', sent), reply) =
      net_notified k platform junk ids ids.rx fuel n' >>= λ (n'', sent').
      ok (sent, sent', n''.idle.event_state)

module _ {W World : Type 0} (k : Kernel W) (platform : Platform World)
    (junk : State W → Bytes → Stack) (n : NetDebugger W World) (ch label : ℕ) (e : DebugException)
    (s : State W) (err : DebuggerError) (have_reply : Option Bool) (u tail : Bytes)
    (off : n.debugger_initialized ≡ false) (empty : n.queue ≡ [])
    (handled : gdb_handle_fault k (suspend_system k n.idle.debugger.state) ch 0 label e
      ≡ ok (s, err, have_reply))
    (text : s.output ≡ u ++ (0 ∷ tail)) (nonnul : NonNul u)
    (room : length n.idle.debugger.sender.tcp_output_buf ≡ bufsize)
    (fits : length u + 5 ≤ bufsize) where
  -- The state while t_fault waits for the reply to its report.
  abbrev pub reported : Assembly → NetDebugger W World
  reported a = record n {
    idle = record {
      debugger = record n.idle.debugger { state = s; sender = wire.share n.idle.debugger.sender a };
      event_state = waiting_for_input_fault;
      fault_sender = a;
    };
    queue = [];
  }

  net_fault-reports :
      (a : Assembly) × (net_fault k platform junk n ch label e
        ≡ ok ((reported a, frame u), have_reply))
  unfolding net_fault on_fault
  net_fault-reports =
      let (a, once) = put_packet-once u tail nonnul n.idle.debugger.sender room fits in
      let sent : put_packet n.idle.debugger.sender s.output n.queue ≡ ok (a, unanswered (frame u)) =
        rw (text, empty) once in
      (a, rw (handled, sent) refl)

  -- A fault before GDB has connected, while no characters are queued, and whose report is a text
  -- without NUL that fits with five bytes into the buffer for the output: its frame is sent once,
  -- and a connection that is accepted next, on which nothing was received yet, gets nothing: the
  -- report is not sent again, and it is the event loop that waits for characters, not the report
  -- for its reply.
  pub net_fault-lost :
      (ids : Channels) (fuel : ℕ) (net : World × Pbufs)
      → platform.sddf_lwip_process_rx n.net ≡ (net, connection)
      → (net_fault k platform junk n ch label e >>= then_connects k platform junk ids (suc fuel))
        ≡ ok (frame u, [], waiting_for_input_event_loop)
  unfolding net_notified notified_channel gdb_connected event_loop get_packet
  net_fault-lost ids fuel net accepts =
      let (a, reports) = net_fault-reports in
      let same = eq→== ids.rx ids.rx refl in
      rw (reports, same, off, accepts, or-true n.tcp_initialized) refl
