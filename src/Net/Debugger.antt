-- ===== src/Net/Debugger.antt =====
-- The entry points of examples/microkit_sddf_net/apps/debugger/debugger.c: `init`, `fault`, `notified` and
-- `gdb_connected`. The characters in tcp_input_queue are a list. What the callbacks of tcp.c do while
-- sDDF works, and its other calls, are parameters. What goes to `tcp_send` is collected.
pub mod Session
pub mod Reach
pub mod Connect
use libgdb.Prelude.{
  ℕ, Bool, true, false, ◌&&◌, ◌||◌, not, Option, none, some, ◌==◌, if◌then◌else◌, [], ◌++◌,
}
use libgdb.Prelude.Outcome.{Outcome, ok, fault, ◌>>=◌}
use libgdb.Util.Buffer.{Bytes}
use libgdb.Arch.Kernel.{Kernel}
use libgdb.Gdb.State.{State}
use libgdb.Gdb.Registry.{suspend_system}
use libgdb.Gdb.Faults.{DebugException}
use libgdb.Gdb.Packet.{Stack}
use libgdb.Framing.{start}
use libgdb.EventLoop.{
  at_packet, Debugger, Idle, none_waiting, waiting_for_input_event_loop, switch_away, event_loop,
  on_fault, notified, register_debugees,
}
use libgdb.Net.Output.{Assembly}
use libgdb.Net.Output.Sends.{wire}
use libgdb.Net.Transmit.{Device, Pbufs, transmit}

-- The channels of the configuration: net_config.rx.id, net_config.tx.id and
-- timer_config.driver_id. Nothing is done on others.
pub record Channels : Type 0 where
  pub rx : ℕ
  pub tx : ℕ
  pub timer : ℕ

-- What the callbacks of tcp.c did meanwhile: `tcp_accept_gdb` was called, and the characters that
-- `tcp_recv_gdb` put into the queue.
pub record Arrival : Type 0 where
  pub accepted : Bool
  pub characters : Bytes

-- The calls of sDDF, on its state and the list of pbufs, to which it adds by `enqueue_pbufs`.
pub record Platform (World : Type 0) : Type 0 where
  pub device : Device World
  pub sddf_lwip_process_rx : World × Pbufs → (World × Pbufs) × Arrival
  pub sddf_lwip_process_timeout : World × Pbufs → (World × Pbufs) × Arrival
  pub sddf_timer_set_timeout : World → World
  pub sddf_lwip_maybe_notify : World → World

-- The globals of debugger.c: `idle` is what the coroutines keep, and `queue` holds the contents of
-- tcp_input_queue.
pub record NetDebugger (W World : Type 0) : Type 0 where
  pub idle : Idle wire W
  pub queue : Bytes
  pub tcp_initialized : Bool
  pub debugger_initialized : Bool
  pub net : World × Pbufs

abbrev pub arrived :
    {W World : Type 0} → NetDebugger W World → (World × Pbufs) × Arrival → NetDebugger W World
arrived n (net, arrival) = record n {
  net = net;
  queue = n.queue ++ arrival.characters;
  tcp_initialized = n.tcp_initialized || arrival.accepted;
}

abbrev pub num_debugees : ℕ
num_debugees = 2

module _ {W World : Type 0} (k : Kernel W) (platform : Platform World)
    (junk : State W → Bytes → Stack) where
  -- What `init` does but for the calls that set up sDDF and lwIP.
  unfoldable pub init :
      ℕ → ℕ → State W → Bytes → Assembly → World × Pbufs → Outcome (NetDebugger W World)
  unfolding register_debugees
  init base_vspace_cap base_tcb_cap s input sender net =
      register_debugees k base_vspace_cap base_tcb_cap num_debugees 0 s >>= λ s₁.
      let d : Debugger wire W = record {
        state = suspend_system k s₁;
        detached = false;
        input = input;
        main = at_packet start;
        sender = sender;
      } in
      let idle : Idle wire W = record {
        debugger = d;
        event_state = none_waiting;
        fault_sender = sender;
      } in
      ok (record {
        idle = idle;
        queue = [];
        tcp_initialized = false;
        debugger_initialized = false;
        net = net;
      })

  -- t_main is made and runs until it waits.
  unfoldable pub gdb_connected : ℕ → NetDebugger W World → Outcome (NetDebugger W World × Bytes)
  gdb_connected fuel n =
      event_loop wire k junk fuel (record n.idle.debugger { main = at_packet start }) n.queue
      >>= λ (d, sent).
          let idle : Idle wire W =
            switch_away wire k junk waiting_for_input_event_loop (record n.idle { debugger = d }) in
          ok (record n { idle = idle; queue = []; debugger_initialized = true }, sent)

  -- The coroutines that wait go on.
  abbrev pub resume_coroutines : ℕ → NetDebugger W World → Outcome (NetDebugger W World × Bytes)
  resume_coroutines fuel n = notified wire k junk fuel n.idle n.queue >>= λ (idle, rest, sent).
      ok (record n { idle = idle; queue = rest }, sent)

  -- `notified` up to the test of `tcp_initialized`. Both loops of `transmit` have the fuel.
  unfoldable pub notified_channel :
      Channels → ℕ → ℕ → NetDebugger W World → Outcome (NetDebugger W World × Bytes)
  notified_channel ids ch fuel n =
      let received : NetDebugger W World = arrived n (platform.sddf_lwip_process_rx n.net) in
      let timed : NetDebugger W World = arrived n (platform.sddf_lwip_process_timeout n.net) in
      let sent =
        transmit platform.device fuel n.net.0 n.net.1 >>= λ net. ok (record n { net = net }, []) in
      if ch == ids.rx
      then (if received.debugger_initialized
          then resume_coroutines fuel received
          else ok (received, []))
      else if ch == ids.tx
      then sent
      else if ch == ids.timer
      then ok
          (record timed { net = (platform.sddf_timer_set_timeout timed.net.0, timed.net.1) }, [])
      else ok (n, [])

  -- `notified` from the test on.
  abbrev pub settled : ℕ → NetDebugger W World × Bytes → Outcome (NetDebugger W World × Bytes)
  settled fuel (n, out) =
      (if n.tcp_initialized && not n.debugger_initialized then gdb_connected fuel n else ok (n, []))
      >>= λ (n', out').
          ok (record n' { net = (platform.sddf_lwip_maybe_notify n'.net.0, n'.net.1) }, out ++ out')

  unfoldable pub net_notified :
      Channels → ℕ → ℕ → NetDebugger W World → Outcome (NetDebugger W World × Bytes)
  unfolding notified_channel gdb_connected
  net_notified ids ch fuel n = notified_channel ids ch fuel n >>= settled fuel

  -- `fault`: the second result is `have_reply`, `none` if it is not initialised.
  unfoldable pub net_fault :
      NetDebugger W World
      → ℕ
      → ℕ
      → DebugException
      → Outcome ((NetDebugger W World × Bytes) × Option Bool)
  net_fault n ch label exception =
      on_fault wire k junk n.idle.debugger n.queue ch label exception
      >>= λ ((idle, rest, sent), have_reply).
          ok ((record n { idle = idle; queue = rest }, sent), have_reply)
