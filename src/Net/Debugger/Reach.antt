-- ===== src/Net/Debugger/Reach.antt =====
-- The states that the network debugger reaches by its entry points.
use libgdb.Prelude.{ℕ, ◌≡◌, ◌≢◌, Bool, true, Option, []}
use libgdb.Prelude.Outcome.{ok}
use libgdb.Util.Buffer.{Bytes}
use libgdb.Arch.Kernel.{Kernel}
use libgdb.Gdb.State.{State}
use libgdb.Gdb.Faults.{DebugException}
use libgdb.Gdb.Packet.{Stack}
use libgdb.EventLoop.{none_waiting}
use libgdb.EventLoop.Waits.{Waits}
use libgdb.Net.Transmit.{Pbufs}
use libgdb.Net.Output.{Assembly}
use libgdb.Net.Debugger.{Channels, Platform, NetDebugger, init, net_notified, net_fault}

-- Once the debugger is initialised, a connection was accepted, and a coroutine waits for characters.
abbrev pub IsAwake : {W World : Type 0} → NetDebugger W World → Type 0
IsAwake n =
    n.debugger_initialized ≡ true → (n.tcp_initialized ≡ true) × (n.idle.event_state ≢ none_waiting)

module _ {W World : Type 0} (k : Kernel W) (platform : Platform World)
    (junk : State W → Bytes → Stack) where
  abbrev Leaves : NetDebugger W World × Bytes → Type 0
  Leaves (n, sent) = IsAwake n

  -- The states after `init` and any sequence of notifications and faults.
  pub data Reachable (ids : Channels) : NetDebugger W World → Type 0 where
    started :
        {n : NetDebugger W World} (base_vspace_cap base_tcb_cap : ℕ) (s : State W) (input : Bytes)
        (sender : Assembly) (net : World × Pbufs)
        → init k platform junk base_vspace_cap base_tcb_cap s input sender net ≡ ok n
        → Reachable ids n
    after_notified :
        {n n' : NetDebugger W World} {sent : Bytes} (ch fuel : ℕ)
        → Reachable ids n
        → net_notified k platform junk ids ch fuel n ≡ ok (n', sent)
        → Reachable ids n'
    after_fault :
        {n n' : NetDebugger W World} {sent : Bytes} {have_reply : Option Bool} (ch label : ℕ)
        (e : DebugException)
        → Reachable ids n
        → net_fault k platform junk n ch label e ≡ ok ((n', sent), have_reply)
        → Reachable ids n'

  -- The first result of an entry point has no characters left.
  abbrev pub HasEmptyQueue : NetDebugger W World × Bytes → Type 0
  HasEmptyQueue (n, sent) = n.queue ≡ []
