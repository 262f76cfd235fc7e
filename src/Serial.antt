-- ===== src/Serial.antt =====
-- The debugger of the sDDF serial example, examples/microkit_sddf_serial/apps/debugger/debugger.c:
-- the event loop with its `put_packet`, and `init`.
pub mod Sends
pub mod Session
pub mod Fault
use libgdb.Prelude.{ℕ, zero, suc, ◌+◌, true, false, []}
use libgdb.Prelude.Outcome.{Outcome, ok, ◌>>=◌}
use libgdb.Util.Buffer.{Bytes}
use libgdb.Arch.Kernel.{Kernel}
use libgdb.Gdb.State.{State}
use libgdb.Gdb.Registry.{suspend_system}
use libgdb.Gdb.Packet.{Stack}
use libgdb.Framing.{Link, start, put_packet, await_reply}
use libgdb.EventLoop.{
  Wire, register_debugees, at_packet, Idle, waiting_for_input_event_loop, event_loop,
}

abbrev pub link : Link
link = record { interrupts = true; echo_from = 0 }

-- No variable of `put_packet` is left at its wait but the text.
abbrev pub wire : Wire
wire = record {
  link = link;
  Sender = Unit;
  put_packet = λ sender text stream. put_packet text stream >>= λ s. ok (tt, s);
  await_reply = λ sender text stream. await_reply text stream >>= λ s. ok (tt, s);
  share = λ sender other. tt;
}

abbrev pub num_debugees : ℕ
num_debugees = 2

module _ {W : Type 0} (k : Kernel W) where
  -- The characters that wait are taken at once.
  unfoldable pub init :
      (State W → Bytes → Stack)
      → ℕ
      → ℕ
      → ℕ
      → State W
      → Bytes
      → Bytes
      → Outcome (Idle wire W × Bytes × Bytes)
  unfolding register_debugees
  init junk base_vspace_cap base_tcb_cap fuel s input stream =
      register_debugees k base_vspace_cap base_tcb_cap num_debugees 0 s >>= λ s₁.
      event_loop wire k junk fuel
        (record {
          state = suspend_system k s₁;
          detached = false;
          input = input;
          main = at_packet start;
          sender = tt;
        })
        stream
      >>= λ (d, sent). ok (
        record { debugger = d; event_state = waiting_for_input_event_loop; fault_sender = tt },
        [],
        sent,
      )
