-- ===== src/Gdb/Packet.antt =====
-- `gdb_handle_packet`: the dispatch on the first character of a packet.
pub mod Answers
use libgdb.Prelude.{ℕ, Bool, true, false, ◌||◌, drop, ◌==◌, if◌then◌else◌}
use libgdb.Prelude.Outcome.{Outcome, ok, ◌>>=◌}
use libgdb.Util.Buffer.{Bytes, store, peek}
use libgdb.Arch.Kernel.{Kernel, UserContext}
use libgdb.Gdb.State.{State}
use libgdb.Gdb.Registry.{put_text}
use libgdb.Gdb.Target.{handle_read_regs, handle_write_regs, handle_read_mem, handle_write_mem}
use libgdb.Gdb.Query.{on_prefix, handle_query}
use libgdb.Gdb.Breakpoints.{handle_configure_debug_events}
use libgdb.Gdb.Requests.{handle_check_thread_alive, handle_set_inferior, handle_detach}
use libgdb.Gdb.Vcont.{handle_vcont}

-- What the caller learns: whether the system is to be resumed, and whether gdb has detached.
pub record Reply (W : Type 0) : Type 0 where
  pub state : State W
  pub resume : Bool
  pub detached : Bool

-- What the handlers find in variables that they do not initialise, and the address of the packet.
pub record Stack : Type 0 where
  pub context : UserContext
  pub proc_id : ℕ
  pub thread_id : ℕ
  pub address : ℕ

module _ {W : Type 0} where
  abbrev pub stay : Outcome (State W) → Outcome (Reply W)
  stay m = m >>= λ s. ok (record { state = s; resume = false; detached = false })

  abbrev pub go_on : Bool → Outcome (State W) → Outcome (Reply W)
  go_on detached m = m >>= λ s. ok (record { state = s; resume = true; detached = detached })

  unfoldable pub handle_sig_interrupt : State W → Outcome (State W)
  handle_sig_interrupt s = put_text s 0 "S02"

module _ {W : Type 0} (k : Kernel W) where
  -- `detached` stays as it was unless the packet detaches; here it starts as false.
  unfoldable pub dispatch : State W → Stack → Bytes → ℕ → Outcome (Reply W)
  dispatch s stack input c =
      let v_packet =
        on_prefix input "vCont?" 7 (stay (put_text s 0 "vCont;c;C;s;S"))
          (on_prefix input "vCont;" 6 (go_on false (vcont 5 input)) (stay (ok s))) in
      if c == b'g'
      then stay (handle_read_regs k s stack.context)
      else if c == b'G'
      then stay (handle_write_regs k s stack.context input)
      else if c == b'm'
      then stay (handle_read_mem k s input)
      else if c == b'M'
      then stay (handle_write_mem k s input stack.address)
      else if c == b'q' || c == b'Q'
      then stay (handle_query k s input)
      else if c == b'H'
      then stay (handle_set_inferior s stack.proc_id input)
      else if c == b'D'
      then go_on true (handle_detach k s)
      else if c == b'T'
      then stay (handle_check_thread_alive s stack.proc_id input)
      else if c == b'?'
      then stay (put_text s 0 "T05swbreak:;")
      else if c == b'v'
      then v_packet
      else if c == b'z' || c == b'Z'
      then stay (handle_configure_debug_events k s input)
      else if c == 3
      then stay (handle_sig_interrupt s)
      else stay (ok s)
    where
      vcont : ℕ → Bytes → Outcome (State W)
      vcont n ptr = handle_vcont k s stack.proc_id stack.thread_id (drop n ptr)

  unfoldable pub gdb_handle_packet : State W → Stack → Bytes → Outcome (Reply W)
  unfolding dispatch
  gdb_handle_packet s stack input = do
    buf ← store s.output 0 0
    c ← peek input
    dispatch (record s { output = buf }) stack input c
