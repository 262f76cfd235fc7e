-- ===== src/EventLoop.antt =====
-- The two coroutines of the debuggers in examples/microkit_sddf_serial and
-- examples/microkit_sddf_net, `event_loop` (t_main) and `fault_message` (t_fault), and the entry
-- points `fault` and `notified` that resume them. The programs differ in `put_packet`, which is taken
-- from a Wire; the lines are those of examples/microkit_sddf_serial/apps/debugger/debugger.c.
-- Characters that have come in are a list. A coroutine that asks for more than there are leaves its
-- place in the Debugger.
pub mod Laws
pub mod Fuel
pub mod Chunks
pub mod Session
pub mod Notified
pub mod Waits
use libgdb.Prelude.{
  ℕ, zero, suc, ◌+◌, Bool, true, false, ◌||◌, not, List, [], ◌∷◌, ◌++◌, drop, Option, none, some,
  ◌==◌, if◌then◌else◌,
}
use libgdb.Prelude.Outcome.{Outcome, ok, fault, out_of_fuel, ◌>>=◌}
use libgdb.Util.Buffer.{Bytes, peek}
use libgdb.Arch.Kernel.{Kernel}
use libgdb.Gdb.State.{State}
use libgdb.Gdb.Registry.{gdb_register_inferior, gdb_register_thread, suspend_system, resume_system}
use libgdb.Gdb.Faults.{DebugException, gdb_handle_fault}
use libgdb.Gdb.Packet.{Reply, Stack, gdb_handle_packet}
use libgdb.Framing.{
  Link, Mode, start, Received, waiting, packet, get_packet, Sent, unanswered, acknowledged,
}

-- How a program sends packets: `put_packet` from its start and from its wait for a reply, on the
-- variables of a coroutine, the text and the characters that have come in. `share` takes the
-- variables of one coroutine and the globals among those of another.
pub record Wire : Type 1 where
  pub link : Link
  pub Sender : Type 0
  pub put_packet : Sender → Bytes → Bytes → Outcome (Sender × Sent)
  pub await_reply : Sender → Bytes → Bytes → Outcome (Sender × Sent)
  pub share : Sender → Sender → Sender

-- `event_state_t`
pub data EventState : Type 0 where
  none_waiting waiting_for_input_event_loop waiting_for_input_fault : EventState

-- Where `event_loop` waits: in `get_packet`, or in `put_packet` with the value of `resume`.
pub data Place : Type 0 where
  at_packet : Mode → Place
  at_reply : Bool → Place

-- The globals of debugger.c that t_main uses and those of gdb.c, with the place where t_main waits.
-- `State.output` is `output`.
pub record Debugger (w : Wire) (W : Type 0) : Type 0 where
  pub state : State W
  pub detached : Bool
  pub input : Bytes
  pub main : Place
  pub sender : w.Sender

-- The debugger between two events. The global `state` of debugger.c says which coroutine waits.
pub record Idle (w : Wire) (W : Type 0) : Type 0 where
  pub debugger : Debugger w W
  pub event_state : EventState
  pub fault_sender : w.Sender

module _ (w : Wire) {W : Type 0} (k : Kernel W) (junk : State W → Bytes → Stack) where
  -- The packet at `input + p`. What the handlers find in uninitialised variables is `junk`.
  unfoldable pub handle : Debugger w W → ℕ → Outcome (Reply W)
  handle d p = peek (drop p d.input) >>= λ c.
      let s = if d.detached || c == 3 then suspend_system k d.state else d.state in
      gdb_handle_packet k s (junk s (drop p d.input)) (drop p d.input)

  abbrev pub asleep : Debugger w W → Place → Debugger w W
  asleep d place = record d { main = place }

  -- The end of a round of the loop.
  abbrev pub finished : Bool → Debugger w W → Debugger w W
  finished resume d = record d {
    state = if resume then resume_system k d.state else d.state;
    main = at_packet start;
  }

  abbrev pub and_sent : Bytes → Outcome (Debugger w W × Bytes) → Outcome (Debugger w W × Bytes)
  and_sent out m = m >>= λ (d, sent). ok (d, out ++ sent)

  abbrev pub on_sent :
      (Debugger w W → Bytes → Outcome (Debugger w W × Bytes))
      → Debugger w W
      → Bool
      → w.Sender × Sent
      → Outcome (Debugger w W × Bytes)
  on_sent more d resume (sender, unanswered out) =
      ok (asleep (record d { sender = sender }) (at_reply resume), out)
  on_sent more d resume (sender, acknowledged rest out) =
      and_sent out (more (finished resume (record d { sender = sender })) rest)

  -- After `gdb_handle_packet`.
  abbrev pub on_reply :
      (Debugger w W → Bytes → Outcome (Debugger w W × Bytes))
      → Debugger w W
      → Bytes
      → Reply W
      → Outcome (Debugger w W × Bytes)
  on_reply more d rest reply =
      let d' : Debugger w W = record d { state = reply.state; detached = reply.detached } in
      if not reply.resume || reply.detached
      then (w.put_packet d.sender reply.state.output rest >>= on_sent more d' reply.resume)
      else more (finished reply.resume d') rest

  abbrev pub on_received :
      (Debugger w W → Bytes → Outcome (Debugger w W × Bytes))
      → Debugger w W
      → Received
      → Outcome (Debugger w W × Bytes)
  on_received more d (waiting mode buf sent) =
      ok (asleep (record d { input = buf }) (at_packet mode), sent)
  on_received more d (packet p buf rest sent) =
      let d' : Debugger w W = record d { input = buf; main = at_packet start } in
      handle d' p >>= λ reply. and_sent sent (on_reply more d' rest reply)

  abbrev pub round :
      (Debugger w W → Bytes → Outcome (Debugger w W × Bytes))
      → Debugger w W
      → Bytes
      → Place
      → Outcome (Debugger w W × Bytes)
  round more d stream (at_packet mode) =
      get_packet w.link mode d.input stream >>= on_received more d
  round more d stream (at_reply resume) =
      w.await_reply d.sender d.state.output stream >>= on_sent more d resume

  -- From the place of t_main until the characters are used up, on fuel for each round. The results are
  -- the debugger and what is sent.
  unfoldable pub event_loop : ℕ → Debugger w W → Bytes → Outcome (Debugger w W × Bytes)
  event_loop zero d stream = fault out_of_fuel
  event_loop (suc fuel) d stream = round (event_loop fuel) d stream d.main

  -- `gdb_get_char` when there is no character: `state = new_state`, and control goes to t_event.
  abbrev pub switch_away : EventState → Idle w W → Idle w W
  switch_away new_state idle = record idle { event_state = new_state }

  -- `fault_message` after its packet is sent: the rest of the characters, and what was sent.
  abbrev pub on_fault_sent : Debugger w W → w.Sender × Sent → Idle w W × Bytes × Bytes
  on_fault_sent d (sender, unanswered out) =
      let running : Idle w W = record {
        debugger = record d { sender = w.share d.sender sender };
        event_state = none_waiting;
        fault_sender = sender;
      } in
      (switch_away waiting_for_input_fault running, [], out)
  on_fault_sent d (sender, acknowledged rest out) = (
    record {
      debugger = record d { sender = w.share d.sender sender };
      event_state = waiting_for_input_event_loop;
      fault_sender = sender;
    },
    rest,
    out,
  )

  -- `fault`, with the characters that are waiting in the queue. The results are the debugger, the
  -- characters that are left, what is sent, and `have_reply`, `none` if it is not initialised.
  unfoldable pub on_fault :
      Debugger w W
      → Bytes
      → ℕ
      → ℕ
      → DebugException
      → Outcome ((Idle w W × Bytes × Bytes) × Option Bool)
  on_fault d stream ch label exception =
      gdb_handle_fault k (suspend_system k d.state) ch 0 label exception >>= λ (s, err, have_reply).
      w.put_packet d.sender s.output stream >>= λ sent.
      ok (on_fault_sent (record d { state = s }) sent, have_reply)

  -- t_main is resumed if it waits. `state` is set to eventState_none before, and by `gdb_get_char`
  -- when the coroutine waits again.
  abbrev pub wake_main : ℕ → Idle w W × Bytes × Bytes → Outcome (Idle w W × Bytes × Bytes)
  wake_main fuel (idle, stream, out) = elim idle.event_state [
    | waiting_for_input_event_loop ↦
        let woken : Idle w W = record idle { event_state = none_waiting } in
        event_loop fuel woken.debugger stream >>= λ (d', sent).
        ok (
          switch_away waiting_for_input_event_loop (record woken { debugger = d' }),
          [],
          out ++ sent,
        )
    | _ ↦ ok (idle, stream, out)
  ]

  -- `notified` for new characters: t_fault is resumed if it waits, and t_main behind it.
  unfoldable pub notified : ℕ → Idle w W → Bytes → Outcome (Idle w W × Bytes × Bytes)
  notified fuel idle stream = elim idle.event_state [
    | waiting_for_input_fault ↦
        w.await_reply idle.fault_sender idle.debugger.state.output stream >>= λ sent.
        wake_main fuel (on_fault_sent idle.debugger sent)
    | _ ↦ wake_main fuel (idle, stream, [])
  ]

module _ {W : Type 0} (k : Kernel W) where
  -- `init`: the debuggees `i` and up, of which there are `rounds`. What the calls return is ignored.
  unfoldable pub register_debugees : ℕ → ℕ → ℕ → ℕ → State W → Outcome (State W)
  register_debugees base_vspace_cap base_tcb_cap zero i s = ok s
  register_debugees base_vspace_cap base_tcb_cap (suc rounds) i s =
      gdb_register_inferior k s i (base_vspace_cap + i) >>= λ (s₁, err).
      gdb_register_thread k s₁ i 0 (base_tcb_cap + i) >>= λ (s₂, err').
      register_debugees base_vspace_cap base_tcb_cap rounds (i + 1) s₂
