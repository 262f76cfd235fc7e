-- ===== src/EventLoop/Session.antt =====
-- Whole exchanges with GDB: what the debugger sends for what it receives.
use libgdb.Prelude.{
  ℕ, suc, ◌-◌, ◌<◌, ◌≡◌, ◌≢◌, refl, ◌∙◌, Bool, true, false, ◌||◌, [], ◌∷◌, ◌++◌, length, ◌==◌,
  ne→==, get_elem?, some,
}
use libgdb.Prelude.Text.{codes}
use libgdb.Prelude.Outcome.{Outcome, ok}
use libgdb.Util.Buffer.{Bytes, peek}
use libgdb.Util.Buffer.Write.{with_front}
use libgdb.Arch.Kernel.{Kernel}
use libgdb.Gdb.State.{State, bufsize}
use libgdb.Gdb.Registry.{suspend_system, resume_system}
use libgdb.Gdb.Registry.Report.{with_text}
use libgdb.Gdb.Packet.{Reply, Stack, gdb_handle_packet}
use libgdb.Gdb.Packet.Answers.{answer, gdb_handle_packet-interrupt}
use libgdb.Framing.{start, acknowledged}
use libgdb.Framing.Receive.{frame, Payload, Noise}
use libgdb.Framing.Packets.{get_packet-frame, get_packet-interrupt}
use libgdb.Framing.Frame.{repeated}
use libgdb.EventLoop.{Wire, at_packet, Debugger, handle, and_sent, on_reply, event_loop}
use libgdb.EventLoop.Chunks.{and_sent-and_sent}

pub or-true : (b : Bool) → (b || true) ≡ true
or-true true = refl
or-true false = refl

-- What goes out for an answer that is refused a number of times.
abbrev pub exchange : Bytes → Bytes → Bytes
exchange refused u = repeated (length refused) (frame u) ++ frame u

-- `put_packet` sends a text for each reply that is no `+` and once more, and leaves its variables.
abbrev pub Sends : (w : Wire) → w.Sender → Bytes → Bytes → Bytes → Bytes → w.Sender → Type 0
Sends w sender buf u refused stream sender' =
    w.put_packet sender buf (refused ++ (b'+' ∷ stream))
    ≡ ok (sender', acknowledged stream (exchange refused u))

module _ (w : Wire) {W : Type 0} (k : Kernel W) (junk : State W → Bytes → Stack) where
  -- The debugger after a packet was handled.
  abbrev pub after_packet : Debugger w W → Bytes → Reply W → w.Sender → Debugger w W
  after_packet d t reply sender = record d {
    state = reply.state;
    detached = reply.detached;
    input = with_front d.input t;
    main = at_packet start;
    sender = sender;
  }

  on_reply-answer :
      (more : Debugger w W → Bytes → Outcome (Debugger w W × Bytes)) (d : Debugger w W)
      (refused stream u : Bytes) (s : State W) (sender : w.Sender)
      → Sends w d.sender s.output u refused stream sender
      → on_reply w k junk more d
          (refused ++ (b'+' ∷ stream))
          (record { state = s; resume = false; detached = false })
        ≡ and_sent w k junk (exchange refused u) (
            more
              (record d { state = s; detached = false; main = at_packet start; sender = sender })
              stream)
  on_reply-answer more d refused stream u s sender sends = rw sends refl

  -- A packet that is no interrupt, to a debugger that is attached.
  handle-attached :
      (d : Debugger w W) (c : ℕ)
      → d.detached ≡ false
      → peek d.input ≡ ok c
      → c ≢ 3
      → handle w k junk d 0 ≡ gdb_handle_packet k d.state (junk d.state d.input) d.input
  unfolding handle
  handle-attached d c attached first plain =
      let not_break : (c == 3) ≡ false = ne→== c 3 plain in rw (first, attached, not_break) refl

  -- The character 3, and a packet after gdb has detached.
  handle-suspended :
      (d : Debugger w W) (rest : Bytes)
      → d.input ≡ 3 ∷ rest
      → handle w k junk d 0
        ≡ gdb_handle_packet k
            (suspend_system k d.state)
            (junk (suspend_system k d.state) (3 ∷ rest))
            (3 ∷ rest)
  unfolding handle
  handle-suspended d rest first = rw (first, or-true d.detached) refl

  -- A frame whose packet is answered.
  pub event_loop-Sends :
      (fuel : ℕ) (d : Debugger w W) (noise t refused stream u : Bytes) (c third : ℕ) (s : State W)
      (sender : w.Sender)
      → d.main ≡ at_packet start
      → d.detached ≡ false
      → length d.input ≡ bufsize
      → Noise w.link noise
      → Payload t
      → length t < bufsize - 1
      → peek (with_front d.input t) ≡ ok c
      → c ≢ 3
      → get_elem? (with_front d.input t) 2 ≡ some third
      → third ≢ b':'
      → gdb_handle_packet k d.state (junk d.state (with_front d.input t)) (with_front d.input t)
        ≡ ok (record { state = s; resume = false; detached = false })
      → Sends w d.sender s.output u refused stream sender
      → event_loop w k junk (suc fuel) d (noise ++ (frame t ++ (refused ++ (b'+' ∷ stream))))
        ≡ and_sent w k junk (b'+' ∷ exchange refused u) (
            event_loop w k junk fuel
              (after_packet d t (record { state = s; resume = false; detached = false }) sender)
              stream)
  unfolding event_loop
  event_loop-Sends fuel d noise t refused stream u c third s sender waits attached size quiet h
        short first plain at other handled sends =
      let d' : Debugger w W = record d { input = with_front d.input t; main = at_packet start } in
      rw
        (
          waits,
          get_packet-frame w.link noise t (refused ++ (b'+' ∷ stream)) d.input third quiet h short
              size at other,
          handle-attached d' c attached first plain ∙ handled,
          on_reply-answer (event_loop w k junk fuel) d' refused stream u s sender sends,
        )
        (and_sent-and_sent w k junk (b'+' ∷ []) (exchange refused u) _)

  -- A frame whose packet resumes the system and does not detach, under the conditions of a frame
  -- that is answered: it is acknowledged and not answered, and the threads that are to wake up are
  -- resumed.
  pub event_loop-resumes :
      (fuel : ℕ) (d : Debugger w W) (noise t stream : Bytes) (c third : ℕ) (s : State W)
      → d.main ≡ at_packet start
      → d.detached ≡ false
      → length d.input ≡ bufsize
      → Noise w.link noise
      → Payload t
      → length t < bufsize - 1
      → peek (with_front d.input t) ≡ ok c
      → c ≢ 3
      → get_elem? (with_front d.input t) 2 ≡ some third
      → third ≢ b':'
      → gdb_handle_packet k d.state (junk d.state (with_front d.input t)) (with_front d.input t)
        ≡ ok (record { state = s; resume = true; detached = false })
      → event_loop w k junk (suc fuel) d (noise ++ (frame t ++ stream))
        ≡ and_sent w k junk (b'+' ∷ []) (
            event_loop w k junk fuel
              (after_packet d t
                (record { state = resume_system k s; resume = true; detached = false })
                d.sender)
              stream)
  unfolding event_loop
  event_loop-resumes fuel d noise t stream c third s waits attached size quiet h short first plain
        at other handled =
      let d' : Debugger w W = record d { input = with_front d.input t; main = at_packet start } in
      rw
        (
          waits,
          get_packet-frame w.link noise t stream d.input third quiet h short size at other,
          handle-attached d' c attached first plain ∙ handled,
        )
        refl

  -- The character 3.
  pub event_loop-suspends :
      (fuel : ℕ) (d : Debugger w W) (noise refused stream : Bytes) (sender : w.Sender)
      → w.link.interrupts ≡ true
      → d.main ≡ at_packet start
      → length d.input ≡ bufsize
      → length d.state.output ≡ bufsize
      → Noise w.link noise
      → Sends w d.sender
          (answer (suspend_system k d.state) (codes "S02")).state.output
          (codes "S02")
          refused
          stream
          sender
      → event_loop w k junk (suc fuel) d (noise ++ (3 ∷ (refused ++ (b'+' ∷ stream))))
        ≡ and_sent w k junk (exchange refused (codes "S02")) (
            event_loop w k junk fuel
              (after_packet d (3 ∷ []) (answer (suspend_system k d.state) (codes "S02")) sender)
              stream)
  unfolding event_loop suspend_system
  event_loop-suspends fuel d noise refused stream sender interrupts waits size room quiet sends =
      let d' : Debugger w W = record d {
        input = with_front d.input (3 ∷ []);
        main = at_packet start;
      } in
      let stopped : State W = suspend_system k d.state in
      rw
        (
          waits,
          get_packet-interrupt w.link noise (refused ++ (b'+' ∷ stream)) d.input quiet interrupts
              size,
          handle-suspended d' _ refl
              ∙ gdb_handle_packet-interrupt k stopped (junk stopped (with_front d.input (3 ∷ []))) _
                  room,
          on_reply-answer (event_loop w k junk fuel) d' refused stream (codes "S02")
              (with_text stopped (codes "S02")) sender sends,
        )
        (and_sent-and_sent w k junk [] (exchange refused (codes "S02")) _)
