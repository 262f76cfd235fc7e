-- ===== src/Serial/Session.antt =====
-- Whole exchanges of the serial debugger with GDB.
use libgdb.Prelude.{
  true, ℕ, suc, ◌-◌, ◌<◌, ◌≡◌, ◌≢◌, refl, ap, ◌∙◌, false, [], ◌∷◌, ◌++◌, length, arith, get_elem?,
  some,
}
use libgdb.Prelude.Text.{codes}
use libgdb.Prelude.Outcome.{ok, ◌>>=◌}
use libgdb.Util.Buffer.{Bytes, NonNul, peek}
use libgdb.Util.Buffer.Write.{with_front, get_elem?-with_front}
use libgdb.Arch.Kernel.{Kernel}
use libgdb.Arch.Regs.RoundTrip.{context_text, context_text-NonNul}
use libgdb.Gdb.State.{State, Thread, bufsize}
use libgdb.Gdb.Registry.Running.{is_live, all_tcbs, each, suspend_system_lem}
use libgdb.Gdb.Registry.Report.{with_text}
use libgdb.Gdb.Target.{target_of}
use libgdb.Gdb.Packet.{Stack, gdb_handle_packet}
use libgdb.Gdb.Packet.Answers.{answer, gdb_handle_packet-read_regs}
use libgdb.Framing.{start, put_packet}
use libgdb.Framing.Receive.{frame, Payload, Noise}
use libgdb.Framing.Frame.{Refused, put_packet-acknowledged}
use libgdb.EventLoop.{at_packet, Debugger, and_sent, event_loop}
use libgdb.EventLoop.Session.{exchange, Sends, after_packet, event_loop-Sends, event_loop-suspends}
use libgdb.Serial.{link, wire}

wire-Sends :
    (sender : Unit) (buf refused stream u tail : Bytes)
    → buf ≡ u ++ (0 ∷ tail)
    → NonNul u
    → Refused refused
    → Sends wire sender buf u refused stream tt
wire-Sends sender buf refused stream u tail text h none =
    ap (λ b. put_packet b (refused ++ (b'+' ∷ stream)) >>= λ s. ok (tt, s)) text
    ∙ ap (λ m. m >>= λ s. ok (tt, s)) (put_packet-acknowledged u tail refused stream h none)

module _ {W : Type 0} (k : Kernel W) (junk : State W → Bytes → Stack) where
  -- A frame whose packet gdb_handle_packet answers, to a debugger that waits for a packet and is
  -- attached: it is acknowledged by `+`, the frame of the answer is sent once for each reply that
  -- is no `+` and once more, and after the first `+` the loop goes on with the state that
  -- gdb_handle_packet left. The input buffer has BUFSIZE bytes; the noise before the frame has no
  -- `$` and no character 3; the text of the packet is shorter than BUFSIZE - 1, has no NUL and no
  -- character of the framing, and does not start with the character 3; the byte at place 2 of the
  -- buffer with the text is no `:`; the handler neither resumes the system nor detaches, and its
  -- answer has no NUL.
  pub event_loop-answers :
      (fuel : ℕ) (d : Debugger wire W) (noise t refused stream u tail : Bytes) (c third : ℕ)
      (s : State W)
      → d.main ≡ at_packet start
      → d.detached ≡ false
      → length d.input ≡ bufsize
      → Noise link noise
      → Payload t
      → length t < bufsize - 1
      → peek (with_front d.input t) ≡ ok c
      → c ≢ 3
      → get_elem? (with_front d.input t) 2 ≡ some third
      → third ≢ b':'
      → gdb_handle_packet k d.state (junk d.state (with_front d.input t)) (with_front d.input t)
        ≡ ok (record { state = s; resume = false; detached = false })
      → s.output ≡ u ++ (0 ∷ tail)
      → NonNul u
      → Refused refused
      → event_loop wire k junk (suc fuel) d (noise ++ (frame t ++ (refused ++ (b'+' ∷ stream))))
        ≡ and_sent wire k junk (b'+' ∷ exchange refused u) (
            event_loop wire k junk fuel
              (after_packet wire k junk d t
                (record { state = s; resume = false; detached = false })
                tt)
              stream)
  event_loop-answers fuel d noise t refused stream u tail c third s waits attached size quiet h
        short first plain at other handled text nonnul none =
      event_loop-Sends wire k junk fuel d noise t refused stream u c third s tt waits attached size
        quiet h short first plain at other handled
        (wire-Sends tt s.output refused stream u tail text nonnul none)

  -- The character 3, to a debugger that waits for a packet, has the kernel suspend the
  -- enabled threads of the enabled inferiors, one after the other, and is answered by the frame of S02, which is sent once for each reply that is no `+` and once more; after the
  -- first `+` the loop goes on. The input and the output buffer have BUFSIZE bytes, and the noise
  -- before the character has no `$` and no character 3.
  pub event_loop-interrupt :
      (fuel : ℕ) (d : Debugger wire W) (noise refused stream : Bytes)
      → d.main ≡ at_packet start
      → length d.input ≡ bufsize
      → length d.state.output ≡ bufsize
      → Noise link noise
      → Refused refused
      → event_loop wire k junk (suc fuel) d (noise ++ (3 ∷ (refused ++ (b'+' ∷ stream))))
        ≡ and_sent wire k junk (exchange refused (codes "S02")) (
            event_loop wire k junk fuel
              (after_packet wire k junk d
                (3 ∷ [])
                (answer
                  (record d.state {
                    world = each k.suspend d.state.world (all_tcbs is_live d.state.inferiors);
                  })
                  (codes "S02"))
                tt)
              stream)
  event_loop-interrupt fuel d noise refused stream waits size room quiet none =
      event_loop-suspends wire k junk fuel d noise refused stream tt refl waits size room quiet (
        wire-Sends tt _ refused stream (codes "S02") _ refl
          (omega arith, (omega arith, (omega arith, tt))) none)
      ∙ ap
          (λ (s : State W). and_sent wire k junk (exchange refused (codes "S02")) (
            event_loop wire k junk fuel
              (after_packet wire k junk d (3 ∷ []) (answer s (codes "S02")) tt) stream))
          (suspend_system_lem k d.state)

  -- The packet g, to a debugger that waits for a packet, is attached and has a target thread, for
  -- which 31 general registers are read, is answered by the text of what is read. The byte at place 2
  -- of the input buffer is no `:`.
  pub event_loop-read_regs :
      (fuel : ℕ) (d : Debugger wire W) (noise refused stream : Bytes) (third : ℕ) {thread : Thread}
      → d.main ≡ at_packet start
      → d.detached ≡ false
      → length d.input ≡ bufsize
      → length d.state.output ≡ bufsize
      → Noise link noise
      → Refused refused
      → get_elem? d.input 2 ≡ some third
      → third ≢ b':'
      → target_of d.state ≡ ok thread
      → let stack = junk d.state (with_front d.input (b'g' ∷ [])) in
        let (w, error, context) = k.read_registers d.state.world thread.tcb true stack.context in
        length context.x ≡ 31
        → event_loop wire k junk
            (suc fuel)
            d
            (noise ++ (frame (b'g' ∷ []) ++ (refused ++ (b'+' ∷ stream))))
          ≡ and_sent wire k junk (b'+' ∷ exchange refused (context_text context)) (
              event_loop wire k junk fuel
                (after_packet wire k junk d
                  (b'g' ∷ [])
                  (answer (record d.state { world = w }) (context_text context))
                  tt)
                stream)
  event_loop-read_regs fuel d noise refused stream third {thread} waits attached size room quiet
        none at other target count =
      let stack = junk d.state (with_front d.input (b'g' ∷ [])) in
      let (w, error, context) = k.read_registers d.state.world thread.tcb true stack.context in
      event_loop-answers fuel d noise (b'g' ∷ []) refused stream (context_text context) _ b'g' third
        (with_text (record d.state { world = w }) (context_text context)) waits attached size quiet
        ((λ e. absurd (omega arith)), (λ e. absurd (omega arith)), omega arith, tt) (omega arith)
        refl (λ e. absurd (omega arith))
        (get_elem?-with_front d.input (b'g' ∷ []) 2 (omega arith) ∙ at) other
        (gdb_handle_packet-read_regs k d.state stack _ target count room) refl
        (context_text-NonNul context) none
