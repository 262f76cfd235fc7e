-- ===== src/Net/Debugger/Session.antt =====
-- Exchanges of the network debugger with GDB.
use libgdb.Prelude.{
  ℕ, suc, ◌+◌, ◌*◌, ◌-◌, ◌<◌, ◌≤◌, ◌≡◌, ◌≢◌, ap, ◌∙◌, false, ◌∷◌, ◌++◌, length, get_elem?, some,
}
use libgdb.Prelude.Outcome.{ok}
use libgdb.Util.Buffer.{Bytes, NonNul, peek}
use libgdb.Util.Buffer.Write.{with_front}
use libgdb.Arch.Kernel.{Kernel}
use libgdb.Gdb.State.{State, bufsize}
use libgdb.Gdb.Packet.{Stack, gdb_handle_packet}
use libgdb.Framing.{start}
use libgdb.Framing.Receive.{frame, Payload, Noise}
use libgdb.Framing.Frame.{Refused}
use libgdb.EventLoop.{at_packet, Debugger, and_sent, event_loop}
use libgdb.EventLoop.Session.{exchange, Sends, after_packet, event_loop-Sends}
use libgdb.Net.Tcp.{link}
use libgdb.Net.Output.{Assembly, put_packet}
use libgdb.Net.Output.Sends.{wire}
use libgdb.Net.Output.Resend.{put_packet-resends}

wire-Sends :
    (a : Assembly) (buf refused stream u tail : Bytes)
    → buf ≡ u ++ (0 ∷ tail)
    → NonNul u
    → Refused refused
    → length a.tcp_output_buf ≡ bufsize
    → length u + 5 + 5 * length refused ≤ bufsize
    → (a' : Assembly) × (length a'.tcp_output_buf ≡ bufsize) × Sends wire a buf u refused stream a'
wire-Sends a buf refused stream u tail text h none size fits =
    let (a', size', e) = put_packet-resends u tail h a refused stream none size fits in
    (a', size', ap (λ b. put_packet a b (refused ++ (b'+' ∷ stream))) text ∙ e)

module _ {W : Type 0} (k : Kernel W) (junk : State W → Bytes → Stack) where
  -- A frame whose packet gdb_handle_packet answers, to a network debugger that waits for a packet
  -- and is attached: it is acknowledged by `+`, the frame of the answer is sent once for each reply
  -- that is no `+` and once more, and after the first `+` the loop goes on with the state that
  -- gdb_handle_packet left and with a buffer for the output of BUFSIZE bytes. The input buffer and
  -- the buffer for the output have BUFSIZE bytes; the noise before the frame has no `$` and no
  -- character 3; the text of the packet is shorter than BUFSIZE - 1, has no NUL and no character of
  -- the framing, and does not start with the character 3; the byte at place 2 of the buffer with
  -- the text is no `:`; the handler neither resumes the system nor detaches, and its answer has no
  -- NUL and, with five bytes and five more for each reply that is no `+`, is not longer than
  -- BUFSIZE.
  pub event_loop-sends :
      (fuel : ℕ) (d : Debugger wire W) (noise t refused stream u tail : Bytes) (c third : ℕ)
      (s : State W)
      → d.main ≡ at_packet start
      → d.detached ≡ false
      → length d.input ≡ bufsize
      → length d.sender.tcp_output_buf ≡ bufsize
      → Noise link noise
      → Payload t
      → length t < bufsize - 1
      → peek (with_front d.input t) ≡ ok c
      → c ≢ 3
      → get_elem? (with_front d.input t) 2 ≡ some third
      → third ≢ b':'
      → gdb_handle_packet k d.state (junk d.state (with_front d.input t)) (with_front d.input t)
        ≡ ok (record { state = s; resume = false; detached = false })
      → s.output ≡ u ++ (0 ∷ tail)
      → NonNul u
      → Refused refused
      → length u + 5 + 5 * length refused ≤ bufsize
      → (a : Assembly) × (length a.tcp_output_buf ≡ bufsize)
        × (event_loop wire k junk (suc fuel) d (noise ++ (frame t ++ (refused ++ (b'+' ∷ stream))))
            ≡ and_sent wire k junk (b'+' ∷ exchange refused u) (
                event_loop wire k junk fuel
                  (after_packet wire k junk d t
                    (record { state = s; resume = false; detached = false })
                    a)
                  stream))
  event_loop-sends fuel d noise t refused stream u tail c third s waits attached size room quiet h
        short first plain at other handled text nonnul none fits =
      let (a, size', sends) =
        wire-Sends d.sender s.output refused stream u tail text nonnul none room fits in
      (
        a,
        size',
        event_loop-Sends wire k junk fuel d noise t refused stream u c third s a waits attached size
            quiet h short first plain at other handled sends,
      )
