-- ===== src/Net/Tcp/Delivery.antt =====
-- A segment that holds a frame, from the connection to the packet.
use libgdb.Prelude.{
  ℕ, zero, suc, ◌+◌, ◌-◌, ◌<◌, ◌≤◌, ◌≡◌, ◌≢◌, refl, ap, sym, ◌∙◌, [], ◌∷◌, ◌++◌, length, take, min,
  arith, get_elem?, some,
}
use mathlib.Core.Path.{subst}
use mathlib.Core.List.{append-nil}
use libgdb.Prelude.Outcome.{ok, ◌>>=◌}
use libgdb.Util.Buffer.{Bytes, NonNul}
use libgdb.Util.Buffer.Write.{with_front}
use libgdb.Gdb.State.{bufsize}
use libgdb.EventLoop.{EventState}
use libgdb.Framing.{start, packet, get_packet}
use libgdb.Framing.Receive.{frame, Payload, Payload-NonNul}
use libgdb.Framing.Packets.{get_packet-frame}
use libgdb.Net.CharQueue.{CharQueue, Memcpy, queue_capacity, char_queue_length}
use libgdb.Net.CharQueue.Window.{contents}
use libgdb.Net.CharQueue.Refine.{IsValid, length-contents}
use libgdb.Net.CharQueue.Batch.{Copies}
use libgdb.Net.Output.Round.{frame-NonNul, length-frame}
use libgdb.Net.Tcp.{Lwip, tcp_recv_gdb, link}
use libgdb.Net.Tcp
use libgdb.Net.Tcp.Segment.{HasPayload, tcp_recv_gdb-append}
use libgdb.Net.Tcp.Poll.{as_received, poll_refines}

pub take-all : (s : Bytes) (n : ℕ) → length s ≤ n → take n s ≡ s
take-all [] zero h = refl
take-all [] (suc n) h = refl
take-all (c ∷ s) zero h = absurd (omega arith)
take-all (c ∷ s) (suc n) h = ap (λ l. c ∷ l) (take-all s n (omega arith))

nothing : (s : Bytes) → length s ≡ 0 → s ≡ []
nothing [] h = refl
nothing (c ∷ s) h = absurd (omega arith)

-- A segment with the frame of a text that is received while the valid input queue is empty is what
-- get_packet then takes from the queue: the text is at the front of the buffer, and `+` is sent.
-- lwIP copies the payload, and memcpy copies; the frame is shorter than BUFSIZE and than the fuel,
-- both buffers have BUFSIZE bytes, the text has no NUL and no character of the framing, and the
-- byte at place 2 of the buffer with the text is no `:`.
pub tcp_recv_gdb-get_packet :
    {World Pbuf : Type 0} (lwip : Lwip World Pbuf) (payload : Pbuf → Bytes)
    (has : HasPayload lwip payload) (memcpy : Memcpy) (memcpy-copies : Copies memcpy)
    (world : World) (tmp buf t : Bytes) (q : CharQueue) (p : Pbuf) (d fuel : ℕ)
    (new_state state : EventState)
    → IsValid q
    → char_queue_length q ≡ 0
    → payload p ≡ frame t
    → Payload t
    → length t + 4 < bufsize
    → length t + 4 < fuel
    → length tmp ≡ bufsize
    → length buf ≡ bufsize
    → get_elem? (with_front buf t) 2 ≡ some d
    → d ≢ b':'
    → (tcp_recv_gdb lwip memcpy tmp world q (some p) 0 >>= λ (world', q', err).
        Tcp.get_packet new_state fuel state start buf q' >>= λ r. ok (as_received r))
      ≡ ok (packet 0 (with_front buf t) [] (b'+' ∷ []))
tcp_recv_gdb-get_packet lwip payload has memcpy memcpy-copies world tmp buf t q p d fuel new_state
      state valid empty whole h short enough size size' third plain =
    let counted : length (payload p) ≡ length t + 4 = ap length whole ∙ length-frame t in
    let (q', put, holds, valid') =
      tcp_recv_gdb-append lwip payload has memcpy memcpy-copies world tmp q p valid
        (subst NonNul (sym whole) (frame-NonNul t (Payload-NonNul t h))) (omega (arith, counted))
        size in
    let room : length (payload p)
        ≤ min (length (payload p)) (queue_capacity - char_queue_length q) =
      omega (arith, counted) in
    let now : contents q' ≡ frame t ++ [] =
      holds
      ∙ ap
          (λ s.
            s ++ take (min (length (payload p)) (queue_capacity - char_queue_length q)) (payload p))
          (nothing (contents q) (length-contents q ∙ empty))
      ∙ take-all (payload p) (min (length (payload p)) (queue_capacity - char_queue_length q)) room
      ∙ whole
      ∙ sym (append-nil (frame t)) in
    let fits : char_queue_length q' < fuel =
      omega (arith, length-contents q', ap length (now ∙ append-nil (frame t)), length-frame t) in
    rw put (
      (poll_refines link new_state fuel state start buf q' valid' fits).0
      ∙ ap (get_packet link start buf) now
      ∙ get_packet-frame link [] t [] buf d tt h (omega arith) size' third plain)
