-- ===== src/Uart/Resend.antt =====
-- What the integrated debugger sends when a packet is refused.
use libgdb.Prelude.{
  ℕ, ◌+◌, ◌%◌, ◌≡◌, refl, ap, sym, false, [], ◌∷◌, ◌++◌, length, arith, ◌==◌, ne→==,
}
use mathlib.Core.List.{append-nil}
use libgdb.Prelude.Outcome.{ok}
use libgdb.Util.Buffer.{Bytes, NonNul}
use libgdb.Framing.{acknowledged}
use libgdb.Framing.Receive.{checksum, frame}
use libgdb.Framing.Frame.{Refused, repeated}
use libgdb.Uart.{send_text, send_packet, put_packet}

send_text-end :
    (t rest : Bytes) (k : ℕ)
    → NonNul t
    → send_text k (t ++ (0 ∷ rest)) ≡ ok (t, checksum k t, 0 ∷ rest)
unfolding send_text
send_text-end [] rest k h = refl
send_text-end (c ∷ t) rest k (pos, h) =
    let more : (c == 0) ≡ false = ne→== c 0 (λ e. omega arith) in
    rw (more, send_text-end t rest ((k + c) % 256) h) refl

send_packet-end :
    (t rest : Bytes) → NonNul t → send_packet (t ++ (0 ∷ rest)) ≡ ok (frame t, 0 ∷ rest)
unfolding send_packet
send_packet-end t rest h = rw (send_text-end t rest 0 h) refl

-- Rounds from the end of the text send the frame of the empty text.
put_packet-empty :
    (rest replies stream : Bytes)
    → Refused replies
    → put_packet (0 ∷ rest) (replies ++ (b'+' ∷ stream))
      ≡ ok (acknowledged stream (frame [] ++ repeated (length replies) (frame [])))
unfolding put_packet
put_packet-empty rest [] stream refused =
    let first : send_packet (0 ∷ rest) ≡ ok (frame [], 0 ∷ rest) = send_packet-end [] rest tt in
    rw first refl
put_packet-empty rest (c ∷ replies) stream (no_ack, refused) =
    let other : (c == b'+') ≡ false = ne→== c b'+' no_ack in
    let first : send_packet (0 ∷ rest) ≡ ok (frame [], 0 ∷ rest) = send_packet-end [] rest tt in
    rw (first, other, put_packet-empty rest replies stream refused) refl

-- The integrated debugger's put_packet sends the frame of its text once, and after each reply that
-- is no `+` the frame of the empty text in its place, up to the first `+`; it leaves the replies
-- behind that. The text has no NUL.
pub put_packet-resends_empty :
    (t rest replies stream : Bytes)
    → NonNul t
    → Refused replies
    → put_packet (t ++ (0 ∷ rest)) (replies ++ (b'+' ∷ stream))
      ≡ ok (acknowledged stream (frame t ++ repeated (length replies) (frame [])))
unfolding put_packet
put_packet-resends_empty t rest [] stream h refused =
    rw (send_packet-end t rest h)
      (ap (λ out. ok (acknowledged stream out)) (sym (append-nil (frame t))))
put_packet-resends_empty t rest (c ∷ replies) stream h (no_ack, refused) =
    let other : (c == b'+') ≡ false = ne→== c b'+' no_ack in
    rw (send_packet-end t rest h, other, put_packet-empty rest replies stream refused) refl
