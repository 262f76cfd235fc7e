-- ===== src/Framing/Frame.antt =====
-- What `put_packet` sends, and that `get_packet` takes it.
use libgdb.Prelude.{
  ℕ, zero, suc, ◌+◌, ◌%◌, ◌<◌, ◌-◌, ◌≡◌, ◌≢◌, refl, ap, sym, false, [], ◌∷◌, ◌++◌, length, arith,
  ◌==◌, ne→==, get_elem?, some,
}
use mathlib.Core.List.{append_assoc}
use libgdb.Prelude.Outcome.{ok, ◌>>=◌}
use libgdb.Util.Buffer.{Bytes, NonNul}
use libgdb.Util.Buffer.Write.{with_front}
use libgdb.Gdb.State.{bufsize}
use libgdb.Framing.{
  Link, start, packet, get_packet, send_text, send_packet, acknowledged, put_packet,
}
use libgdb.Framing.Receive.{checksum, frame, Payload, Payload-NonNul, Noise}
use libgdb.Framing.Packets.{get_packet-frame}

send_text-checksum :
    (t rest : Bytes) (k : ℕ) → NonNul t → send_text k (t ++ (0 ∷ rest)) ≡ ok (t, checksum k t)
unfolding send_text
send_text-checksum [] rest k h = refl
send_text-checksum (c ∷ t) rest k (pos, h) =
    let more : (c == 0) ≡ false = ne→== c 0 (λ e. omega arith) in
    rw (more, send_text-checksum t rest ((k + c) % 256) h) refl

-- A round of `put_packet` sends the frame of the text at the front of the buffer.
pub send_packet-frame : (t rest : Bytes) → NonNul t → send_packet (t ++ (0 ∷ rest)) ≡ ok (frame t)
unfolding send_packet
send_packet-frame t rest h = rw (send_text-checksum t rest 0 h) refl

-- Replies that are no acknowledgement.
abbrev pub Refused : Bytes → Type 0
Refused [] = Unit {0}
Refused (c ∷ s) = (c ≢ b'+') × Refused s

abbrev pub repeated : ℕ → Bytes → Bytes
repeated zero out = []
repeated (suc n) out = out ++ repeated n out

-- If the replies contain a `+`, put_packet ends: it has sent the frame of its text once for each
-- reply before the first `+` and once more, and it leaves the replies behind that. The text has no
-- NUL.
pub put_packet-acknowledged :
    (t rest replies stream : Bytes)
    → NonNul t
    → Refused replies
    → put_packet (t ++ (0 ∷ rest)) (replies ++ (b'+' ∷ stream))
      ≡ ok (acknowledged stream (repeated (length replies) (frame t) ++ frame t))
unfolding put_packet
put_packet-acknowledged t rest [] stream h refused = rw (send_packet-frame t rest h) refl
put_packet-acknowledged t rest (c ∷ replies) stream h (no_ack, refused) =
    let other : (c == b'+') ≡ false = ne→== c b'+' no_ack in
    rw (send_packet-frame t rest h, other, put_packet-acknowledged t rest replies stream h refused)
      (ap (λ out. ok (acknowledged stream out))
        (sym (append_assoc (frame t) (repeated (length replies) (frame t)) (frame t))))

-- What a round of put_packet sends for a text, with noise before it, get_packet takes: it leaves
-- the text and a NUL at the front of its buffer of BUFSIZE bytes, returns its start, and sends `+`.
-- The text is shorter than BUFSIZE - 1 and has no NUL and no character of the framing; the byte at
-- place 2 of the buffer with the text is no `:`; the noise has no `$` and no character 3.
pub get_packet-send_packet :
    (link : Link) (noise t rest stream buf : Bytes) (d : ℕ)
    → Noise link noise
    → Payload t
    → length t < bufsize - 1
    → length buf ≡ bufsize
    → get_elem? (with_front buf t) 2 ≡ some d
    → d ≢ b':'
    → (send_packet (t ++ (0 ∷ rest)) >>= λ sent.
        get_packet link start buf (noise ++ (sent ++ stream)))
      ≡ ok (packet 0 (with_front buf t) stream (b'+' ∷ []))
get_packet-send_packet link noise t rest stream buf d quiet h short size third plain =
    rw (send_packet-frame t rest (Payload-NonNul t h))
      (get_packet-frame link noise t stream buf d quiet h short size third plain)
