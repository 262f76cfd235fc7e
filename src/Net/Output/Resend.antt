-- ===== src/Net/Output/Resend.antt =====
-- What the network debugger sends, also when a packet is refused.
use libgdb.Prelude.{
  ℕ, suc, ◌+◌, ◌*◌, ◌-◌, ◌≤◌, ◌≡◌, refl, ap, sym, ◌∙◌, false, [], ◌∷◌, ◌++◌, length, length-append,
  drop, length-drop, arith, ◌==◌, ne→==,
}
use mathlib.Core.List.{append_assoc}
use libgdb.Prelude.Outcome.{ok, ◌>>=◌}
use libgdb.Util.Buffer.{Bytes, NonNul, write_bytes}
use libgdb.Util.Buffer.Write.{with_front, write_bytes-front_text}
use libgdb.Gdb.State.{bufsize}
use libgdb.Framing.{unanswered, acknowledged}
use libgdb.Framing.Receive.{frame}
use libgdb.Framing.Frame.{Refused, repeated}
use libgdb.Net.Output.{Assembly, send_packet, put_packet_from, put_packet}
use libgdb.Net.Output.Round.{
  sent_up_to, sent_up_to-frame, send_packet-stores, write_bytes-after, length-frame,
}

-- The first round leaves the frame at the front of the buffer.
pub send_packet-first :
    (buf t rest : Bytes)
    → NonNul t
    → length buf ≡ bufsize
    → length t + 5 ≤ bufsize
    → send_packet (t ++ (0 ∷ rest)) (record { tcp_output_buf = buf; tcp_output_tmp = 0; taken = 0 })
      ≡ ok (
        frame t,
        record {
          tcp_output_buf = with_front buf (frame t);
          tcp_output_tmp = length t + 5;
          taken = length t;
        },
      )
send_packet-first buf t rest h size fits =
    let behind : 0 + 1 + length t + 4 ≡ length t + 5 = omega arith in
    let none : 0 + length t ≡ length t = omega arith in
    send_packet-stores (t ++ (0 ∷ rest)) buf t rest 0 0 refl h
    ∙ ap (λ m. m >>= sent_up_to (0 + 1 + length t) (0 + length t))
        (write_bytes-front_text buf (frame t) (omega (arith, length-frame t)))
    ∙ sent_up_to-frame t (drop (length (frame t) + 1) buf) (0 + 1 + length t) (0 + length t) h
        (omega arith)
    ∙ rw (behind, none) refl

drop_front : (s r : Bytes) → drop (length s) (s ++ r) ≡ r
drop_front [] r = refl
drop_front (c ∷ s) r = drop_front s r

module _ (t rest : Bytes) (h : NonNul t) where
  abbrev pub again : Bytes → ℕ → Assembly
  again r p = record { tcp_output_buf = frame t ++ (0 ∷ r); tcp_output_tmp = p; taken = length t }

  abbrev pub text : Bytes
  text = t ++ (0 ∷ rest)

  pub at_end : drop (length t) text ≡ 0 ∷ rest
  at_end = drop_front t (0 ∷ rest)

  -- Behind the frame, a round adds the frame of the empty text, and sends the first frame.
  pub send_packet-again :
      (r : Bytes) (p : ℕ)
      → length t + 5 ≤ p
      → p + 5 ≤ length t + 5 + length r
      → length t + 5 ≤ bufsize
      → (r' : Bytes) × (send_packet text (again r p) ≡ ok (frame t, again r' (p + 5)))
        × (length r' ≡ length r)
  send_packet-again r p behind fits short =
      let counted : length (frame t ++ (0 ∷ [])) ≡ length t + 5 =
        omega (arith, length-append (frame t) (0 ∷ []), length-frame t) in
      let (r', e, size) =
        write_bytes-after (frame t ++ (0 ∷ [])) r (frame [] ++ (0 ∷ [])) p (omega (arith, counted))
          (omega (arith, counted)) in
      let kept : write_bytes (frame t ++ (0 ∷ r)) p (frame [] ++ (0 ∷ []))
          ≡ ok (frame t ++ (0 ∷ r')) =
        ap (λ b. write_bytes b p (frame [] ++ (0 ∷ []))) (sym (append_assoc (frame t) (0 ∷ []) r))
        ∙ e
        ∙ ap ok (append_assoc (frame t) (0 ∷ []) r') in
      (
        r',
        send_packet-stores text (frame t ++ (0 ∷ r)) [] rest p (length t) at_end tt
            ∙ ap (λ m. m >>= sent_up_to (p + 1 + 0) (length t + 0)) kept
            ∙ sent_up_to-frame t r' (p + 1 + 0) (length t + 0) h (omega arith)
            ∙ ap
                (λ n. ok (
                  frame t,
                  record {
                    tcp_output_buf = frame t ++ (0 ∷ r');
                    tcp_output_tmp = n;
                    taken = length t + 0;
                  },
                ))
                (omega arith)
            ∙ ap
                (λ n. ok (
                  frame t,
                  record {
                    tcp_output_buf = frame t ++ (0 ∷ r');
                    tcp_output_tmp = p + 5;
                    taken = n;
                  },
                ))
                (omega arith),
        size,
      )

  put_packet_from-again :
      (r replies stream : Bytes) (p : ℕ)
      → Refused replies
      → length t + 5 ≤ p
      → p + 5 + 5 * length replies ≤ length t + 5 + length r
      → length t + 5 ≤ bufsize
      → (r' : Bytes) × (length r' ≡ length r)
        × (put_packet_from (again r p) text (replies ++ (b'+' ∷ stream))
            ≡ ok (
              again r' (p + 5 + 5 * length replies),
              acknowledged stream (repeated (length replies) (frame t) ++ frame t),
            ))
  unfolding put_packet_from
  put_packet_from-again r [] stream p refused behind fits short =
      let (r', sent, size) = send_packet-again r p behind (omega arith) short in
      let same : p + 5 + 5 * 0 ≡ p + 5 = omega arith in (r', size, rw (sent, same) refl)
  put_packet_from-again r (c ∷ replies) stream p (no_ack, refused) behind fits short =
      let (r', sent, size) = send_packet-again r p behind (omega arith) short in
      let other : (c == b'+') ≡ false = ne→== c b'+' no_ack in
      let (r'', size', more) =
        put_packet_from-again r' replies stream (p + 5) refused (omega arith) (omega (arith, size))
          short in
      let next : p + 5 + 5 + 5 * length replies ≡ p + 5 + 5 * suc (length replies) = omega arith in
      (
        r'',
        size' ∙ size,
        rw (sent, other, more, next)
            (ap (λ out. ok (again r'' (p + 5 + 5 * suc (length replies)), acknowledged stream out))
              (sym (append_assoc (frame t) (repeated (length replies) (frame t)) (frame t)))),
      )

  -- The network debugger's put_packet sends the frame of its text once for each reply that is no
  -- `+` and once more, and leaves the replies behind the first `+`; its buffer keeps its size. The
  -- text has no NUL, and with five bytes, and five more for each reply that is no `+`, it is not
  -- longer than the buffer for the output, which has BUFSIZE bytes.
  pub put_packet-resends :
      (a : Assembly) (replies stream : Bytes)
      → Refused replies
      → length a.tcp_output_buf ≡ bufsize
      → length t + 5 + 5 * length replies ≤ bufsize
      → (a' : Assembly) × (length a'.tcp_output_buf ≡ bufsize)
        × (put_packet a text (replies ++ (b'+' ∷ stream))
            ≡ ok (a', acknowledged stream (repeated (length replies) (frame t) ++ frame t)))
  unfolding put_packet put_packet_from
  put_packet-resends a [] stream refused size fits =
      let buf : Bytes = a.tcp_output_buf in
      let r : Bytes = drop (length (frame t) + 1) buf in
      let left : length r ≡ bufsize - (length t + 5) =
        omega (arith, length-drop (length (frame t) + 1) buf, length-frame t) in
      (
        again r (length t + 5),
        omega (arith, length-append (frame t) (0 ∷ r), length-frame t, left),
        rw (send_packet-first buf t rest h size (omega arith)) refl,
      )
  put_packet-resends a (c ∷ replies) stream (no_ack, refused) size fits =
      let buf : Bytes = a.tcp_output_buf in
      let r : Bytes = drop (length (frame t) + 1) buf in
      let other : (c == b'+') ≡ false = ne→== c b'+' no_ack in
      let left : length r ≡ bufsize - (length t + 5) =
        omega (arith, length-drop (length (frame t) + 1) buf, length-frame t) in
      let (r', size', more) =
        put_packet_from-again r replies stream (length t + 5) refused (omega arith)
          (omega (arith, left)) (omega arith) in
      (
        again r' (length t + 5 + 5 + 5 * length replies),
        omega (arith, length-append (frame t) (0 ∷ r'), length-frame t, left, size'),
        rw (send_packet-first buf t rest h size (omega arith), other, more)
            (ap
              (λ out.
                ok (again r' (length t + 5 + 5 + 5 * length replies), acknowledged stream out))
              (sym (append_assoc (frame t) (repeated (length replies) (frame t)) (frame t)))),
      )

  -- Before any reply.
  pub put_packet-once :
      (a : Assembly)
      → length a.tcp_output_buf ≡ bufsize
      → length t + 5 ≤ bufsize
      → (a' : Assembly) × (put_packet a text [] ≡ ok (a', unanswered (frame t)))
  unfolding put_packet put_packet_from
  put_packet-once a size fits = (
    again (drop (length (frame t) + 1) a.tcp_output_buf) (length t + 5),
    rw (send_packet-first a.tcp_output_buf t rest h size fits) refl,
  )
