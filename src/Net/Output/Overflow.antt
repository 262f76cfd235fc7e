-- ===== src/Net/Output/Overflow.antt =====
-- A packet that the network debugger cannot resend once more.
use libgdb.Prelude.{
  ℕ, ◌+◌, ◌*◌, ◌-◌, ◌≤◌, ◌<◌, ◌≡◌, refl, ap, ◌∙◌, false, [], ◌∷◌, ◌++◌, length, length-append, drop,
  length-drop, arith, leb, ◌==◌, ne→==, Bool-cases, inl, inr,
}
use libgdb.Prelude.Outcome.{Fault, fault, out_of_bounds, ◌>>=◌}
use libgdb.Util.Buffer.{Bytes, NonNul}
use libgdb.Gdb.State.{bufsize}
use libgdb.Framing.Receive.{frame}
use libgdb.Framing.Frame.{Refused}
use libgdb.Net.Output.{Assembly, send_packet, put_packet_from, put_packet}
use libgdb.Net.Output.Round.{sent_up_to, send_packet-stores, write_bytes-beyond, length-frame}
use libgdb.Net.Output.Resend.{again, text, at_end, send_packet-first, send_packet-again}

send_packet-beyond :
    (output buf t rest : Bytes) (p n : ℕ)
    → drop n output ≡ t ++ (0 ∷ rest)
    → NonNul t
    → length buf < p + (length t + 5)
    → send_packet output (record { tcp_output_buf = buf; tcp_output_tmp = p; taken = n })
      ≡ fault out_of_bounds
send_packet-beyond output buf t rest p n text h long =
    let counted : length (frame t ++ (0 ∷ [])) ≡ length t + 5 =
      omega (arith, length-append (frame t) (0 ∷ []), length-frame t) in
    send_packet-stores output buf t rest p n text h
    ∙ ap (λ m. m >>= sent_up_to (p + 1 + length t) (n + length t))
        (write_bytes-beyond buf (frame t ++ (0 ∷ [])) p (omega (arith, counted))
          (omega (arith, counted)))

put_packet_from-fault :
    (a : Assembly) (output stream : Bytes) (e : Fault)
    → send_packet output a ≡ fault e
    → put_packet_from a output stream ≡ fault e
unfolding put_packet_from
put_packet_from-fault a output [] e h = rw h refl
put_packet_from-fault a output (c ∷ stream) e h = rw h refl

module _ (t rest : Bytes) (h : NonNul t) where
  put_packet_from-overflow :
      (r replies stream : Bytes) (p : ℕ)
      → Refused replies
      → length t + 5 ≤ p
      → length t + 5 + length r < p + 5 + 5 * length replies
      → length t + 5 ≤ bufsize
      → put_packet_from (again t rest h r p) (text t rest h) (replies ++ stream)
        ≡ fault out_of_bounds
  unfolding put_packet_from
  put_packet_from-overflow r [] stream p refused behind long short =
      put_packet_from-fault (again t rest h r p) (text t rest h) stream out_of_bounds (
        send_packet-beyond (text t rest h) (frame t ++ (0 ∷ r)) [] rest p (length t)
          (at_end t rest h) tt (omega (arith, length-append (frame t) (0 ∷ r), length-frame t)))
  put_packet_from-overflow r (c ∷ replies) stream p (no_ack, refused) behind long short =
      elim (Bool-cases (leb (p + 5) (length t + 5 + length r))) [
        | inl room ↦
            let (r', sent, size) = send_packet-again t rest h r p behind (ground arith) short in
            let other : (c == b'+') ≡ false = ne→== c b'+' no_ack in
            rw
              (
                sent,
                other,
                put_packet_from-overflow r' replies stream (p + 5) refused (omega arith)
                    (omega (arith, size)) short,
              )
              refl
        | inr full ↦
            put_packet_from-fault (again t rest h r p) (text t rest h) (c ∷ replies ++ stream)
              out_of_bounds
              (send_packet-beyond (text t rest h) (frame t ++ (0 ∷ r)) [] rest p (length t)
                (at_end t rest h) tt
                (ground (arith, length-append (frame t) (0 ∷ r), length-frame t)))
      ]

  -- If a text without NUL with five bytes, and five more for each of its first replies that is no
  -- `+`, is longer than the buffer for the output, which has BUFSIZE bytes, put_packet writes
  -- behind its end, whatever other replies there are.
  pub put_packet-overflow :
      (a : Assembly) (replies stream : Bytes)
      → Refused replies
      → length a.tcp_output_buf ≡ bufsize
      → bufsize < length t + 5 + 5 * length replies
      → put_packet a (text t rest h) (replies ++ stream) ≡ fault out_of_bounds
  unfolding put_packet put_packet_from
  put_packet-overflow a [] stream refused size long =
      put_packet_from-fault _ (text t rest h) stream out_of_bounds
        (send_packet-beyond (text t rest h) a.tcp_output_buf t rest 0 0 refl h (omega arith))
  put_packet-overflow a (c ∷ replies) stream (no_ack, refused) size long =
      elim (Bool-cases (leb (length t + 5) bufsize)) [
        | inl room ↦
            let other : (c == b'+') ≡ false = ne→== c b'+' no_ack in
            let fits : length t + 5 ≤ bufsize = ground arith in
            let left : length (drop (length (frame t) + 1) a.tcp_output_buf)
                ≡ bufsize - (length t + 5) =
              omega (arith, length-drop (length (frame t) + 1) a.tcp_output_buf, length-frame t) in
            rw
              (
                send_packet-first a.tcp_output_buf t rest h size fits,
                other,
                put_packet_from-overflow (drop (length (frame t) + 1) a.tcp_output_buf) replies
                    stream (length t + 5) refused (omega arith) (omega (arith, left)) fits,
              )
              refl
        | inr full ↦
            put_packet_from-fault _ (text t rest h) (c ∷ replies ++ stream) out_of_bounds
              (send_packet-beyond (text t rest h) a.tcp_output_buf t rest 0 0 refl h (ground arith))
      ]
