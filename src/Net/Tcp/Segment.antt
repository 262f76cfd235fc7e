-- ===== src/Net/Tcp/Segment.antt =====
-- What `tcp_recv_gdb` puts into the input queue.
use libgdb.Prelude.{
  ℕ, zero, suc, ◌+◌, ◌-◌, ◌≤◌, ◌<◌, ◌≡◌, refl, ap, sym, ◌∙◌, [], ◌∷◌, ◌++◌, length, length-append,
  take, drop, min, arith, some,
}
use libgdb.Prelude.Outcome.{Outcome, ok, fault, out_of_bounds, ◌>>=◌, >>=-assoc, >>=-cong}
use libgdb.Util.Buffer.{Bytes, NonNul, store, write_bytes}
use libgdb.Util.Buffer.Write.{
  with_front, write_bytes-front_text, write_bytes-append, write_bytes-one,
}
use libgdb.Net.Output.Round.{write_bytes-beyond}
use libgdb.Util.Str.Copy.{strnlen_lem}
use libgdb.Gdb.State.{bufsize}
use libgdb.Net.CharQueue.{CharQueue, Memcpy, queue_capacity, char_queue_length}
use libgdb.Net.CharQueue.Window.{contents}
use libgdb.Net.CharQueue.Refine.{IsValid}
use libgdb.Net.CharQueue.Batch.{Copies, char_queue_enqueue_batch-append}
use libgdb.Net.Tcp.{Lwip, tcp_recv_gdb}

-- What a packet buffer holds: `tot_len` bytes, that are copied to the front of the destination.
pub record HasPayload {World Pbuf : Type 0} (lwip : Lwip World Pbuf) (payload : Pbuf → Bytes)
    : Type 0 where
  pub counts : (p : Pbuf) → lwip.tot_len p ≡ length (payload p)
  pub copies :
      (p : Pbuf) (dst : Bytes)
      → lwip.pbuf_copy_partial p dst (lwip.tot_len p) 0 ≡ write_bytes dst 0 (payload p)

take-within : (n : ℕ) (s r : Bytes) → n ≤ length s → take n (s ++ r) ≡ take n s
take-within zero s r h = refl
take-within (suc n) [] r h = absurd (omega arith)
take-within (suc n) (c ∷ s) r h = ap (λ l. c ∷ l) (take-within n s r (omega arith))

module _ {World Pbuf : Type 0} (lwip : Lwip World Pbuf) (payload : Pbuf → Bytes)
    (has : HasPayload lwip payload) (memcpy : Memcpy) (memcpy-copies : Copies memcpy)
    (world : World) (tmp : Bytes) (q : CharQueue) (p : Pbuf) where
  copied :
      (write_bytes tmp 0 (payload p) >>= λ tmp₁. store tmp₁ (lwip.tot_len p) 0)
      ≡ write_bytes tmp 0 (payload p ++ (0 ∷ []))
  copied =
      let behind : lwip.tot_len p ≡ 0 + length (payload p) = omega (arith, has.counts p) in
      rw behind (
        >>=-cong (write_bytes tmp 0 (payload p))
          (λ b. sym (write_bytes-one b (0 + length (payload p)) 0))
        ∙ sym (write_bytes-append tmp 0 (payload p) (0 ∷ [])))

  received_with :
      (more : Bytes → Outcome (World × CharQueue × ℕ))
      → (lwip.pbuf_copy_partial p tmp (lwip.tot_len p) 0 >>= λ tmp₁.
          store tmp₁ (lwip.tot_len p) 0 >>= more)
        ≡ (write_bytes tmp 0 (payload p ++ (0 ∷ [])) >>= more)
  received_with more =
      ap (λ m. m >>= λ tmp₁. store tmp₁ (lwip.tot_len p) 0 >>= more) (has.copies p tmp)
      ∙ sym (>>=-assoc (write_bytes tmp 0 (payload p)) _ _)
      ∙ ap (λ m. m >>= more) copied

  -- Of a segment without a NUL, that is shorter than the local array, as many characters as there is
  -- room for come behind the contents of the input queue. The rest is lost, and ERR_OK is returned.
  pub tcp_recv_gdb-append :
      IsValid q
      → NonNul (payload p)
      → length (payload p) < bufsize
      → length tmp ≡ bufsize
      → (q' : CharQueue) × (tcp_recv_gdb lwip memcpy tmp world q (some p) 0
          ≡ ok (lwip.pbuf_free world p, q', 0))
        × (contents q'
            ≡ contents q
              ++ take (min (length (payload p)) (queue_capacity - char_queue_length q)) (payload p))
        × IsValid q'
  unfolding tcp_recv_gdb
  tcp_recv_gdb-append valid h short size =
      let stored = write_bytes-front_text tmp (payload p) (omega (arith, size)) in
      let counted =
        strnlen_lem (payload p) (drop (length (payload p) + 1) tmp) bufsize h (omega arith) in
      let (q', put, holds, valid') =
        char_queue_enqueue_batch-append memcpy memcpy-copies q (length (payload p))
          (with_front tmp (payload p)) valid
          (omega (arith, length-append (payload p) (0 ∷ drop (length (payload p) + 1) tmp))) in
      (
        q',
        received_with _ ∙ rw (stored, counted, put) refl,
        holds
            ∙ ap (λ s. contents q ++ s)
                (take-within (min (length (payload p)) (queue_capacity - char_queue_length q))
                  (payload p) _ (omega arith)),
        valid',
      )

  -- A segment of BUFSIZE characters or more, which lwIP copies, is a write behind the end of the
  -- local array of BUFSIZE bytes.
  pub tcp_recv_gdb-overflow :
      length tmp ≡ bufsize
      → bufsize ≤ length (payload p)
      → tcp_recv_gdb lwip memcpy tmp world q (some p) 0 ≡ fault out_of_bounds
  unfolding tcp_recv_gdb
  tcp_recv_gdb-overflow size long =
      let counted = length-append (payload p) (0 ∷ []) in
      let beyond =
        write_bytes-beyond tmp (payload p ++ (0 ∷ [])) 0 (omega (arith, counted))
          (omega (arith, counted, size)) in
      received_with _ ∙ rw beyond refl
