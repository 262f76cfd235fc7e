-- ===== src/Net/Output/Round.antt =====
-- What a round of the network debugger's `put_packet` stores and sends.
use libgdb.Prelude.{
  ℕ, zero, suc, ◌+◌, ◌%◌, ◌/◌, ◌≤◌, ◌<◌, ◌≡◌, refl, ap, sym, ◌∙◌, true, false, [], ◌∷◌, ◌++◌,
  length, length-append, set, length-set, take, drop, arith, ltb, Bool-cases, inl, inr, ◌==◌, ne→==,
}
use mathlib.Core.List.{append_assoc}
use libgdb.Prelude.Outcome.{Outcome, ok, ◌>>=◌, fault, out_of_bounds, >>=-assoc, >>=-cong}
use libgdb.Util.Buffer.{Bytes, NonNul, store, write_bytes}
use libgdb.Util.Buffer.Write.{write_bytes-append, write_bytes-cons, NonNul-append}
use libgdb.Util.Hex.RoundTrip.{hex_digits-NonNul}
use libgdb.Util.Str.{strnlen}
use libgdb.Util.Str.Copy.{strnlen_lem}
use libgdb.Util.Hex.{int_to_hexchar}
use libgdb.Gdb.State.{bufsize}
use libgdb.Framing.Receive.{checksum, checksum-lt, frame}
use libgdb.Net.Output.{Assembly, copy_text, send_packet}

copy_text-write_bytes :
    (t rest buf : Bytes) (p k n : ℕ)
    → NonNul t
    → copy_text k buf p n (t ++ (0 ∷ rest)) ≡ (
        write_bytes buf p t >>= λ buf'. ok (
          checksum k t,
          record { tcp_output_buf = buf'; tcp_output_tmp = p + length t; taken = n + length t },
        ))
unfolding copy_text write_bytes
copy_text-write_bytes [] rest buf p k n h =
    let same : p + 0 ≡ p = omega arith in
    let same' : n + 0 ≡ n = omega arith in rw (same, same') refl
copy_text-write_bytes (c ∷ t) rest buf p k n (pos, h) =
    let more : (c == 0) ≡ false = ne→== c 0 (λ e. omega arith) in
    let behind : p + 1 + length t ≡ p + suc (length t) = omega arith in
    let behind' : n + 1 + length t ≡ n + suc (length t) = omega arith in
    rw more (
      >>=-cong (store buf p c) (λ b.
        copy_text-write_bytes t rest b (p + 1) ((k + c) % 256) (n + 1) h
        ∙ rw (behind, behind') refl)
      ∙ sym (>>=-assoc (store buf p c) _ _))

-- The end of a round: the buffer up to its first NUL is sent.
abbrev pub sent_up_to : ℕ → ℕ → Bytes → Outcome (Bytes × Assembly)
sent_up_to p taken buf = strnlen buf bufsize >>= λ len.
    ok (take len buf, record { tcp_output_buf = buf; tcp_output_tmp = p + 4; taken = taken })

abbrev pub trailer : Bytes → Bytes
trailer t = b'#' ∷ int_to_hexchar (checksum 0 t / 16) ∷ int_to_hexchar (checksum 0 t % 16) ∷ []

-- A round stores the frame and a NUL.
pub send_packet-stores :
    (output buf t rest : Bytes) (p n : ℕ)
    → drop n output ≡ t ++ (0 ∷ rest)
    → NonNul t
    → send_packet output (record { tcp_output_buf = buf; tcp_output_tmp = p; taken = n })
      ≡ (write_bytes buf p (frame t ++ (0 ∷ [])) >>= sent_up_to (p + 1 + length t) (n + length t))
unfolding send_packet write_bytes
send_packet-stores output buf t rest p n text h =
    rw text (>>=-cong (store buf p b'$') text_stored ∙ sym (>>=-assoc (store buf p b'$') _ _))
  where
    text_stored :
        (b : Bytes)
        → (copy_text 0 b (p + 1) n (t ++ (0 ∷ rest)) >>= λ (cksum, a).
            write_bytes a.tcp_output_buf a.tcp_output_tmp
              (b'#' ∷ int_to_hexchar (cksum / 16) ∷ int_to_hexchar (cksum % 16) ∷ 0 ∷ [])
            >>= λ buf₂. strnlen buf₂ bufsize >>= λ len. ok (
              take len buf₂,
              record a { tcp_output_buf = buf₂; tcp_output_tmp = a.tcp_output_tmp + 4 },
            ))
          ≡ (write_bytes b (p + 1) ((t ++ trailer t) ++ (0 ∷ []))
              >>= sent_up_to (p + 1 + length t) (n + length t))
    text_stored b =
        ap
          (λ m. m >>= λ (cksum, a).
            write_bytes a.tcp_output_buf a.tcp_output_tmp
              (b'#' ∷ int_to_hexchar (cksum / 16) ∷ int_to_hexchar (cksum % 16) ∷ 0 ∷ [])
            >>= λ buf₂. strnlen buf₂ bufsize >>= λ len. ok (
              take len buf₂,
              record a { tcp_output_buf = buf₂; tcp_output_tmp = a.tcp_output_tmp + 4 },
            ))
          (copy_text-write_bytes t rest b (p + 1) 0 n h)
        ∙ >>=-assoc (write_bytes b (p + 1) t) _ _
        ∙ sym (>>=-assoc (write_bytes b (p + 1) t) _ _)
        ∙ ap (λ m. m >>= sent_up_to (p + 1 + length t) (n + length t))
            (sym (write_bytes-append b (p + 1) t (trailer t ++ (0 ∷ [])))
              ∙ ap (write_bytes b (p + 1)) (sym (append_assoc t (trailer t) (0 ∷ []))))

pub frame-NonNul : (t : Bytes) → NonNul t → NonNul (frame t)
frame-NonNul t h =
    let digits = hex_digits-NonNul (checksum 0 t ∷ []) (checksum-lt 0 t (omega arith), tt) in
    (omega arith, NonNul-append t (trailer t) h (omega arith, digits))

pub length-frame : (t : Bytes) → length (frame t) ≡ length t + 4
length-frame t = omega (arith, length-append t (trailer t))

take-front : (s r : Bytes) → take (length s) (s ++ r) ≡ s
take-front [] r = refl
take-front (c ∷ s) r = ap (λ l. c ∷ l) (take-front s r)

-- The buffer that begins with the frame and its NUL is sent up to that NUL.
pub sent_up_to-frame :
    (t r : Bytes) (p taken : ℕ)
    → NonNul t
    → length t + 4 ≤ bufsize
    → sent_up_to p taken (frame t ++ (0 ∷ r))
      ≡ ok (
        frame t,
        record { tcp_output_buf = frame t ++ (0 ∷ r); tcp_output_tmp = p + 4; taken = taken },
      )
sent_up_to-frame t r p taken h fits =
    rw
      (
        strnlen_lem (frame t) r bufsize (frame-NonNul t h) (omega (arith, length-frame t)),
        take-front (frame t) (0 ∷ r),
      )
      refl

-- Bytes behind a part of the buffer leave it.
pub write_bytes-after :
    (a r s : Bytes) (p : ℕ)
    → length a ≤ p
    → p + length s ≤ length a + length r
    → (r' : Bytes) × (write_bytes (a ++ r) p s ≡ ok (a ++ r')) × (length r' ≡ length r)
unfolding write_bytes store
write_bytes-after [] r [] p behind fits = (r, refl, refl)
write_bytes-after [] r (c ∷ s) p behind fits =
    let inside : ltb p (length r) ≡ true = ground arith in
    let (r', e, size) =
      write_bytes-after [] (set r p c) s (p + 1) (omega arith) (omega (arith, length-set r p c)) in
    (r', rw (inside, e) refl, size ∙ length-set r p c)
write_bytes-after (x ∷ a) r s zero behind fits = absurd (omega arith)
write_bytes-after (x ∷ a) r s (suc p) behind fits =
    let (r', e, size) = write_bytes-after a r s p (omega arith) (omega arith) in
    (r', write_bytes-cons x (a ++ r) p s ∙ rw e refl, size)

-- Bytes that reach beyond the end of the buffer are a fault.
pub write_bytes-beyond :
    (buf s : Bytes) (p : ℕ)
    → 0 < length s
    → length buf < p + length s
    → write_bytes buf p s ≡ fault out_of_bounds
unfolding write_bytes store
write_bytes-beyond buf [] p some long = absurd (omega arith)
write_bytes-beyond buf (c ∷ s) p some long = elim (Bool-cases (ltb p (length buf))) [
  | inl here ↦
      let inside : p < length buf = ground arith in
      rw here (
        write_bytes-beyond (set buf p c) s (p + 1) (omega arith)
          (omega (arith, length-set buf p c)))
  | inr beyond ↦ rw beyond refl
]
