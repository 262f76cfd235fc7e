-- ===== src/Framing/Packets.antt =====
-- What `get_packet` returns and replies, for each kind of packet.
use libgdb.Prelude.{
  ℕ, ◌+◌, ◌-◌, ◌/◌, ◌%◌, ◌≤◌, ◌<◌, ◌≡◌, ◌≢◌, refl, ap, sym, ◌∙◌, true, false, [], ◌∷◌, ◌++◌, length,
  length-set, set, arith, ltb, ◌==◌, eq→==, ne→==, get_elem?, some,
}
use mathlib.Core.List.{append_assoc}
use libgdb.Prelude.Outcome.{ok, ◌>>=◌}
use libgdb.Util.Buffer.{Bytes, store}
use libgdb.Util.Buffer.Write.{with_front, get_elem?-with_front}
use libgdb.Util.Hex.{int_to_hexchar, hex_byte}
use libgdb.Util.Hex.RoundTrip.{hex_digits, hex_byte-digits}
use libgdb.Gdb.State.{bufsize}
use libgdb.Framing.Receive.{
  Payload, Noise, start-Noise, checksum, checksum-lt, frame, get_packet-digits,
}
use libgdb.Framing.{Link, start, accept, get_packet_step, packet, after_sent, resume, get_packet}

set-front : (buf : Bytes) → 2 ≤ length buf → set (set buf 0 3) 1 0 ≡ with_front buf (3 ∷ [])
set-front [] h = absurd (omega arith)
set-front (a ∷ []) h = absurd (omega arith)
set-front (a ∷ b ∷ buf) h = refl

module _ (link : Link) where
  get_packet-framed :
      (noise t rest buf : Bytes)
      → Noise link noise
      → Payload t
      → length t < bufsize - 1
      → length buf ≡ bufsize
      → get_packet link start buf (noise ++ (frame t ++ rest)) ≡ (
          accept link (with_front buf t)
          >>= resume (λ mode' b'. get_packet link mode' b' rest) rest)
  get_packet-framed noise t rest buf quiet payload short size =
      let sum : ℕ = checksum 0 t in
      let small : sum < 256 = checksum-lt 0 t (omega arith) in
      let right : (sum == hex_byte (int_to_hexchar (sum / 16)) (int_to_hexchar (sum % 16))) ≡ true =
        eq→== _ _ (sym (hex_byte-digits sum small)) in
      rw (append_assoc t (b'#' ∷ hex_digits (sum ∷ [])) rest) (
        get_packet-digits link noise t rest buf (int_to_hexchar (sum / 16))
          (int_to_hexchar (sum % 16)) quiet payload short size
        ∙ rw right refl)

  -- A frame with noise before it is answered by `+` and returned, if the byte at place 2 of the buffer,
  -- with the text and its NUL at the front, is no `:`. The text is shorter than bufsize - 1 and has no
  -- NUL and no character of the framing; the noise has no `$` and no character 3.
  pub get_packet-frame :
      (noise t rest buf : Bytes) (d : ℕ)
      → Noise link noise
      → Payload t
      → length t < bufsize - 1
      → length buf ≡ bufsize
      → get_elem? (with_front buf t) 2 ≡ some d
      → d ≢ b':'
      → get_packet link start buf (noise ++ (frame t ++ rest))
        ≡ ok (packet 0 (with_front buf t) rest (b'+' ∷ []))
  unfolding accept
  get_packet-frame noise t rest buf d quiet payload short size third plain =
      let no_id : (d == b':') ≡ false = ne→== d b':' plain in
      get_packet-framed noise t rest buf quiet payload short size ∙ rw (third, no_id) refl

  -- If that byte is a `:`, two bytes of the buffer are echoed, and the rest is returned from place 3.
  pub get_packet-sequence_id :
      (noise t rest buf : Bytes) (a b : ℕ)
      → Noise link noise
      → Payload t
      → length t < bufsize - 1
      → length buf ≡ bufsize
      → get_elem? (with_front buf t) 2 ≡ some b':'
      → get_elem? (with_front buf t) link.echo_from ≡ some a
      → get_elem? (with_front buf t) (link.echo_from + 1) ≡ some b
      → get_packet link start buf (noise ++ (frame t ++ rest))
        ≡ ok (packet 3 (with_front buf t) rest (b'+' ∷ a ∷ b ∷ []))
  unfolding accept
  get_packet-sequence_id noise t rest buf a b quiet payload short size third first second =
      get_packet-framed noise t rest buf quiet payload short size ∙ rw (third, first, second) refl

  -- A wrong checksum is answered by `-`, and the next packet is awaited.
  pub get_packet-wrong_checksum :
      (noise t rest buf : Bytes) (h l : ℕ)
      → Noise link noise
      → Payload t
      → length t < bufsize - 1
      → length buf ≡ bufsize
      → checksum 0 t ≢ hex_byte h l
      → get_packet link start buf (noise ++ (b'$' ∷ t ++ (b'#' ∷ h ∷ l ∷ rest)))
        ≡ (get_packet link start (with_front buf t) rest >>= λ r. ok (after_sent (b'-' ∷ []) r))
  get_packet-wrong_checksum noise t rest buf h l quiet payload short size wrong =
      let bad : (checksum 0 t == hex_byte h l) ≡ false = ne→== _ _ wrong in
      get_packet-digits link noise t rest buf h l quiet payload short size ∙ rw bad refl

  -- The character 3 in place of a packet is returned as a packet of its own, without a reply.
  pub get_packet-interrupt :
      (noise rest buf : Bytes)
      → Noise link noise
      → link.interrupts ≡ true
      → length buf ≡ bufsize
      → get_packet link start buf (noise ++ (3 ∷ rest))
        ≡ ok (packet 0 (with_front buf (3 ∷ [])) rest [])
  unfolding get_packet get_packet_step store
  get_packet-interrupt noise rest buf quiet on size =
      let first : ltb 0 (length buf) ≡ true = ground arith in
      let second : ltb 1 (length (set buf 0 3)) ≡ true = ground (arith, length-set buf 0 3) in
      start-Noise link noise (3 ∷ rest) buf quiet
      ∙ rw (on, first, second) (ap (λ b. ok (packet 0 b rest [])) (set-front buf (omega arith)))

  -- A frame with a text of less than two characters, without NUL and without characters of the
  -- framing, behind noise without `$` and without character 3, into a buffer of BUFSIZE bytes with
  -- a `:` at its place 2 from before: two bytes of the buffer are echoed as a sequence id that the
  -- packet does not have, and the pointer that is returned is behind the packet.
  pub get_packet-stale_sequence_id :
      (noise t rest buf : Bytes) (a b : ℕ)
      → Noise link noise
      → Payload t
      → length t < 2
      → length buf ≡ bufsize
      → get_elem? buf 2 ≡ some b':'
      → get_elem? (with_front buf t) link.echo_from ≡ some a
      → get_elem? (with_front buf t) (link.echo_from + 1) ≡ some b
      → get_packet link start buf (noise ++ (frame t ++ rest))
        ≡ ok (packet 3 (with_front buf t) rest (b'+' ∷ a ∷ b ∷ []))
  get_packet-stale_sequence_id noise t rest buf a b quiet payload short size colon =
      get_packet-sequence_id noise t rest buf a b quiet payload (omega arith) size
        (get_elem?-with_front buf t 2 (omega arith) ∙ colon)
