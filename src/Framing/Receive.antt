-- ===== src/Framing/Receive.antt =====
-- What `get_packet` makes of a frame.
use libgdb.Prelude.{
  and-false, ℕ, suc, ◌+◌, ◌-◌, ◌%◌, ◌<◌, ◌≡◌, ◌≢◌, refl, ap, sym, ◌∙◌, true, false, ◌&&◌, [], ◌∷◌,
  ◌++◌, length, length-set, set, arith, ltb, ◌==◌, ne→==, if◌then◌else◌,
}
use libgdb.Prelude.Outcome.{Outcome, ok, fault, ◌>>=◌, >>=-ok, >>=-assoc, >>=-cong}
use libgdb.Util.Buffer.{Bytes, store, write_bytes, NonNul}
use libgdb.Util.Buffer.Write.{
  with_front, write_bytes-front_text, write_bytes-append, write_bytes-one,
}
use libgdb.Util.Hex.{hex_byte}
use libgdb.Util.Hex.RoundTrip.{hex_digits}
use libgdb.Gdb.State.{bufsize}
use libgdb.Framing.{
  Link, Mode, start, reading, high, low, wait, accept, take_char, get_packet_step, Received,
  waiting, packet, after_sent, resume, get_packet,
}

-- The text of a packet: no character that the framing uses, and no NUL.
abbrev pub Payload : Bytes → Type 0
Payload [] = Unit {0}
Payload (c ∷ t) = (c ≢ b'$') × (c ≢ b'#') × (0 < c) × Payload t

pub Payload-NonNul : (t : Bytes) → Payload t → NonNul t
Payload-NonNul [] h = tt
Payload-NonNul (c ∷ t) (no_start, no_end, pos, h) = (pos, Payload-NonNul t h)

-- The checksum of a text, after `k`.
abbrev pub checksum : ℕ → Bytes → ℕ
checksum k [] = k
checksum k (c ∷ t) = checksum ((k + c) % 256) t

pub checksum-lt : (k : ℕ) (t : Bytes) → k < 256 → checksum k t < 256
checksum-lt k [] h = h
checksum-lt k (c ∷ t) h = checksum-lt ((k + c) % 256) t (omega arith)

abbrev pub frame : Bytes → Bytes
frame t = b'$' ∷ t ++ (b'#' ∷ hex_digits (checksum 0 t ∷ []))

pub after_sent-nil : (m : Outcome Received) → (m >>= λ r. ok (after_sent [] r)) ≡ m
after_sent-nil m = >>=-cong m same ∙ >>=-ok m
  where
    same : (r : Received) → ok (after_sent [] r) ≡ ok r
    same (waiting mode buf sent) = refl
    same (packet p buf rest sent) = refl

resume-stored :
    (more : Mode → Bytes → Outcome Received) (stream : Bytes) (mode : Mode) (m : Outcome Bytes)
    → ((m >>= λ b. ok (wait mode b [])) >>= resume more stream) ≡ (m >>= λ b. more mode b)
resume-stored more stream mode (ok b) = after_sent-nil (more mode b)
resume-stored more stream mode (fault e) = refl

module _ (link : Link) where
  -- Characters before a packet are passed over.
  abbrev pub Noise : Bytes → Type 0
  Noise [] = Unit {0}
  Noise (c ∷ s) = (c ≢ b'$') × (c ≢ 3) × Noise s

  pub start-Noise :
      (noise stream buf : Bytes)
      → Noise noise
      → get_packet link start buf (noise ++ stream) ≡ get_packet link start buf stream
  unfolding get_packet get_packet_step
  start-Noise [] stream buf h = refl
  start-Noise (c ∷ noise) stream buf (no_start, no_break, h) =
      let plain : (c == b'$') ≡ false = ne→== c b'$' no_start in
      let other : (c == 3) ≡ false = ne→== c 3 no_break in
      let quiet : (link.interrupts && c == 3) ≡ false =
        ap (λ b. link.interrupts && b) other ∙ and-false link.interrupts in
      rw (plain, quiet)
        (after_sent-nil (get_packet link start buf (noise ++ stream))
          ∙ start-Noise noise stream buf h)

  -- The text of a packet goes to the buffer.
  reading-Payload :
      (t stream buf : Bytes) (k count : ℕ)
      → Payload t
      → length buf ≡ bufsize
      → count + length t < bufsize - 1
      → get_packet link (reading k count) buf (t ++ stream) ≡ (
          write_bytes buf count t >>= λ buf'.
          get_packet link (reading (checksum k t) (count + length t)) buf' stream)
  unfolding get_packet get_packet_step take_char write_bytes store
  reading-Payload [] stream buf k count h size fits =
      ap (λ n. get_packet link (reading k n) buf stream) (omega arith)
  reading-Payload (c ∷ t) stream buf k count (no_start, no_end, pos, h) size fits =
      let plain : (c == b'$') ≡ false = ne→== c b'$' no_start in
      let inside : (c == b'#') ≡ false = ne→== c b'#' no_end in
      let here : ltb count (length buf) ≡ true = ground arith in
      let goes_on : ltb (count + 1) (bufsize - 1) ≡ true = ground arith in
      let behind : count + 1 + length t ≡ count + suc (length t) = omega arith in
      rw (plain, inside, here, goes_on)
        (after_sent-nil
            (get_packet link (reading ((k + c) % 256) (count + 1)) (set buf count c) (t ++ stream))
          ∙ reading-Payload t stream (set buf count c) ((k + c) % 256) (count + 1) h
              (length-set buf count c ∙ size) (omega arith)
          ∙ rw behind refl)

  -- A packet up to the `#` fills the front of the buffer.
  get_packet-text :
      (noise t stream buf : Bytes)
      → Noise noise
      → Payload t
      → length t < bufsize - 1
      → length buf ≡ bufsize
      → get_packet link start buf (noise ++ (b'$' ∷ t ++ (b'#' ∷ stream)))
        ≡ get_packet link (high (checksum 0 t)) (with_front buf t) stream
  unfolding get_packet get_packet_step
  get_packet-text noise t stream buf quiet h short size =
      start-Noise noise (b'$' ∷ t ++ (b'#' ∷ stream)) buf quiet
      ∙ after_sent-nil (get_packet link (reading 0 0) buf (t ++ (b'#' ∷ stream)))
      ∙ reading-Payload t (b'#' ∷ stream) buf 0 0 h size (omega arith)
      ∙ >>=-cong (write_bytes buf 0 t) ended
      ∙ sym (>>=-assoc (write_bytes buf 0 t) _ _)
      ∙ ap (λ m. m >>= λ b'. get_packet link (high (checksum 0 t)) b' stream)
          (sym (write_bytes-append buf 0 t (0 ∷ [])) ∙ write_bytes-front_text buf t (omega arith))
    where
      ended :
          (b : Bytes)
          → get_packet link (reading (checksum 0 t) (0 + length t)) b (b'#' ∷ stream) ≡ (
              write_bytes b (0 + length t) (0 ∷ []) >>= λ b'.
              get_packet link (high (checksum 0 t)) b' stream)
      ended b =
          resume-stored (λ mode' b'. get_packet link mode' b' stream) stream (high (checksum 0 t))
            (store b (0 + length t) 0)
          ∙ ap (λ m. m >>= λ b'. get_packet link (high (checksum 0 t)) b' stream)
              (sym (write_bytes-one b (0 + length t) 0))

  -- The answer to a packet: its buffer is accepted if the checksum is right.
  pub get_packet-digits :
      (noise t rest buf : Bytes) (h l : ℕ)
      → Noise noise
      → Payload t
      → length t < bufsize - 1
      → length buf ≡ bufsize
      → get_packet link start buf (noise ++ (b'$' ∷ t ++ (b'#' ∷ h ∷ l ∷ rest))) ≡ (
          (if checksum 0 t == hex_byte h l
            then accept link (with_front buf t)
            else ok (wait start (with_front buf t) (b'-' ∷ [])))
          >>= resume (λ mode' b'. get_packet link mode' b' rest) rest)
  unfolding get_packet get_packet_step hex_byte
  get_packet-digits noise t rest buf h l quiet payload short size =
      get_packet-text noise t (h ∷ l ∷ rest) buf quiet payload short size
      ∙ after_sent-nil (get_packet link (low (checksum 0 t) h) (with_front buf t) (l ∷ rest))
