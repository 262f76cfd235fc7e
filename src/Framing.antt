-- ===== src/Framing.antt =====
-- Packets on the wire, `$<text>#<checksum>`: `get_packet` and `put_packet` of the debuggers in
-- examples/. They are coroutines that wait in `gdb_get_char`; the model resumes them by one character
-- at a time, and collects what they send. The lines are those of
-- examples/microkit_sddf_serial/apps/debugger/debugger.c; the other two debuggers differ by `Link`.
pub mod Receive
pub mod Packets
pub mod Bounds
pub mod Frame
pub mod Chunks
use libgdb.Prelude.{
  ℕ, zero, suc, ◌+◌, ◌-◌, ◌*◌, ◌/◌, ◌%◌, Bool, true, false, ◌&&◌, List, [], ◌∷◌, ◌++◌, ltb, ◌==◌,
  if◌then◌else◌, get_elem?,
}
use libgdb.Prelude.Outcome.{Outcome, ok, fault, out_of_bounds, ◌>>=◌, or_fault}
use libgdb.Util.Buffer.{Bytes, store}
use libgdb.Util.Hex.{hexchar_to_int, int_to_hexchar}
use libgdb.Gdb.State.{bufsize}

-- Whether the character 3 interrupts, and the place in the buffer from which a sequence id is echoed.
pub record Link : Type 0 where
  pub interrupts : Bool
  pub echo_from : ℕ

-- The calls of `gdb_get_char` at which `get_packet` waits: before the start of a packet, in its text
-- with the checksum and the count so far, and before each digit of the expected checksum.
pub data Mode : Type 0 where
  start : Mode
  reading : ℕ → ℕ → Mode
  high : ℕ → Mode
  low : ℕ → ℕ → Mode

-- What `get_packet` does with a character: it waits for the next, or it returns the pointer to a
-- place of its buffer. `Bytes` are the buffer and what is sent.
pub data Step : Type 0 where
  wait : Mode → Bytes → Bytes → Step
  return : ℕ → Bytes → Bytes → Step

-- The checksum was right.
unfoldable pub accept : Link → Bytes → Outcome Step
accept link buf = or_fault (get_elem? buf 2) out_of_bounds >>= λ third.
    let echo = or_fault (get_elem? buf link.echo_from) out_of_bounds >>= λ a.
    or_fault (get_elem? buf (link.echo_from + 1)) out_of_bounds >>= λ b.
    ok (return 3 buf (b'+' ∷ a ∷ b ∷ [])) in
    if third == b':' then echo else ok (return 0 buf (b'+' ∷ []))

-- The character `c` goes into the text. A buffer that is full ends the packet without a reply.
unfoldable pub take_char : ℕ → ℕ → Bytes → ℕ → Outcome Step
take_char cksum count buf c = store buf count c >>= λ buf₁.
    let end = store buf₁ (count + 1) 0 >>= λ buf₂. ok (wait start buf₂ []) in
    if ltb (count + 1) (bufsize - 1)
    then ok (wait (reading ((cksum + c) % 256) (count + 1)) buf₁ [])
    else end

unfoldable pub get_packet_step : Link → Mode → Bytes → ℕ → Outcome Step
unfolding accept take_char
get_packet_step link start buf c =
    let interrupt = store buf 0 c >>= λ buf₁. store buf₁ 1 0 >>= λ buf₂. ok (return 0 buf₂ []) in
    if c == b'$'
    then ok (wait (reading 0 0) buf [])
    else if link.interrupts && c == 3
    then interrupt
    else ok (wait start buf [])
get_packet_step link (reading cksum count) buf c =
    if c == b'$'
    then ok (wait (reading 0 0) buf [])
    else if c == b'#'
    then (store buf count 0 >>= λ buf₁. ok (wait (high cksum) buf₁ []))
    else take_char cksum count buf c
get_packet_step link (high cksum) buf c = ok (wait (low cksum c) buf [])
get_packet_step link (low cksum h) buf c =
    let xcksum : ℕ = (hexchar_to_int h * 16 % 256 + hexchar_to_int c) % 256 in
    if cksum == xcksum then accept link buf else ok (wait start buf (b'-' ∷ []))

-- What comes of a stream of characters: the stream ended while `get_packet` waits, or it returned and
-- left the rest of the stream. The last field is what was sent in the meantime.
pub data Received : Type 0 where
  waiting : Mode → Bytes → Bytes → Received
  packet : ℕ → Bytes → Bytes → Bytes → Received

abbrev pub after_sent : Bytes → Received → Received
after_sent out (waiting mode buf sent) = waiting mode buf (out ++ sent)
after_sent out (packet p buf rest sent) = packet p buf rest (out ++ sent)

-- After a step: the stream goes on, by `more`, or is left.
abbrev pub resume : (Mode → Bytes → Outcome Received) → Bytes → Step → Outcome Received
resume more stream (wait mode buf out) = more mode buf >>= λ r. ok (after_sent out r)
resume more stream (return p buf out) = ok (packet p buf stream out)

unfoldable pub get_packet : Link → Mode → Bytes → Bytes → Outcome Received
get_packet link mode buf [] = ok (waiting mode buf [])
get_packet link mode buf (c ∷ stream) =
    get_packet_step link mode buf c
    >>= resume (λ mode' buf'. get_packet link mode' buf' stream) stream

-- The loop of `put_packet` over its text: what it sends, and the checksum at its end.
unfoldable pub send_text : ℕ → Bytes → Outcome (Bytes × ℕ)
send_text cksum [] = fault out_of_bounds
send_text cksum (c ∷ buf) =
    let more = send_text ((cksum + c) % 256) buf >>= λ (sent, end). ok (c ∷ sent, end) in
    if c == 0 then ok ([], cksum) else more

-- One round of `put_packet`, up to the wait for the reply.
unfoldable pub send_packet : Bytes → Outcome Bytes
unfolding send_text
send_packet buf = send_text 0 buf >>= λ (sent, cksum).
    ok (b'$' ∷ sent ++ (b'#' ∷ int_to_hexchar (cksum / 16) ∷ int_to_hexchar (cksum % 16) ∷ []))

-- What comes of a stream of replies: the packet is acknowledged, and the rest of the stream is left,
-- or the stream ended. The last field is what was sent.
pub data Sent : Type 0 where
  unanswered : Bytes → Sent
  acknowledged : Bytes → Bytes → Sent

abbrev pub resent : Bytes → Sent → Sent
resent out (unanswered sent) = unanswered (out ++ sent)
resent out (acknowledged rest sent) = acknowledged rest (out ++ sent)

-- `put_packet` with the text at the front of `buf`: it sends the packet until a reply is `+`.
unfoldable pub put_packet : Bytes → Bytes → Outcome Sent
put_packet buf [] = send_packet buf >>= λ out. ok (unanswered out)
put_packet buf (c ∷ stream) =
    let again = put_packet buf stream in
    send_packet buf >>= λ out.
    if c == b'+' then ok (acknowledged stream out) else (again >>= λ s. ok (resent out s))

-- `put_packet` from its wait for the reply on.
abbrev pub await_reply : Bytes → Bytes → Outcome Sent
await_reply buf [] = ok (unanswered [])
await_reply buf (c ∷ stream) =
    let again = put_packet buf stream in if c == b'+' then ok (acknowledged stream []) else again
