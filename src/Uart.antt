-- ===== src/Uart.antt =====
-- The debugger of the integrated serial example,
-- examples/microkit_integrated_serial/apps/debugger/debugger.c: the two functions for packets,
-- without DEBUG_PRINTS. Its event loop is written for an earlier interface of gdb.h, and is not modelled.
pub mod Resend
use libgdb.Prelude.{ℕ, ◌+◌, ◌/◌, ◌%◌, Bool, true, false, [], ◌∷◌, ◌++◌, ◌==◌, if◌then◌else◌}
use libgdb.Prelude.Outcome.{Outcome, ok, fault, out_of_bounds, ◌>>=◌}
use libgdb.Util.Buffer.{Bytes}
use libgdb.Util.Hex.{int_to_hexchar}
use libgdb.Framing.{Link, Mode, Received, Sent, unanswered, acknowledged, resent}
use libgdb.Framing

-- The character 3 is passed over like any other, and `buf[0]` and `buf[1]` are echoed.
abbrev pub link : Link
link = record { interrupts = false; echo_from = 0 }

abbrev pub get_packet : Mode → Bytes → Bytes → Outcome Received
get_packet = Framing.get_packet link

-- The loop over the text: what it sends, the checksum, and `buf`, which points to the NUL at the end.
unfoldable pub send_text : ℕ → Bytes → Outcome (Bytes × ℕ × Bytes)
send_text cksum [] = fault out_of_bounds
send_text cksum (c ∷ buf) =
    let more = send_text ((cksum + c) % 256) buf >>= λ (sent, sum, end). ok (c ∷ sent, sum, end) in
    if c == 0 then ok ([], cksum, c ∷ buf) else more

-- A round up to the wait for the reply: what is sent, and `buf`.
unfoldable pub send_packet : Bytes → Outcome (Bytes × Bytes)
unfolding send_text
send_packet buf = send_text 0 buf >>= λ (sent, cksum, end).
    ok (b'$' ∷ sent ++ (b'#' ∷ int_to_hexchar (cksum / 16) ∷ int_to_hexchar (cksum % 16) ∷ []), end)

unfoldable pub put_packet : Bytes → Bytes → Outcome Sent
put_packet buf [] = send_packet buf >>= λ (out, end). ok (unanswered out)
put_packet buf (c ∷ stream) = send_packet buf >>= λ (out, end).
    let again = put_packet end stream >>= λ s. ok (resent out s) in
    if c == b'+' then ok (acknowledged stream out) else again
