-- ===== src/Net/Output.antt =====
-- `put_packet` of examples/microkit_sddf_net/apps/debugger/debugger.c. It puts a packet together in
-- `tcp_output_buf`, whose bytes up to the first NUL go to `tcp_send`.
pub mod Round
pub mod Resend
pub mod Overflow
pub mod Sends
use libgdb.Prelude.{
  ℕ, ◌+◌, ◌/◌, ◌%◌, Bool, true, false, take, drop, [], ◌∷◌, ◌++◌, ◌==◌, if◌then◌else◌,
}
use libgdb.Prelude.Outcome.{Outcome, ok, fault, out_of_bounds, ◌>>=◌}
use libgdb.Util.Buffer.{Bytes, store, write_bytes}
use libgdb.Util.Str.{strnlen}
use libgdb.Util.Hex.{int_to_hexchar}
use libgdb.Gdb.State.{bufsize}
use libgdb.Framing.{Sent, unanswered, acknowledged, resent}

-- `tcp_output_buf`, which is a global, and the variables of `put_packet`: the place of `tcp_output_tmp`
-- in it, and the place of `output` in the text.
pub record Assembly : Type 0 where
  pub tcp_output_buf : Bytes
  pub tcp_output_tmp : ℕ
  pub taken : ℕ

-- The loop over the text, and the checksum at its end.
unfoldable pub copy_text : ℕ → Bytes → ℕ → ℕ → Bytes → Outcome (ℕ × Assembly)
copy_text cksum buf p taken [] = fault out_of_bounds
copy_text cksum buf p taken (c ∷ output) =
    let more =
      store buf p c >>= λ buf'. copy_text ((cksum + c) % 256) buf' (p + 1) (taken + 1) output in
    if c == 0
    then ok (cksum, record { tcp_output_buf = buf; tcp_output_tmp = p; taken = taken })
    else more

-- A round up to the wait for the reply: what goes to `tcp_send`, and where the next round goes on.
-- The first argument is the array `output`.
unfoldable pub send_packet : Bytes → Assembly → Outcome (Bytes × Assembly)
send_packet output a = store a.tcp_output_buf a.tcp_output_tmp b'$' >>= λ buf₁.
    copy_text 0 buf₁ (a.tcp_output_tmp + 1) a.taken (drop a.taken output) >>= λ (cksum, b).
    write_bytes b.tcp_output_buf b.tcp_output_tmp
      (b'#' ∷ int_to_hexchar (cksum / 16) ∷ int_to_hexchar (cksum % 16) ∷ 0 ∷ [])
    >>= λ buf₂. strnlen buf₂ bufsize >>= λ len.
        ok
          (take len buf₂, record b { tcp_output_buf = buf₂; tcp_output_tmp = b.tcp_output_tmp + 4 })

unfoldable pub put_packet_from : Assembly → Bytes → Bytes → Outcome (Assembly × Sent)
put_packet_from a output [] = send_packet output a >>= λ (out, b). ok (b, unanswered out)
put_packet_from a output (c ∷ stream) = send_packet output a >>= λ (out, b).
    let again = put_packet_from b output stream >>= λ (b', s). ok (b', resent out s) in
    if c == b'+' then ok (b, acknowledged stream out) else again

-- The array `output` and the replies. The variables of an earlier call are forgotten.
unfoldable pub put_packet : Assembly → Bytes → Bytes → Outcome (Assembly × Sent)
unfolding put_packet_from
put_packet a output = put_packet_from (record a { tcp_output_tmp = 0; taken = 0 }) output

-- `put_packet` from its wait for the reply on.
abbrev pub await_reply : Assembly → Bytes → Bytes → Outcome (Assembly × Sent)
await_reply a output [] = ok (a, unanswered [])
await_reply a output (c ∷ stream) =
    let again = put_packet_from a output stream in
    if c == b'+' then ok (a, acknowledged stream []) else again
