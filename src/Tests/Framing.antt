-- ===== src/Tests/Framing.antt =====
-- Packets on the wire at concrete inputs.
use libgdb.Prelude.{ℕ, suc, ap, ◌≡◌, refl, [], ◌∷◌, ◌++◌, length-replicate, replicate, arith}
use libgdb.Prelude.Outcome.{ok, ◌>>=◌, Returns}
use libgdb.Util.Buffer.{Bytes}
use libgdb.Util.Hex.{int_to_hexchar}
use libgdb.Util.Buffer.Write.{with_front}
use libgdb.Framing.{start, reading, packet, get_packet, send_packet, put_packet, acknowledged}
use libgdb.Framing.Receive.{frame}
use libgdb.Framing.Packets.{get_packet-stale_sequence_id}
use libgdb.Framing.Bounds.{Terminated, IsSafeReceived, get_packet-IsSafe}
use libgdb.Framing.Frame.{put_packet-acknowledged, get_packet-send_packet}
use libgdb.Uart
use libgdb.Uart.Resend.{put_packet-resends_empty}
use libgdb.Serial.{link}
use libgdb.Tests.World.{zeros, zeros-length}

-- Text that GDB sends in the examples.
abbrev read_regs : Bytes
read_regs = b'g' ∷ []

-- The buffer after an earlier packet with a `:` at its place 2.
abbrev with_colon : Bytes
with_colon = b'1' ∷ b'2' ∷ b':' ∷ replicate 2045 0

frame_g : frame read_regs ≡ b'$' ∷ b'g' ∷ b'#' ∷ b'6' ∷ b'7' ∷ []
unfolding int_to_hexchar
frame_g = refl

zeros-Terminated : Terminated zeros
zeros-Terminated = record { size = zeros-length; end = refl }

get_packet-send_packet_example :
    (send_packet (read_regs ++ (0 ∷ [])) >>= λ sent.
    get_packet link start zeros ((b'+' ∷ []) ++ (sent ++ (b'+' ∷ []))))
    ≡ ok (packet 0 (with_front zeros read_regs) (b'+' ∷ []) (b'+' ∷ []))
get_packet-send_packet_example =
    get_packet-send_packet link (b'+' ∷ []) read_regs [] (b'+' ∷ []) zeros 0
      ((λ e. absurd (omega arith)), (λ e. absurd (omega arith)), tt)
      ((λ e. absurd (omega arith)), (λ e. absurd (omega arith)), omega arith, tt) (omega arith)
      zeros-length refl (λ e. absurd (omega arith))

get_packet-IsSafe_example :
    Returns
      (IsSafeReceived 4)
      (get_packet link (reading 0 2046) zeros (b'a' ∷ b'$' ∷ 3 ∷ b'#' ∷ []))
get_packet-IsSafe_example =
    get_packet-IsSafe link (reading 0 2046) zeros (b'a' ∷ b'$' ∷ 3 ∷ b'#' ∷ []) (omega arith)
      (omega arith) zeros-Terminated

get_packet-stale_sequence_id_example :
    get_packet link start with_colon ([] ++ (frame read_regs ++ []))
    ≡ ok (packet 3 (with_front with_colon read_regs) [] (b'+' ∷ b'g' ∷ 0 ∷ []))
get_packet-stale_sequence_id_example =
    get_packet-stale_sequence_id link [] read_regs [] with_colon b'g' 0 tt
      ((λ e. absurd (omega arith)), (λ e. absurd (omega arith)), omega arith, tt) (omega arith)
      (ap (λ n. suc (suc (suc n))) (length-replicate {A = ℕ} 2045 0)) refl refl refl

put_packet-acknowledged_example :
    put_packet ((b'O' ∷ b'K' ∷ []) ++ (0 ∷ 0 ∷ [])) ((b'-' ∷ []) ++ (b'+' ∷ b'$' ∷ []))
    ≡ ok (acknowledged (b'$' ∷ []) ((frame (b'O' ∷ b'K' ∷ []) ++ []) ++ frame (b'O' ∷ b'K' ∷ [])))
put_packet-acknowledged_example =
    put_packet-acknowledged (b'O' ∷ b'K' ∷ []) (0 ∷ []) (b'-' ∷ []) (b'$' ∷ [])
      (omega arith, (omega arith, tt)) ((λ e. absurd (omega arith)), tt)

put_packet-resends_empty_example :
    Uart.put_packet ((b'O' ∷ b'K' ∷ []) ++ (0 ∷ 0 ∷ [])) ((b'-' ∷ []) ++ (b'+' ∷ []))
    ≡ ok (acknowledged [] (frame (b'O' ∷ b'K' ∷ []) ++ (frame [] ++ [])))
put_packet-resends_empty_example =
    put_packet-resends_empty (b'O' ∷ b'K' ∷ []) (0 ∷ []) (b'-' ∷ []) []
      (omega arith, (omega arith, tt)) ((λ e. absurd (omega arith)), tt)
