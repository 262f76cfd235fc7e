-- ===== src/Gdb/Target/ReadMem.antt =====
-- The packet m from its text to the answer.
use libgdb.Prelude.{ℕ, ◌-◌, ◌*◌, ◌%◌, ◌^◌, ◌≤◌, ◌<◌, ◌≡◌, refl, false, ◌∷◌, length, arith, ltb}
use libgdb.Prelude.Outcome.{ok}
use libgdb.Util.Buffer.{Bytes}
use libgdb.Util.Buffer.Write.{write_bytes-front_text}
use libgdb.Util.Hex.RoundTrip.{hex_digits, length-hex_digits}
use libgdb.Util.Hex.{hexchar_to_int}
use libgdb.Util.Hex.Parse.{AllHexDigits, hex_value}
use libgdb.Arch.Kernel.{Kernel}
use libgdb.Arch.Memory.Read.{target_bytes, Readable, inf_mem2hex-write_bytes, length-target_bytes}
use libgdb.Gdb.State.{bufsize, Thread, Inferior, State}
use libgdb.Gdb.ThreadId.{inferior_of}
use libgdb.Gdb.Registry.Report.{with_text}
use libgdb.Gdb.Target.{target_of, read_target, handle_read_mem}
use libgdb.Gdb.Target.Format.{mem_packet, parse_mem_format-mem_packet}

module _ {W : Type 0} (k : Kernel W) where
  read_target-target_bytes :
      (s : State W) (mem n : ℕ) {thread : Thread} {inferior : Inferior}
      → target_of s ≡ ok thread
      → inferior_of s.inferiors thread ≡ ok inferior
      → length s.output ≡ bufsize
      → n ≤ 1023
      → mem < 2 ^ 64
      → Readable k s.world inferior.vspace mem 0 n
      → read_target k s mem n
        ≡ ok (with_text s (hex_digits (target_bytes k s.world inferior.vspace mem 0 n)))
  unfolding read_target
  read_target-target_bytes s mem n {inferior} t i room small m r = rw (
    t,
    i,
    inf_mem2hex-write_bytes k s.world inferior.vspace mem 0 n s.output (omega arith) m r,
    write_bytes-front_text s.output (hex_digits memory) (
        omega
          (arith, length-hex_digits memory, length-target_bytes k s.world inferior.vspace mem 0 n)),
  )
    where
      memory : Bytes
      memory = target_bytes k s.world inferior.vspace mem 0 n

  -- A packet m whose address and size have at most 16 digits each, for at most 1023 bytes of the
  -- target's memory that the kernel can read, with a target thread and a buffer of BUFSIZE bytes:
  -- the answer is the digits of these bytes, and nothing else of the state changes.
  pub handle_read_mem-target_bytes :
      (s : State W) (addr size rest : Bytes) {thread : Thread} {inferior : Inferior}
      → target_of s ≡ ok thread
      → inferior_of s.inferiors thread ≡ ok inferior
      → length s.output ≡ bufsize
      → AllHexDigits addr
      → AllHexDigits size
      → length addr ≤ 16
      → length size ≤ 16
      → hex_value size 0 ≤ 1023
      → Readable k s.world inferior.vspace (hex_value addr 0 % 2 ^ 64) 0 (hex_value size 0)
      → handle_read_mem k s (mem_packet b'm' addr size (0 ∷ rest))
        ≡ ok (
            with_text s (
              hex_digits (
                target_bytes k s.world inferior.vspace
                  (hex_value addr 0 % 2 ^ 64)
                  0
                  (hex_value size 0))))
  unfolding handle_read_mem
  handle_read_mem-target_bytes s addr size rest {thread} {inferior} t i room ha hs la ls small r =
      rw
        (
          parse_mem_format-mem_packet b'm' 0 addr size rest ha hs la ls
              (unfold hexchar_to_int in refl),
          whole,
          fits,
        )
        (read_target-target_bytes s (hex_value addr 0 % 2 ^ 64) (hex_value size 0) t i room small
          (omega arith) r)
    where
      whole : hex_value size 0 % 2 ^ 64 ≡ hex_value size 0
      whole = omega arith

      fits : ltb (bufsize - 1) (hex_value size 0 * 2 % 2 ^ 64) ≡ false
      fits = ground arith
