-- ===== src/Gdb/Target/Format.antt =====
-- The format of the packets m and M: `<command><address>,<size>` in hexadecimal digits.
use libgdb.Prelude.{
  ℕ, ◌%◌, ◌^◌, ◌≤◌, ◌≡◌, refl, ◌||◌, ◌∷◌, ◌++◌, length, arith, ◌==◌, if◌then◌else◌,
}
use libgdb.Prelude.Outcome.{ok}
use libgdb.Util.Buffer.{Bytes}
use libgdb.Util.Hex.{minus_one, hexchar_to_int}
use libgdb.Util.Hex.Parse.{AllHexDigits, hex_value, hexstr_to_int_lem}
use libgdb.Gdb.Target.{parse_mem_format}

abbrev pub mem_packet : ℕ → Bytes → Bytes → Bytes → Bytes
mem_packet command addr size rest = command ∷ (addr ++ (b',' ∷ (size ++ rest)))

-- A command with an address and a size of at most 16 digits each, before a character that is no
-- digit: both numbers are read, modulo 2^64, and the packet is valid exactly if it ends there or,
-- for M, goes on with a colon.
pub parse_mem_format-mem_packet :
    (command stop : ℕ) (addr size rest : Bytes)
    → AllHexDigits addr
    → AllHexDigits size
    → length addr ≤ 16
    → length size ≤ 16
    → hexchar_to_int stop ≡ minus_one
    → parse_mem_format (mem_packet command addr size (stop ∷ rest))
      ≡ ok (record {
        valid = if command == b'M' then stop == 0 || stop == b':' else stop == 0;
        addr = hex_value addr 0 % 2 ^ 64;
        size = hex_value size 0 % 2 ^ 64;
      })
unfolding parse_mem_format
parse_mem_format-mem_packet command stop addr size rest ha hs la ls h =
    rw
      (
        hexstr_to_int_lem addr (size ++ (stop ∷ rest)) b',' 16 0 ha comma la (omega arith),
        hexstr_to_int_lem size rest stop 16 0 hs h ls (omega arith),
      )
      (ground arith)
  where
    comma : hexchar_to_int b',' ≡ minus_one
    comma = unfold hexchar_to_int in refl
