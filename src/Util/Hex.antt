-- ===== src/Util/Hex.antt =====
-- The hexadecimal conversions of src/util.c. An `int` is its 32-bit pattern, so -1 is 2^32 - 1, and
-- a conversion to `unsigned char` is `% 256`. A `seL4_Word` has 64 bits.
pub mod RoundTrip
pub mod Parse
use libgdb.Prelude.{
  ℕ, zero, suc, ◌+◌, ◌-◌, ◌*◌, ◌/◌, ◌%◌, ◌^◌, List, [], ◌∷◌, ltb, leb, ◌==◌, ◌||◌, ◌&&◌,
  if◌then◌else◌, true, false, length, Option, none, some, get_elem?,
}
use libgdb.Prelude.Outcome.{Outcome, ok, fault, out_of_bounds, ◌>>=◌, or_fault}
use libgdb.Prelude.Text.{codes}
use libgdb.Util.Buffer.{Bytes, store, next, peek}

abbrev pub minus_one : ℕ
minus_one = 2 ^ 32 - 1

abbrev pub hexchars : Bytes
hexchars = codes "0123456789abcdef"

unfoldable pub hexchar_to_int : ℕ → ℕ
hexchar_to_int c =
    if leb b'0' c && leb c b'9'
    then c - b'0'
    else if leb b'a' c && leb c b'f'
    then c - b'a' + 10
    else if leb b'A' c && leb c b'F'
    then c - b'A' + 10
    else minus_one

-- A pattern from 2^31 on is negative. The table is read in its bounds only.
unfoldable pub int_to_hexchar : ℕ → ℕ
int_to_hexchar i =
    if leb (2 ^ 31) i || ltb 15 i
    then 255
    else elim (get_elem? hexchars i) [ none ↦ 255 | some c ↦ c ]

-- The loop of `hexstr_to_int`, with the characters that may still be taken. `(*val << 4) | d` with
-- `d < 16` is a sum, since the low four bits are free. The results are `*val` and the pointer.
unfoldable pub hexstr_to_int : Bytes → ℕ → ℕ → Outcome (ℕ × Bytes)
hexstr_to_int [] max_bytes val = fault out_of_bounds
hexstr_to_int (c ∷ rest) zero val = ok (val, c ∷ rest)
hexstr_to_int (c ∷ rest) (suc max_bytes) val =
    let byte : ℕ = hexchar_to_int c % 256 in
    let more = hexstr_to_int rest max_bytes (val * 16 % 2 ^ 64 + byte % 16) in
    if c == 0 then ok (val, c ∷ rest) else if byte == 255 then ok (val, c ∷ rest) else more

-- `mem` is the object that is printed. The result is the buffer and the pointer behind the digits.
unfoldable pub mem2hex : Bytes → Bytes → ℕ → ℕ → Outcome (Bytes × ℕ)
mem2hex mem buf p zero = do buf₁ ← store buf p 0; ok (buf₁, p)
mem2hex [] buf p (suc size) = fault out_of_bounds
mem2hex (c ∷ mem) buf p (suc size) = do
  buf₁ ← store buf p (int_to_hexchar (c / 16))
  buf₂ ← store buf₁ (p + 1) (int_to_hexchar (c % 16))
  mem2hex mem buf₂ (p + 2) size

-- One byte from two digits; a character that is no digit counts as -1.
unfoldable pub hex_byte : ℕ → ℕ → ℕ
hex_byte h l = (hexchar_to_int h * 16 % 256 + hexchar_to_int l) % 256

-- The results are the bytes that go to `mem` and the pointer behind the text that was read.
unfoldable pub hex2mem : Bytes → ℕ → Outcome (Bytes × Bytes)
hex2mem buf zero = ok ([], buf)
hex2mem [] (suc size) = fault out_of_bounds
hex2mem (h ∷ []) (suc size) = fault out_of_bounds
hex2mem (h ∷ l ∷ buf) (suc size) = do (mem, rest) ← hex2mem buf size; ok (hex_byte h l ∷ mem, rest)
