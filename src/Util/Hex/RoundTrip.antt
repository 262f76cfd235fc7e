-- ===== src/Util/Hex/RoundTrip.antt =====
-- What `mem2hex` writes, and that `hex2mem` reads it back.
use libgdb.Prelude.{
  ℕ, zero, suc, ◌+◌, ◌*◌, ◌/◌, ◌%◌, ◌<◌, ◌≡◌, refl, ap, ◌∙◌, Bool, true, ◌&&◌, [], ◌∷◌, ◌++◌,
  length, sym, arith, ltb, ◌==◌,
}
use libgdb.Prelude.Outcome.{ok, ◌>>=◌, >>=-assoc, >>=-cong}
use libgdb.Util.Buffer.{Bytes, store, write_bytes, NonNul, AllBytes}
use libgdb.Util.Hex.{hexchar_to_int, int_to_hexchar, mem2hex, hex_byte, hex2mem}

-- Whether a test holds for each of the first numbers, and what an evaluation of it shows.
passes : (ℕ → Bool) → ℕ → Bool
passes test zero = true
passes test (suc bound) = passes test bound && test bound

passed : (test : ℕ → Bool) (bound d : ℕ) → d < bound → passes test bound ≡ true → test d ≡ true
unfolding passes
passed test zero d within e = absurd (omega arith)
passed test (suc bound) d within e = ground (arith, passed test bound d)

-- The two digits of a byte, and the digits of a list of bytes.
abbrev pub hex_digits : Bytes → Bytes
hex_digits [] = []
hex_digits (c ∷ s) = int_to_hexchar (c / 16) ∷ int_to_hexchar (c % 16) ∷ hex_digits s

digit_table :
    passes (λ d. hexchar_to_int (int_to_hexchar d) == d && ltb 0 (int_to_hexchar d)) 16 ≡ true
unfolding passes hexchar_to_int int_to_hexchar
digit_table = refl

-- A hexadecimal digit stands for its number, and is not NUL.
pub hexchar_to_int-int_to_hexchar :
    (d : ℕ) → d < 16 → (hexchar_to_int (int_to_hexchar d) ≡ d) × (0 < int_to_hexchar d)
hexchar_to_int-int_to_hexchar d h = ground (
  arith,
  passed (λ (d : ℕ). hexchar_to_int (int_to_hexchar d) == d && ltb 0 (int_to_hexchar d)) 16 d h
      digit_table,
)

pub hex_byte-digits :
    (c : ℕ) → c < 256 → hex_byte (int_to_hexchar (c / 16)) (int_to_hexchar (c % 16)) ≡ c
unfolding hex_byte
hex_byte-digits c h = omega (
  arith,
  hexchar_to_int-int_to_hexchar (c / 16) (omega arith),
  hexchar_to_int-int_to_hexchar (c % 16) (omega arith),
)

pub hex_digits-NonNul : (s : Bytes) → AllBytes s → NonNul (hex_digits s)
hex_digits-NonNul [] h = tt
hex_digits-NonNul (c ∷ s) (hc, hs) = (
  (hexchar_to_int-int_to_hexchar (c / 16) (omega arith)).1,
  ((hexchar_to_int-int_to_hexchar (c % 16) (omega arith)).1, hex_digits-NonNul s hs),
)

pub length-hex_digits : (s : Bytes) → length (hex_digits s) ≡ 2 * length s
length-hex_digits [] = refl
length-hex_digits (c ∷ s) = omega (arith, length-hex_digits s)

-- `mem2hex` of all bytes of an object stores their digits and a NUL, one after the other, and
-- returns the place of the NUL.
pub mem2hex-write_bytes :
    (mem buf : Bytes) (p : ℕ)
    → mem2hex mem buf p (length mem)
      ≡ (write_bytes buf p (hex_digits mem ++ (0 ∷ [])) >>= λ buf'. ok (buf', p + 2 * length mem))
unfolding mem2hex write_bytes
mem2hex-write_bytes [] buf p =
    >>=-cong (store buf p 0) (λ b. ap (λ q. ok (b, q)) (omega arith))
    ∙ sym (>>=-assoc (store buf p 0) _ _)
mem2hex-write_bytes (c ∷ mem) buf p = simp (mem2hex-write_bytes mem, >>=-assoc, two, behind)
  where
    two : p + 1 + 1 ≡ p + 2
    two = omega arith

    behind : p + 2 + 2 * length mem ≡ p + 2 * suc (length mem)
    behind = omega arith

-- From the digits of bytes `hex2mem` reads these bytes, and it leaves the text behind them.
pub hex2mem-hex_digits :
    (mem rest : Bytes)
    → AllBytes mem
    → hex2mem (hex_digits mem ++ rest) (length mem) ≡ ok (mem, rest)
unfolding hex2mem
hex2mem-hex_digits [] rest h = refl
hex2mem-hex_digits (c ∷ mem) rest (hc, hs) =
    rw (hex2mem-hex_digits mem rest hs, hex_byte-digits c hc)
