-- ===== src/Util/Hex/Parse.antt =====
-- What `hexstr_to_int` reads: the longest run of digits that it may take.
use libgdb.Prelude.{
  ℕ, zero, suc, ◌+◌, ◌*◌, ◌%◌, ◌^◌, ◌≤◌, ◌<◌, ◌≡◌, refl, ap, [], ◌∷◌, ◌++◌, length, arith, ◌⊎◌,
}
use libgdb.Prelude.Outcome.{ok}
use libgdb.Util.Buffer.{Bytes}
use libgdb.Util.Hex.{minus_one, hexchar_to_int, hexstr_to_int}

-- A character that is a digit, and the number that a run of digits stands for after `val`.
abbrev pub IsHexDigit : ℕ → Type 0
IsHexDigit c = hexchar_to_int c < 16

abbrev pub AllHexDigits : Bytes → Type 0
AllHexDigits [] = Unit {0}
AllHexDigits (c ∷ s) = IsHexDigit c × AllHexDigits s

abbrev pub hex_value : Bytes → ℕ → ℕ
hex_value [] val = val
hex_value (c ∷ s) val = hex_value s (val * 16 + hexchar_to_int c)

pub hexchar_to_int_cases : (c : ℕ) → (hexchar_to_int c < 16) ⊎ (hexchar_to_int c ≡ minus_one)
unfolding hexchar_to_int
hexchar_to_int_cases c = ground arith

zero_no_digit : hexchar_to_int 0 ≡ minus_one
unfolding hexchar_to_int
zero_no_digit = refl

hex_value-mod :
    (s : Bytes) (a b : ℕ)
    → a % 2 ^ 64 ≡ b % 2 ^ 64
    → hex_value s a % 2 ^ 64 ≡ hex_value s b % 2 ^ 64
hex_value-mod [] a b h = h
hex_value-mod (c ∷ s) a b h =
    hex_value-mod s (a * 16 + hexchar_to_int c) (b * 16 + hexchar_to_int c) (omega arith)

-- A run of at most `max_bytes` digits before a character that is none is read whole, after a value
-- below 2^64: the new value is that of all digits modulo 2^64, and the pointer stands on that
-- character.
pub hexstr_to_int_lem :
    (s rest : Bytes) (stop max_bytes val : ℕ)
    → AllHexDigits s
    → hexchar_to_int stop ≡ minus_one
    → length s ≤ max_bytes
    → val < 2 ^ 64
    → hexstr_to_int (s ++ (stop ∷ rest)) max_bytes val ≡ ok (hex_value s val % 2 ^ 64, stop ∷ rest)
unfolding hexstr_to_int
hexstr_to_int_lem [] rest stop zero val h e l v = ap (λ v. ok (v, stop ∷ rest)) (omega arith)
hexstr_to_int_lem [] rest stop (suc m) val h e l v = ground arith
hexstr_to_int_lem (c ∷ s) rest stop zero val h e l v = absurd (omega arith)
hexstr_to_int_lem (c ∷ s) rest stop (suc m) val h e l v = ground (
  arith,
  zero_no_digit,
  hexstr_to_int_lem s rest stop m (val * 16 % 2 ^ 64 + hexchar_to_int c),
  hex_value-mod s (val * 16 % 2 ^ 64 + hexchar_to_int c) (val * 16 + hexchar_to_int c)
      (omega arith),
)
