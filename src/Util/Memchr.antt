-- ===== src/Util/Memchr.antt =====
-- `memchr` of src/util.c: bytes up to an aligned address, then words, then bytes again. A word is
-- tested for a zero byte by its difference with 0x0101...01.
use Prim.Native.Nat.{bit_and, bit_xor}
use libgdb.Prelude.{
  ℕ, zero, suc, ◌+◌, ◌-◌, ◌*◌, ◌/◌, ◌%◌, ◌^◌, Bool, true, false, not, ◌&&◌, [], ◌∷◌, take, drop,
  length, Option, none, some, ltb, ◌==◌, if◌then◌else◌,
}
use libgdb.Prelude.Outcome.{Outcome, ok, fault, out_of_bounds, ◌>>=◌}
use libgdb.Util.Buffer.{Bytes, peek, object_value}

abbrev pub word_max : ℕ
word_max = 2 ^ 64 - 1

abbrev pub ones : ℕ
ones = word_max / 255

abbrev pub highs : ℕ
highs = ones * (255 / 2 + 1)

-- HASZERO
unfoldable pub haszero : ℕ → Bool
haszero x = not (bit_and (bit_and ((x + 2 ^ 64 - ones) % 2 ^ 64) (word_max - x)) highs == 0)

-- `for (; go(s) && n && *s != c; s++, n--)`: with `aligned` the loop stops at a multiple of 8. The
-- results are `s`, its address and `n`.
unfoldable pub byte_loop : Bool → Bytes → ℕ → ℕ → ℕ → Outcome (Bytes × ℕ × ℕ)
byte_loop aligned s addr c zero = ok (s, addr, 0)
byte_loop aligned [] addr c (suc n) =
    if aligned && (addr % 8 == 0) then ok ([], addr, suc n) else fault out_of_bounds
byte_loop aligned (b ∷ s) addr c (suc n) =
    let rest = byte_loop aligned s (addr + 1) c n in
    if aligned && (addr % 8 == 0)
    then ok (b ∷ s, addr, suc n)
    else if b == c
    then ok (b ∷ s, addr, suc n)
    else rest

-- `for (; n >= SS && !HASZERO(*w ^ k); w++, n -= SS)`, on fuel `f`, at most `n` rounds.
unfoldable pub word_loop : ℕ → Bytes → ℕ → ℕ → Outcome (Bytes × ℕ)
word_loop zero s k n = ok (s, n)
word_loop (suc f) s k n =
    let rest = word_loop f (drop 8 s) k (n - 8) in
    if ltb n 8
    then ok (s, n)
    else if ltb (length s) 8
    then fault out_of_bounds
    else if haszero (bit_xor (object_value (take 8 s)) k)
    then ok (s, n)
    else rest

-- The pointer to the first `c` in the first `n` bytes, `none` for NULL.
unfoldable pub memchr : Bytes → ℕ → ℕ → ℕ → Outcome (Option Bytes)
unfolding byte_loop word_loop haszero
memchr src addr c' n =
    let c : ℕ = c' % 256 in
    byte_loop true src addr c n >>= λ (s, a, m).
    let words = word_loop m s (ones * c) m >>= λ (s', m').
    byte_loop false s' 0 c m' >>= λ (s'', b, m''). ok (if m'' == 0 then none else some s'') in
    if m == 0 then ok none else (peek s >>= λ b. if b == c then ok (some s) else words)
