-- ===== src/Util/Str.antt =====
-- The C string functions of src/util.c.
pub mod Copy
pub mod Compare
use libgdb.Prelude.{
  ℕ, zero, suc, ◌+◌, ◌-◌, ◌%◌, ◌^◌, List, [], ◌∷◌, ltb, ◌==◌, ◌||◌, ◌&&◌, not, if◌then◌else◌, true,
  false,
}
use libgdb.Prelude.Outcome.{Outcome, ok, fault, out_of_bounds, ◌>>=◌, ◌>>◌, guard}
use libgdb.Util.Buffer.{Bytes, store}

-- The loop of `strlcpy`: `dest` is `buf` from `p` on, and `src` is what follows `src[len]`. The
-- results are the buffer and the length.
unfoldable pub strlcpy_from : Bytes → ℕ → ℕ → Bytes → ℕ → Outcome (Bytes × ℕ)
strlcpy_from buf p len [] size =
    if ltb (len + 1) size
    then fault out_of_bounds
    else do buf₁ ← store buf (p + len) 0; ok (buf₁, len)
strlcpy_from buf p len (c ∷ src) size = elim (ltb (len + 1) size && not (c == 0)) [
  | true ↦ do buf₁ ← store buf (p + len) c; strlcpy_from buf₁ p (len + 1) src size
  | false ↦ do buf₁ ← store buf (p + len) 0; ok (buf₁, len)
]

unfoldable pub strlcpy : Bytes → ℕ → Bytes → ℕ → Outcome (Bytes × ℕ)
unfolding strlcpy_from
strlcpy buf p src size = strlcpy_from buf p 0 src size

-- The `int` difference of two bytes, as a 32-bit pattern.
abbrev pub difference : ℕ → ℕ → ℕ
difference a b = (a + 2 ^ 32 - b) % 2 ^ 32

unfoldable pub strncmp : Bytes → Bytes → ℕ → Outcome ℕ
strncmp s1 s2 zero = ok 0
strncmp [] s2 (suc n) = fault out_of_bounds
strncmp (a ∷ s1) [] (suc n) = fault out_of_bounds
strncmp (a ∷ s1) (b ∷ s2) (suc n) =
    let rest = strncmp s1 s2 n in
    if not (difference a b == 0) || a == 0 then ok (difference a b) else rest

unfoldable pub strnlen : Bytes → ℕ → Outcome ℕ
strnlen s zero = ok 0
strnlen [] (suc maxlen) = fault out_of_bounds
strnlen (c ∷ s) (suc maxlen) =
    let rest = strnlen s maxlen in if c == 0 then ok 0 else do n ← rest; ok (n + 1)
