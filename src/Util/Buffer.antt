-- ===== src/Util/Buffer.antt =====
-- The memory that the functions of src/util.c read and write. An object is the list of its bytes,
-- and a pointer into an object that is written is an index. A pointer that is only read is the
-- list of the bytes from it to the end of its object. An access outside the object is a fault.
pub mod Write
use libgdb.Prelude.{
  ℕ, zero, suc, ◌+◌, ◌*◌, ◌/◌, ◌%◌, ◌<◌, List, [], ◌∷◌, length, set, ltb, ◌==◌, if◌then◌else◌,
}
use libgdb.Prelude.Outcome.{Outcome, ok, fault, out_of_bounds, ◌>>=◌}

abbrev pub Bytes : Type 0
Bytes = List ℕ

-- `buf[p] = v`
unfoldable pub store : Bytes → ℕ → ℕ → Outcome Bytes
store buf p v = if ltb p (length buf) then ok (set buf p v) else fault out_of_bounds

-- `*ptr++` of a pointer that is read: the byte, and the pointer behind it.
abbrev pub next : Bytes → Outcome (ℕ × Bytes)
next [] = fault out_of_bounds
next (c ∷ rest) = ok (c, rest)

-- `*ptr`
abbrev pub peek : Bytes → Outcome ℕ
peek [] = fault out_of_bounds
peek (c ∷ rest) = ok c

-- Stores of all of a list, one after the other: what the copying loops come down to.
unfoldable pub write_bytes : Bytes → ℕ → Bytes → Outcome Bytes
write_bytes buf p [] = ok buf
write_bytes buf p (b ∷ bs) = do buf' ← store buf p b; write_bytes buf' (p + 1) bs

-- The C string at the front of an object: its bytes up to the first NUL.
unfoldable pub text : Bytes → Bytes
text [] = []
text (c ∷ rest) = if c == 0 then [] else c ∷ text rest

-- No byte of the list is NUL.
abbrev pub NonNul : Bytes → Type 0
NonNul [] = Unit {0}
NonNul (c ∷ s) = (0 < c) × NonNul s

abbrev pub AllBytes : Bytes → Type 0
AllBytes [] = Unit {0}
AllBytes (c ∷ s) = (c < 256) × AllBytes s

-- The bytes of an object of `n` bytes that holds the number `w`, lowest first: AArch64 is
-- little-endian. And the number that bytes stand for.
unfoldable pub object_bytes : ℕ → ℕ → Bytes
object_bytes zero w = []
object_bytes (suc n) w = (w % 256) ∷ object_bytes n (w / 256)

unfoldable pub object_value : Bytes → ℕ
object_value [] = 0
object_value (c ∷ rest) = c + 256 * object_value rest

-- A buffer with a pointer into it.
abbrev pub ended_at : Outcome Bytes → ℕ → Outcome (Bytes × ℕ)
ended_at m p = m >>= λ buf. ok (buf, p)
