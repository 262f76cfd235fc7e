-- ===== src/Util/Memset.antt =====
-- `memset` of src/util.c, as it is compiled by GCC.
pub mod Fill
pub mod Words
pub mod Reference
use libgdb.Prelude.{
  ℕ, zero, suc, ◌+◌, ◌-◌, ◌*◌, ◌/◌, ◌%◌, ◌^◌, List, [], ◌∷◌, leb, ◌==◌, if◌then◌else◌,
}
use libgdb.Prelude.Outcome.{Outcome, ok, ◌>>=◌}
use libgdb.Util.Buffer.{Bytes, write_bytes, object_bytes}

-- Stores of one object at several places, in this order.
unfoldable pub stores : Bytes → Bytes → List ℕ → Outcome Bytes
stores buf object [] = ok buf
stores buf object (p ∷ ps) = do buf' ← write_bytes buf p object; stores buf' object ps

-- The loop over 32 bytes, with `rounds` to go.
unfoldable pub fill_loop : Bytes → Bytes → ℕ → ℕ → Outcome Bytes
unfolding stores
fill_loop buf object s zero = ok buf
fill_loop buf object s (suc rounds) = do
  buf' ← stores buf object (s ∷ (s + 8) ∷ (s + 16) ∷ (s + 24) ∷ [])
  fill_loop buf' object (s + 32) rounds

-- The word stores, from a place `s` on that is aligned to 4 bytes, for `n` bytes, a multiple of 4 that
-- is not 0. The loop `for (; n >= 32; n -= 32, s += 32)` has `n / 32` rounds.
unfoldable pub fill_words : ℕ → Bytes → ℕ → ℕ → ℕ → Outcome Bytes
unfolding stores fill_loop
fill_words base buf s c n =
    let c32 : ℕ = (2 ^ 32 - 1) / 255 * c in
    let word : Bytes = object_bytes 4 c32 in
    let k : ℕ = 24 + (base + s) % 8 / 4 * 4 in
    let rest = λ (buf₃ : Bytes).
      fill_loop buf₃ (object_bytes 8 (c32 + 2 ^ 32 * c32)) (s + k) ((n - k) / 32) in
    let third = λ (buf₂ : Bytes).
      (stores buf₂ word (
          (s + 12)
          ∷ (s + 16)
          ∷ (s + 20)
          ∷ (s + 24)
          ∷ (s + n - 28)
          ∷ (s + n - 24)
          ∷ (s + n - 20)
          ∷ (s + n - 16)
          ∷ [])
        >>= rest) in
    let second = λ (buf₁ : Bytes).
      (stores buf₁ word ((s + 4) ∷ (s + 8) ∷ (s + n - 12) ∷ (s + n - 8) ∷ []) >>= λ buf₂.
      if leb n 24 then ok buf₂ else third buf₂) in
    stores buf word (s ∷ (s + n - 4) ∷ []) >>= λ buf₁. if leb n 8 then ok buf₁ else second buf₁

-- `base` is the address of the object in which `dest` points to place `p`.
unfoldable pub memset : ℕ → Bytes → ℕ → ℕ → ℕ → Outcome Bytes
unfolding stores fill_words
memset base buf p c n =
    let byte : Bytes = c % 256 ∷ [] in
    let k : ℕ = (4 - (base + p) % 4) % 4 in
    let words = λ (buf₃ : Bytes). fill_words base buf₃ (p + k) (c % 256) ((n - k) / 4 * 4) in
    let third = λ (buf₂ : Bytes). stores buf₂ byte ((p + n - 4) ∷ (p + 3) ∷ []) >>= λ buf₃.
    if leb n 8 then ok buf₃ else words buf₃ in
    let second = λ (buf₁ : Bytes).
      stores buf₁ byte ((p + n - 2) ∷ (p + 1) ∷ (p + n - 3) ∷ (p + 2) ∷ []) >>= λ buf₂.
      if leb n 6 then ok buf₂ else third buf₂ in
    let first =
      stores buf byte ((p + n - 1) ∷ p ∷ []) >>= λ buf₁. if leb n 2 then ok buf₁ else second buf₁ in
    if n == 0 then ok buf else first
