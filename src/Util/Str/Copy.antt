-- ===== src/Util/Str/Copy.antt =====
-- What `strlcpy` writes and `strnlen` measures.
use libgdb.Prelude.{
  ℕ, zero, suc, ◌+◌, ◌≤◌, ◌<◌, ◌≡◌, refl, ap, sym, ◌∙◌, Bool, true, false, ◌&&◌, not, [], ◌∷◌, ◌++◌,
  length, arith, ltb, ◌==◌,
}
use libgdb.Prelude.Outcome.{ok, ◌>>=◌, >>=-assoc, >>=-cong}
use libgdb.Util.Buffer.{Bytes, store, write_bytes, NonNul}
use libgdb.Util.Str.{strlcpy_from, strlcpy, strnlen}

and-false : (b : Bool) → (b && false) ≡ false
and-false true = refl
and-false false = refl

-- The loop goes on while the string has characters and the size leaves room for a NUL.
strlcpy_from-fits :
    (buf : Bytes) (p len : ℕ) (s rest : Bytes) (size : ℕ)
    → NonNul s
    → len + length s < size
    → strlcpy_from buf p len (s ++ (0 ∷ rest)) size
      ≡ (write_bytes buf (p + len) (s ++ (0 ∷ [])) >>= λ buf'. ok (buf', len + length s))
unfolding strlcpy_from write_bytes
strlcpy_from-fits buf p len [] rest size h fits =
    rw (and-false (ltb (len + 1) size), strlcpy_from)
      (>>=-cong (store buf (p + len) 0) (λ b. ap (λ n. ok (b, n)) (omega arith))
        ∙ sym (>>=-assoc (store buf (p + len) 0) _ _))
strlcpy_from-fits buf p len (c ∷ s) rest size (hc, hs) fits =
    let continues : (ltb (len + 1) size && not (c == 0)) ≡ true = ground arith in
    let behind : len + 1 + length s ≡ len + suc (length s) = omega arith in
    let next_place : p + (len + 1) ≡ p + len + 1 = omega arith in
    let loop = λ (buf₁ : Bytes). strlcpy_from-fits buf₁ p (len + 1) s rest size hs (omega arith) in
    rw (continues, strlcpy_from) (simp (loop, >>=-assoc, behind, next_place))

-- `strlcpy` of a string shorter than `size` stores it with its NUL, and returns its length.
pub strlcpy-fits :
    (buf : Bytes) (p : ℕ) (s rest : Bytes) (size : ℕ)
    → NonNul s
    → length s < size
    → strlcpy buf p (s ++ (0 ∷ rest)) size
      ≡ (write_bytes buf p (s ++ (0 ∷ [])) >>= λ buf'. ok (buf', length s))
unfolding strlcpy
strlcpy-fits buf p s rest size h fits =
    strlcpy_from-fits buf p 0 s rest size h (omega arith)
    ∙ ap (λ q. write_bytes buf q (s ++ (0 ∷ [])) >>= λ buf'. ok (buf', 0 + length s)) (omega arith)
    ∙ >>=-cong (write_bytes buf p (s ++ (0 ∷ []))) (λ b. ap (λ n. ok (b, n)) (omega arith))

-- `strnlen` is the length of the string, at most `maxlen`.
pub strnlen_lem :
    (s rest : Bytes) (maxlen : ℕ)
    → NonNul s
    → length s ≤ maxlen
    → strnlen (s ++ (0 ∷ rest)) maxlen ≡ ok (length s)
unfolding strnlen
strnlen_lem [] rest zero h m = refl
strnlen_lem [] rest (suc maxlen) h m = refl
strnlen_lem (c ∷ s) rest zero h m = absurd (omega arith)
strnlen_lem (c ∷ s) rest (suc maxlen) h m = ground (arith, strnlen_lem s rest maxlen h.1)
