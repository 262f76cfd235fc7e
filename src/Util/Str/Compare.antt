-- ===== src/Util/Str/Compare.antt =====
-- What `strncmp` decides: whether the first `n` characters of a text are those of a literal.
use libgdb.Prelude.{
  ℕ, ◌≡◌, refl, Bool, true, false, ◌&&◌, [], ◌∷◌, ◌++◌, length, arith, ◌==◌, Bool-cases, inl, inr,
}
use libgdb.Prelude.Outcome.{Outcome, ok}
use libgdb.Util.Buffer.{Bytes, NonNul, AllBytes}
use libgdb.Util.Str.{difference, strncmp}

-- The text `s` begins with `t`.
abbrev pub begins : Bytes → Bytes → Bool
begins s [] = true
begins [] (b ∷ t) = false
begins (a ∷ s) (b ∷ t) = (a == b) && begins s t

-- The outcome is a number, which is 0 exactly if the test holds.
abbrev pub IsZeroIff : Bool → Outcome ℕ → Type 0
IsZeroIff b r = (d : ℕ) × (r ≡ ok d) × ((d == 0) ≡ b)

-- `strncmp` of a C string and the whole of a literal of `n` characters returns, without reading
-- past the NUL of the string, and it returns 0 exactly if the string begins with the literal.
pub strncmp-begins :
    (s rest t tail : Bytes)
    → AllBytes s
    → AllBytes t
    → NonNul t
    → IsZeroIff (begins s t) (strncmp (s ++ (0 ∷ rest)) (t ++ tail) (length t))
unfolding strncmp
strncmp-begins s rest [] tail hs ht hn = (0, refl, refl)
strncmp-begins [] rest (b ∷ t) tail hs ht hn = (difference 0 b, ground arith, ground arith)
strncmp-begins (a ∷ s) rest (b ∷ t) tail hs ht hn = elim (Bool-cases (a == b)) [
  | inl e ↦
      let (d, r, z) = strncmp-begins s rest t tail hs.1 ht.1 hn.1 in (d, ground arith, ground arith)
  | inr e ↦ (difference a b, ground arith, ground arith)
]
