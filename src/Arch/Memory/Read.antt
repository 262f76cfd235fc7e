-- ===== src/Arch/Memory/Read.antt =====
-- What `inf_mem2hex` prints: the bytes of the target's memory.
use libgdb.Prelude.{
  ne_of, ℕ, zero, suc, ◌+◌, ◌*◌, ◌/◌, ◌%◌, ◌^◌, ◌<◌, ◌≡◌, ◌≢◌, refl, ap, ◌∙◌, true, [], ◌∷◌, ◌++◌,
  length, arith, ◌==◌, ==_iff, Bool-cases, inl, inr, eq→==,
}
use libgdb.Prelude.Outcome.{ok, ◌>>=◌, >>=-assoc, >>=-cong}
use libgdb.Util.Buffer.{Bytes, store, write_bytes}
use libgdb.Util.Hex.{int_to_hexchar}
use libgdb.Util.Hex.RoundTrip.{hex_digits}
use libgdb.Arch.Kernel.{Kernel}
use libgdb.Arch.Memory.{int_count, word_byte, ended, inf_mem2hex_from, inf_mem2hex}

pub count : (n : ℕ) → n < 2 ^ 31 → int_count n ≡ n
count n h = ground arith

module _ {W : Type 0} (k : Kernel W) (w : W) (vspace : ℕ) where
  -- The memory of the target byte by byte, from the word at `mem` on: byte `j` is in the word at
  -- `mem + 8 * (j / 8)`.
  abbrev pub word_at : ℕ → ℕ → ℕ
  word_at mem j = (mem + 8 * (j / 8)) % 2 ^ 64

  abbrev pub target_byte : ℕ → ℕ → ℕ
  target_byte mem j = word_byte (k.read_word w vspace (word_at mem j)).value (j % 8)

  abbrev pub target_bytes : ℕ → ℕ → ℕ → Bytes
  target_bytes mem j zero = []
  target_bytes mem j (suc n) = target_byte mem j ∷ target_bytes mem (j + 1) n

  pub length-target_bytes : (mem j n : ℕ) → length (target_bytes mem j n) ≡ n
  length-target_bytes mem j zero = refl
  length-target_bytes mem j (suc n) = ap suc (length-target_bytes mem (j + 1) n)

  -- The words that hold these bytes can be read.
  abbrev pub Readable : ℕ → ℕ → ℕ → Type 0
  Readable mem j zero = Unit {0}
  Readable mem j (suc n) =
      ((k.read_word w vspace (word_at mem j)).error ≡ 0) × Readable mem (j + 1) n

  value_at : ℕ → ℕ → ℕ
  value_at mem j = (k.read_word w vspace (word_at mem j)).value

  -- Two digits of a word that is at hand, before the rest of the loop.
  two_digits :
      (mem cur p n j word : ℕ) (buf : Bytes)
      → word ≡ value_at mem j
      → ((b : Bytes)
          → inf_mem2hex_from k w vspace cur b (p + 2) n (j + 1) word ≡ (
              write_bytes b (p + 2) (hex_digits (target_bytes mem (j + 1) n) ++ (0 ∷ []))
              >>= λ buf'. ok (buf', ended (p + 2 + 2 * n))))
      → (store buf p (int_to_hexchar (word_byte word (j % 8) / 16)) >>= λ buf₁.
          store buf₁ (p + 1) (int_to_hexchar (word_byte word (j % 8) % 16)) >>= λ buf₂.
          inf_mem2hex_from k w vspace cur buf₂ (p + 2) n (j + 1) word)
        ≡ (write_bytes buf p (hex_digits (target_bytes mem j (suc n)) ++ (0 ∷ [])) >>= λ buf'.
            ok (buf', ended (p + 2 * suc n)))
  unfolding write_bytes value_at
  two_digits mem cur p n j word buf e ih =
      let two : p + 1 + 1 ≡ p + 2 = omega arith in
      let behind : p + 2 + 2 * n ≡ p + 2 * suc n = omega arith in
      simp (ih, >>=-assoc, two, behind) (rw e)

  -- Within a word the value stays the same.
  value_at_next : (mem j : ℕ) → (j + 1) % 8 ≢ 0 → value_at mem j ≡ value_at mem (j + 1)
  unfolding value_at
  value_at_next mem j h =
      ap (λ a. (k.read_word w vspace ((mem + 8 * a) % 2 ^ 64)).value) (omega arith)

  -- From byte `j` on: `cur` is the next word to read, and within a word the one that was read is at
  -- hand.
  inf_mem2hex_from-write_bytes :
      (mem cur p n j word : ℕ) (buf : Bytes)
      → Readable mem j n
      → cur ≡ (mem + 8 * ((j + 7) / 8)) % 2 ^ 64
      → (j % 8 ≢ 0 → word ≡ value_at mem j)
      → inf_mem2hex_from k w vspace cur buf p n j word ≡ (
          write_bytes buf p (hex_digits (target_bytes mem j n) ++ (0 ∷ [])) >>= λ buf'.
          ok (buf', ended (p + 2 * n)))
  unfolding inf_mem2hex_from
  inf_mem2hex_from-write_bytes mem cur p zero j word buf r c h =
      unfold write_bytes in
      simp >>=-assoc (>>=-cong (store buf p 0) (λ b. ap (λ q. ok (b, ended q)) (omega arith)))
  inf_mem2hex_from-write_bytes mem cur p (suc n) j word buf (r, rs) c h =
      elim (Bool-cases (j % 8 == 0)) [
        | inl e ↦
            let here : cur ≡ word_at mem j = omega (arith, (==_iff (j % 8) 0).0 e) in
            let value : (k.read_word w vspace cur).value ≡ value_at mem j =
              unfold value_at in rw here in
            let fine : ((k.read_word w vspace cur).error == 0) ≡ true = rw here (eq→== _ 0 r) in
            rw (e, fine)
              (two_digits mem ((cur + 8) % 2 ^ 64) p n j (k.read_word w vspace cur).value buf value
                (λ b.
                  inf_mem2hex_from-write_bytes mem ((cur + 8) % 2 ^ 64) (p + 2) n (j + 1)
                    (k.read_word w vspace cur).value b rs (omega (arith, (==_iff (j % 8) 0).0 e))
                    (λ ne. value ∙ value_at_next mem j ne)))
        | inr e ↦ rw e (
            two_digits mem cur p n j word buf (h (ne_of e)) (λ b.
              inf_mem2hex_from-write_bytes mem cur (p + 2) n (j + 1) word b rs
                (omega (arith, c, ne_of e)) (λ ne. h (ne_of e) ∙ value_at_next mem j ne)))
      ]

  -- Where the kernel can read the words of the target's memory, `inf_mem2hex` of fewer than 2^31
  -- bytes stores their digits and a NUL, and returns the place of the NUL.
  pub inf_mem2hex-write_bytes :
      (mem p n : ℕ) (buf : Bytes)
      → n < 2 ^ 31
      → mem < 2 ^ 64
      → Readable mem 0 n
      → inf_mem2hex k w vspace mem buf p n ≡ (
          write_bytes buf p (hex_digits (target_bytes mem 0 n) ++ (0 ∷ [])) >>= λ buf'.
          ok (buf', ended (p + 2 * n)))
  unfolding inf_mem2hex
  inf_mem2hex-write_bytes mem p n buf small m r =
      ap (λ c. inf_mem2hex_from k w vspace mem buf p c 0 0) (count n small)
      ∙ inf_mem2hex_from-write_bytes mem mem p n 0 0 buf r (omega arith) (λ ne. absurd (ne refl))
