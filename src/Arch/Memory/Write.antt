-- ===== src/Arch/Memory/Write.antt =====
-- Where `inf_hex2mem` writes: not where it has read.
use libgdb.Prelude.{
  ℕ, suc, ◌+◌, ◌/◌, ◌%◌, ◌^◌, ◌<◌, ◌≡◌, refl, ap, ◌∙◌, Bool, true, false, not, [], ◌∷◌, ◌++◌,
  length, arith, ◌==◌, ◌||◌, if◌then◌else◌, Bool-cases, inl, inr, ne→==,
}
use mathlib.Core.Path.{ap₂}
use libgdb.Arch.Memory.Read.{count}
use libgdb.Prelude.Outcome.{Outcome, ok}
use libgdb.Util.Buffer.{Bytes, AllBytes}
use libgdb.Util.Hex.{hex_byte, int_to_hexchar}
use libgdb.Util.Hex.RoundTrip.{hex_digits, hex_byte-digits}
use libgdb.Arch.Kernel.{Kernel}
use libgdb.Arch.Memory.{set_word_byte, inf_hex2mem_from, inf_hex2mem}

-- A word with the bytes of a list put over its bytes from `i` on.
abbrev pub patch_bytes : ℕ → ℕ → Bytes → ℕ
patch_bytes word i [] = word
patch_bytes word i (c ∷ cs) = patch_bytes (set_word_byte word i c) (i + 1) cs

or-true : (b : Bool) → (b || true) ≡ true
or-true true = refl
or-true false = refl

-- One round of the loop.
abbrev step_round :
    {W : Type 0} → Kernel W → W → ℕ → Bytes → ℕ → ℕ → ℕ → ℕ → ℕ → ℕ → Outcome (W × ℕ)
step_round k w vspace s mem n i h l word =
    let word' : ℕ = set_word_byte word (i % 8) (hex_byte h l) in
    let r = k.write_word w vspace ((mem + i / 8) % 2 ^ 64) word' in
    if not (i % 8 == 7 || n == 0)
    then inf_hex2mem_from k w vspace s ((mem + 1) % 2 ^ 64) n (i + 1) word'
    else if r.1 == 0
    then inf_hex2mem_from k r.0 vspace s ((mem + 9) % 2 ^ 64) n (i + 1) word'
    else ok (r.0, (mem + i) % 2 ^ 64)

module _ {W : Type 0} (k : Kernel W) (w : W) (vspace : ℕ) where
  round :
      (h l : ℕ) (s : Bytes) (mem n i word : ℕ)
      → (i % 8 == 0) ≡ false
      → inf_hex2mem_from k w vspace (h ∷ l ∷ s) mem (suc n) i word
        ≡ step_round k w vspace s mem n i h l word
  unfolding inf_hex2mem_from
  round h l s mem n i word e = rw e

  first_round :
      (h l : ℕ) (s : Bytes) (mem n word : ℕ)
      → (k.read_word w vspace mem).error ≡ 0
      → inf_hex2mem_from k w vspace (h ∷ l ∷ s) mem (suc n) 0 word
        ≡ step_round k w vspace s mem n 0 h l (k.read_word w vspace mem).value
  unfolding inf_hex2mem_from
  first_round h l s mem n word e = rw e

  -- A round within the first word that is not the last of the text stores nothing.
  inner_round :
      (c : ℕ) (s : Bytes) (mem i n word : ℕ)
      → c < 256
      → 0 < i
      → i < 7
      → inf_hex2mem_from k w vspace (hex_digits (c ∷ []) ++ s) mem (suc (suc n)) i word
        ≡ inf_hex2mem_from k w vspace s
            ((mem + 1) % 2 ^ 64)
            (suc n)
            (i + 1)
            (set_word_byte word i c)
  inner_round c s mem i n word hc pos fits =
      round _ _ s mem (suc n) i word not_first ∙ rw (hex_byte-digits c hc, place, not_last)
    where
      place : i % 8 ≡ i
      place = omega arith

      not_first : (i % 8 == 0) ≡ false
      not_first = ground arith

      not_last : (i == 7 || suc n == 0) ≡ false
      not_last = ground arith

  -- The word of one write, and what is returned of it.
  abbrev pub one_write : ℕ → ℕ → ℕ → W × ℕ
  one_write addr word i =
      let r = k.write_word w vspace addr word in
      (r.0, if r.1 == 0 then (addr + 10 + i) % 2 ^ 64 else (addr + i) % 2 ^ 64)

  -- The last round of a text that ends in the first word stores the word where the round stands.
  last_step :
      (c : ℕ) (s : Bytes) (mem i word : ℕ)
      → c < 256
      → i < 8
      → mem < 2 ^ 64
      → step_round k w vspace s mem 0 i (int_to_hexchar (c / 16)) (int_to_hexchar (c % 16)) word
        ≡ ok (one_write mem (set_word_byte word i c) i)
  unfolding inf_hex2mem_from
  last_step c s mem i word hc fits m =
      rw (hex_byte-digits c hc, place, or-true (i == 7), here)
        (elim (Bool-cases ((k.write_word w vspace mem (set_word_byte word i c)).1 == 0)) [
          | inl e ↦ rw e (
              ap (λ a. ok ((k.write_word w vspace mem (set_word_byte word i c)).0, a))
                (omega arith))
          | inr e ↦ rw e
        ])
    where
      place : i % 8 ≡ i
      place = omega arith

      here : (mem + i / 8) % 2 ^ 64 ≡ mem
      here = omega arith

  -- From byte `i` on, up to the last byte of the text.
  inf_hex2mem_from-one_write :
      (cs rest : Bytes) (mem i word c : ℕ)
      → AllBytes (c ∷ cs)
      → 0 < i
      → i + length cs < 8
      → mem < 2 ^ 64
      → inf_hex2mem_from k w vspace (hex_digits (c ∷ cs) ++ rest) mem (suc (length cs)) i word
        ≡ ok (one_write ((mem + length cs) % 2 ^ 64) (patch_bytes word i (c ∷ cs)) (i + length cs))
  inf_hex2mem_from-one_write [] rest mem i word c h pos fits m =
      round _ _ rest mem 0 i word (ne→== _ _ (omega arith))
      ∙ last_step c rest mem i word h.0 (omega arith) m
      ∙ ap₂ (λ a b. ok (one_write a (set_word_byte word i c) b)) (omega arith) (omega arith)
  inf_hex2mem_from-one_write (d ∷ cs) rest mem i word c (hc, hs) pos fits m =
      inner_round c (hex_digits (d ∷ cs) ++ rest) mem i (length cs) word hc pos (omega arith)
      ∙ inf_hex2mem_from-one_write cs rest ((mem + 1) % 2 ^ 64) (i + 1) (set_word_byte word i c) d
          hs (omega arith) (omega arith) (omega arith)
      ∙ ap₂ (λ a b. ok (one_write a (patch_bytes (set_word_byte word i c) (i + 1) (d ∷ cs)) b))
          (omega arith) (omega arith)

  -- The digits of 1 to 8 bytes, for an address `mem` where the kernel reads a word, are written by
  -- one call: the word that was read, with the bytes put over its first bytes, goes to the address
  -- `mem` plus the number of bytes less one, modulo 2^64. The address that is returned is, modulo
  -- 2^64 too, that address plus the number of bytes, plus 9 if the call succeeds and less 1 if it
  -- fails.
  pub inf_hex2mem-one_write :
      (c : ℕ) (cs rest : Bytes) (mem : ℕ)
      → AllBytes (c ∷ cs)
      → length cs < 8
      → mem < 2 ^ 64
      → (k.read_word w vspace mem).error ≡ 0
      → inf_hex2mem k w vspace (hex_digits (c ∷ cs) ++ rest) mem (suc (length cs))
        ≡ ok (
            one_write
              ((mem + length cs) % 2 ^ 64)
              (patch_bytes (k.read_word w vspace mem).value 0 (c ∷ cs))
              (length cs))
  unfolding inf_hex2mem
  inf_hex2mem-one_write c [] rest mem h fits m r =
      first_round _ _ rest mem 0 0 r
      ∙ last_step c rest mem 0 (k.read_word w vspace mem).value h.0 (omega arith) m
      ∙ ap (λ a. ok (one_write a (patch_bytes (k.read_word w vspace mem).value 0 (c ∷ [])) 0))
          (omega arith)
  inf_hex2mem-one_write c (d ∷ cs) rest mem (hc, hs) fits m r =
      ap (λ n. inf_hex2mem_from k w vspace (hex_digits (c ∷ d ∷ cs) ++ rest) mem n 0 0)
        (count (suc (length (d ∷ cs))) (omega arith))
      ∙ first_round _ _ (hex_digits (d ∷ cs) ++ rest) mem (suc (length cs)) 0 r
      ∙ rw (hex_byte-digits c hc, ne→== (suc (length cs)) 0 (omega arith))
          (inf_hex2mem_from-one_write cs rest ((mem + 1) % 2 ^ 64) 1
              (set_word_byte (k.read_word w vspace mem).value 0 c) d hs (omega arith) (omega arith)
              (omega arith)
            ∙ ap₂
                (λ a b.
                  ok (one_write a (patch_bytes (k.read_word w vspace mem).value 0 (c ∷ d ∷ cs)) b))
                (omega arith) (omega arith))
