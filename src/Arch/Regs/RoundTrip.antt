-- ===== src/Arch/Regs/RoundTrip.antt =====
-- `hex2regs` reads back what `regs2hex` wrote.
use libgdb.Prelude.{
  ℕ, zero, suc, ◌+◌, ◌*◌, ◌/◌, ◌%◌, ◌^◌, ◌≤◌, ◌<◌, ◌≡◌, refl, ap, ◌∙◌, List, [], ◌∷◌, ◌++◌, length,
  arith, drop, length-append,
}
use mathlib.Core.List.{append_assoc}
use libgdb.Prelude.Outcome.{ok, ◌>>=◌, >>=-assoc}
use libgdb.Util.Buffer.Write.{NonNul-append}
use libgdb.Util.Hex.RoundTrip.{hex_digits-NonNul}
use libgdb.Util.Buffer.{NonNul, Bytes, write_bytes, AllBytes, object_bytes, object_value, ended_at}
use libgdb.Util.Buffer.Write.{write_bytes-over_ended, write_bytes-front}
use libgdb.Util.Hex.{mem2hex, hex2mem}
use libgdb.Util.Hex.RoundTrip.{
  hex_digits, length-hex_digits, mem2hex-write_bytes, hex2mem-hex_digits,
}
use libgdb.Arch.Kernel.{UserContext}
use libgdb.Arch.Regs.{words2hex, regs2hex, hex2words, hex2regs}

pub length-object_bytes : (n w : ℕ) → length (object_bytes n w) ≡ n
unfolding object_bytes
length-object_bytes zero w = refl
length-object_bytes (suc n) w = ap suc (length-object_bytes n (w / 256))

pub object_bytes-AllBytes : (n w : ℕ) → AllBytes (object_bytes n w)
unfolding object_bytes
object_bytes-AllBytes zero w = tt
object_bytes-AllBytes (suc n) w = (omega arith, object_bytes-AllBytes n (w / 256))

pub object_value-object_bytes_8 : (w : ℕ) → w < 2 ^ 64 → object_value (object_bytes 8 w) ≡ w
unfolding object_value object_bytes
object_value-object_bytes_8 w h = omega arith

-- The text of a context: 16 digits for each of the 33 words and 8 for the low half of spsr.
abbrev pub word_digits : List ℕ → Bytes
word_digits [] = []
word_digits (r ∷ rs) = hex_digits (object_bytes 8 r) ++ word_digits rs

abbrev pub context_text : UserContext → Bytes
context_text regs =
    word_digits (regs.x ++ (regs.sp ∷ regs.pc ∷ [])) ++ hex_digits (object_bytes 4 regs.spsr)

abbrev pub AllWords : List ℕ → Type 0
AllWords [] = Unit {0}
AllWords (r ∷ rs) = (r < 2 ^ 64) × AllWords rs

pub record IsContext (regs : UserContext) : Type 0 where
  pub count : length regs.x ≡ 31
  pub words : AllWords regs.x
  pub sp_word : regs.sp < 2 ^ 64
  pub pc_word : regs.pc < 2 ^ 64
  pub spsr_word : regs.spsr < 2 ^ 64

word_digits-append : (rs rs' : List ℕ) → word_digits (rs ++ rs') ≡ word_digits rs ++ word_digits rs'
word_digits-append [] rs' = refl
word_digits-append (r ∷ rs) rs' = rw (word_digits-append rs rs', append_assoc)

hex2mem-object :
    (n w : ℕ) (rest : Bytes)
    → hex2mem (hex_digits (object_bytes n w) ++ rest) n ≡ ok (object_bytes n w, rest)
hex2mem-object n w rest =
    rw (length-object_bytes n w) at
      (hex2mem-hex_digits (object_bytes n w) rest (object_bytes-AllBytes n w))

-- A run of words is read back.
hex2words-word_digits :
    (rs : List ℕ) (rest : Bytes)
    → AllWords rs
    → hex2words (length rs) (word_digits rs ++ rest) ≡ ok (rs, rest)
unfolding hex2words
hex2words-word_digits [] rest h = refl
hex2words-word_digits (r ∷ rs) rest (hr, hs) = rw (
  append_assoc,
  hex2mem-object 8 r,
  hex2words-word_digits rs rest hs,
  object_value-object_bytes_8 r hr,
)

hex2words-one :
    (r : ℕ) (rest : Bytes)
    → r < 2 ^ 64
    → hex2words 1 (hex_digits (object_bytes 8 r) ++ rest) ≡ ok (r ∷ [], rest)
unfolding hex2words
hex2words-one r rest h = rw (hex2mem-object 8 r rest, object_value-object_bytes_8 r h)

low_half : (w : ℕ) → object_value (object_bytes 4 w) ≡ w % 2 ^ 32
unfolding object_value object_bytes
low_half w = omega arith

-- A context that was read into a structure: the upper half of spsr and the last two words are what
-- the structure held before.
abbrev pub read_over : UserContext → UserContext → UserContext
read_over junk regs = record regs {
  spsr = regs.spsr % 2 ^ 32 + 2 ^ 32 * (junk.spsr / 2 ^ 32);
  tpidr_el0 = junk.tpidr_el0;
  tpidrro_el0 = junk.tpidrro_el0;
}

-- `hex2regs` reads the text of a context into a structure.
pub hex2regs-context_text :
    (junk regs : UserContext) (rest : Bytes)
    → IsContext regs
    → hex2regs junk (context_text regs ++ rest) ≡ ok (read_over junk regs, rest)
unfolding hex2regs
hex2regs-context_text junk regs rest v = simp (
  word_digits-append,
  append_assoc,
  rw v.count at (hex2words-word_digits regs.x after_x v.words),
  hex2words-one regs.sp after_sp v.sp_word,
  hex2words-one regs.pc after_pc v.pc_word,
  hex2mem-object 4 regs.spsr rest,
  low_half,
)
  where
    after_pc : Bytes
    after_pc = hex_digits (object_bytes 4 regs.spsr) ++ rest

    after_sp : Bytes
    after_sp = hex_digits (object_bytes 8 regs.pc) ++ after_pc

    after_x : Bytes
    after_x = hex_digits (object_bytes 8 regs.sp) ++ after_sp

mem2hex-object :
    (n w : ℕ) (buf : Bytes) (p : ℕ)
    → mem2hex (object_bytes n w) buf p n ≡ (
        write_bytes buf p (hex_digits (object_bytes n w) ++ (0 ∷ [])) >>= λ buf'.
        ok (buf', p + 2 * n))
mem2hex-object n w buf p =
    rw (length-object_bytes n w) at (mem2hex-write_bytes (object_bytes n w) buf p)

-- The words are stored one behind the other; each NUL is written over by what follows.
words2hex-then :
    (rs : List ℕ) (buf : Bytes) (p m : ℕ) (t : Bytes)
    → 0 < length t
    → (words2hex rs buf p >>= λ r. ended_at (write_bytes r.0 r.1 t) (r.1 + m))
      ≡ ended_at (write_bytes buf p (word_digits rs ++ t)) (p + 16 * length rs + m)
unfolding words2hex
words2hex-then [] buf p m t h = ap (λ q. ended_at (write_bytes buf p t) (q + m)) (omega arith)
words2hex-then (r ∷ rs) buf p m t h =
    simp (mem2hex-object 8 r, >>=-assoc, words2hex-then rs, append_assoc)
      (write_bytes-over_ended buf p (hex_digits (object_bytes 8 r)) 0 (word_digits rs ++ t)
          (p + 2 * 8) (p + 2 * 8 + 16 * length rs + m)
          (omega (arith, length-append (word_digits rs) t))
          (omega (arith, length-hex_digits (object_bytes 8 r), length-object_bytes 8 r))
        ∙ ap
            (λ q.
              ended_at (write_bytes buf p (hex_digits (object_bytes 8 r) ++ (word_digits rs ++ t)))
                q)
            (omega arith))

-- Of an object of eight bytes the first four are printed.
mem2hex-low :
    (w : ℕ) (buf : Bytes) (p : ℕ)
    → mem2hex (object_bytes 8 w) buf p 4 ≡ mem2hex (object_bytes 4 w) buf p 4
unfolding mem2hex object_bytes
mem2hex-low w buf p = refl

-- `regs2hex` stores the text of the context and a NUL, and returns the place of the NUL.
pub regs2hex-write_bytes :
    (regs : UserContext) (buf : Bytes) (p : ℕ)
    → length regs.x ≡ 31
    → regs2hex regs buf p ≡ ended_at (write_bytes buf p (context_text regs ++ (0 ∷ []))) (p + 536)
unfolding regs2hex
regs2hex-write_bytes regs buf p h =
    simp (mem2hex-low, mem2hex-object 4 regs.spsr, append_assoc)
      (words2hex-then words buf p 8 (low ++ (0 ∷ [])) (omega (arith, length-append low (0 ∷ [])))
        ∙ ap (λ q. ended_at (write_bytes buf p (word_digits words ++ (low ++ (0 ∷ [])))) q)
            (omega (arith, length-append regs.x (regs.sp ∷ regs.pc ∷ []))))
  where
    words : List ℕ
    words = regs.x ++ (regs.sp ∷ regs.pc ∷ [])

    low : Bytes
    low = hex_digits (object_bytes 4 regs.spsr)

length-word_digits : (rs : List ℕ) → length (word_digits rs) ≡ 16 * length rs
length-word_digits [] = refl
length-word_digits (r ∷ rs) = omega (
  arith,
  length-append (hex_digits (object_bytes 8 r)) (word_digits rs),
  length-hex_digits (object_bytes 8 r),
  length-object_bytes 8 r,
  length-word_digits rs,
)

pub length-context_text :
    (regs : UserContext) → length regs.x ≡ 31 → length (context_text regs) ≡ 536
length-context_text regs h = omega (
  arith,
  length-append (word_digits (regs.x ++ (regs.sp ∷ regs.pc ∷ [])))
      (hex_digits (object_bytes 4 regs.spsr)),
  length-word_digits (regs.x ++ (regs.sp ∷ regs.pc ∷ [])),
  length-append regs.x (regs.sp ∷ regs.pc ∷ []),
  length-hex_digits (object_bytes 4 regs.spsr),
  length-object_bytes 4 regs.spsr,
)

-- Into a buffer of 537 bytes or more `regs2hex` prints every context of 64-bit registers without a
-- fault, and `hex2regs` reads from the buffer each register and the low half of spsr; the upper
-- half of spsr, and the words tpidr_el0 and tpidrro_el0, are those of the structure that is filled.
pub hex2regs-regs2hex :
    (junk regs : UserContext) (buf : Bytes)
    → IsContext regs
    → 537 ≤ length buf
    → (buf' : Bytes) × (regs2hex regs buf 0 ≡ ok (buf', 536))
      × (hex2regs junk buf' ≡ ok (read_over junk regs, 0 ∷ drop 537 buf))
hex2regs-regs2hex junk regs buf v room = (
  context_text regs ++ (0 ∷ drop 537 buf),
  rw (regs2hex-write_bytes regs buf 0 v.count, printed),
  hex2regs-context_text junk regs (0 ∷ drop 537 buf) v,
)
  where
    size : length (context_text regs ++ (0 ∷ [])) ≡ 537
    size =
        omega (arith, length-append (context_text regs) (0 ∷ []), length-context_text regs v.count)

    printed :
        write_bytes buf 0 (context_text regs ++ (0 ∷ []))
        ≡ ok (context_text regs ++ (0 ∷ drop 537 buf))
    printed =
        write_bytes-front buf (context_text regs ++ (0 ∷ [])) (omega (arith, size))
        ∙ ap (λ n. ok ((context_text regs ++ (0 ∷ [])) ++ drop n buf)) size
        ∙ ap ok (append_assoc (context_text regs) (0 ∷ []) (drop 537 buf))

word_digits-NonNul : (rs : List ℕ) → NonNul (word_digits rs)
word_digits-NonNul [] = tt
word_digits-NonNul (r ∷ rs) =
    NonNul-append (hex_digits (object_bytes 8 r)) (word_digits rs)
      (hex_digits-NonNul (object_bytes 8 r) (object_bytes-AllBytes 8 r)) (word_digits-NonNul rs)

pub context_text-NonNul : (regs : UserContext) → NonNul (context_text regs)
context_text-NonNul regs =
    NonNul-append (word_digits (regs.x ++ (regs.sp ∷ regs.pc ∷ [])))
      (hex_digits (object_bytes 4 regs.spsr))
      (word_digits-NonNul (regs.x ++ (regs.sp ∷ regs.pc ∷ [])))
      (hex_digits-NonNul (object_bytes 4 regs.spsr) (object_bytes-AllBytes 4 regs.spsr))
