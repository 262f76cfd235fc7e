-- ===== src/Arch/Memory.antt =====
-- `inf_mem2hex` and `inf_hex2mem`: memory of the target as hexadecimal text. A `seL4_Word` has 64
-- bits and 8 bytes; `(char *) &curr_word` has its lowest byte first.
pub mod Read
pub mod Write
use libgdb.Prelude.{ℕ, zero, suc, ◌+◌, ◌*◌, ◌/◌, ◌%◌, ◌^◌, not, ◌||◌, leb, ◌==◌, if◌then◌else◌}
use libgdb.Prelude.Outcome.{Outcome, ok, ◌>>=◌}
use libgdb.Util.Buffer.{Bytes, store, next}
use libgdb.Util.Hex.{int_to_hexchar, hex_byte}
use libgdb.Arch.Kernel.{Kernel}

-- How often a loop `for (i = 0; i < size; i++)` runs whose `int` size was converted from a word.
abbrev pub int_count : ℕ → ℕ
int_count size = if leb (2 ^ 31) (size % 2 ^ 32) then 0 else size % 2 ^ 32

-- Byte `i` of a word, and the word with that byte replaced.
abbrev pub word_byte : ℕ → ℕ → ℕ
word_byte w i = w / 256 ^ i % 256

abbrev pub set_word_byte : ℕ → ℕ → ℕ → ℕ
set_word_byte w i c = w / 256 ^ suc i * 256 ^ suc i + c * 256 ^ i + w % 256 ^ i

-- `ended p` is the pointer behind the text, `failed e` is NULL with `*error = e`.
pub data ReadResult : Type 0 where
  ended failed : ℕ → ReadResult

module _ {W : Type 0} (k : Kernel W) where
  open k use {read_word, write_word}

  -- The loop of `inf_mem2hex` with `n` rounds to go.
  unfoldable pub inf_mem2hex_from : W → ℕ → ℕ → Bytes → ℕ → ℕ → ℕ → ℕ → Outcome (Bytes × ReadResult)
  inf_mem2hex_from w vspace mem buf p zero i curr_word = do buf₁ ← store buf p 0; ok (buf₁, ended p)
  inf_mem2hex_from w vspace mem buf p (suc n) i curr_word =
      let ret = read_word w vspace mem in
      let step = λ (word mem' : ℕ).
        let c : ℕ = word_byte word (i % 8) in
        (store buf p (int_to_hexchar (c / 16)) >>= λ buf₁.
        store buf₁ (p + 1) (int_to_hexchar (c % 16)) >>= λ buf₂.
        inf_mem2hex_from w vspace mem' buf₂ (p + 2) n (i + 1) word) in
      if not (i % 8 == 0)
      then step curr_word mem
      else if ret.error == 0
      then step ret.value ((mem + 8) % 2 ^ 64)
      else ok (buf, failed ret.error)

  unfoldable pub inf_mem2hex : W → ℕ → ℕ → Bytes → ℕ → ℕ → Outcome (Bytes × ReadResult)
  inf_mem2hex w vspace mem buf p size = inf_mem2hex_from w vspace mem buf p (int_count size) 0 0

  -- The loop of `inf_hex2mem` with `n` rounds to go; the result is the kernel and the address that
  -- is returned.
  unfoldable pub inf_hex2mem_from : W → ℕ → Bytes → ℕ → ℕ → ℕ → ℕ → Outcome (W × ℕ)
  inf_hex2mem_from w vspace buf mem zero i curr_word = ok (w, (mem + i) % 2 ^ 64)
  inf_hex2mem_from w vspace buf mem (suc n) i curr_word =
      let ret = read_word w vspace mem in
      let step = λ (word : ℕ).
        (next buf >>= λ (h, buf₁). next buf₁ >>= λ (l, buf₂).
        let word' : ℕ = set_word_byte word (i % 8) (hex_byte h l) in
        let (w', err) = write_word w vspace ((mem + i / 8) % 2 ^ 64) word' in
        let on = inf_hex2mem_from w vspace buf₂ ((mem + 1) % 2 ^ 64) n (i + 1) word' in
        let past = inf_hex2mem_from w' vspace buf₂ ((mem + 9) % 2 ^ 64) n (i + 1) word' in
        if not (i % 8 == 7 || n == 0)
        then on
        else if err == 0
        then past
        else ok (w', (mem + i) % 2 ^ 64)) in
      if not (i % 8 == 0)
      then step curr_word
      else if ret.error == 0
      then step ret.value
      else ok (w, (mem + i) % 2 ^ 64)

  unfoldable pub inf_hex2mem : W → ℕ → Bytes → ℕ → ℕ → Outcome (W × ℕ)
  inf_hex2mem w vspace buf mem size = inf_hex2mem_from w vspace buf mem (int_count size) 0 0
