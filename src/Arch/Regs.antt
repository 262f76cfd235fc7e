-- ===== src/Arch/Regs.antt =====
-- `regs2hex` and `hex2regs`: the registers in the order of the source, x0 to x30, sp, pc, and the
-- low half of spsr.
pub mod RoundTrip
use libgdb.Prelude.{ℕ, zero, suc, ◌+◌, ◌*◌, ◌/◌, ◌^◌, List, [], ◌∷◌, ◌++◌}
use libgdb.Prelude.Outcome.{Outcome, ok, ◌>>=◌}
use libgdb.Util.Buffer.{Bytes, object_bytes, object_value}
use libgdb.Util.Hex.{mem2hex, hex2mem}
use libgdb.Arch.Kernel.{UserContext}

-- A call of `mem2hex` for each 64-bit register.
unfoldable pub words2hex : List ℕ → Bytes → ℕ → Outcome (Bytes × ℕ)
words2hex [] buf p = ok (buf, p)
words2hex (r ∷ rs) buf p = do (buf', p') ← mem2hex (object_bytes 8 r) buf p 8; words2hex rs buf' p'

unfoldable pub regs2hex : UserContext → Bytes → ℕ → Outcome (Bytes × ℕ)
regs2hex regs buf p = do
  (buf₁, p₁) ← words2hex (regs.x ++ (regs.sp ∷ regs.pc ∷ [])) buf p
  mem2hex (object_bytes 8 regs.spsr) buf₁ p₁ 4

-- A call of `hex2mem` for each of `n` 64-bit registers.
unfoldable pub hex2words : ℕ → Bytes → Outcome (List ℕ × Bytes)
hex2words zero buf = ok ([], buf)
hex2words (suc n) buf = do
  (mem, buf₁) ← hex2mem buf 8
  (rs, buf₂) ← hex2words n buf₁
  ok (object_value mem ∷ rs, buf₂)

abbrev pub one_word : List ℕ → ℕ
one_word [] = 0
one_word (r ∷ rs) = r

-- `regs` is what the structure held before: the upper half of its spsr and its last two words stay.
unfoldable pub hex2regs : UserContext → Bytes → Outcome (UserContext × Bytes)
hex2regs regs buf = do
  (x, buf₁) ← hex2words 31 buf
  (sp, buf₂) ← hex2words 1 buf₁
  (pc, buf₃) ← hex2words 1 buf₂
  (low, buf₄) ← hex2mem buf₃ 4
  ok (
    record {
      x = x;
      sp = one_word sp;
      pc = one_word pc;
      spsr = object_value low + 2 ^ 32 * (regs.spsr / 2 ^ 32);
      tpidr_el0 = regs.tpidr_el0;
      tpidrro_el0 = regs.tpidrro_el0;
    },
    buf₄,
  )
