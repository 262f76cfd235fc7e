-- ===== src/Gdb/Target.antt =====
-- The packets that read and write the registers and the memory of the target thread.
pub mod Format
pub mod ReadMem
pub mod Context
use libgdb.Prelude.{
  ℕ, ◌-◌, ◌*◌, ◌%◌, ◌^◌, Bool, true, false, not, ◌||◌, none, some, ltb, ◌==◌, if◌then◌else◌,
}
use libgdb.Prelude.Outcome.{Outcome, ok, assertion, null_pointer, ◌>>=◌, ◌>>◌, guard, or_fault}
use libgdb.Util.Buffer.{Bytes, next, peek}
use libgdb.Util.Hex.{hexstr_to_int}
use libgdb.Util.Memchr.{memchr}
use libgdb.Arch.Kernel.{Kernel, UserContext}
use libgdb.Arch.Regs.{regs2hex, hex2regs}
use libgdb.Arch.Memory.{ended, failed, inf_mem2hex, inf_hex2mem}
use libgdb.Gdb.State.{bufsize, Thread, State}
use libgdb.Gdb.ThreadId.{inferior_at, thread_at, inferior_of}
use libgdb.Gdb.Registry.{put_text}

-- `target_thread->...`
unfoldable pub target_of : {W : Type 0} → State W → Outcome Thread
target_of s = or_fault s.target_thread null_pointer >>= λ (i, j).
    inferior_at s.inferiors i >>= λ inferior. thread_at inferior j

-- What `parse_mem_format` returns and leaves in its two results.
pub record MemFormat : Type 0 where
  pub valid : Bool
  pub addr : ℕ
  pub size : ℕ

unfoldable pub parse_mem_format : Bytes → Outcome MemFormat
parse_mem_format ptr = next ptr >>= λ (command, ptr₁).
    let is_read = not (command == b'M') in
    hexstr_to_int ptr₁ 16 0 >>= λ (addr, ptr₂). next ptr₂ >>= λ (comma, ptr₃).
    let size_part = hexstr_to_int ptr₃ 16 0 >>= λ (size, ptr₄). peek ptr₄ >>= λ last. ok (record {
      valid = if is_read then last == 0 else last == 0 || last == b':';
      addr = addr;
      size = size;
    }) in
    if comma == b',' then size_part else ok (record { valid = false; addr = addr; size = 0 })

module _ {W : Type 0} (k : Kernel W) where
  open k use {read_registers, write_registers}

  -- `junk` is what the uninitialised structure on the stack holds. The error is ignored.
  unfoldable pub handle_read_regs : State W → UserContext → Outcome (State W)
  unfolding target_of
  handle_read_regs s junk = do
    thread ← target_of s
    let (w, error, context) = read_registers s.world thread.tcb true junk
    (buf, p) ← regs2hex context s.output 0
    ok (record s { world = w; output = buf })

  -- `junk` is as above, and the error is ignored too.
  unfoldable pub handle_write_regs : State W → UserContext → Bytes → Outcome (State W)
  unfolding target_of
  handle_write_regs s junk ptr = do
    (c, ptr₁) ← next ptr
    guard (c == b'G') assertion
    (context, rest) ← hex2regs junk ptr₁
    thread ← target_of s
    let (w, error) = write_registers s.world thread.tcb true context
    put_text (record s { world = w }) 0 "OK"

  -- What is read goes to the output; an error of the kernel is reported instead.
  unfoldable pub read_target : State W → ℕ → ℕ → Outcome (State W)
  unfolding target_of
  read_target s addr size = target_of s >>= λ thread. inferior_of s.inferiors thread >>= λ inferior.
      inf_mem2hex k s.world inferior.vspace addr s.output 0 size >>= λ (buf, result). elim result [
        | ended p ↦ ok (record s { output = buf })
        | failed e ↦ put_text (record s { output = buf }) 0 "E04"
      ]

  -- `size * 2` is a product of 64-bit words.
  unfoldable pub handle_read_mem : State W → Bytes → Outcome (State W)
  handle_read_mem s ptr = parse_mem_format ptr >>= λ format.
      let read = read_target s format.addr format.size in
      let error = put_text s 0 "E01" in
      if not format.valid
      then error
      else if ltb (bufsize - 1) (format.size * 2 % 2 ^ 64)
      then error
      else read

  -- `inf_hex2mem` returns an address, and the handler takes 0 for an error.
  unfoldable pub write_target : State W → Bytes → ℕ → ℕ → Outcome (State W)
  unfolding target_of
  write_target s ptr addr size = do
    thread ← target_of s
    inferior ← inferior_of s.inferiors thread
    (w, end) ← inf_hex2mem k s.world inferior.vspace ptr addr size
    put_text (record s { world = w }) 0 (if end == 0 then "E03" else "OK")

  -- `address` is where the packet lies, which `memchr` depends on.
  unfoldable pub handle_write_mem : State W → Bytes → ℕ → Outcome (State W)
  handle_write_mem s ptr address = parse_mem_format ptr >>= λ format.
      let write = memchr ptr address b':' bufsize >>= λ found. elim found [
        | none ↦ ok s
        | some colon ↦ next colon >>= λ (c, text). write_target s text format.addr format.size
      ] in
      if not format.valid then put_text s 0 "E02" else write
