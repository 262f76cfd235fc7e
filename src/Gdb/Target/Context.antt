-- ===== src/Gdb/Target/Context.antt =====
-- The packets g and G: the registers of the target thread.
use libgdb.Prelude.{◌≡◌, arith, length, ◌∷◌, ◌++◌, true}
use libgdb.Prelude.Outcome.{ok}
use libgdb.Prelude.Text.{codes}
use libgdb.Util.Buffer.{Bytes}
use libgdb.Util.Buffer.Write.{write_bytes-front_text}
use libgdb.Arch.Kernel.{Kernel, UserContext}
use libgdb.Arch.Regs.RoundTrip.{
  IsContext, read_over, context_text, regs2hex-write_bytes, length-context_text,
  hex2regs-context_text,
}
use libgdb.Gdb.State.{bufsize, Thread, State}
use libgdb.Gdb.Registry.Report.{with_text, put_text-front}
use libgdb.Gdb.Target.{target_of, handle_read_regs, handle_write_regs}

module _ {W : Type 0} (k : Kernel W) (s : State W) where
  -- With a target thread, a structure that holds 31 general registers after the kernel was asked to
  -- fill it, and a buffer of BUFSIZE bytes: the answer to a packet g is the text of the structure. The
  -- kernel's state is what its call leaves, and nothing else of the state changes.
  pub handle_read_regs-context_text :
      (junk : UserContext) {thread : Thread}
      → target_of s ≡ ok thread
      → let (w, error, context) = k.read_registers s.world thread.tcb true junk in
        length context.x ≡ 31
        → length s.output ≡ bufsize
        → handle_read_regs k s junk ≡ ok (record (with_text s (context_text context)) { world = w })
  unfolding handle_read_regs
  handle_read_regs-context_text junk {thread} t count room =
      let (w, error, context) = k.read_registers s.world thread.tcb true junk in
      rw (
        t,
        regs2hex-write_bytes context s.output 0 count,
        write_bytes-front_text s.output (context_text context)
            (omega (arith, length-context_text context count)),
      )

  -- With a target thread and a buffer of BUFSIZE bytes, a packet G with the text of a context of
  -- 64-bit registers: the kernel is asked to write this context to the target thread and to resume it.
  -- The upper half of spsr, tpidr_el0 and tpidrro_el0 that it is given are what the structure on the
  -- stack held. The answer is OK, whatever error the kernel reports.
  pub handle_write_regs-context_text :
      (junk regs : UserContext) (rest : Bytes) {thread : Thread}
      → target_of s ≡ ok thread
      → IsContext regs
      → length s.output ≡ bufsize
      → handle_write_regs k s junk (b'G' ∷ context_text regs ++ rest)
        ≡ ok (record (with_text s (codes "OK")) {
          world = (k.write_registers s.world thread.tcb true (read_over junk regs)).0;
        })
  unfolding handle_write_regs
  handle_write_regs-context_text junk regs rest {thread} t v room =
      rw (hex2regs-context_text junk regs rest v, t)
        (put_text-front
          (record s { world = (k.write_registers s.world thread.tcb true (read_over junk regs)).0 })
          "OK" (ground arith) (omega arith) (omega arith))
