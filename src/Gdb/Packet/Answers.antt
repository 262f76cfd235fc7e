-- ===== src/Gdb/Packet/Answers.antt =====
-- Whole packets, from `gdb_handle_packet` to the answer.
use libgdb.Prelude.{
  ℕ, suc, ◌+◌, ◌%◌, ◌^◌, ◌≤◌, ◌≡◌, refl, sym, ap, ltb, ◌∙◌, true, false, [], ◌∷◌, ◌++◌, length,
  length-set, set, drop, arith,
}
use libgdb.Prelude.Outcome.{ok}
use libgdb.Util.Buffer.{Bytes, store}
use libgdb.Util.Hex.Parse.{AllHexDigits, hex_value}
use libgdb.Util.Hex.RoundTrip.{hex_digits}
use libgdb.Arch.Kernel.{Kernel}
use libgdb.Arch.Memory.Read.{target_bytes, Readable}
use libgdb.Arch.Regs.RoundTrip.{context_text}
use libgdb.Gdb.State.{bufsize, Thread, Inferior, State}
use libgdb.Gdb.ThreadId.{inferior_of}
use libgdb.Gdb.Registry.Report.{with_text, put_text-front}
use libgdb.Prelude.Text.{codes}
use libgdb.Gdb.Target.{target_of}
use libgdb.Gdb.Target.Format.{mem_packet}
use libgdb.Gdb.Target.ReadMem.{handle_read_mem-target_bytes}
use libgdb.Gdb.Target.Context.{handle_read_regs-context_text}
use libgdb.Gdb.Packet.{Reply, Stack, handle_sig_interrupt, dispatch, gdb_handle_packet}

drop-set : (buf : Bytes) (n c : ℕ) → drop (suc n) (set buf 0 c) ≡ drop (suc n) buf
drop-set [] n c = refl
drop-set (b ∷ buf) n c = refl

-- The reply of a system that stays stopped and attached.
abbrev pub answer : {W : Type 0} → State W → Bytes → Reply W
answer s t = record { state = with_text s t; resume = false; detached = false }

module _ {W : Type 0} (k : Kernel W) (s : State W) (stack : Stack) where
  -- The state that the handlers are given: the buffer begins with a NUL.
  abbrev answer_of : State W → Reply W
  answer_of s' = record { state = s'; resume = false; detached = false }

  abbrev cleared : State W
  cleared = record s { output = set s.output 0 0 }

  with_text-cleared : (t : Bytes) → with_text cleared t ≡ with_text s t
  with_text-cleared t =
      ap (λ (rest : Bytes). record s { output = t ++ (0 ∷ rest) })
        (ap (λ n. drop n (set s.output 0 0)) one
          ∙ drop-set s.output (length t) 0
          ∙ ap (λ n. drop n s.output) (sym one))
    where
      one : length t + 1 ≡ suc (length t)
      one = omega arith

  gdb_handle_packet-dispatch :
      (c : ℕ) (input : Bytes)
      → length s.output ≡ bufsize
      → gdb_handle_packet k s stack (c ∷ input) ≡ dispatch k cleared stack (c ∷ input) c
  unfolding gdb_handle_packet store
  gdb_handle_packet-dispatch c input room =
      let fits : ltb 0 (length s.output) ≡ true = ground arith in rw fits

  pub gdb_handle_packet-interrupt :
      (rest : Bytes)
      → length s.output ≡ bufsize
      → gdb_handle_packet k s stack (3 ∷ rest) ≡ ok (answer s (codes "S02"))
  unfolding dispatch handle_sig_interrupt
  gdb_handle_packet-interrupt rest room =
      let stored =
        put_text-front cleared "S02" (omega arith, (omega arith, (omega arith, tt))) (omega arith)
          (omega (arith, length-set s.output 0 0)) in
      gdb_handle_packet-dispatch 3 rest room ∙ rw (stored, with_text-cleared (codes "S02")) refl

  -- A packet g in a state with a target thread and a buffer of BUFSIZE bytes: the kernel is asked once
  -- to suspend the target and to fill the structure on the stack, whose contents then, if they have 31
  -- general registers, are the answer, as text, whatever error the kernel reports. The kernel's state
  -- is what this call leaves. Nothing else of the state changes, and the system is neither resumed nor
  -- left.
  pub gdb_handle_packet-read_regs :
      (rest : Bytes) {thread : Thread}
      → target_of s ≡ ok thread
      → let (w, error, context) = k.read_registers s.world thread.tcb true stack.context in
        length context.x ≡ 31
        → length s.output ≡ bufsize
        → gdb_handle_packet k s stack (b'g' ∷ rest)
          ≡ ok (answer (record s { world = w }) (context_text context))
  unfolding dispatch target_of
  gdb_handle_packet-read_regs rest {thread} t count room =
      let (w, error, context) = k.read_registers s.world thread.tcb true stack.context in
      gdb_handle_packet-dispatch b'g' rest room
      ∙ rw
          (handle_read_regs-context_text k cleared stack.context t count
            (length-set s.output 0 0 ∙ room))
          (ap (λ (s' : State W). ok (answer_of (record s' { world = w })))
            (with_text-cleared (context_text context)))

  -- A packet m whose address and size have at most 16 digits each, for at most 1023 bytes of the
  -- target's memory that the kernel can read, in a state with a target thread and a buffer of BUFSIZE
  -- bytes, is answered with the digits of these bytes. Nothing else of the state changes, and the
  -- system is neither resumed nor left.
  pub gdb_handle_packet-read_mem :
      (addr size rest : Bytes) {thread : Thread} {inferior : Inferior}
      → target_of s ≡ ok thread
      → inferior_of s.inferiors thread ≡ ok inferior
      → length s.output ≡ bufsize
      → AllHexDigits addr
      → AllHexDigits size
      → length addr ≤ 16
      → length size ≤ 16
      → hex_value size 0 ≤ 1023
      → Readable k s.world inferior.vspace (hex_value addr 0 % 2 ^ 64) 0 (hex_value size 0)
      → gdb_handle_packet k s stack (mem_packet b'm' addr size (0 ∷ rest))
        ≡ ok (
            answer s (
              hex_digits (
                target_bytes k s.world inferior.vspace
                  (hex_value addr 0 % 2 ^ 64)
                  0
                  (hex_value size 0))))
  unfolding dispatch target_of
  gdb_handle_packet-read_mem addr size rest {thread} {inferior} t i room ha hs la ls small r =
      gdb_handle_packet-dispatch b'm' (addr ++ (b',' ∷ (size ++ (0 ∷ rest)))) room
      ∙ rw (
        handle_read_mem-target_bytes k cleared addr size rest t i (length-set s.output 0 0 ∙ room)
            ha hs la ls small r,
        with_text-cleared (
            hex_digits (
              target_bytes k s.world inferior.vspace (hex_value addr 0 % 2 ^ 64) 0
                (hex_value size 0))),
      )
