-- ===== src/Gdb/Faults.antt =====
-- Faults of the threads that are debugged: what is reported, and which thread becomes the target.
pub mod Stop
pub mod Watch
use libgdb.Prelude.{
  ℕ, ◌+◌, ◌-◌, ◌%◌, ◌^◌, Bool, true, false, ◌||◌, get_elem?, Option, none, some, ◌==◌,
  if◌then◌else◌,
}
use mathlib.Core.List.{reverse}
use libgdb.Prelude.Outcome.{Outcome, ok, fault, assertion, out_of_bounds, ◌>>=◌, or_fault}
use libgdb.Util.Buffer.{object_bytes, object_value}
use libgdb.Util.Hex.{mem2hex}
use libgdb.Util.Str.{strnlen}
use libgdb.Arch.Kernel.{Kernel}
use libgdb.Gdb.State.{bufsize, Thread, State, DebuggerError, no_error, invalid_arguments}
use libgdb.Gdb.ThreadId.{
  inferior_at, thread_at, inferior_of, lookup_inferior_from_id, lookup_thread_from_id,
}
use libgdb.Gdb.Registry.{put_text, put_thread_id, put_report}
use Prim.Native.String.{String}

-- `__builtin_bswap64`
unfoldable pub arch_to_big_endian : ℕ → ℕ
arch_to_big_endian vaddr = object_value (reverse (object_bytes 8 vaddr))

-- The message registers of a debug exception that the library reads.
pub record DebugException : Type 0 where
  pub reason : ℕ
  pub fault_ip : ℕ
  pub trigger_address : ℕ
  pub bp_num : ℕ

module _ {W : Type 0} (k : Kernel W) where
  open k use {
    instruction_breakpoint, single_step, software_break_request, data_breakpoint, break_on_read,
    break_on_write, break_on_read_write, first_watchpoint, fault_debug_exception,
  }

  -- The thread that faulted is at `t`.
  unfoldable pub handle_ss_hwbreak_swbreak_exception :
      State W → ℕ × ℕ → Thread → ℕ → Outcome (State W)
  handle_ss_hwbreak_swbreak_exception s t thread reason = do
    s' ←
        put_report s 0 "T05thread:" thread
          (if reason == software_break_request then ";swbreak:;" else ";hwbreak:;")
    ok (record s' { target_thread = some t })

  -- The word for the type of a watchpoint; no other type is expected.
  unfoldable pub watch_text : ℕ → Outcome String
  watch_text type =
      if type == break_on_write
      then ok ";watch:"
      else if type == break_on_read
      then ok ";rwatch:"
      else if type == break_on_read_write
      then ok ";awatch:"
      else fault assertion

  -- The subtraction is that of 64-bit words.
  unfoldable pub handle_watchpoint_exception : State W → ℕ × ℕ → Thread → ℕ → ℕ → Outcome (State W)
  unfolding watch_text arch_to_big_endian
  handle_watchpoint_exception s t thread bp_num trigger_address = do
    s₁ ← put_text s 0 "T05thread:"
    (s₂, p) ← put_thread_id s₁ thread
    inferior ← inferior_of s₂.inferiors thread
    wp ←
        or_fault
          (get_elem? inferior.hardware_watchpoints ((bp_num + 2 ^ 64 - first_watchpoint) % 2 ^ 64))
          out_of_bounds
    word ← watch_text wp.type
    s₃ ← put_text s₂ p word
    n ← strnlen s₃.output bufsize
    (buf, q) ← mem2hex (object_bytes 8 (arch_to_big_endian trigger_address)) s₃.output n 8
    s₄ ← put_text (record s₃ { output = buf }) q ";"
    ok (record s₄ { target_thread = some t })

  -- The result is whether the thread is to be resumed.
  unfoldable pub handle_debug_exception :
      State W → ℕ × ℕ → Thread → DebugException → Outcome (State W × Bool)
  handle_debug_exception s t thread e =
      let stop = handle_ss_hwbreak_swbreak_exception s t thread e.reason in
      let watch = handle_watchpoint_exception s t thread e.bp_num e.trigger_address in
      ((if e.reason == instruction_breakpoint
            || e.reason == single_step
            || e.reason == software_break_request
          then stop
          else if e.reason == data_breakpoint
          then watch
          else ok s)
        >>= λ s'. ok (s', true))

  unfoldable pub handle_fault : State W → ℕ × ℕ → Thread → Outcome (State W × Bool)
  handle_fault s t thread = do
    s' ← put_report s 0 "T06thread:" thread ";"
    ok (record s' { target_thread = some t }, false)

  -- `have_reply` is set only if the thread is found.
  unfoldable pub gdb_handle_fault :
      State W → ℕ → ℕ → ℕ → DebugException → Outcome (State W × DebuggerError × Option Bool)
  gdb_handle_fault s inferior_id thread_id exception_reason e =
      elim (lookup_inferior_from_id s.inferiors inferior_id) [
        | none ↦ ok (s, invalid_arguments, none)
        | some i ↦ inferior_at s.inferiors i >>= λ inferior.
            elim (lookup_thread_from_id inferior thread_id) [
              | none ↦ ok (s, invalid_arguments, none)
              | some j ↦ thread_at inferior j >>= λ thread.
                  let debug = handle_debug_exception s (i, j) thread e in
                  let other = handle_fault s (i, j) thread in
                  ((if exception_reason == fault_debug_exception then debug else other)
                    >>= λ (s', have_reply). ok (s', no_error, some have_reply))
            ]
      ]
