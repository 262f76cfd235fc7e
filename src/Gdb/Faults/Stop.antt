-- ===== src/Gdb/Faults/Stop.antt =====
-- What `gdb_handle_fault` reports when a thread stops.
use libgdb.Prelude.{
  ℕ, ◌≡◌, ◌≢◌, Bool, true, false, ◌||◌, ◌++◌, length, arith, ◌==◌, ne→==, eq→==, if◌then◌else◌,
  Bool-cases, inl, inr, some,
}
use Prim.Native.String.{String}
use libgdb.Prelude.Outcome.{ok, ◌>>=◌}
use libgdb.Prelude.Text.{codes}
use libgdb.Arch.Kernel.{Kernel}
use libgdb.Gdb.State.{bufsize, Thread, Inferior, State, no_error}
use libgdb.Gdb.ThreadId.{inferior_of}
use libgdb.Gdb.ThreadId.Text.{thread_id_text}
use libgdb.Gdb.Registry.Found.{Found, inferior_of-Found}
use libgdb.Gdb.Registry.Report.{with_text, put_report-front}
use libgdb.Gdb.Faults.{
  DebugException, handle_ss_hwbreak_swbreak_exception, handle_debug_exception, handle_fault,
  gdb_handle_fault,
}

-- The answer, and the new target.
abbrev pub stopped : {W : Type 0} → State W → ℕ × ℕ → Inferior → Thread → String → String → State W
stopped s t inferior thread before after =
    record (with_text s
      ((codes before ++ thread_id_text inferior.gdb_id thread.gdb_id) ++ codes after)) {
        target_thread = some t;
      }

module _ {W : Type 0} (k : Kernel W) where
  abbrev pub is_stop : ℕ → Bool
  is_stop reason =
      reason == k.instruction_breakpoint
      || reason == k.single_step
      || reason == k.software_break_request

  abbrev pub stop_text : ℕ → String
  stop_text reason = if reason == k.software_break_request then ";swbreak:;" else ";hwbreak:;"

  handle_ss_hwbreak_swbreak_exception-stopped :
      (s : State W) (t : ℕ × ℕ) (inferior : Inferior) (thread : Thread) (reason : ℕ)
      → inferior_of s.inferiors thread ≡ ok inferior
      → length s.output ≡ bufsize
      → handle_ss_hwbreak_swbreak_exception k s t thread reason
        ≡ ok (stopped s t inferior thread "T05thread:" (stop_text reason))
  unfolding handle_ss_hwbreak_swbreak_exception
  handle_ss_hwbreak_swbreak_exception-stopped s t inferior thread reason owner room =
      elim (Bool-cases (reason == k.software_break_request)) [
        | inl e ↦ rw (
          e,
          put_report-front s "T05thread:" thread ";swbreak:;" (ground arith) (ground arith)
              (omega arith) (omega arith) owner (omega arith),
        )
        | inr e ↦ rw (
          e,
          put_report-front s "T05thread:" thread ";hwbreak:;" (ground arith) (ground arith)
              (omega arith) (omega arith) owner (omega arith),
        )
      ]

  -- An instruction breakpoint, a single step or a software breakpoint of a thread that both
  -- lookups find, with a buffer of BUFSIZE bytes: the answer is T05thread with the id of the
  -- thread, and swbreak for a software breakpoint or else hwbreak; the thread becomes the target,
  -- nothing else of the state changes, and the result is that it is to be resumed.
  pub gdb_handle_fault-stop :
      (s : State W) (inferior_id thread_id exception_reason : ℕ) (e : DebugException) {i j : ℕ}
      {inferior : Inferior} {thread : Thread}
      → Found s inferior_id thread_id i j inferior thread
      → length s.output ≡ bufsize
      → exception_reason ≡ k.fault_debug_exception
      → is_stop e.reason ≡ true
      → gdb_handle_fault k s inferior_id thread_id exception_reason e
        ≡ ok (
          stopped s (i, j) inferior thread "T05thread:" (stop_text e.reason),
          no_error,
          some true,
        )
  unfolding gdb_handle_fault handle_debug_exception
  gdb_handle_fault-stop s inferior_id thread_id exception_reason e {i} {j} {inferior} {thread} f
        room debug stop =
      rw (
        f.by_id,
        gdb_handle_fault,
        f.at_slot,
        ◌>>=◌,
        f.thread_by_id,
        f.thread_at_slot,
        eq→== exception_reason k.fault_debug_exception debug,
        stop,
        handle_ss_hwbreak_swbreak_exception-stopped s (i, j) inferior thread e.reason
            (inferior_of-Found s f) room,
      )

  -- A fault that is no debug exception, of a thread that both lookups find, with a buffer of
  -- BUFSIZE bytes: the answer is T06thread with the id of the thread; the thread becomes the
  -- target, nothing else of the state changes, and the result is that it is not to be resumed.
  pub gdb_handle_fault-fault :
      (s : State W) (inferior_id thread_id exception_reason : ℕ) (e : DebugException) {i j : ℕ}
      {inferior : Inferior} {thread : Thread}
      → Found s inferior_id thread_id i j inferior thread
      → length s.output ≡ bufsize
      → exception_reason ≢ k.fault_debug_exception
      → gdb_handle_fault k s inferior_id thread_id exception_reason e
        ≡ ok (stopped s (i, j) inferior thread "T06thread:" ";", no_error, some false)
  unfolding gdb_handle_fault handle_fault
  gdb_handle_fault-fault s inferior_id thread_id exception_reason e {i} {j} {inferior} {thread} f
        room other =
      rw (
        f.by_id,
        gdb_handle_fault,
        f.at_slot,
        ◌>>=◌,
        f.thread_by_id,
        f.thread_at_slot,
        ne→== exception_reason k.fault_debug_exception other,
        put_report-front s "T06thread:" thread ";" (ground arith) (ground arith) (omega arith)
            (omega arith) (inferior_of-Found s f) (omega arith),
      )
