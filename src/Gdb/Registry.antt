-- ===== src/Gdb/Registry.antt =====
-- Inferiors and threads: registration, exit, and stopping and resuming the whole system.
pub mod Report
pub mod Slots
pub mod Invariant
pub mod Register
pub mod Running
pub mod Found
pub mod Exit
use libgdb.Prelude.{
  ℕ, zero, suc, ◌+◌, ◌%◌, ◌^◌, Bool, true, false, ◌&&◌, List, [], ◌∷◌, replicate, set, none, some,
  ◌==◌, if◌then◌else◌,
}
use libgdb.Prelude.Outcome.{Outcome, ok, ◌>>=◌}
use libgdb.Prelude.Text.{literal}
use libgdb.Prelude.Search.{free_slot}
use libgdb.Util.Str.{strlcpy, strnlen}
use libgdb.Arch.Kernel.{Kernel}
use libgdb.Arch.Hardware.{thread_enable_nth_hw_breakpoint, thread_enable_nth_hw_watchpoint}
use libgdb.Gdb.State.{
  max_pds, max_threads, max_sw_breaks, bufsize, Thread, Inferior, State, DebuggerError, no_error,
  already_registered, insufficient_resources, invalid_arguments, zero_thread, zero_sw_break,
  zero_hw_break, zero_hw_watch,
}
use libgdb.Gdb.ThreadId.{
  inferior_at, thread_at, write_thread_id, lookup_inferior_from_id, lookup_thread_from_id,
}
use Prim.Native.String.{String}

module _ {W : Type 0} where
  abbrev pub set_inferior : State W → ℕ → Inferior → State W
  set_inferior s i inferior = record s { inferiors = set s.inferiors i inferior }

  -- `strlcpy(output + p, "...", BUFSIZE)`
  unfoldable pub put_text : State W → ℕ → String → Outcome (State W)
  put_text s p t = do
    (buf, len) ← strlcpy s.output p (literal t) bufsize
    ok (record s { output = buf })

  -- `ptr = write_thread_id(thread, output + strnlen(output, BUFSIZE), ...)`
  unfoldable pub put_thread_id : State W → Thread → Outcome (State W × ℕ)
  put_thread_id s thread = do
    n ← strnlen s.output bufsize
    (buf, p) ← write_thread_id s.inferiors thread s.output n
    ok (record s { output = buf }, p)

  -- A text, a thread id behind it, and a text behind that.
  unfoldable pub put_report : State W → ℕ → String → Thread → String → Outcome (State W)
  unfolding put_text put_thread_id
  put_report s p before thread after = do
    s₁ ← put_text s p before
    (s₂, p₂) ← put_thread_id s₁ thread
    put_text s₂ p₂ after

abbrev pub fresh_inferior : ℕ → ℕ → ℕ → ℕ → ℕ → Inferior
fresh_inferior inferior_id gdb_id vspace num_breakpoints num_watchpoints = record {
  enabled = true;
  id = inferior_id;
  gdb_id = gdb_id;
  vspace = vspace;
  curr_thread_idx = 0;
  threads = replicate max_threads zero_thread;
  software_breakpoints = replicate max_sw_breaks zero_sw_break;
  hardware_breakpoints = replicate num_breakpoints zero_hw_break;
  hardware_watchpoints = replicate num_watchpoints zero_hw_watch;
}

abbrev pub fresh_thread : ℕ → ℕ → ℕ → ℕ → Thread
fresh_thread slot thread_id gdb_id tcb = record {
  enabled = true;
  wakeup = false;
  ss_enabled = false;
  inferior = some slot;
  id = thread_id;
  gdb_id = gdb_id;
  tcb = tcb;
}

abbrev pub inferior_in_use : Inferior → Bool
inferior_in_use inferior = inferior.enabled

abbrev pub thread_in_use : Thread → Bool
thread_in_use thread = thread.enabled

module _ {W : Type 0} (k : Kernel W) where
  open k use {num_exclusive_breakpoints, num_exclusive_watchpoints, suspend, resume}

  -- `gdb_id` has 16 bits.
  unfoldable pub gdb_register_inferior : State W → ℕ → ℕ → Outcome (State W × DebuggerError)
  gdb_register_inferior s inferior_id vspace =
      let new =
        free_slot inferior_in_use s.inferiors max_pds s.curr_inferior_idx max_pds
        >>= λ (idx, found).
            if found
            then ok (
              record s {
                curr_inferior_idx = idx + 1;
                inferiors = set s.inferiors (idx % max_pds) (
                    fresh_inferior inferior_id ((idx + 1) % 2 ^ 16) vspace num_exclusive_breakpoints
                      num_exclusive_watchpoints);
              },
              no_error,
            )
            else ok (record s { curr_inferior_idx = idx }, insufficient_resources) in
      elim (lookup_inferior_from_id s.inferiors inferior_id) [
        | none ↦ new
        | some i ↦ inferior_at s.inferiors i >>= λ inferior.
            ok (s, if inferior.vspace == vspace then already_registered else invalid_arguments)
      ]

  -- `thread_enable_nth_hw_breakpoint` for the breakpoints from `n` on, `rounds` of them.
  unfoldable pub enable_breakpoints : W → Inferior → Thread → ℕ → ℕ → Outcome W
  enable_breakpoints w inferior thread n zero = ok w
  enable_breakpoints w inferior thread n (suc rounds) = do
    (w', done) ← thread_enable_nth_hw_breakpoint k w inferior thread n
    enable_breakpoints w' inferior thread (n + 1) rounds

  unfoldable pub enable_watchpoints : W → Inferior → Thread → ℕ → ℕ → Outcome W
  enable_watchpoints w inferior thread n zero = ok w
  enable_watchpoints w inferior thread n (suc rounds) = do
    (w', done) ← thread_enable_nth_hw_watchpoint k w inferior thread n
    enable_watchpoints w' inferior thread (n + 1) rounds

  -- The first thread becomes the target; a later one is reported.
  unfoldable pub announce_thread : State W → ℕ → ℕ → Thread → Outcome (State W)
  announce_thread s slot j thread = elim s.target_thread [
    | none ↦ ok (record s { target_thread = some (slot, j) })
    | some (ti, tj) ↦ do
      s₁ ← put_report s 0 "T05clone:" thread ";thread:"
      inferior ← inferior_at s₁.inferiors ti
      target ← thread_at inferior tj
      (s₂, p) ← put_thread_id s₁ target
      put_text s₂ p ";"
  ]

  -- The thread in the slot `idx % MAX_THREADS` of the inferior at `slot`.
  unfoldable pub fill_thread :
      State W → ℕ → Inferior → ℕ → ℕ → ℕ → Outcome (State W × DebuggerError)
  unfolding enable_breakpoints enable_watchpoints announce_thread
  fill_thread s slot inferior idx thread_id tcb = do
    let thread = fresh_thread slot thread_id ((idx + 1) % 2 ^ 16) tcb
    let inferior' = record inferior {
      curr_thread_idx = idx + 1;
      threads = set inferior.threads (idx % max_threads) thread;
    }
    w₁ ← enable_breakpoints s.world inferior' thread 0 num_exclusive_breakpoints
    w₂ ← enable_watchpoints w₁ inferior' thread 0 num_exclusive_watchpoints
    s' ←
        announce_thread (record (set_inferior s slot inferior') { world = w₂ }) slot
          (idx % max_threads) thread
    ok (s', no_error)

  unfoldable pub gdb_register_thread : State W → ℕ → ℕ → ℕ → Outcome (State W × DebuggerError)
  gdb_register_thread s inferior_id thread_id tcb =
      elim (lookup_inferior_from_id s.inferiors inferior_id) [
        | none ↦ ok (s, invalid_arguments)
        | some slot ↦ inferior_at s.inferiors slot >>= λ inferior.
            let new =
              free_slot thread_in_use inferior.threads max_threads inferior.curr_thread_idx
                max_threads
              >>= λ (idx, found).
                  if found
                  then fill_thread s slot inferior idx thread_id tcb
                  else ok (
                    set_inferior s slot (record inferior { curr_thread_idx = idx }),
                    insufficient_resources,
                  ) in
            elim (lookup_thread_from_id inferior thread_id) [
              | none ↦ new
              | some j ↦ thread_at inferior j >>= λ thread.
                  ok (s, if thread.tcb == tcb then already_registered else invalid_arguments)
            ]
      ]

  unfoldable pub gdb_thread_exit : State W → ℕ → ℕ → Outcome (State W × DebuggerError)
  gdb_thread_exit s inferior_id thread_id = elim (lookup_inferior_from_id s.inferiors inferior_id) [
    | none ↦ ok (s, invalid_arguments)
    | some slot ↦ inferior_at s.inferiors slot >>= λ inferior.
        elim (lookup_thread_from_id inferior thread_id) [
          | none ↦ ok (s, invalid_arguments)
          | some j ↦ do
            thread ← thread_at inferior j
            let thread' = record thread { enabled = false }
            let inferior' = record inferior { threads = set inferior.threads j thread' }
            s₁ ← put_text (set_inferior s slot inferior') 0 "w00;"
            (s₂, p) ← put_thread_id s₁ thread'
            ok (s₂, no_error)
        ]
  ]

  -- The inner loops of `suspend_system` and `resume_system`, over the threads of an inferior.
  unfoldable pub suspend_threads : W → List Thread → W
  suspend_threads w [] = w
  suspend_threads w (t ∷ ts) = suspend_threads (if t.enabled then suspend w t.tcb else w) ts

  unfoldable pub suspend_inferiors : W → List Inferior → W
  suspend_inferiors w [] = w
  suspend_inferiors w (i ∷ is) =
      suspend_inferiors (if i.enabled then suspend_threads w i.threads else w) is

  unfoldable pub suspend_system : State W → State W
  suspend_system s = record s { world = suspend_inferiors s.world s.inferiors }

  unfoldable pub resume_threads : W → List Thread → W
  resume_threads w [] = w
  resume_threads w (t ∷ ts) =
      resume_threads (if t.enabled && t.wakeup then resume w t.tcb else w) ts

  unfoldable pub resume_inferiors : W → List Inferior → W
  resume_inferiors w [] = w
  resume_inferiors w (i ∷ is) =
      resume_inferiors (if i.enabled then resume_threads w i.threads else w) is

  unfoldable pub resume_system : State W → State W
  resume_system s = record s { world = resume_inferiors s.world s.inferiors }
