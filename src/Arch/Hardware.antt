-- ===== src/Arch/Hardware.antt =====
-- Hardware breakpoints and watchpoints: a table in the inferior, and the debug registers of each of
-- its threads. The tables have as many entries as the kernel has registers.
pub mod Table
use libgdb.Prelude.{
  ℕ, ◌+◌, Bool, true, false, ◌&&◌, List, [], ◌∷◌, set, get_elem?, none, some, ltb, ◌==◌,
  if◌then◌else◌,
}
use libgdb.Prelude.Outcome.{Outcome, ok, assertion, out_of_bounds, ◌>>=◌, ◌>>◌, guard, or_fault}
use libgdb.Prelude.Search.{find_index, update}
use libgdb.Gdb.State.{HwWatch, Thread, Inferior}
use libgdb.Arch.Kernel.{Kernel}

abbrev pub is_watch : ℕ → ℕ → ℕ → HwWatch → Bool
is_watch address type size b = b.addr == address && (b.type == type && b.size == size)

module _ {W : Type 0} (k : Kernel W) where
  open k use {
    set_breakpoint, unset_breakpoint, configure_single_stepping, first_breakpoint, first_watchpoint,
    num_exclusive_breakpoints, num_exclusive_watchpoints, instruction_breakpoint, data_breakpoint,
    break_on_read,
  }

  -- `seL4_TCB_SetBreakpoint` on every enabled thread, up to the first that fails.
  unfoldable pub set_on_threads : W → List Thread → ℕ → ℕ → ℕ → ℕ → ℕ → W × Bool
  set_on_threads w [] bp_num address type size rw_access = (w, true)
  set_on_threads w (t ∷ ts) bp_num address type size rw_access = elim t.enabled [
    | false ↦ set_on_threads w ts bp_num address type size rw_access
    | true ↦
        let (w', err) = set_breakpoint w t.tcb bp_num address type size rw_access in
        let rest = set_on_threads w' ts bp_num address type size rw_access in
        if err == 0 then rest else (w', false)
  ]

  unfoldable pub unset_on_threads : W → List Thread → ℕ → W
  unset_on_threads w [] bp_num = w
  unset_on_threads w (t ∷ ts) bp_num =
      unset_on_threads (if t.enabled then unset_breakpoint w t.tcb bp_num else w) ts bp_num

  unfoldable pub set_hardware_breakpoint : W → Inferior → ℕ → W × Inferior × Bool
  set_hardware_breakpoint w inferior address =
      elim (find_index (λ b. b.addr == 0) inferior.hardware_breakpoints 0) [
        | none ↦ (w, inferior, false)
        | some i ↦
            let (w', done) =
              set_on_threads w inferior.threads (first_breakpoint + i) address
                instruction_breakpoint 0 break_on_read in
            if done
            then (
              w',
              record inferior {
                hardware_breakpoints =
                    update (λ b. record b { addr = address }) inferior.hardware_breakpoints i;
              },
              true,
            )
            else (w', inferior, false)
      ]

  -- `thread->inferior` is given beside the thread.
  unfoldable pub thread_enable_nth_hw_breakpoint : W → Inferior → Thread → ℕ → Outcome (W × Bool)
  thread_enable_nth_hw_breakpoint w inferior thread n = do
    guard (ltb n num_exclusive_breakpoints) assertion
    bp ← or_fault (get_elem? inferior.hardware_breakpoints n) out_of_bounds
    if bp.addr == 0
        then ok (w, true)
        else (let (w', err) =
              set_breakpoint w thread.tcb (first_breakpoint + n) bp.addr instruction_breakpoint 0
                break_on_read in
            ok (w', err == 0))

  unfoldable pub unset_hardware_breakpoint : W → Inferior → ℕ → W × Inferior × Bool
  unset_hardware_breakpoint w inferior address =
      elim (find_index (λ b. b.addr == address) inferior.hardware_breakpoints 0) [
        | none ↦ (w, inferior, false)
        | some i ↦ (
          unset_on_threads w inferior.threads (first_breakpoint + i),
          record inferior {
            hardware_breakpoints =
                update (λ b. record b { addr = 0 }) inferior.hardware_breakpoints i;
          },
          true,
        )
      ]

  unfoldable pub set_hardware_watchpoint : W → Inferior → ℕ → ℕ → ℕ → W × Inferior × Bool
  set_hardware_watchpoint w inferior address type size =
      elim (find_index (λ b. b.addr == 0) inferior.hardware_watchpoints 0) [
        | none ↦ (w, inferior, false)
        | some i ↦
            let (w', done) =
              set_on_threads w inferior.threads (first_watchpoint + i) address data_breakpoint size
                type in
            if done
            then (
              w',
              record inferior {
                hardware_watchpoints =
                    set inferior.hardware_watchpoints i
                      (record { addr = address; size = size; type = type });
              },
              true,
            )
            else (w', inferior, false)
      ]

  unfoldable pub thread_enable_nth_hw_watchpoint : W → Inferior → Thread → ℕ → Outcome (W × Bool)
  thread_enable_nth_hw_watchpoint w inferior thread n = do
    guard (ltb n num_exclusive_watchpoints) assertion
    wp ← or_fault (get_elem? inferior.hardware_watchpoints n) out_of_bounds
    if wp.addr == 0
        then ok (w, true)
        else (let (w', err) =
              set_breakpoint w thread.tcb (first_watchpoint + n) wp.addr data_breakpoint wp.size
                wp.type in
            ok (w', err == 0))

  unfoldable pub unset_hardware_watchpoint : W → Inferior → ℕ → ℕ → ℕ → W × Inferior × Bool
  unset_hardware_watchpoint w inferior address type size =
      elim (find_index (is_watch address type size) inferior.hardware_watchpoints 0) [
        | none ↦ (w, inferior, false)
        | some i ↦ (
          unset_on_threads w inferior.threads (first_watchpoint + i),
          record inferior {
            hardware_watchpoints =
                update (λ b. record b { addr = 0 }) inferior.hardware_watchpoints i;
          },
          true,
        )
      ]

  unfoldable pub enable_single_step : W → Thread → W × Thread
  enable_single_step w thread =
      (configure_single_stepping w thread.tcb 0 1, record thread { ss_enabled = true })

  unfoldable pub disable_single_step : W → Thread → W
  disable_single_step w thread = configure_single_stepping w thread.tcb 0 0
