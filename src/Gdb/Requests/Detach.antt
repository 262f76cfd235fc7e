-- ===== src/Gdb/Requests/Detach.antt =====
-- What the packet D leaves behind.
use libgdb.Prelude.{ℕ, ◌≡◌, true, false, ◌&&◌, List, [], ◌∷◌, length, map, if◌then◌else◌}
use libgdb.Arch.Kernel.{Kernel}
use libgdb.Arch.Hardware.Table.{enabled_tcbs}
use libgdb.Gdb.State.{max_sw_breaks, Thread, Inferior, State}
use libgdb.Gdb.Requests.{without_breakpoints}
use libgdb.Gdb.Requests.Released.{restored}
use libgdb.Gdb.Requests.Cleared.{hardware_cleared, watches_cleared}

-- A thread that is no longer debugged.
abbrev pub freed : Thread → Thread
freed t = if t.enabled then record t { ss_enabled = false; wakeup = true } else t

-- The tcbs of the enabled threads that are stepping.
abbrev pub stepping_tcbs : List Thread → List ℕ
stepping_tcbs [] = []
stepping_tcbs (t ∷ ts) =
    if t.enabled && t.ss_enabled then t.tcb ∷ stepping_tcbs ts else stepping_tcbs ts

module _ {W : Type 0} (k : Kernel W) where
  -- The arrays of an inferior have the sizes of their types.
  pub record IsSized (i : Inferior) : Type 0 where
    pub software : length i.software_breakpoints ≡ max_sw_breaks
    pub hardware : length i.hardware_breakpoints ≡ k.num_exclusive_breakpoints
    pub watchpoints : length i.hardware_watchpoints ≡ k.num_exclusive_watchpoints

  abbrev pub AllSized : List Inferior → Type 0
  AllSized [] = Unit {0}
  AllSized (i ∷ is) = IsSized i × AllSized is

  abbrev pub detached : Inferior → Inferior
  detached i =
      if i.enabled then record (without_breakpoints k i) { threads = map freed i.threads } else i

  -- Single stepping is switched off in one thread after the other.
  abbrev pub unstep_all : W → List ℕ → W
  unstep_all w [] = w
  unstep_all w (tcb ∷ tcbs) = unstep_all (k.configure_single_stepping w tcb 0 0) tcbs

  -- What the kernel is asked for an inferior: the words back into memory, the registers of the
  -- breakpoints and of the watchpoints cleared in its enabled threads, and the stepping switched off.
  abbrev pub undone : W → Inferior → W
  undone w i =
      let tcbs = enabled_tcbs i.threads in
      unstep_all
        (watches_cleared k
          (hardware_cleared k (restored k w i.vspace i.software_breakpoints) tcbs []
            i.hardware_breakpoints)
          tcbs [] i.hardware_watchpoints)
        (stepping_tcbs i.threads)

  -- The enabled inferiors, one after the other.
  abbrev pub all_undone : W → List Inferior → W
  all_undone w [] = w
  all_undone w (i ∷ is) = all_undone (if i.enabled then undone w i else w) is
