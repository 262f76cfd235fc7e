-- ===== src/Tests/Detach.antt =====
-- The packet D at a concrete state.
use libgdb.Prelude.{ℕ, zero, suc, ◌==◌, if◌then◌else◌, List, [], ◌∷◌, replicate}
use libgdb.Arch.Kernel.{Kernel}
use libgdb.Gdb.State.{Inferior, State, zero_sw_break, zero_hw_break, zero_hw_watch}
use libgdb.Tests.World.{World, kernel, program, debugged}

-- Nothing is mapped at address 0.
abbrev written : World → ℕ → ℕ → World × ℕ
written w addr v = if addr == 0 then (w, 1) else (record w { writes = (addr, v) ∷ w.writes }, 0)

abbrev unmapped : Kernel World
unmapped = record kernel { write_word = λ w vspace addr v. written w addr v }

-- The program with tables of full size, one breakpoint in memory and one in a register.
abbrev full_program : Inferior
full_program = record program {
  software_breakpoints = record { addr = 0x400000; orig_word = 1 } ∷ replicate 31 zero_sw_break;
  hardware_breakpoints = zero_hw_break ∷ record { addr = 0x400020 } ∷ replicate 4 zero_hw_break;
  hardware_watchpoints = replicate 4 zero_hw_watch;
}

abbrev debugging : State World
debugging = record debugged { inferiors = full_program ∷ [] }

-- The word is back, and ten registers are cleared in both threads.
abbrev cleared_log : ℕ → List ℕ
cleared_log n = elim n [ zero ↦ [] | suc (m → rest) ↦ 2012 ∷ 2011 ∷ rest ]
