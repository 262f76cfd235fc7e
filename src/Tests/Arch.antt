-- ===== src/Tests/Arch.antt =====
-- The theorems on src/arch/arm/64/gdb.c at concrete inputs.
use libgdb.Prelude.{
  some, none, ℕ, ◌+◌, ◌==◌, ◌*◌, ◌%◌, ◌^◌, ◌≡◌, refl, List, [], ◌∷◌, ◌++◌, replicate, arith, true,
  false, drop,
}
use libgdb.Prelude.Search.{find_index, update}
use libgdb.Arch.Hardware.{set_on_threads, set_hardware_breakpoint, unset_hardware_breakpoint}
use libgdb.Arch.Hardware.Table.{unset_all, unset-set_hardware_breakpoint}
use libgdb.Prelude.Outcome.{ok}
use libgdb.Util.Buffer.{Bytes}
use libgdb.Util.Hex.RoundTrip.{hex_digits}
use libgdb.Arch.Regs.{regs2hex, hex2regs}
use libgdb.Arch.Regs.RoundTrip.{IsContext, hex2regs-regs2hex}
use libgdb.Arch.Memory.{inf_hex2mem}
use libgdb.Arch.Memory.Write.{inf_hex2mem-one_write}
use libgdb.Arch.Software.{
  patched, insert_sw_break, find_sw_break, clear_sw_break, place_breakpoint,
  set_software_breakpoint, unset_software_breakpoint,
}
use libgdb.Arch.Software.Table.{unset-set_software_breakpoint, set_software_breakpoint-at_place}
use libgdb.Gdb.State.{zero_hw_break, SwBreak, Inferior, zero_sw_break}
use libgdb.Tests.World.{memory_kernel, World, world, kernel, context, program}

pub context-IsContext : IsContext context
context-IsContext = record {
  count = refl;
  words = omega arith;
  sp_word = omega arith;
  pc_word = omega arith;
  spsr_word = omega arith;
}

hex2regs-regs2hex_example :
    (buf' : Bytes) × (regs2hex context (replicate 600 7) 0 ≡ ok (buf', 536))
    × (hex2regs (record context { spsr = 3 * 2 ^ 32 + 1; tpidr_el0 = 4 }) buf'
        ≡ ok (
          record context { spsr = context.spsr % 2 ^ 32 + 2 ^ 32 * 3; tpidr_el0 = 4 },
          0 ∷ drop 537 (replicate 600 7),
        ))
hex2regs-regs2hex_example =
    hex2regs-regs2hex (record context { spsr = 3 * 2 ^ 32 + 1; tpidr_el0 = 4 }) context
      (replicate 600 7) context-IsContext (omega arith)

-- A write of two bytes at 0x1000 lands at 0x1001: the word there is 0x1000 with its low half replaced.
inf_hex2mem-one_write_example :
    inf_hex2mem kernel world 9 (hex_digits (0xab ∷ 0xcd ∷ []) ++ (0 ∷ [])) 0x1000 2
    ≡ ok (record world { writes = (0x1001, 0xcdab) ∷ [] }, 0x1001 + 11)
inf_hex2mem-one_write_example =
    inf_hex2mem-one_write kernel world 9 0xab (0xcd ∷ []) (0 ∷ []) 0x1000 (omega arith)
      (omega arith) (omega arith) refl

abbrev table : List SwBreak
table =
    record { addr = 0x400000; orig_word = 1 }
    ∷ record { addr = 0x400010; orig_word = 0x400010 }
    ∷ zero_sw_break
    ∷ []

abbrev armed : World
armed = record world { writes = (0x400010, 0xd4208000) ∷ [] }

abbrev armed_program : Inferior
armed_program = record program { software_breakpoints = table }

set_run : set_software_breakpoint kernel world program 0x400010 ≡ (armed, armed_program, true)
unfolding set_software_breakpoint place_breakpoint insert_sw_break patched
set_run = refl

unset-set_software_breakpoint_example :
    (unset_software_breakpoint kernel armed armed_program 0x400010 ≡ (
      record armed { writes = (0x400010, 0x400010) ∷ armed.writes },
      record armed_program { software_breakpoints = clear_sw_break 0x400010 table },
      true,
    ))
    × (find_sw_break 0x400000 (clear_sw_break 0x400010 table)
        ≡ find_sw_break 0x400000 program.software_breakpoints)
unset-set_software_breakpoint_example =
    unset-set_software_breakpoint kernel world program 0x400010 armed armed_program 0x400000
      (omega arith) (omega arith) (unfold find_sw_break in refl) set_run

-- A table without a free entry.
abbrev full_program : Inferior
full_program = record program {
  software_breakpoints = record { addr = 0x400000; orig_word = 1 } ∷ [];
}

-- The breakpoint is taken out of the memory again.
abbrev memory : List (ℕ × ℕ)
memory = (0x400008, 1) ∷ (0x400010, 2) ∷ []

set_software_breakpoint-at_place_example :
    set_software_breakpoint memory_kernel memory full_program 0x400010
    ≡ (memory, full_program, false)
unfolding find_index
set_software_breakpoint-at_place_example =
    set_software_breakpoint-at_place memory_kernel memory full_program 0x400010
      (λ n. absurd (n refl)) (λ e e'. refl)

-- Two debug registers, both free.
abbrev plain_program : Inferior
plain_program = record program { hardware_breakpoints = zero_hw_break ∷ zero_hw_break ∷ [] }

abbrev caught_program : Inferior
caught_program = record program {
  hardware_breakpoints = record { addr = 0x400020 } ∷ zero_hw_break ∷ [];
}

hardware_run :
    set_hardware_breakpoint kernel world plain_program 0x400020 ≡ (world, caught_program, true)
unfolding set_hardware_breakpoint set_on_threads find_index update
hardware_run = refl

plain_new : find_index (λ b. b.addr == 0x400020) plain_program.hardware_breakpoints 0 ≡ none
unfolding find_index
plain_new = refl

unset-set_hardware_breakpoint_example :
    (i : ℕ) × (find_index (λ b. b.addr == 0) plain_program.hardware_breakpoints 0 ≡ some i)
    × (unset_hardware_breakpoint kernel world caught_program 0x400020
        ≡ (unset_all kernel world (11 ∷ 12 ∷ []) (0 + i), plain_program, true))
unset-set_hardware_breakpoint_example =
    unset-set_hardware_breakpoint kernel world plain_program 0x400020 world caught_program plain_new
      hardware_run
