-- ===== src/Arch/Software.antt =====
-- Software breakpoints: an instruction of the target is replaced, and the word is kept.
pub mod Table
use Prim.Native.Nat.{bit_and, bit_or}
use libgdb.Prelude.{
  ℕ, ◌*◌, ◌^◌, Bool, true, false, not, List, [], ◌∷◌, Option, none, some, ◌==◌, if◌then◌else◌,
}
use libgdb.Gdb.State.{SwBreak, Inferior}
use libgdb.Arch.Kernel.{Kernel}

-- AARCH64_BREAK_KGDB_DYN_DBG
abbrev pub aarch64_break_mon : ℕ
aarch64_break_mon = 0xd4200000

abbrev pub kgdb_dyn_dbg_brk_imm : ℕ
kgdb_dyn_dbg_brk_imm = 0x400

abbrev pub break_instruction : ℕ
break_instruction = bit_or aarch64_break_mon (kgdb_dyn_dbg_brk_imm * 2 ^ 5)

-- The word with the instruction in its low half.
unfoldable pub patched : ℕ → ℕ
patched value = bit_or break_instruction (bit_and 0xFFFFFFFF00000000 value)

-- The loop of `set_software_breakpoint`: the first free entry takes the breakpoint; `none` if all
-- are taken.
unfoldable pub insert_sw_break : SwBreak → List SwBreak → Option (List SwBreak)
insert_sw_break tmp [] = none
insert_sw_break tmp (b ∷ bs) =
    let rest = insert_sw_break tmp bs in
    if b.addr == 0 then some (tmp ∷ bs) else elim rest [ none ↦ none | some bs' ↦ some (b ∷ bs') ]

-- The loop of `unset_software_breakpoint`: the saved word of the first entry for the address.
unfoldable pub find_sw_break : ℕ → List SwBreak → Option ℕ
find_sw_break address [] = none
find_sw_break address (b ∷ bs) =
    let rest = find_sw_break address bs in if b.addr == address then some b.orig_word else rest

-- The address of that entry is set to 0.
unfoldable pub clear_sw_break : ℕ → List SwBreak → List SwBreak
clear_sw_break address [] = []
clear_sw_break address (b ∷ bs) =
    let rest = clear_sw_break address bs in
    if b.addr == address then record b { addr = 0 } ∷ bs else b ∷ rest

module _ {W : Type 0} (k : Kernel W) where
  open k use {read_word, write_word}

  -- No entry is free: the old word is written back, whatever that call says.
  unfoldable pub place_breakpoint : W → Inferior → SwBreak → W × Inferior × Bool
  place_breakpoint w inferior tmp = elim (insert_sw_break tmp inferior.software_breakpoints) [
    | some table ↦ (w, record inferior { software_breakpoints = table }, true)
    | none ↦ ((write_word w inferior.vspace tmp.addr tmp.orig_word).0, inferior, false)
  ]

  unfoldable pub set_software_breakpoint : W → Inferior → ℕ → W × Inferior × Bool
  unfolding place_breakpoint
  set_software_breakpoint w inferior address =
      let ret = read_word w inferior.vspace address in
      let tmp : SwBreak = record { addr = address; orig_word = ret.value } in
      if not (ret.error == 0)
      then (w, inferior, false)
      else (let (w', error) = write_word w inferior.vspace address (patched ret.value) in
          if not (error == 0) then (w', inferior, false) else place_breakpoint w' inferior tmp)

  unfoldable pub unset_software_breakpoint : W → Inferior → ℕ → W × Inferior × Bool
  unset_software_breakpoint w inferior address =
      elim (find_sw_break address inferior.software_breakpoints) [
        | none ↦ (w, inferior, true)
        | some orig_word ↦
            let (w', err) = write_word w inferior.vspace address orig_word in
            if err == 0
            then (
              w',
              record inferior {
                software_breakpoints = clear_sw_break address inferior.software_breakpoints;
              },
              true,
            )
            else (w', inferior, false)
      ]
