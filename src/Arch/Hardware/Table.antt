-- ===== src/Arch/Hardware/Table.antt =====
-- The table of hardware breakpoints: setting one and clearing it.
use libgdb.Prelude.{
  ℕ, suc, ◌+◌, ◌≡◌, refl, ap, sym, ◌∙◌, Bool, true, false, List, [], ◌∷◌, arith, ◌==◌, ==_iff,
  eq→==, Bool-cases, Option-cases, if◌then◌else◌, inl, inr, none, some,
}
use libgdb.Prelude.Search.{find_index, update}
use libgdb.Gdb.State.{HwBreak, Thread, Inferior}
use libgdb.Arch.Kernel.{Kernel}
use libgdb.Arch.Hardware.{
  set_on_threads, unset_on_threads, set_hardware_breakpoint, unset_hardware_breakpoint,
}

abbrev is_at : ℕ → HwBreak → Bool
is_at address b = b.addr == address

abbrev moved : ℕ → List HwBreak → ℕ → List HwBreak
moved address table m = update (λ (b : HwBreak). record b { addr = address }) table m

-- What the first free entry of a table is good for: an address that is not in the table is found
-- there once it is put there, and clearing the entry gives the table back.
record IsFree (table : List HwBreak) (n address r : ℕ) : Type 0 where
  place : ℕ
  counted : r ≡ n + place
  found : find_index (is_at address) (moved address table place) n ≡ some r
  back : moved 0 (moved address table place) place ≡ table

find_index-IsFree :
    (table : List HwBreak) (n address r : ℕ)
    → find_index (is_at address) table n ≡ none
    → find_index (is_at 0) table n ≡ some r
    → IsFree table n address r
unfolding find_index update
find_index-IsFree [] n address r new e = absurd (ground arith)
find_index-IsFree (b ∷ bs) n address r new e = elim (Bool-cases (b.addr == 0)) [
  | inl free ↦ record {
    place = 0;
    counted = ground arith;
    found = rw (eq→== address address refl) (ground arith);
    back = ap (λ a. record { addr = a } ∷ bs) (sym ((==_iff b.addr 0).0 free));
  }
  | inr taken ↦
      let f = find_index-IsFree bs (n + 1) address r (ground arith) (ground arith) in
      let other : (b.addr == address) ≡ false = ground arith in
      record {
        place = suc f.place;
        counted = omega (arith, f.counted);
        found = rw other f.found;
        back = ap (λ bs'. b ∷ bs') f.back;
      }
]

-- The tcbs of the threads that are enabled.
abbrev pub enabled_tcbs : List Thread → List ℕ
enabled_tcbs [] = []
enabled_tcbs (t ∷ ts) = if t.enabled then t.tcb ∷ enabled_tcbs ts else enabled_tcbs ts

module _ {W : Type 0} (k : Kernel W) where
  abbrev armed : Inferior → ℕ → ℕ → Inferior
  armed inferior address i = record inferior {
    hardware_breakpoints = moved address inferior.hardware_breakpoints i;
  }

  -- A successful call has put the address into the first free entry.
  set_hardware_breakpoint-armed :
      (w : W) (inferior : Inferior) (address : ℕ) (w' : W) (inferior' : Inferior)
      → set_hardware_breakpoint k w inferior address ≡ (w', inferior', true)
      → (i : ℕ) × (find_index (is_at 0) inferior.hardware_breakpoints 0 ≡ some i)
        × (inferior' ≡ armed inferior address i)
  unfolding set_hardware_breakpoint
  set_hardware_breakpoint-armed w inferior address w' inferior' e =
      elim (Option-cases (find_index (is_at 0) inferior.hardware_breakpoints 0)) [
        | inl full ↦ absurd (ground (arith, full))
        | inr (i, free) ↦
            elim (Bool-cases
              (set_on_threads k w inferior.threads (k.first_breakpoint + i) address
                k.instruction_breakpoint 0 k.break_on_read).1) [
                  | inl done ↦ (i, free, ground (arith, free, done))
                  | inr failed ↦ absurd (ground (arith, free, failed))
                ]
      ]

  unset-found :
      (w : W) (inferior : Inferior) (address i : ℕ)
      → find_index (is_at address) inferior.hardware_breakpoints 0 ≡ some i
      → unset_hardware_breakpoint k w inferior address
        ≡ (unset_on_threads k w inferior.threads (k.first_breakpoint + i), armed inferior 0 i, true)
  unfolding unset_hardware_breakpoint
  unset-found w inferior address i e = rw (e, unset_hardware_breakpoint)

  -- `seL4_TCB_UnsetBreakpoint` on one thread after the other.
  abbrev pub unset_all : W → List ℕ → ℕ → W
  unset_all w [] bp_num = w
  unset_all w (tcb ∷ tcbs) bp_num = unset_all (k.unset_breakpoint w tcb bp_num) tcbs bp_num

  -- Every enabled thread and no other is asked for, in order.
  pub unset_on_threads-unset_all :
      (w : W) (threads : List Thread) (bp_num : ℕ)
      → unset_on_threads k w threads bp_num ≡ unset_all w (enabled_tcbs threads) bp_num
  unfolding unset_on_threads
  unset_on_threads-unset_all w [] bp_num = refl
  unset_on_threads-unset_all w (t ∷ ts) bp_num = elim (Bool-cases t.enabled) [
    | inl on ↦ rw on (unset_on_threads-unset_all (k.unset_breakpoint w t.tcb bp_num) ts bp_num)
    | inr off ↦ rw off (unset_on_threads-unset_all w ts bp_num)
  ]

  -- A hardware breakpoint that was set at an address that was not in the table: unsetting it succeeds,
  -- makes one call of the kernel for each enabled thread of the inferior, in their order, to clear the
  -- register of the entry that was the first free one, and gives the inferior back as it was before the
  -- breakpoint was set.
  pub unset-set_hardware_breakpoint :
      (w : W) (inferior : Inferior) (address : ℕ) (w' : W) (inferior' : Inferior)
      → find_index (λ b. b.addr == address) inferior.hardware_breakpoints 0 ≡ none
      → set_hardware_breakpoint k w inferior address ≡ (w', inferior', true)
      → (i : ℕ) × (find_index (λ b. b.addr == 0) inferior.hardware_breakpoints 0 ≡ some i)
        × (unset_hardware_breakpoint k w' inferior' address ≡ (
          unset_all w' (enabled_tcbs inferior.threads) (k.first_breakpoint + i),
          inferior,
          true,
        ))
  unset-set_hardware_breakpoint w inferior address w' inferior' new e =
      let (i, free, kept) = set_hardware_breakpoint-armed w inferior address w' inferior' e in
      let f = find_index-IsFree inferior.hardware_breakpoints 0 address i new free in
      let here : f.place ≡ i = omega (arith, f.counted) in
      (
        i,
        free,
        rw kept (
            unset-found w' (armed inferior address i) address i (rw here at f.found)
            ∙ ap
                (λ table. (
                  unset_on_threads k w' inferior.threads (k.first_breakpoint + i),
                  record inferior { hardware_breakpoints = table },
                  true,
                ))
                (rw here at f.back)
            ∙ ap (λ (w'' : W). (w'', inferior, true))
                (unset_on_threads-unset_all w' inferior.threads (k.first_breakpoint + i))),
      )
