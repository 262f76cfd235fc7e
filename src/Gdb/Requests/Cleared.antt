-- ===== src/Gdb/Requests/Cleared.antt =====
-- The debug registers that the packet D asks the kernel to clear.
use libgdb.Prelude.{
  ℕ, ◌+◌, ◌≡◌, ◌≢◌, refl, ap, sym, ◌∙◌, true, false, Bool-cases, inl, inr, List, [], ◌∷◌, ◌++◌,
  length, map, arith, ◌==◌, ==_iff, eq→==, if◌then◌else◌,
}
use mathlib.Core.List.{append_assoc}
use libgdb.Prelude.Outcome.{ok}
use libgdb.Arch.Kernel.{Kernel}
use libgdb.Arch.Hardware.{is_watch, unset_hardware_breakpoint, unset_hardware_watchpoint}
use libgdb.Arch.Hardware.Table.{enabled_tcbs, unset_all, unset_on_threads-unset_all}
use libgdb.Gdb.State.{HwBreak, HwWatch, Inferior}
use libgdb.Gdb.Requests.{detach_hardware, detach_watchpoints}
use libgdb.Gdb.Requests.Places.{
  first_like, AllFixed, AllFixed-behind, get_elem?-behind, length-behind, find_index-first_like,
  update-first_like, first_like-length,
}

abbrev pub free_hw : HwBreak → HwBreak
free_hw b = record b { addr = 0 }

abbrev pub free_watch : HwWatch → HwWatch
free_watch b = record b { addr = 0 }

itself : (b : HwWatch) → is_watch b.addr b.type b.size b ≡ true
itself b =
    let addr = eq→== b.addr b.addr refl in
    let type = eq→== b.type b.type refl in
    let size = eq→== b.size b.size refl in rw (addr, type, size) refl

is_watch-addr : (b d : HwWatch) → is_watch b.addr b.type b.size d ≡ true → d.addr ≡ b.addr
is_watch-addr b d e = ground arith

other_watch : (b d : HwWatch) → 0 ≡ d.addr → b.addr ≢ 0 → is_watch b.addr b.type b.size d ≡ false
other_watch b d at_zero ne = ground arith

module _ {W : Type 0} (k : Kernel W) where
  -- The register of each entry is cleared in the threads, in the order of the table. For an entry that
  -- is free it is that of the first earlier entry like it, if there is one. `done` are the entries
  -- before, as they are now.
  abbrev pub hardware_cleared : W → List ℕ → List HwBreak → List HwBreak → W
  hardware_cleared w tcbs done [] = w
  hardware_cleared w tcbs done (b ∷ bs) =
      let place = first_like (λ (d : HwBreak). d.addr == b.addr) done in
      hardware_cleared
        (unset_all k w tcbs (k.first_breakpoint + (if b.addr == 0 then place else length done)))
        tcbs (done ++ (free_hw b ∷ [])) bs

  abbrev pub watches_cleared : W → List ℕ → List HwWatch → List HwWatch → W
  watches_cleared w tcbs done [] = w
  watches_cleared w tcbs done (b ∷ bs) =
      let place = first_like (is_watch b.addr b.type b.size) done in
      watches_cleared
        (unset_all k w tcbs (k.first_watchpoint + (if b.addr == 0 then place else length done)))
        tcbs (done ++ (free_watch b ∷ [])) bs

  -- One round for a hardware breakpoint.
  unset_hardware_breakpoint-next :
      (w : W) (i : Inferior) (done : List HwBreak) (b : HwBreak) (rest : List HwBreak)
      → AllFixed free_hw done
      → let place = first_like (λ (d : HwBreak). d.addr == b.addr) done in
        unset_hardware_breakpoint k w
          (record i { hardware_breakpoints = done ++ (b ∷ rest) })
          b.addr
        ≡ (
          unset_all k w
              (enabled_tcbs i.threads)
              (k.first_breakpoint + (if b.addr == 0 then place else length done)),
          record i { hardware_breakpoints = done ++ (free_hw b ∷ rest) },
          true,
        )
  unfolding unset_hardware_breakpoint
  unset_hardware_breakpoint-next w i done b rest h =
      let same = λ (d : HwBreak). d.addr == b.addr in
      let found = find_index-first_like same done b rest (eq→== b.addr b.addr refl) in
      let cleared = update-first_like same free_hw done b rest h (λ d e like.
        let at_zero : 0 ≡ d.addr = ap (λ (x : HwBreak). x.addr) e in
        ap (λ a. record b { addr = a }) (at_zero ∙ (==_iff d.addr b.addr).0 like)) in
      let place : first_like same done
          ≡ (if b.addr == 0 then first_like same done else length done) =
        elim (Bool-cases (b.addr == 0)) [
          | inl unused ↦ rw unused refl
          | inr used ↦ rw used (
              first_like-length same free_hw done h
                (λ d e. let at_zero : 0 ≡ d.addr = ap (λ (x : HwBreak). x.addr) e in ground arith))
        ] in
      rw (found, unset_hardware_breakpoint, cleared)
        (ap (λ (w' : W). (w', record i { hardware_breakpoints = done ++ (free_hw b ∷ rest) }, true))
          (unset_on_threads-unset_all k w i.threads (k.first_breakpoint + first_like same done)
            ∙ ap (λ n. unset_all k w (enabled_tcbs i.threads) (k.first_breakpoint + n)) place))

  pub detach_hardware-cleared :
      (w : W) (i : Inferior) (table done rest : List HwBreak) (j : ℕ)
      → table ≡ done ++ rest
      → j ≡ length done
      → AllFixed free_hw done
      → detach_hardware k w (record i { hardware_breakpoints = table }) j (length rest)
        ≡ ok (
          hardware_cleared w (enabled_tcbs i.threads) done rest,
          record i { hardware_breakpoints = done ++ map free_hw rest },
        )
  unfolding detach_hardware
  detach_hardware-cleared w i table done [] j e at h =
      ap (λ t. ok (w, record i { hardware_breakpoints = t })) e
  detach_hardware-cleared w i table done (b ∷ rest) j e at h =
      let place = first_like (λ (d : HwBreak). d.addr == b.addr) done in
      let w' =
        unset_all k w (enabled_tcbs i.threads)
          (k.first_breakpoint + (if b.addr == 0 then place else length done)) in
      let done' = done ++ (free_hw b ∷ []) in
      rw (e, at, get_elem?-behind done b rest, unset_hardware_breakpoint-next w i done b rest h)
        (detach_hardware-cleared w' i (done ++ (free_hw b ∷ rest)) done' rest (length done + 1)
            (sym (append_assoc done (free_hw b ∷ []) rest)) (sym (length-behind done (free_hw b)))
            (AllFixed-behind free_hw done (free_hw b) h refl)
          ∙ ap
              (λ t. ok (
                hardware_cleared w' (enabled_tcbs i.threads) done' rest,
                record i { hardware_breakpoints = t },
              ))
              (append_assoc done (free_hw b ∷ []) (map free_hw rest)))

  -- One round for a watchpoint.
  unset_hardware_watchpoint-next :
      (w : W) (i : Inferior) (done : List HwWatch) (b : HwWatch) (rest : List HwWatch)
      → AllFixed free_watch done
      → let place = first_like (is_watch b.addr b.type b.size) done in
        unset_hardware_watchpoint k w
          (record i { hardware_watchpoints = done ++ (b ∷ rest) })
          b.addr
          b.type
          b.size
        ≡ (
          unset_all k w
              (enabled_tcbs i.threads)
              (k.first_watchpoint + (if b.addr == 0 then place else length done)),
          record i { hardware_watchpoints = done ++ (free_watch b ∷ rest) },
          true,
        )
  unfolding unset_hardware_watchpoint
  unset_hardware_watchpoint-next w i done b rest h =
      let same = is_watch b.addr b.type b.size in
      let found = find_index-first_like same done b rest (itself b) in
      let cleared = update-first_like same free_watch done b rest h (λ d e like.
        let at_zero : 0 ≡ d.addr = ap (λ (x : HwWatch). x.addr) e in
        ap (λ a. record b { addr = a }) (at_zero ∙ is_watch-addr b d like)) in
      let place : first_like same done
          ≡ (if b.addr == 0 then first_like same done else length done) =
        elim (Bool-cases (b.addr == 0)) [
          | inl unused ↦ rw unused refl
          | inr used ↦ rw used (
              first_like-length same free_watch done h
                (λ d e. other_watch b d (ap (λ (x : HwWatch). x.addr) e) (ground arith)))
        ] in
      rw (found, unset_hardware_watchpoint, cleared)
        (ap
          (λ (w' : W).
            (w', record i { hardware_watchpoints = done ++ (free_watch b ∷ rest) }, true))
          (unset_on_threads-unset_all k w i.threads (k.first_watchpoint + first_like same done)
            ∙ ap (λ n. unset_all k w (enabled_tcbs i.threads) (k.first_watchpoint + n)) place))

  pub detach_watchpoints-cleared :
      (w : W) (i : Inferior) (table done rest : List HwWatch) (j : ℕ)
      → table ≡ done ++ rest
      → j ≡ length done
      → AllFixed free_watch done
      → detach_watchpoints k w (record i { hardware_watchpoints = table }) j (length rest)
        ≡ ok (
          watches_cleared w (enabled_tcbs i.threads) done rest,
          record i { hardware_watchpoints = done ++ map free_watch rest },
        )
  unfolding detach_watchpoints
  detach_watchpoints-cleared w i table done [] j e at h =
      ap (λ t. ok (w, record i { hardware_watchpoints = t })) e
  detach_watchpoints-cleared w i table done (b ∷ rest) j e at h =
      let place = first_like (is_watch b.addr b.type b.size) done in
      let w' =
        unset_all k w (enabled_tcbs i.threads)
          (k.first_watchpoint + (if b.addr == 0 then place else length done)) in
      let done' = done ++ (free_watch b ∷ []) in
      rw (e, at, get_elem?-behind done b rest, unset_hardware_watchpoint-next w i done b rest h)
        (detach_watchpoints-cleared w' i (done ++ (free_watch b ∷ rest)) done' rest
            (length done + 1) (sym (append_assoc done (free_watch b ∷ []) rest))
            (sym (length-behind done (free_watch b)))
            (AllFixed-behind free_watch done (free_watch b) h refl)
          ∙ ap
              (λ t. ok (
                watches_cleared w' (enabled_tcbs i.threads) done' rest,
                record i { hardware_watchpoints = t },
              ))
              (append_assoc done (free_watch b ∷ []) (map free_watch rest)))
