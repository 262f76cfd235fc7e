-- ===== src/Gdb/Requests/Released.antt =====
-- What the loops of the packet D ask the kernel for, to take the breakpoints of an inferior out.
use libgdb.Prelude.{
  ℕ, ◌+◌, ◌≡◌, ◌≢◌, refl, ap, sym, ◌∙◌, Bool, true, false, Bool-cases, inl, inr, List, [], ◌∷◌,
  ◌++◌, length, map, arith, ◌==◌, ==_iff, eq→==, if◌then◌else◌, Option-cases, some,
}
use mathlib.Core.List.{append_assoc}
use mathlib.Core.Path.{subst}
use libgdb.Prelude.Outcome.{ok}
use libgdb.Arch.Kernel.{Kernel}
use libgdb.Arch.Software.{find_sw_break, clear_sw_break, unset_software_breakpoint}
use libgdb.Gdb.State.{SwBreak, Inferior}
use libgdb.Gdb.Requests.{detach_software}
use libgdb.Gdb.Requests.Places.{AllFixed, AllFixed-behind, get_elem?-behind, length-behind}

-- An entry that is free.
abbrev pub free_sw : SwBreak → SwBreak
free_sw b = record b { addr = 0 }

clear_sw_break-zero : (table : List SwBreak) → clear_sw_break 0 table ≡ table
unfolding clear_sw_break
clear_sw_break-zero [] = refl
clear_sw_break-zero (b ∷ bs) = elim (Bool-cases (b.addr == 0)) [
  | inl e ↦ rw e (ap (λ a. record b { addr = a } ∷ bs) (sym ((==_iff b.addr 0).0 e)))
  | inr e ↦ rw e (ap (λ bs'. b ∷ bs') (clear_sw_break-zero bs))
]

other_sw : (d : SwBreak) (address : ℕ) → free_sw d ≡ d → address ≢ 0 → (d.addr == address) ≡ false
other_sw d address e h =
    let at_zero : 0 ≡ d.addr = ap (λ (x : SwBreak). x.addr) e in ground (arith, at_zero, h)

-- The entries before are free: the next one is found and cleared.
find_sw_break-behind :
    (done : List SwBreak) (b : SwBreak) (rest : List SwBreak)
    → AllFixed free_sw done
    → b.addr ≢ 0
    → find_sw_break b.addr (done ++ (b ∷ rest)) ≡ some b.orig_word
unfolding find_sw_break
find_sw_break-behind [] b rest h ne = rw (eq→== b.addr b.addr refl) refl
find_sw_break-behind (d ∷ ds) b rest (hd, hs) ne =
    rw (other_sw d b.addr hd ne) (find_sw_break-behind ds b rest hs ne)

clear_sw_break-behind :
    (done : List SwBreak) (b : SwBreak) (rest : List SwBreak)
    → AllFixed free_sw done
    → b.addr ≢ 0
    → clear_sw_break b.addr (done ++ (b ∷ rest)) ≡ done ++ (free_sw b ∷ rest)
unfolding clear_sw_break
clear_sw_break-behind [] b rest h ne = rw (eq→== b.addr b.addr refl) refl
clear_sw_break-behind (d ∷ ds) b rest (hd, hs) ne =
    rw (other_sw d b.addr hd ne) (ap (λ l. d ∷ l) (clear_sw_break-behind ds b rest hs ne))

module _ {W : Type 0} (k : Kernel W) where
  -- A kernel that takes writes to every address but 0, where nothing is mapped.
  pub record TakesWrites : Type 0 where
    pub taken :
        (w : W) (vspace address value : ℕ)
        → address ≢ 0
        → (k.write_word w vspace address value).1 ≡ 0
    pub void : (w : W) (vspace value : ℕ) → (k.write_word w vspace 0 value).0 ≡ w

  -- The saved words of the entries in use are written back, in the order of the table.
  abbrev pub restored : W → ℕ → List SwBreak → W
  restored w vspace [] = w
  restored w vspace (b ∷ bs) =
      restored (if b.addr == 0 then w else (k.write_word w vspace b.addr b.orig_word).0) vspace bs

  module _ (writes : TakesWrites) where
    -- Address 0 is searched for when an entry is free.
    unset_software_breakpoint-zero :
        (w : W) (i : Inferior) → (done : Bool) × (unset_software_breakpoint k w i 0 ≡ (w, i, done))
    unfolding unset_software_breakpoint
    unset_software_breakpoint-zero w i =
        elim (Option-cases (find_sw_break 0 i.software_breakpoints)) [
          | inl missing ↦ (true, rw (missing, unset_software_breakpoint) refl)
          | inr (word, found) ↦
              let (w', err) = k.write_word w i.vspace 0 word in
              let same : w' ≡ w = writes.void w i.vspace word in
              elim (Bool-cases (err == 0)) [
                | inl e ↦ (
                  true,
                  rw
                      (
                        found,
                        unset_software_breakpoint,
                        e,
                        clear_sw_break-zero i.software_breakpoints,
                      )
                      (ap (λ (w'' : W). (w'', i, true)) same),
                )
                | inr e ↦ (
                  false,
                  rw (found, unset_software_breakpoint, e) (ap (λ (w'' : W). (w'', i, false)) same),
                )
              ]
        ]

    unset_software_breakpoint-behind :
        (w : W) (i : Inferior) (done : List SwBreak) (b : SwBreak) (rest : List SwBreak)
        → AllFixed free_sw done
        → b.addr ≢ 0
        → unset_software_breakpoint k w
            (record i { software_breakpoints = done ++ (b ∷ rest) })
            b.addr
          ≡ (
            (k.write_word w i.vspace b.addr b.orig_word).0,
            record i { software_breakpoints = done ++ (free_sw b ∷ rest) },
            true,
          )
    unfolding unset_software_breakpoint
    unset_software_breakpoint-behind w i done b rest h ne =
        let accepted =
          eq→== (k.write_word w i.vspace b.addr b.orig_word).1 0
            (writes.taken w i.vspace b.addr b.orig_word ne) in
        rw
          (
            find_sw_break-behind done b rest h ne,
            unset_software_breakpoint,
            accepted,
            clear_sw_break-behind done b rest h ne,
          )
          refl

    -- One round: an entry in use is written back and cleared, and a free one stays.
    unset_software_breakpoint-next :
        (w : W) (i : Inferior) (done : List SwBreak) (b : SwBreak) (rest : List SwBreak)
        → AllFixed free_sw done
        → (success : Bool) × (unset_software_breakpoint k w
              (record i { software_breakpoints = done ++ (b ∷ rest) })
              b.addr
            ≡ (
              if b.addr == 0 then w else (k.write_word w i.vspace b.addr b.orig_word).0,
              record i { software_breakpoints = done ++ (free_sw b ∷ rest) },
              success,
            ))
    unset_software_breakpoint-next w i done b rest h = elim (Bool-cases (b.addr == 0)) [
      | inl unused ↦
          let at_zero : b.addr ≡ 0 = (==_iff b.addr 0).0 unused in
          let (success, step) =
            subst
              (λ a.
                (success : Bool) × (unset_software_breakpoint k w
                    (record i { software_breakpoints = done ++ (b ∷ rest) }) a
                  ≡ (w, record i { software_breakpoints = done ++ (b ∷ rest) }, success)))
              (sym at_zero)
              (unset_software_breakpoint-zero w
                (record i { software_breakpoints = done ++ (b ∷ rest) })) in
          (
            success,
            rw unused (
                step
                ∙ ap
                    (λ a. (
                      w,
                      record i { software_breakpoints = done ++ (record b { addr = a } ∷ rest) },
                      success,
                    ))
                    at_zero),
          )
      | inr used ↦
          (true, rw used (unset_software_breakpoint-behind w i done b rest h (ground arith)))
    ]

    pub detach_software-restored :
        (w : W) (i : Inferior) (table done rest : List SwBreak) (j : ℕ)
        → table ≡ done ++ rest
        → j ≡ length done
        → AllFixed free_sw done
        → detach_software k w (record i { software_breakpoints = table }) j (length rest)
          ≡ ok (
            restored w i.vspace rest,
            record i { software_breakpoints = done ++ map free_sw rest },
          )
    unfolding detach_software
    detach_software-restored w i table done [] j e at h =
        ap (λ t. ok (w, record i { software_breakpoints = t })) e
    detach_software-restored w i table done (b ∷ rest) j e at h =
        let (success, step) = unset_software_breakpoint-next w i done b rest h in
        let w' = if b.addr == 0 then w else (k.write_word w i.vspace b.addr b.orig_word).0 in
        rw (e, at, get_elem?-behind done b rest, step)
          (detach_software-restored w' i (done ++ (free_sw b ∷ rest)) (done ++ (free_sw b ∷ []))
              rest (length done + 1) (sym (append_assoc done (free_sw b ∷ []) rest))
              (sym (length-behind done (free_sw b)))
              (AllFixed-behind free_sw done (free_sw b) h refl)
            ∙ ap (λ t. ok (restored w' i.vspace rest, record i { software_breakpoints = t }))
                (append_assoc done (free_sw b ∷ []) (map free_sw rest)))
