-- ===== src/Arch/Software/Table.antt =====
-- The table of software breakpoints, and what setting and clearing one does to it and to memory.
use libgdb.Prelude.{
  ℕ, suc, ◌+◌, ◌≡◌, ◌≢◌, refl, ap, ◌∙◌, Bool, true, false, ◌&&◌, List, [], ◌∷◌, set, arith, ◌==◌,
  ==_iff, eq→==, if◌then◌else◌, Bool-cases, Option-cases, inl, inr, Option, none, some,
}
use libgdb.Prelude.Search.{find_index}
use libgdb.Gdb.State.{SwBreak, Inferior}
use libgdb.Arch.Kernel.{Kernel, ReadWord}
use libgdb.Arch.Software.{
  patched, insert_sw_break, find_sw_break, clear_sw_break, place_breakpoint,
  set_software_breakpoint, unset_software_breakpoint,
}

-- A new entry is found under its address, and what other addresses find stays.
pub find-insert :
    (tmp : SwBreak) (table table' : List SwBreak) (address : ℕ)
    → address ≢ 0
    → find_sw_break tmp.addr table ≡ none
    → insert_sw_break tmp table ≡ some table'
    → find_sw_break address table'
      ≡ (if tmp.addr == address then some tmp.orig_word else find_sw_break address table)
unfolding find_sw_break insert_sw_break
find-insert tmp [] table' address ne free e = ground arith
find-insert tmp (b ∷ bs) table' address ne free e = elim (Option-cases (insert_sw_break tmp bs)) [
  | inl full ↦ ground arith
  | inr (bs', room) ↦ ground (arith, find-insert tmp bs bs' address ne)
]

-- With the new entry cleared every address finds what it found before.
pub find-clear-insert :
    (tmp : SwBreak) (table table' : List SwBreak) (address : ℕ)
    → address ≢ 0
    → find_sw_break tmp.addr table ≡ none
    → insert_sw_break tmp table ≡ some table'
    → find_sw_break address (clear_sw_break tmp.addr table') ≡ find_sw_break address table
unfolding find_sw_break insert_sw_break clear_sw_break
find-clear-insert tmp [] table' address ne free e = ground arith
find-clear-insert tmp (b ∷ bs) table' address ne free e =
    elim (Option-cases (insert_sw_break tmp bs)) [
      | inl full ↦ ground arith
      | inr (bs', room) ↦ ground (arith, find-clear-insert tmp bs bs' address ne)
    ]

abbrev pub is_free : SwBreak → Bool
is_free b = b.addr == 0

-- The loop that inserts an entry takes the first free one.
insert_sw_break-full :
    (tmp : SwBreak) (table : List SwBreak) (n : ℕ)
    → find_index is_free table n ≡ none
    → insert_sw_break tmp table ≡ none
unfolding find_index insert_sw_break
insert_sw_break-full tmp [] n e = refl
insert_sw_break-full tmp (b ∷ bs) n e = elim (Bool-cases (b.addr == 0)) [
  | inl free ↦ absurd (ground (arith, free))
  | inr taken ↦
      let rest : find_index is_free bs (n + 1) ≡ none = ground (arith, taken) in
      rw (taken, insert_sw_break-full tmp bs (n + 1) rest) refl
]

insert_sw_break-set :
    (tmp : SwBreak) (table : List SwBreak) (n r : ℕ)
    → find_index is_free table n ≡ some r
    → (p : ℕ) × (r ≡ n + p) × (insert_sw_break tmp table ≡ some (set table p tmp))
unfolding find_index insert_sw_break
insert_sw_break-set tmp [] n r e = absurd (ground arith)
insert_sw_break-set tmp (b ∷ bs) n r e = elim (Bool-cases (b.addr == 0)) [
  | inl free ↦ (0, ground (arith, free), rw free refl)
  | inr taken ↦
      let rest : find_index is_free bs (n + 1) ≡ some r = ground (arith, taken) in
      let (p, here, room) = insert_sw_break-set tmp bs (n + 1) r rest in
      (suc p, omega (arith, here), rw (taken, room) refl)
]

-- The entry for a breakpoint at an address.
abbrev pub new_entry : {W : Type 0} → Kernel W → W → Inferior → ℕ → SwBreak
new_entry k w inferior address = record {
  addr = address;
  orig_word = (k.read_word w inferior.vspace address).value;
}

module _ {W : Type 0} (k : Kernel W) where
  -- What a successful call of `set_software_breakpoint` has done.
  pub record Placed (w : W) (inferior : Inferior) (address : ℕ) (w' : W) (inferior' : Inferior)
      : Type 0 where
    pub table : List SwBreak
    pub inserted :
        insert_sw_break (new_entry k w inferior address) inferior.software_breakpoints ≡ some table
    pub kept : inferior' ≡ record inferior { software_breakpoints = table }
    pub written :
        k.write_word w inferior.vspace address
          (patched (k.read_word w inferior.vspace address).value)
        ≡ (w', 0)

  set_software_breakpoint-Placed :
      (w : W) (inferior : Inferior) (address : ℕ) (w' : W) (inferior' : Inferior)
      → set_software_breakpoint k w inferior address ≡ (w', inferior', true)
      → Placed w inferior address w' inferior'
  unfolding set_software_breakpoint place_breakpoint
  set_software_breakpoint-Placed w inferior address w' inferior' e =
      elim (Option-cases
        (insert_sw_break (new_entry k w inferior address) inferior.software_breakpoints)) [
          | inl full ↦ absurd (ground (arith, full))
          | inr (table, room) ↦ record {
            table = table;
            inserted = room;
            kept = ground (arith, room);
            written = ground (arith, room);
          }
        ]

  found :
      (w : W) (inferior : Inferior) (address : ℕ) (w' : W) (inferior' : Inferior)
      → address ≢ 0
      → find_sw_break address inferior.software_breakpoints ≡ none
      → (p : Placed w inferior address w' inferior')
      → find_sw_break address p.table ≡ some (k.read_word w inferior.vspace address).value
  found w inferior address w' inferior' ne free p =
      find-insert (new_entry k w inferior address) inferior.software_breakpoints p.table address ne
        free p.inserted
      ∙ rw (eq→== address address refl)

  unset-found :
      (w : W) (inferior : Inferior) (address orig_word : ℕ)
      → find_sw_break address inferior.software_breakpoints ≡ some orig_word
      → let back = k.write_word w inferior.vspace address orig_word in
        unset_software_breakpoint k w inferior address ≡ (
          if back.1 == 0
          then (
            back.0,
            record inferior {
              software_breakpoints = clear_sw_break address inferior.software_breakpoints;
            },
            true,
          )
          else (back.0, inferior, false))
  unfolding unset_software_breakpoint
  unset-found w inferior address orig_word e = rw (e, unset_software_breakpoint)

  -- A breakpoint that was set at an address other than 0 where none was: unsetting it writes the word
  -- back that was there before it was set, and if the kernel does so, the entry is cleared. With the
  -- entry cleared the table finds under each address other than 0 what it found before.
  pub unset-set_software_breakpoint :
      (w : W) (inferior : Inferior) (address : ℕ) (w' : W) (inferior' : Inferior) (a : ℕ)
      → address ≢ 0
      → a ≢ 0
      → find_sw_break address inferior.software_breakpoints ≡ none
      → set_software_breakpoint k w inferior address ≡ (w', inferior', true)
      → let back =
          k.write_word w' inferior.vspace address (k.read_word w inferior.vspace address).value in
        let cleared = record inferior' {
          software_breakpoints = clear_sw_break address inferior'.software_breakpoints;
        } in
        (unset_software_breakpoint k w' inferior' address
          ≡ (if back.1 == 0 then (back.0, cleared, true) else (back.0, inferior', false)))
        × (find_sw_break a cleared.software_breakpoints
            ≡ find_sw_break a inferior.software_breakpoints)
  unset-set_software_breakpoint w inferior address w' inferior' a ne na free e =
      let p = set_software_breakpoint-Placed w inferior address w' inferior' e in
      rw p.kept (
        unset-found w' (record inferior { software_breakpoints = p.table }) address _
            (found w inferior address w' inferior' ne free p),
        find-clear-insert (new_entry k w inferior address) inferior.software_breakpoints p.table a
            na free p.inserted,
      )

  -- What the caller gets for the place of the first free entry.
  abbrev pub at_place : W → Inferior → ℕ → Option ℕ → W × Inferior × Bool
  at_place w inferior address none = (w, inferior, false)
  at_place w inferior address (some i) = (
    (k.write_word w inferior.vspace address
        (patched (k.read_word w inferior.vspace address).value)).0,
    record inferior {
      software_breakpoints = set inferior.software_breakpoints i (new_entry k w inferior address);
    },
    true,
  )

  -- set_software_breakpoint does all or nothing. If the old word can be read, the kernel takes the
  -- write of the breakpoint and the table has a free entry, the first free entry has the address
  -- and the old word, and the result is true. In every other case the result is false, and the
  -- inferior and the kernel's state are as before. This is for a kernel that changes nothing when it
  -- reports an error for the write of the breakpoint, and where the breakpoint, once it is written,
  -- is undone by a write of the old word.
  pub set_software_breakpoint-at_place :
      (w : W) (inferior : Inferior) (address : ℕ)
      → let ret = k.read_word w inferior.vspace address in
        let patch = k.write_word w inferior.vspace address (patched ret.value) in
        (patch.1 ≢ 0 → patch.0 ≡ w)
        → (ret.error ≡ 0
            → patch.1 ≡ 0
            → (k.write_word patch.0 inferior.vspace address ret.value).0 ≡ w)
        → set_software_breakpoint k w inferior address ≡ (
            if ret.error == 0 && patch.1 == 0
            then at_place w inferior address (find_index is_free inferior.software_breakpoints 0)
            else (w, inferior, false))
  unfolding set_software_breakpoint place_breakpoint
  set_software_breakpoint-at_place w inferior address unchanged undone =
      elim (Bool-cases (ret.error == 0)) [
        | inr unread ↦ rw unread refl
        | inl read ↦ elim (Bool-cases (patch.1 == 0)) [
          | inr unwritten ↦
              rw (read, unwritten)
                (ap (λ (w' : W). (w', inferior, false))
                  (unchanged (λ e. cc (e, eq→== patch.1 0 e, unwritten))))
          | inl written ↦ elim (Option-cases (find_index is_free inferior.software_breakpoints 0)) [
            | inl full ↦
                rw
                  (
                    read,
                    written,
                    insert_sw_break-full entry inferior.software_breakpoints 0 full,
                    place_breakpoint,
                    full,
                  )
                  (ap (λ (w' : W). (w', inferior, false))
                    (undone ((==_iff ret.error 0).0 read) ((==_iff patch.1 0).0 written)))
            | inr (i, free) ↦
                let (p, here, room) =
                  insert_sw_break-set entry inferior.software_breakpoints 0 i free in
                let same : p ≡ i = omega (arith, here) in
                rw (read, written, room, place_breakpoint, free, same) refl
          ]
        ]
      ]
    where
      ret : ReadWord
      ret = k.read_word w inferior.vspace address

      patch : W × ℕ
      patch = k.write_word w inferior.vspace address (patched ret.value)

      entry : SwBreak
      entry = new_entry k w inferior address
