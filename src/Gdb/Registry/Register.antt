-- ===== src/Gdb/Registry/Register.antt =====
-- Registration of an inferior whose id is new.
use libgdb.Prelude.{
  ltb, ne→==, ℕ, ◌+◌, ◌-◌, ◌%◌, ◌^◌, ◌<◌, ◌≡◌, ◌≢◌, refl, ap, sym, ◌∙◌, Bool, true, false, ◌&&◌,
  arith, ◌==◌, if◌then◌else◌, get_elem?, get_elem?-set_ne, get_elem?-lt, inl, inr, ◌⊎◌, none, some,
  eq→==,
}
use libgdb.Prelude.Outcome.{ok}
use libgdb.Prelude.Search.{free_slot}
use libgdb.Arch.Kernel.{Kernel}
use libgdb.Gdb.State.{Inferior, State, max_pds, no_error, insufficient_resources}
use libgdb.Gdb.ThreadId.{lookup_inferior_from_gdb_id, id_to_index, lookup_inferior_from_id}
use libgdb.Gdb.Registry.{gdb_register_inferior, fresh_inferior, inferior_in_use}
use libgdb.Gdb.Registry.Slots.{Searched, hit, miss, free_slot-Searched, find_index-set}
use libgdb.Gdb.Registry.Invariant.{IsValid, with_entry, set-IsValid, lookup-none}

module _ {W : Type 0} (s : State W) where
  -- Every entry is in use.
  abbrev pub IsFull : Type 0
  IsFull = (i : ℕ) (a : Inferior) → get_elem? s.inferiors i ≡ some a → a.enabled ≡ true

-- Registration has put an entry into a free slot, where its id leads.
pub record Registered {W : Type 0} (s : State W) (inferior_id : ℕ) (s' : State W) (slot : ℕ)
    : Type 0 where
  pub valid : IsValid s'
  pub by_id : lookup_inferior_from_id s'.inferiors inferior_id ≡ some slot
  pub others : (i : ℕ) → i ≢ slot → get_elem? s'.inferiors i ≡ get_elem? s.inferiors i

module _ {W : Type 0} (k : Kernel W) (s : State W) (inferior_id vspace : ℕ) where
  abbrev entry : ℕ → Inferior
  entry idx =
      fresh_inferior inferior_id ((idx + 1) % 2 ^ 16) vspace k.num_exclusive_breakpoints
        k.num_exclusive_watchpoints

  register_searched :
      lookup_inferior_from_id s.inferiors inferior_id ≡ none
      → (idx : ℕ) (found : Bool)
      → free_slot inferior_in_use s.inferiors max_pds s.curr_inferior_idx max_pds ≡ ok (idx, found)
      → gdb_register_inferior k s inferior_id vspace
        ≡ ok (
            if found
            then (with_entry s (idx % max_pds) (idx + 1) (entry idx), no_error)
            else (record s { curr_inferior_idx = idx }, insufficient_resources))
  unfolding gdb_register_inferior
  register_searched free idx true e = rw (free, gdb_register_inferior, e)
  register_searched free idx false e = rw (free, gdb_register_inferior, e)

  new-Registered :
      (new : Inferior) (slot count : ℕ)
      → IsValid s
      → lookup_inferior_from_id s.inferiors inferior_id ≡ none
      → slot < max_pds
      → new.enabled ≡ true
      → new.id ≡ inferior_id
      → (0 < new.gdb_id) × (new.gdb_id < 2 ^ 16) × ((new.gdb_id - 1) % max_pds ≡ slot)
      → Registered s inferior_id (with_entry s slot count new) slot
  unfolding lookup_inferior_from_id
  new-Registered new slot count v free within en same fits = record {
    valid =
        set-IsValid s slot count new v fits
          (λ i a g e q. lookup-none s.inferiors inferior_id i a free g e (q ∙ same));
    by_id =
        find_index-set (λ (x : Inferior). x.enabled && x.id == inferior_id) s.inferiors 0 slot new
          free (rw (en, same) (eq→== inferior_id inferior_id refl)) (omega (arith, v.size))
        ∙ ap some (omega arith);
    others = λ i ne. get_elem?-set_ne s.inferiors slot i new (λ p. ne (sym p));
  }

  -- Registration of an id that no enabled inferior has, in a valid table whose running index plus
  -- 64 is below 2^16. Either it succeeds: the table is valid again, the lookup of the id leads to
  -- the slot that was filled, and every other slot is as it was. Or it reports that resources are
  -- short, the table is as it was, and every entry is in use.
  pub gdb_register_inferior-Registered :
      IsValid s
      → lookup_inferior_from_id s.inferiors inferior_id ≡ none
      → s.curr_inferior_idx + max_pds < 2 ^ 16
      → ((s' : State W) × (slot : ℕ) × (gdb_register_inferior k s inferior_id vspace
            ≡ ok (s', no_error))
          × Registered s inferior_id s' slot)
        ⊎ ((s' : State W) × (gdb_register_inferior k s inferior_id vspace
              ≡ ok (s', insufficient_resources))
            × (s'.inferiors ≡ s.inferiors)
            × IsFull s)
  gdb_register_inferior-Registered v free small = ends (
      free_slot-Searched inferior_in_use s.inferiors max_pds s.curr_inferior_idx max_pds
        (omega arith) (omega (arith, v.size)))
    where
      ends :
          Searched inferior_in_use s.inferiors max_pds s.curr_inferior_idx max_pds
            (free_slot inferior_in_use s.inferiors max_pds s.curr_inferior_idx max_pds)
          → ((s' : State W) × (slot : ℕ) × (gdb_register_inferior k s inferior_id vspace
                ≡ ok (s', no_error))
              × Registered s inferior_id s' slot)
            ⊎ ((s' : State W) × (gdb_register_inferior k s inferior_id vspace
                  ≡ ok (s', insufficient_resources))
                × (s'.inferiors ≡ s.inferiors)
                × IsFull s)
      ends (hit end a from to at unused r) = inl (
        with_entry s (end % max_pds) (end + 1) (entry end),
        end % max_pds,
        register_searched free end true r,
        new-Registered (entry end) (end % max_pds) (end + 1) v free (omega arith) refl refl
            (omega arith, omega arith, omega arith),
      )
      ends (miss used r) = inr (
        record s { curr_inferior_idx = s.curr_inferior_idx + max_pds },
        register_searched free (s.curr_inferior_idx + max_pds) false r,
        refl,
        λ i a g. used_at i a g,
      )
        where
          used_at : IsFull s
          used_at i a g =
              let n = s.curr_inferior_idx + (i + 64 - s.curr_inferior_idx % 64) % 64 in
              let within = get_elem?-lt s.inferiors i a g in
              let at : n % 64 ≡ i = omega (arith, within, v.size) in
              used n a (omega arith) (omega arith) (rw at g)

-- In a valid table the gdb id of an enabled inferior leads to its slot.
pub lookup_inferior_from_gdb_id-IsValid :
    {W : Type 0} (s : State W) (i : ℕ) {a : Inferior}
    → IsValid s
    → get_elem? s.inferiors i ≡ some a
    → a.enabled ≡ true
    → lookup_inferior_from_gdb_id s.inferiors a.gdb_id ≡ ok (some i)
unfolding lookup_inferior_from_gdb_id id_to_index
lookup_inferior_from_gdb_id-IsValid s i {a} v at en =
    let (pos, fits, place) = v.placed i a at en in
    let not_zero = ne→== a.gdb_id 0 (omega arith) in
    let small : ltb a.gdb_id (2 ^ 31) ≡ true = ground arith in
    rw (not_zero, small, place, at, eq→== a.gdb_id a.gdb_id refl)
