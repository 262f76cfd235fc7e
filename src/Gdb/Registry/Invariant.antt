-- ===== src/Gdb/Registry/Invariant.antt =====
-- The table of inferiors: its invariant, and a new entry.
use libgdb.Prelude.{
  ℕ, ◌-◌, ◌%◌, ◌^◌, ◌<◌, ◌≡◌, ◌≢◌, ap, sym, ◌∙◌, true, ◌&&◌, List, length, arith, ◌==◌, get_elem?,
  set, length-set, get_elem?-set_self, get_elem?-set_ne, get_elem?-lt, Bool-cases, inl, inr, ◌⊎◌,
  none, some, ==_iff, ne_of,
}
use libgdb.Gdb.State.{Inferior, State, max_pds}
use libgdb.Gdb.ThreadId.{lookup_inferior_from_id}
use libgdb.Gdb.Registry.Slots.{find_index-none}

-- There are 64 entries; an enabled one has a gdb id that leads to its place, and no two have one id.
pub record IsValid {W : Type 0} (s : State W) : Type 0 where
  pub size : length s.inferiors ≡ max_pds
  pub placed :
      (i : ℕ) (a : Inferior)
      → get_elem? s.inferiors i ≡ some a
      → a.enabled ≡ true
      → (0 < a.gdb_id) × (a.gdb_id < 2 ^ 16) × ((a.gdb_id - 1) % max_pds ≡ i)
  pub distinct :
      (i j : ℕ) (a b : Inferior)
      → get_elem? s.inferiors i ≡ some a
      → get_elem? s.inferiors j ≡ some b
      → a.enabled ≡ true
      → b.enabled ≡ true
      → a.id ≡ b.id
      → i ≡ j

-- An entry of a list after a write: the new one, or an old one at another place.
set_cases :
    {A : Type 0} (xs : List A) (j : ℕ) (new : A) (i : ℕ) (a : A)
    → get_elem? (set xs j new) i ≡ some a
    → ((i ≡ j) × (a ≡ new)) ⊎ ((i ≢ j) × (get_elem? xs i ≡ some a))
set_cases xs j new i a g = elim (Bool-cases (i == j)) [
  | inl e ↦
      let same = (==_iff i j).0 e in
      let within = get_elem?-lt (set xs j new) i a g in
      inl (
        same,
        cc (
          g,
          same,
          get_elem?-set_self xs j new (omega (arith, within, same, length-set xs j new)),
        ),
      )
  | inr e ↦ inr (ne_of e, cc (g, get_elem?-set_ne xs j i new (λ p. ne_of e (sym p))))
]

module _ {W : Type 0} (s : State W) (slot count : ℕ) (new : Inferior) where
  -- A new entry with an id of its own and the gdb id of its place keeps the invariant.
  abbrev pub with_entry : State W
  with_entry = record s { curr_inferior_idx = count; inferiors = set s.inferiors slot new }

  pub set-IsValid :
      IsValid s
      → (0 < new.gdb_id) × (new.gdb_id < 2 ^ 16) × ((new.gdb_id - 1) % max_pds ≡ slot)
      → ((i : ℕ) (a : Inferior)
          → get_elem? s.inferiors i ≡ some a
          → a.enabled ≡ true
          → a.id ≢ new.id)
      → IsValid with_entry
  set-IsValid v fits other = record {
    size = length-set s.inferiors slot new ∙ v.size;
    placed = placed_new;
    distinct = distinct_new;
  }
    where
      placed_new :
          (i : ℕ) (a : Inferior)
          → get_elem? (set s.inferiors slot new) i ≡ some a
          → a.enabled ≡ true
          → (0 < a.gdb_id) × (a.gdb_id < 2 ^ 16) × ((a.gdb_id - 1) % max_pds ≡ i)
      placed_new i a g en = elim (set_cases s.inferiors slot new i a g) [
        | inl (p, q) ↦ rw (q, p) fits
        | inr (p, q) ↦ v.placed i a q en
      ]

      distinct_new :
          (i j : ℕ) (a b : Inferior)
          → get_elem? (set s.inferiors slot new) i ≡ some a
          → get_elem? (set s.inferiors slot new) j ≡ some b
          → a.enabled ≡ true
          → b.enabled ≡ true
          → a.id ≡ b.id
          → i ≡ j
      distinct_new i j a b g h ea eb same = elim (set_cases s.inferiors slot new i a g) [
        | inl (p, q) ↦ elim (set_cases s.inferiors slot new j b h) [
          | inl (p', q') ↦ p ∙ sym p'
          | inr (p', q') ↦ absurd (other j b q' eb (sym same ∙ ap (λ x. x.id) q))
        ]
        | inr (p, q) ↦ elim (set_cases s.inferiors slot new j b h) [
          | inl (p', q') ↦ absurd (other i a q ea (same ∙ ap (λ x. x.id) q'))
          | inr (p', q') ↦ v.distinct i j a b q q' ea eb same
        ]
      ]

pub lookup-none :
    (inferiors : List Inferior) (inferior_id i : ℕ) (a : Inferior)
    → lookup_inferior_from_id inferiors inferior_id ≡ none
    → get_elem? inferiors i ≡ some a
    → a.enabled ≡ true
    → a.id ≢ inferior_id
unfolding lookup_inferior_from_id
lookup-none inferiors inferior_id i a e g en same =
    let no_match =
      find_index-none (λ (x : Inferior). x.enabled && x.id == inferior_id) inferiors 0 i a e g in
    ground arith
