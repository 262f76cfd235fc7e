-- ===== src/Prelude/Search.antt =====
-- Search loops over arrays, and the change of one entry.
use Prim.Native.Nat.{ℕ, zero, suc, ◌+◌, ◌%◌}
use mathlib.Core.Bool.{Bool, true, false}
use mathlib.Core.Option.{Option, none, some}
use mathlib.Core.List.{List, [], ◌∷◌}
use libgdb.Prelude.Tests.{if◌then◌else◌}
use libgdb.Prelude.Lists.{get_elem?}
use libgdb.Prelude.Outcome.{Outcome, ok, out_of_bounds, or_fault, ◌>>=◌}

-- The index of the first entry that passes a test, counted from `i`; `none` if the loop runs out.
unfoldable pub find_index : {A : Type 0} → (A → Bool) → List A → ℕ → Option ℕ
find_index test [] i = none
find_index test (b ∷ bs) i =
    let rest = find_index test bs (i + 1) in if test b then some i else rest

-- A change of the entry at an index.
unfoldable pub update : {A : Type 0} → (A → A) → List A → ℕ → List A
update f [] i = []
update f (b ∷ bs) zero = f b ∷ bs
update f (b ∷ bs) (suc i) = b ∷ update f bs i

-- From a running index on, round an array of `m` entries, the first that is not in use. The results
-- are the index where the loop ends, and whether it found an entry.
unfoldable pub free_slot : {A : Type 0} → (A → Bool) → List A → ℕ → ℕ → ℕ → Outcome (ℕ × Bool)
free_slot in_use entries m idx zero = ok (idx, false)
free_slot in_use entries m idx (suc rounds) =
    let rest = free_slot in_use entries m (idx + 1) rounds in
    (or_fault (get_elem? entries (idx % m)) out_of_bounds >>= λ entry.
    if in_use entry then rest else ok (idx, true))
