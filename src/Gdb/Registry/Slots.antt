-- ===== src/Gdb/Registry/Slots.antt =====
-- The arrays of inferiors and threads: where an entry goes, and by which ids it is found.
use libgdb.Prelude.{
  ℕ, zero, suc, ◌+◌, ◌%◌, ◌≤◌, ◌<◌, ◌≡◌, ap, ◌∙◌, Bool, true, false, List, [], ◌∷◌, length, arith,
  ◌==◌, get_elem?, set, get_elem?-some, Bool-cases, inl, inr, none, some, ==_iff, ne_of,
}
use libgdb.Prelude.Outcome.{Outcome, ok}
use libgdb.Prelude.Search.{find_index, free_slot}

-- Where the search for a free entry ends: at an entry that is not in use, or after all its rounds.
pub data Searched {A : Type 0} (in_use : A → Bool) (entries : List A) (m idx rounds : ℕ)
    (r : Outcome (ℕ × Bool)) : Type 0 where
  hit :
      (end : ℕ) (a : A)
      → idx ≤ end
      → end < idx + rounds
      → get_elem? entries (end % m) ≡ some a
      → in_use a ≡ false
      → r ≡ ok (end, true)
      → Searched in_use entries m idx rounds r
  miss :
      ((i : ℕ) (a : A)
        → idx ≤ i
        → i < idx + rounds
        → get_elem? entries (i % m) ≡ some a
        → in_use a ≡ true)
      → r ≡ ok (idx + rounds, false)
      → Searched in_use entries m idx rounds r

free_slot-miss :
    {A : Type 0} (in_use : A → Bool) (entries : List A) (m idx rounds : ℕ) (b : A)
    → get_elem? entries (idx % m) ≡ some b
    → in_use b ≡ true
    → Searched in_use entries m (idx + 1) rounds (free_slot in_use entries m (idx + 1) rounds)
    → Searched in_use entries m idx (suc rounds) (free_slot in_use entries m idx (suc rounds))
unfolding free_slot
free_slot-miss in_use entries m idx rounds b e u (hit end a from to at free r) =
    hit end a (omega arith) (omega arith) at free (rw (e, u) r)
free_slot-miss in_use entries m idx rounds b e u (miss used r) =
    miss
      (λ i a p q g. elim (Bool-cases (i == idx)) [
        | inl same ↦ cc (e, u, g, (==_iff i idx).0 same)
        | inr other ↦ used i a (omega (arith, ne_of other)) (omega arith) g
      ])
      (rw (e, u) (r ∙ ap (λ n. ok (n, false)) (omega arith)))

pub free_slot-Searched :
    {A : Type 0} (in_use : A → Bool) (entries : List A) (m idx rounds : ℕ)
    → 0 < m
    → m ≤ length entries
    → Searched in_use entries m idx rounds (free_slot in_use entries m idx rounds)
free_slot-Searched in_use entries m idx zero pos h =
    miss (λ i a p q. absurd (omega arith))
      (unfold free_slot in ap (λ n. ok (n, false)) (omega arith))
free_slot-Searched in_use entries m idx (suc rounds) pos h =
    let (b, e) = get_elem?-some entries (idx % m) (omega arith) in
    elim (Bool-cases (in_use b)) [
      | inl u ↦
          free_slot-miss in_use entries m idx rounds b e u
            (free_slot-Searched in_use entries m (idx + 1) rounds pos h)
      | inr f ↦ hit idx b (omega arith) (omega arith) e f (unfold free_slot in rw (e, f))
    ]

-- A search that found nothing finds the new entry.
pub find_index-set :
    {A : Type 0} (test : A → Bool) (xs : List A) (n i : ℕ) (a : A)
    → find_index test xs n ≡ none
    → test a ≡ true
    → i < length xs
    → find_index test (set xs i a) n ≡ some (n + i)
unfolding find_index
find_index-set test [] n i a e t h = absurd (omega arith)
find_index-set test (x ∷ xs) n zero a e t h = rw t (ap some (omega arith))
find_index-set test (x ∷ xs) n (suc i) a e t h = ground (arith, find_index-set test xs (n + 1) i a)

-- A search that found nothing passed over every entry.
pub find_index-none :
    {A : Type 0} (test : A → Bool) (xs : List A) (n i : ℕ) (a : A)
    → find_index test xs n ≡ none
    → get_elem? xs i ≡ some a
    → test a ≡ false
unfolding find_index
find_index-none test [] n i a e g = ground arith
find_index-none test (x ∷ xs) n zero a e g = ground arith
find_index-none test (x ∷ xs) n (suc i) a e g = ground (arith, find_index-none test xs (n + 1) i a)
