-- ===== src/Gdb/Registry/Exit.antt =====
-- The exit of a thread.
use libgdb.Prelude.{
  ℕ, suc, ◌+◌, ◌≡◌, ◌≢◌, refl, ap, ◌∙◌, Bool, true, false, ◌&&◌, List, [], ◌∷◌, ◌++◌, length, arith,
  ◌==◌, Bool-cases, inl, inr, get_elem?, set, get_elem?-set_self, get_elem?-lt, Option, none, some,
}
use libgdb.Prelude.Outcome.{ok, ◌>>=◌, or_fault, out_of_bounds, null_pointer}
use libgdb.Prelude.Search.{find_index}
use libgdb.Prelude.Text.{codes}
use libgdb.Arch.Kernel.{Kernel}
use libgdb.Gdb.State.{bufsize, Thread, Inferior, State, no_error}
use libgdb.Gdb.ThreadId.{inferior_at, inferior_of, lookup_thread_from_id}
use libgdb.Gdb.ThreadId.Text.{thread_id_text}
use libgdb.Gdb.Registry.{set_inferior, gdb_thread_exit}
use libgdb.Gdb.Registry.Found.{Found}
use libgdb.Gdb.Registry.Report.{with_text, put_text-front, put_thread_id-behind}

-- A search ends at an entry that passes the test.
find_index-some :
    {A : Type 0} (test : A → Bool) (xs : List A) (n r : ℕ)
    → find_index test xs n ≡ some r
    → (m : ℕ) × (r ≡ n + m) × ((a : A) × (get_elem? xs m ≡ some a) × (test a ≡ true))
unfolding find_index
find_index-some test [] n r e = absurd (ground arith)
find_index-some test (x ∷ xs) n r e = elim (Bool-cases (test x)) [
  | inl t ↦ (0, ground arith, (x, refl, t))
  | inr f ↦
      let (m, p, found) = find_index-some test xs (n + 1) r (ground arith) in
      (suc m, omega arith, found)
]

-- The inferior with the thread in slot `j` disabled.
abbrev pub without : Inferior → ℕ → Thread → Inferior
without inferior j thread = record inferior {
  threads = set inferior.threads j (record thread { enabled = false });
}

at_some : {A : Type 0} (o : Option A) (a : A) → or_fault o out_of_bounds ≡ ok a → o ≡ some a
at_some none a e = absurd (ground arith)
at_some (some b) a e = ground arith

-- A disabled entry is not what a lookup ends at.
lookup-without :
    (inferior : Inferior) (thread_id j : ℕ) (thread : Thread)
    → get_elem? inferior.threads j ≡ some thread
    → lookup_thread_from_id (without inferior j thread) thread_id ≢ some j
unfolding lookup_thread_from_id
lookup-without inferior thread_id j thread at e =
    let (m, p, (a, g, t)) =
      find_index-some (λ (x : Thread). x.enabled && x.id == thread_id)
        (without inferior j thread).threads 0 j e in
    let here : j ≡ m = omega arith in
    let disabled =
      get_elem?-set_self inferior.threads j (record thread { enabled = false })
        (get_elem?-lt inferior.threads j thread at) in
    let same : a ≡ record thread { enabled = false } = cc (g, here, disabled) in
    ground (arith, rw same at t)

module _ {W : Type 0} (k : Kernel W) (s : State W) (inferior_id thread_id : ℕ) {i j : ℕ}
    {inferior : Inferior} {thread : Thread} where
  -- The exit of a thread that both lookups find, which points back to its inferior, with a buffer of
  -- BUFSIZE bytes: the thread is disabled, nothing else of the tables changes, its id no longer leads
  -- to its slot, and the answer is w00 and the id of the thread.
  pub gdb_thread_exit-without :
      Found s inferior_id thread_id i j inferior thread
      → length s.output ≡ bufsize
      → (gdb_thread_exit k s inferior_id thread_id
          ≡ ok (
            with_text
                (set_inferior s i (without inferior j thread))
                (codes "w00;" ++ thread_id_text inferior.gdb_id thread.gdb_id),
            no_error,
          ))
        × (lookup_thread_from_id (without inferior j thread) thread_id ≢ some j)
  unfolding gdb_thread_exit
  gdb_thread_exit-without f room = (
    rw (
      f.by_id,
      gdb_thread_exit,
      f.at_slot,
      ◌>>=◌,
      f.thread_by_id,
      f.thread_at_slot,
      put_text-front s' "w00;" (ground arith) (omega arith) (omega arith),
      put_thread_id-behind s' (codes "w00;") (record thread { enabled = false })
          {inferior = without inferior j thread} (ground arith) (omega arith) owner (omega arith),
    ),
    lookup-without inferior thread_id j thread (at_some _ _ f.thread_at_slot),
  )
    where
      s' : State W
      s' = set_inferior s i (without inferior j thread)

      owner :
          inferior_of s'.inferiors (record thread { enabled = false })
          ≡ ok (without inferior j thread)
      owner =
          ap (λ o. or_fault o null_pointer >>= inferior_at s'.inferiors) f.owner
          ∙ (ap (λ o. or_fault o out_of_bounds)
              (get_elem?-set_self s.inferiors i (without inferior j thread)
                (get_elem?-lt s.inferiors i inferior (at_some _ _ f.at_slot))))
