-- ===== src/Gdb/Registry/Found.antt =====
-- The entries of the table that the ids of a thread lead to.
use libgdb.Prelude.{ℕ, ◌≡◌, ◌∙◌, ap, some}
use libgdb.Prelude.Outcome.{ok, ◌>>=◌, or_fault, null_pointer}
use libgdb.Gdb.State.{Thread, Inferior, State}
use libgdb.Gdb.ThreadId.{
  inferior_at, thread_at, inferior_of, lookup_inferior_from_id, lookup_thread_from_id,
}

-- Both ids are found, and the thread points back to its inferior.
pub record Found {W : Type 0} (s : State W) (inferior_id thread_id i j : ℕ) (inferior : Inferior)
    (thread : Thread) : Type 0 where
  pub by_id : lookup_inferior_from_id s.inferiors inferior_id ≡ some i
  pub at_slot : inferior_at s.inferiors i ≡ ok inferior
  pub thread_by_id : lookup_thread_from_id inferior thread_id ≡ some j
  pub thread_at_slot : thread_at inferior j ≡ ok thread
  pub owner : thread.inferior ≡ some i

pub inferior_of-Found :
    {W : Type 0} (s : State W) {inferior_id thread_id i j : ℕ} {inferior : Inferior}
    {thread : Thread}
    → Found s inferior_id thread_id i j inferior thread
    → inferior_of s.inferiors thread ≡ ok inferior
inferior_of-Found s f =
    ap (λ o. or_fault o null_pointer >>= inferior_at s.inferiors) f.owner ∙ f.at_slot
