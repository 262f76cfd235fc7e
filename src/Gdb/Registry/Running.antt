-- ===== src/Gdb/Registry/Running.antt =====
-- Which threads the kernel is asked to suspend and to resume.
use libgdb.Prelude.{
  ℕ, ◌≡◌, refl, ap, Bool, ◌&&◌, List, [], ◌∷◌, ◌++◌, if◌then◌else◌, Bool-cases, inl, inr,
}
use libgdb.Arch.Kernel.{Kernel}
use libgdb.Gdb.State.{Thread, Inferior, State}
use libgdb.Gdb.Registry.{
  suspend_threads, suspend_inferiors, suspend_system, resume_threads, resume_inferiors,
  resume_system,
}

-- The capabilities of the threads that pass a test, in the order of the arrays.
abbrev pub tcbs_of : (Thread → Bool) → List Thread → List ℕ
tcbs_of test [] = []
tcbs_of test (t ∷ ts) = if test t then t.tcb ∷ tcbs_of test ts else tcbs_of test ts

abbrev pub all_tcbs : (Thread → Bool) → List Inferior → List ℕ
all_tcbs test [] = []
all_tcbs test (i ∷ is) =
    if i.enabled then tcbs_of test i.threads ++ all_tcbs test is else all_tcbs test is

abbrev pub is_live : Thread → Bool
is_live t = t.enabled

abbrev pub is_woken : Thread → Bool
is_woken t = t.enabled && t.wakeup

-- A kernel call for each capability, one after the other.
abbrev pub each : {W : Type 0} → (W → ℕ → W) → W → List ℕ → W
each call w [] = w
each call w (tcb ∷ tcbs) = each call (call w tcb) tcbs

each-append :
    {W : Type 0} (call : W → ℕ → W) (w : W) (xs ys : List ℕ)
    → each call w (xs ++ ys) ≡ each call (each call w xs) ys
each-append call w [] ys = refl
each-append call w (x ∷ xs) ys = each-append call (call w x) xs ys

module _ {W : Type 0} (k : Kernel W) where
  suspend_threads-each :
      (w : W) (ts : List Thread) → suspend_threads k w ts ≡ each k.suspend w (tcbs_of is_live ts)
  unfolding suspend_threads
  suspend_threads-each w [] = refl
  suspend_threads-each w (t ∷ ts) = elim (Bool-cases t.enabled) [
    | inl e ↦ rw e (suspend_threads-each (k.suspend w t.tcb) ts)
    | inr e ↦ rw e (suspend_threads-each w ts)
  ]

  suspend_inferiors-each :
      (w : W) (is : List Inferior)
      → suspend_inferiors k w is ≡ each k.suspend w (all_tcbs is_live is)
  unfolding suspend_inferiors
  suspend_inferiors-each w [] = refl
  suspend_inferiors-each w (i ∷ is) = elim (Bool-cases i.enabled) [
    | inl e ↦
        rw (e, each-append, suspend_threads-each)
          (suspend_inferiors-each (each k.suspend w (tcbs_of is_live i.threads)) is)
    | inr e ↦ rw e (suspend_inferiors-each w is)
  ]

  -- `suspend_system` asks the kernel to suspend each enabled thread of each enabled inferior, once and
  -- in the order of the arrays, and changes nothing else.
  pub suspend_system_lem :
      (s : State W)
      → suspend_system k s
        ≡ record s { world = each k.suspend s.world (all_tcbs is_live s.inferiors) }
  unfolding suspend_system
  suspend_system_lem s =
      ap (λ w. record s { world = w }) (suspend_inferiors-each s.world s.inferiors)

  resume_threads-each :
      (w : W) (ts : List Thread) → resume_threads k w ts ≡ each k.resume w (tcbs_of is_woken ts)
  unfolding resume_threads
  resume_threads-each w [] = refl
  resume_threads-each w (t ∷ ts) = elim (Bool-cases (t.enabled && t.wakeup)) [
    | inl e ↦ rw e (resume_threads-each (k.resume w t.tcb) ts)
    | inr e ↦ rw e (resume_threads-each w ts)
  ]

  resume_inferiors-each :
      (w : W) (is : List Inferior)
      → resume_inferiors k w is ≡ each k.resume w (all_tcbs is_woken is)
  unfolding resume_inferiors
  resume_inferiors-each w [] = refl
  resume_inferiors-each w (i ∷ is) = elim (Bool-cases i.enabled) [
    | inl e ↦
        rw (e, each-append, resume_threads-each)
          (resume_inferiors-each (each k.resume w (tcbs_of is_woken i.threads)) is)
    | inr e ↦ rw e (resume_inferiors-each w is)
  ]

  -- `resume_system` asks the kernel to resume each enabled thread that is marked to be woken up,
  -- of each enabled inferior, once and in the order of the arrays, and changes nothing else.
  pub resume_system_lem :
      (s : State W)
      → resume_system k s
        ≡ record s { world = each k.resume s.world (all_tcbs is_woken s.inferiors) }
  unfolding resume_system
  resume_system_lem s = ap (λ w. record s { world = w }) (resume_inferiors-each s.world s.inferiors)
