-- ===== src/Gdb/Vcont/Resumed.antt =====
-- Which threads `resume_system` lets run after a packet vCont with one action.
use libgdb.Prelude.{
  ℕ, zero, suc, ◌-◌, ◌%◌, ◌<◌, ◌≡◌, refl, ap, true, false, Bool-cases, inl, inr, List, [], ◌∷◌,
  ◌++◌, get_elem?, set, some, arith,
}
use libgdb.Prelude.Outcome.{ok, ◌>>=◌}
use libgdb.Util.Buffer.{Bytes}
use libgdb.Arch.Kernel.{Kernel}
use libgdb.Gdb.State.{max_pds, Thread, Inferior, State}
use libgdb.Gdb.Registry.{resume_system}
use libgdb.Gdb.Registry.Running.{all_tcbs, tcbs_of, is_live, is_woken, each, resume_system_lem}
use libgdb.Gdb.Vcont.{wake_threads, wake_inferiors, handle_vcont}
use libgdb.Gdb.Vcont.Action.{action_text, handle_vcont-action}
use libgdb.Gdb.Vcont.Apply.{with_action}

tcbs_of-asleep : (ts : List Thread) → tcbs_of is_woken (wake_threads false ts) ≡ []
unfolding wake_threads
tcbs_of-asleep [] = refl
tcbs_of-asleep (t ∷ ts) = elim (Bool-cases t.enabled) [
  | inl e ↦ rw e (tcbs_of-asleep ts)
  | inr e ↦ rw e (tcbs_of-asleep ts)
]

all_tcbs-asleep : (is : List Inferior) → all_tcbs is_woken (wake_inferiors false is) ≡ []
unfolding wake_inferiors
all_tcbs-asleep [] = refl
all_tcbs-asleep (i ∷ is) = elim (Bool-cases i.enabled) [
  | inl e ↦ rw (e, tcbs_of-asleep i.threads) (all_tcbs-asleep is)
  | inr e ↦ rw e (all_tcbs-asleep is)
]

-- A thread that takes the place of `t` awake.
abbrev pub AwakeFor : Thread → Thread → Type 0
AwakeFor t t' = (t'.enabled ≡ true) × (t'.wakeup ≡ true) × (t'.tcb ≡ t.tcb)

tcbs_of-set_asleep :
    (ts : List Thread) (j : ℕ) (t' : Thread) {t : Thread}
    → get_elem? ts j ≡ some t
    → AwakeFor t t'
    → tcbs_of is_woken (set (wake_threads false ts) j t') ≡ t.tcb ∷ []
unfolding wake_threads
tcbs_of-set_asleep [] j t' h a = ground arith
tcbs_of-set_asleep (x ∷ ts) zero t' h (on, up, tcb) = rw (on, up, tcb, tcbs_of-asleep ts) refl
tcbs_of-set_asleep (x ∷ ts) (suc j) t' h a = elim (Bool-cases x.enabled) [
  | inl e ↦ rw e (tcbs_of-set_asleep ts j t' h a)
  | inr e ↦ rw e (tcbs_of-set_asleep ts j t' h a)
]

all_tcbs-set_asleep :
    (is : List Inferior) (slot j : ℕ) (t' : Thread) {i : Inferior} {t : Thread}
    → get_elem? is slot ≡ some i
    → i.enabled ≡ true
    → get_elem? i.threads j ≡ some t
    → AwakeFor t t'
    → all_tcbs is_woken (
        set
          (wake_inferiors false is)
          slot
          (record i { threads = set (wake_threads false i.threads) j t' }))
      ≡ t.tcb ∷ []
unfolding wake_inferiors
all_tcbs-set_asleep [] slot j t' h on h' a = ground arith
all_tcbs-set_asleep (x ∷ is) zero j t' {i} h on h' a =
    rw (on, tcbs_of-set_asleep i.threads j t' h' a, all_tcbs-asleep is) refl
all_tcbs-set_asleep (x ∷ is) (suc slot) j t' h on h' a = elim (Bool-cases x.enabled) [
  | inl e ↦ rw (e, tcbs_of-asleep x.threads) (all_tcbs-set_asleep is slot j t' h on h' a)
  | inr e ↦ rw e (all_tcbs-set_asleep is slot j t' h on h' a)
]

tcbs_of-awake : (ts : List Thread) → tcbs_of is_woken (wake_threads true ts) ≡ tcbs_of is_live ts
unfolding wake_threads
tcbs_of-awake [] = refl
tcbs_of-awake (t ∷ ts) = elim (Bool-cases t.enabled) [
  | inl e ↦ rw e (ap (λ l. t.tcb ∷ l) (tcbs_of-awake ts))
  | inr e ↦ rw e (tcbs_of-awake ts)
]

all_tcbs-awake :
    (is : List Inferior) → all_tcbs is_woken (wake_inferiors true is) ≡ all_tcbs is_live is
unfolding wake_inferiors
all_tcbs-awake [] = refl
all_tcbs-awake (i ∷ is) = elim (Bool-cases i.enabled) [
  | inl e ↦
      rw (e, tcbs_of-awake i.threads) (ap (λ l. tcbs_of is_live i.threads ++ l) (all_tcbs-awake is))
  | inr e ↦ rw e (all_tcbs-awake is)
]

tcbs_of-set_awake :
    (ts : List Thread) (j : ℕ) (t' : Thread) {t : Thread}
    → get_elem? ts j ≡ some t
    → t.enabled ≡ true
    → AwakeFor t t'
    → tcbs_of is_woken (set (wake_threads true ts) j t') ≡ tcbs_of is_live ts
unfolding wake_threads
tcbs_of-set_awake [] j t' h live a = ground arith
tcbs_of-set_awake (x ∷ ts) zero t' {t} h live (on, up, tcb) =
    let e : x ≡ t = cc in rw (on, up, tcb, tcbs_of-awake ts, e, live) refl
tcbs_of-set_awake (x ∷ ts) (suc j) t' h live a = elim (Bool-cases x.enabled) [
  | inl e ↦ rw e (ap (λ l. x.tcb ∷ l) (tcbs_of-set_awake ts j t' h live a))
  | inr e ↦ rw e (tcbs_of-set_awake ts j t' h live a)
]

all_tcbs-set_awake :
    (is : List Inferior) (slot j : ℕ) (t' : Thread) {i : Inferior} {t : Thread}
    → get_elem? is slot ≡ some i
    → i.enabled ≡ true
    → get_elem? i.threads j ≡ some t
    → t.enabled ≡ true
    → AwakeFor t t'
    → all_tcbs is_woken (
        set
          (wake_inferiors true is)
          slot
          (record i { threads = set (wake_threads true i.threads) j t' }))
      ≡ all_tcbs is_live is
unfolding wake_inferiors
all_tcbs-set_awake [] slot j t' h on h' live a = ground arith
all_tcbs-set_awake (x ∷ is) zero j t' {i} h on h' live a =
    let e : x ≡ i = cc in
    rw (on, tcbs_of-set_awake i.threads j t' h' live a, all_tcbs-awake is, e, on) refl
all_tcbs-set_awake (x ∷ is) (suc slot) j t' h on h' live a = elim (Bool-cases x.enabled) [
  | inl e ↦
      rw (e, tcbs_of-awake x.threads)
        (ap (λ l. tcbs_of is_live x.threads ++ l) (all_tcbs-set_awake is slot j t' h on h' live a))
  | inr e ↦ rw e (all_tcbs-set_awake is slot j t' h on h' live a)
]

module _ {W : Type 0} (k : Kernel W) (s : State W) (p t junk_proc junk_thread : ℕ) (rest : Bytes)
    {inferior : Inferior} {thread : Thread} (pos_p : 0 < p) (small_p : p < 256) (pos_t : 0 < t)
    (small_t : t < 256) (jp : junk_proc < 256) (jt : junk_thread < 256)
    (at_slot : get_elem? s.inferiors ((p - 1) % max_pds) ≡ some inferior)
    (on : inferior.enabled ≡ true) (same : inferior.gdb_id ≡ p)
    (at_thread : get_elem? inferior.threads (t - 1) ≡ some thread)
    (live : thread.enabled ≡ true) where
  -- After a packet vCont;s with one thread id, resume_system resumes this thread and no other,
  -- after a kernel call that lets it take one step. The inferior and the thread are enabled and
  -- stand in the table at the places of their gdb ids, which are between 1 and 255, and the
  -- uninitialised ids held less than 256.
  pub handle_vcont-step_resumes :
      (handle_vcont k s junk_proc junk_thread (action_text true p t rest) >>= λ s'.
      ok (resume_system k s').world)
      ≡ ok (k.resume (k.configure_single_stepping s.world thread.tcb 0 1) thread.tcb)
  handle_vcont-step_resumes =
      rw
        (
          handle_vcont-action k s true p t junk_proc junk_thread rest pos_p small_p pos_t small_t jp
              jt at_slot on same at_thread live,
          resume_system_lem k (with_action k s true ((p - 1) % max_pds) inferior (t - 1) thread),
          all_tcbs-set_asleep s.inferiors ((p - 1) % max_pds) (t - 1)
              (record thread { ss_enabled = true; wakeup = true }) at_slot on at_thread
              (live, refl, refl),
        )
        refl

  -- After a packet vCont;c with one thread id, resume_system resumes all enabled threads of all
  -- enabled inferiors, in the order of the arrays, and not only that thread, whose single stepping
  -- is turned off before. The inferior and the thread are enabled and stand in the table at the
  -- places of their gdb ids, which are between 1 and 255, and the uninitialised ids held less than
  -- 256.
  pub handle_vcont-continue_resumes :
      (handle_vcont k s junk_proc junk_thread (action_text false p t rest) >>= λ s'.
      ok (resume_system k s').world)
      ≡ ok (
          each k.resume
            (k.configure_single_stepping s.world thread.tcb 0 0)
            (all_tcbs is_live s.inferiors))
  handle_vcont-continue_resumes =
      rw
        (
          handle_vcont-action k s false p t junk_proc junk_thread rest pos_p small_p pos_t small_t
              jp jt at_slot on same at_thread live,
          resume_system_lem k (with_action k s false ((p - 1) % max_pds) inferior (t - 1) thread),
          all_tcbs-set_awake s.inferiors ((p - 1) % max_pds) (t - 1)
              (record thread { wakeup = true }) at_slot on at_thread live (live, refl, refl),
        )
        refl
