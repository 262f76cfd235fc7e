-- ===== src/Gdb/Vcont/Apply.antt =====
-- What an action of a packet vCont does to one thread.
use libgdb.Prelude.{
  ℕ, zero, suc, ◌-◌, ◌%◌, ◌^◌, ◌<◌, ◌≡◌, refl, ap, Bool, true, false, not, List, [], ◌∷◌, replicate,
  get_elem?, set, some, arith, ltb, ◌==◌, eq→==, ne→==, if◌then◌else◌,
}
use mathlib.Core.Option
use libgdb.Prelude.Outcome.{ok}
use libgdb.Arch.Kernel.{Kernel}
use libgdb.Arch.Hardware.{enable_single_step, disable_single_step}
use libgdb.Gdb.State.{max_pds, max_threads, Thread, Inferior, State}
use libgdb.Gdb.ThreadId.{id_all, id_to_index, lookup_inferior_from_gdb_id}
use libgdb.Gdb.Vcont.{
  Handled, none_handled, wake_threads, wake_inferiors, thread_range, act_on_thread, act_on_threads,
  act_on_id,
}

-- An inferior or a thread after the loop that sets `wakeup`.
abbrev pub woken_thread : Bool → Thread → Thread
woken_thread b t = if t.enabled then record t { wakeup = b } else t

abbrev pub woken_inferior : Bool → Inferior → Inferior
woken_inferior b i = if i.enabled then record i { threads = wake_threads b i.threads } else i

pub get_elem?-wake_threads :
    (b : Bool) (ts : List Thread) (j : ℕ) {t : Thread}
    → get_elem? ts j ≡ some t
    → get_elem? (wake_threads b ts) j ≡ some (woken_thread b t)
unfolding wake_threads
get_elem?-wake_threads b [] j h = ground arith
get_elem?-wake_threads b (x ∷ ts) zero h = ap (Option.map (woken_thread b)) h
get_elem?-wake_threads b (x ∷ ts) (suc j) h = get_elem?-wake_threads b ts j h

pub get_elem?-wake_inferiors :
    (b : Bool) (is : List Inferior) (i : ℕ) {inferior : Inferior}
    → get_elem? is i ≡ some inferior
    → get_elem? (wake_inferiors b is) i ≡ some (woken_inferior b inferior)
unfolding wake_inferiors
get_elem?-wake_inferiors b [] i h = ground arith
get_elem?-wake_inferiors b (x ∷ is) zero h = ap (Option.map (woken_inferior b)) h
get_elem?-wake_inferiors b (x ∷ is) (suc i) h = get_elem?-wake_inferiors b is i h

get_elem?-replicate : {A : Type 0} (n i : ℕ) (a : A) → i < n → get_elem? (replicate n a) i ≡ some a
get_elem?-replicate zero i a h = absurd (omega arith)
get_elem?-replicate (suc n) zero a h = refl
get_elem?-replicate (suc n) (suc i) a h = get_elem?-replicate n i a (omega arith)

module _ {W : Type 0} (k : Kernel W) where
  -- The thread after the action on it.
  abbrev pub acted : Bool → W → Thread → W × Thread
  acted stepping w t =
      if stepping
      then (k.configure_single_stepping w t.tcb 0 1, record t { ss_enabled = true; wakeup = true })
      else (k.configure_single_stepping w t.tcb 0 0, record t { wakeup = true })

  -- The state after an action on one thread.
  abbrev pub with_action : State W → Bool → ℕ → Inferior → ℕ → Thread → State W
  with_action s stepping slot inferior j thread = record s {
    world = (acted stepping s.world thread).0;
    inferiors = set (wake_inferiors (not stepping) s.inferiors) slot (record inferior {
      threads =
          set (wake_threads (not stepping) inferior.threads) j (acted stepping s.world thread).1;
    });
  }

  act_on_thread-enabled :
      (s : State W) (handled : Handled) (stepping : Bool) (slot j : ℕ) {inferior : Inferior}
      {thread : Thread} {row : List Bool}
      → get_elem? handled slot ≡ some row
      → get_elem? row j ≡ some false
      → get_elem? s.inferiors slot ≡ some inferior
      → get_elem? inferior.threads j ≡ some thread
      → thread.enabled ≡ true
      → act_on_thread k s handled stepping slot j
        ≡ ok (
          record s {
            world = (acted stepping s.world thread).0;
            inferiors = set s.inferiors slot (record inferior {
              threads = set inferior.threads j (acted stepping s.world thread).1;
            });
          },
          set handled slot (set row j true),
        )
  unfolding act_on_thread enable_single_step disable_single_step
  act_on_thread-enabled s handled true slot j at_row not_yet at_slot at_thread live =
      rw (at_slot, at_thread, live, at_row, not_yet) refl
  act_on_thread-enabled s handled false slot j at_row not_yet at_slot at_thread live =
      rw (at_slot, at_thread, live, at_row, not_yet) refl

  lookup_inferior_from_gdb_id-slot :
      (is : List Inferior) (p : ℕ) {inferior : Inferior}
      → 0 < p
      → p < 256
      → get_elem? is ((p - 1) % max_pds) ≡ some inferior
      → inferior.gdb_id ≡ p
      → lookup_inferior_from_gdb_id is p ≡ ok (some ((p - 1) % max_pds))
  unfolding lookup_inferior_from_gdb_id id_to_index
  lookup_inferior_from_gdb_id-slot is p pos small at_slot same =
      let positive : (p == 0) ≡ false = ne→== p 0 (λ e. omega arith) in
      let signed : ltb p (2 ^ 31) ≡ true = ground arith in
      let found = eq→== _ p same in rw (positive, signed, at_slot, found) refl

  thread_range-one : (t : ℕ) → 0 < t → t < 256 → thread_range t ≡ ok (t - 1, 1)
  unfolding thread_range
  thread_range-one t pos small =
      let one : (t == id_all) ≡ false = ne→== t id_all (λ e. omega arith) in
      let positive : (t == 0) ≡ false = ne→== t 0 (λ e. omega arith) in
      let signed : ltb t (2 ^ 31) ≡ true = ground arith in
      let index : (t - 1) % max_threads ≡ t - 1 = omega arith in
      let rounds : t - (t - 1) ≡ 1 = omega arith in rw (one, positive, signed, index, rounds) refl

  -- One thread id, before which no thread was handled.
  pub act_on_id-thread :
      (s : State W) (stepping : Bool) (p t : ℕ) {inferior : Inferior} {thread : Thread}
      → 0 < p
      → p < 256
      → 0 < t
      → t < 256
      → get_elem? s.inferiors ((p - 1) % max_pds) ≡ some inferior
      → inferior.gdb_id ≡ p
      → get_elem? inferior.threads (t - 1) ≡ some thread
      → thread.enabled ≡ true
      → (handled : Handled) × (act_on_id k s none_handled stepping p t
          ≡ ok (
            record s {
              world = (acted stepping s.world thread).0;
              inferiors = set s.inferiors ((p - 1) % max_pds) (record inferior {
                threads = set inferior.threads (t - 1) (acted stepping s.world thread).1;
              });
            },
            handled,
          ))
  unfolding act_on_id act_on_threads
  act_on_id-thread s stepping p t pos_p small_p pos_t small_t at_slot same at_thread live =
      let at_row =
        get_elem?-replicate max_pds ((p - 1) % max_pds) (replicate max_threads false)
          (omega arith) in
      let not_yet = get_elem?-replicate max_threads (t - 1) false (omega arith) in
      (
        set none_handled ((p - 1) % max_pds) (set (replicate max_threads false) (t - 1) true),
        rw
            (
              lookup_inferior_from_gdb_id-slot s.inferiors p pos_p small_p at_slot same,
              thread_range-one t pos_t small_t,
              act_on_thread-enabled s none_handled stepping ((p - 1) % max_pds) (t - 1) at_row
                  not_yet at_slot at_thread live,
            )
            refl,
      )
