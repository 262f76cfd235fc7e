-- ===== src/Gdb/Vcont/Action.antt =====
-- What a packet vCont with one action does, up to `resume_system`.
use libgdb.Prelude.{
  ℕ, suc, ◌+◌, ◌-◌, ◌*◌, ◌/◌, ◌%◌, ◌<◌, ◌≡◌, refl, ap, ◌∙◌, Bool, true, false, not, ◌∷◌, ◌++◌,
  length, get_elem?, some, arith, ◌==◌, ne→==,
}
use libgdb.Prelude.Outcome.{ok}
use libgdb.Util.Buffer.{Bytes}
use libgdb.Util.Hex.{hexchar_to_int}
use libgdb.Arch.Kernel.{Kernel}
use libgdb.Gdb.State.{max_pds, Thread, Inferior, State}
use libgdb.Gdb.ThreadId.{id_all}
use libgdb.Gdb.ThreadId.Text.{thread_id_text, parse_thread_id-thread_id_text}
use libgdb.Gdb.Vcont.{
  Handled, none_handled, wake_threads, wake_inferiors, action, target, act_on_id, vcont_loop,
  handle_vcont,
}
use libgdb.Gdb.Vcont.Apply.{
  woken_inferior, get_elem?-wake_threads, get_elem?-wake_inferiors, with_action, act_on_id-thread,
}

abbrev pub letter : Bool → ℕ
letter true = b's'
letter false = b'c'

-- The packet of one action on one thread.
abbrev pub action_text : Bool → ℕ → ℕ → Bytes → Bytes
action_text stepping p t rest = b';' ∷ letter stepping ∷ b':' ∷ (thread_id_text p t ++ (0 ∷ rest))

module _ {W : Type 0} (k : Kernel W) where
  vcont_loop-letter :
      (fuel : ℕ) (s : State W) (handled : Handled) (stepping : Bool) (junk_proc junk_thread : ℕ)
      (input : Bytes)
      → vcont_loop k
          (suc fuel)
          action
          s
          handled
          junk_proc
          junk_thread
          (b';' ∷ letter stepping ∷ input)
        ≡ vcont_loop k fuel
            (target stepping)
            (record s { inferiors = wake_inferiors (not stepping) s.inferiors })
            handled
            junk_proc
            junk_thread
            input
  unfolding vcont_loop
  vcont_loop-letter fuel s handled true junk_proc junk_thread input = refl
  vcont_loop-letter fuel s handled false junk_proc junk_thread input = refl

  woken_inferior-enabled :
      (b : Bool) (i : Inferior)
      → i.enabled ≡ true
      → woken_inferior b i ≡ record i { threads = wake_threads b i.threads }
  woken_inferior-enabled b i on = rw on refl

  module _ (s : State W) (stepping : Bool) (p t junk_proc junk_thread : ℕ) (rest : Bytes)
      {inferior : Inferior} {thread : Thread} (pos_p : 0 < p) (small_p : p < 256) (pos_t : 0 < t)
      (small_t : t < 256) (jp : junk_proc < 256) (jt : junk_thread < 256)
      (at_slot : get_elem? s.inferiors ((p - 1) % max_pds) ≡ some inferior)
      (on : inferior.enabled ≡ true) (same : inferior.gdb_id ≡ p)
      (at_thread : get_elem? inferior.threads (t - 1) ≡ some thread)
      (live : thread.enabled ≡ true) where
    acts :
        (handled : Handled) × (act_on_id k
            (record s { inferiors = wake_inferiors (not stepping) s.inferiors })
            none_handled
            stepping
            p
            t
          ≡ ok (with_action k s stepping ((p - 1) % max_pds) inferior (t - 1) thread, handled))
    acts =
        let woken =
          get_elem?-wake_inferiors (not stepping) s.inferiors ((p - 1) % max_pds) at_slot
          ∙ ap some (woken_inferior-enabled (not stepping) inferior on) in
        let woken' : get_elem? (wake_threads (not stepping) inferior.threads) (t - 1)
            ≡ some (record thread { wakeup = not stepping }) =
          get_elem?-wake_threads (not stepping) inferior.threads (t - 1) at_thread ∙ rw live refl in
        act_on_id-thread k (record s { inferiors = wake_inferiors (not stepping) s.inferiors })
          stepping p t pos_p small_p pos_t small_t woken same woken' live

    vcont_loop-action :
        (n : ℕ)
        → vcont_loop k
            (suc (suc (suc n)))
            action
            s
            none_handled
            junk_proc
            junk_thread
            (action_text stepping p t rest)
          ≡ some (ok (with_action k s stepping ((p - 1) % max_pds) inferior (t - 1) thread))
    unfolding vcont_loop
    vcont_loop-action n =
        let (handled, e) = acts in
        let one : (p == id_all) ≡ false = ne→== p id_all (λ e. omega arith) in
        let id_p : p % 256 + 256 * (junk_proc / 256) ≡ p = omega arith in
        let id_t : t % 256 + 256 * (junk_thread / 256) ≡ t = omega arith in
        vcont_loop-letter (suc (suc n)) s none_handled stepping junk_proc junk_thread
          (b':' ∷ (thread_id_text p t ++ (0 ∷ rest)))
        ∙ rw
            (
              vcont_loop,
              parse_thread_id-thread_id_text p t junk_proc junk_thread 0 rest
                  (unfold hexchar_to_int in refl),
              id_p,
              id_t,
              one,
              e,
            )
            refl

    -- The whole handler.
    pub handle_vcont-action :
        handle_vcont k s junk_proc junk_thread (action_text stepping p t rest)
        ≡ ok (with_action k s stepping ((p - 1) % max_pds) inferior (t - 1) thread)
    unfolding handle_vcont
    handle_vcont-action =
        let fuel : length (action_text stepping p t rest) + 1 ≡ suc (suc (suc (length rest + 8))) =
          omega arith in
        let e =
          ap
            (λ n.
              vcont_loop k n action s none_handled junk_proc junk_thread
                (action_text stepping p t rest))
            fuel
          ∙ vcont_loop-action (length rest + 8) in
        rw (handle_vcont, e) refl
