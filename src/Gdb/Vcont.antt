-- ===== src/Gdb/Vcont.antt =====
-- `handle_vcont`: which threads go on, and which of them by a single step.
pub mod Fuel
pub mod Apply
pub mod Action
pub mod Resumed
use libgdb.Prelude.{
  ℕ, zero, suc, ◌+◌, ◌-◌, ◌%◌, ◌^◌, ◌*◌, Bool, true, false, not, ◌&&◌, List, [], ◌∷◌, map, length,
  replicate, get_elem?, set, Option, none, some, ltb, ◌==◌, if◌then◌else◌,
}
use libgdb.Prelude.Outcome.{
  Outcome, ok, fault, assertion, null_pointer, out_of_bounds, out_of_fuel, ◌>>=◌, ◌>>◌, guard,
  or_fault,
}
use libgdb.Util.Buffer.{Bytes, next, peek}
use libgdb.Arch.Kernel.{Kernel}
use libgdb.Arch.Hardware.{enable_single_step, disable_single_step}
use libgdb.Gdb.State.{max_pds, max_threads, Thread, Inferior, State}
use libgdb.Gdb.ThreadId.{
  id_all, inferior_at, thread_at, parse_thread_id, lookup_inferior_from_gdb_id,
}
use libgdb.Gdb.Registry.{set_inferior, put_text}

-- `handled[MAX_PDS][MAX_THREADS]`
abbrev pub Handled : Type 0
Handled = List (List Bool)

abbrev pub none_handled : Handled
none_handled = replicate max_pds (replicate max_threads false)

abbrev pub handled_row : Handled → ℕ → Outcome (List Bool)
handled_row handled i = or_fault (get_elem? handled i) out_of_bounds

-- `wakeup = b` for every enabled thread of every enabled inferior.
unfoldable pub wake_threads : Bool → List Thread → List Thread
wake_threads b [] = []
wake_threads b (t ∷ ts) = (if t.enabled then record t { wakeup = b } else t) ∷ wake_threads b ts

unfoldable pub wake_inferiors : Bool → List Inferior → List Inferior
unfolding wake_threads
wake_inferiors b [] = []
wake_inferiors b (i ∷ is) =
    (if i.enabled then record i { threads = wake_threads b i.threads } else i) ∷ wake_inferiors b is

-- The start of the loop over threads and its number of rounds, for a `thread_id` as a 32-bit
-- pattern: all threads, or those from `(thread_id - 1) % MAX_THREADS` to below `thread_id`. The last
-- two tests are the negative ids, whose index is negative or whose loop is empty.
unfoldable pub thread_range : ℕ → Outcome (ℕ × ℕ)
thread_range thread_id =
    if thread_id == id_all
    then ok (0, max_threads)
    else if thread_id == 0
    then fault out_of_bounds
    else if ltb thread_id (2 ^ 31)
    then ok ((thread_id - 1) % max_threads, thread_id - (thread_id - 1) % max_threads)
    else if ltb (2 ^ 32 - thread_id + 1) max_threads
    then fault out_of_bounds
    else ok (0, 0)

-- Where the loops of the handler stand: before an action, or before a thread id of one.
pub data Mode : Type 0 where
  action : Mode
  target : Bool → Mode

-- A step that may fault, inside a loop that may run out of fuel.
abbrev pub within : {A B : Type 0} → Outcome A → (A → Option (Outcome B)) → Option (Outcome B)
within (ok a) f = f a
within (fault e) f = some (fault e)

module _ {W : Type 0} (k : Kernel W) where
  -- The body of the loop over threads, for thread `j` of the inferior at `slot`.
  unfoldable pub act_on_thread : State W → Handled → Bool → ℕ → ℕ → Outcome (State W × Handled)
  act_on_thread s handled stepping slot j = inferior_at s.inferiors slot >>= λ inferior.
      thread_at inferior j >>= λ thread.
      let act = handled_row handled slot >>= λ row.
      or_fault (get_elem? row j) out_of_bounds >>= λ already.
      let (w, thread') =
        (if stepping
          then enable_single_step k s.world thread
          else (disable_single_step k s.world thread, thread)) in
      let inferior' = record inferior {
        threads = set inferior.threads j (record thread' { wakeup = true });
      } in
      if already
      then ok (s, handled)
      else ok (
        record (set_inferior s slot inferior') { world = w },
        set handled slot (set row j true),
      ) in
      if thread.enabled then act else ok (s, handled)

  unfoldable pub act_on_threads : State W → Handled → Bool → ℕ → ℕ → ℕ → Outcome (State W × Handled)
  act_on_threads s handled stepping slot j zero = ok (s, handled)
  act_on_threads s handled stepping slot j (suc rounds) =
      act_on_thread s handled stepping slot j >>= λ (s', handled').
      act_on_threads s' handled' stepping slot (j + 1) rounds

  -- One thread id: its inferior and its threads. A null inferior is read in the first round.
  unfoldable pub act_on_id : State W → Handled → Bool → ℕ → ℕ → Outcome (State W × Handled)
  unfolding act_on_threads act_on_thread
  act_on_id s handled stepping proc_id thread_id =
      lookup_inferior_from_gdb_id s.inferiors proc_id >>= λ found.
      thread_range thread_id >>= λ (start, rounds). elim found [
        | some slot ↦ act_on_threads s handled stepping slot start rounds
        | none ↦ if rounds == 0 then ok (s, handled) else fault null_pointer
      ]

  -- `junk_proc` and `junk_thread` are what the uninitialised ids hold: at first anything, and in a
  -- later round of the inner loop what the round before left at their place on the stack. `none`
  -- means that the fuel ran out.
  unfoldable pub vcont_loop :
      ℕ → Mode → State W → Handled → ℕ → ℕ → Bytes → Option (Outcome (State W))
  vcont_loop zero mode s handled junk_proc junk_thread input = none
  vcont_loop (suc fuel) action s handled junk_proc junk_thread input =
      within (next input) λ (c, input₁).
        let begin = within (guard (c == b';') assertion >> next input₁) λ (a, input₂).
          let run = λ (stepping : Bool).
            vcont_loop fuel (target stepping)
              (record s { inferiors = wake_inferiors (not stepping) s.inferiors }) handled junk_proc
              junk_thread input₂ in
          if a == b's'
          then run true
          else if a == b'c'
          then run false
          else some (put_text s 0 "E04") in
        if c == 0 then some (ok s) else begin
  vcont_loop (suc fuel) (target stepping) s handled junk_proc junk_thread input =
      within (next input) λ (c, input₁).
        within (guard (c == b':') assertion >> parse_thread_id input₁ junk_proc junk_thread)
          λ parsed.
            let acted = act_on_id s handled stepping parsed.proc_id parsed.thread_id in
            within (if parsed.proc_id == id_all then ok (s, handled) else acted) λ (s', handled').
              within (or_fault parsed.end null_pointer) λ end. within (peek end) λ c'.
                vcont_loop fuel (if c' == b':' then target stepping else action) s' handled'
                  parsed.proc_id parsed.thread_id end

  -- Every round but the last takes a character of the packet: its length and one more are enough.
  unfoldable pub handle_vcont : State W → ℕ → ℕ → Bytes → Outcome (State W)
  handle_vcont s junk_proc junk_thread input =
      elim (vcont_loop (length input + 1) action s none_handled junk_proc junk_thread input) [
        | none ↦ fault out_of_fuel
        | some outcome ↦ outcome
      ]
