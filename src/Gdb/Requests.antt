-- ===== src/Gdb/Requests.antt =====
-- The packets T, H and D: is a thread alive, which thread is the target, and detaching.
pub mod Places
pub mod Released
pub mod Cleared
pub mod Detach
use libgdb.Prelude.{
  ℕ, zero, suc, ◌+◌, true, false, not, ◌&&◌, List, [], ◌∷◌, replicate, get_elem?, none, some, ◌==◌,
  if◌then◌else◌,
}
use libgdb.Prelude.Outcome.{
  Outcome, ok, assertion, null_pointer, out_of_bounds, ◌>>=◌, ◌>>◌, guard, or_fault,
}
use libgdb.Util.Buffer.{Bytes, next, peek}
use libgdb.Arch.Kernel.{Kernel}
use libgdb.Arch.Software.{unset_software_breakpoint}
use libgdb.Arch.Hardware.{unset_hardware_breakpoint, unset_hardware_watchpoint, disable_single_step}
use libgdb.Gdb.State.{
  max_sw_breaks, Thread, Inferior, State, zero_sw_break, zero_hw_break, zero_hw_watch,
}
use libgdb.Gdb.ThreadId.{
  id_all, id_any, inferior_at, thread_at, parse_thread_id, lookup_inferior_from_gdb_id,
  lookup_thread_from_gdb_id,
}
use libgdb.Gdb.Target.{target_of}
use libgdb.Gdb.Registry.{put_text}

module _ {W : Type 0} where
  -- `junk` is what the uninitialised `proc_id` holds.
  unfoldable pub handle_check_thread_alive : State W → ℕ → Bytes → Outcome (State W)
  handle_check_thread_alive s junk ptr = next ptr >>= λ (c, ptr₁).
      guard (c == b'T') assertion
      >> (parse_thread_id ptr₁ junk 0 >>= λ parsed. elim parsed.end [
        | none ↦ put_text s 0 "E02"
        | some end ↦
            lookup_thread_from_gdb_id s.inferiors parsed.proc_id parsed.thread_id >>= λ found.
            or_fault found null_pointer >>= λ (i, j). inferior_at s.inferiors i >>= λ inferior.
            thread_at inferior j >>= λ thread.
            let alive = put_text s 0 "OK" in
            if thread.gdb_id == parsed.thread_id && thread.enabled then alive else ok s
      ])

  -- The end of `handle_set_inferior`: the target must be a live thread.
  unfoldable pub confirm_target : State W → Outcome (State W)
  unfolding target_of
  confirm_target s = do
    thread ← target_of s
    guard (thread.enabled && not (thread.tcb == 0)) assertion
    put_text s 0 "OK"

  -- The target chosen by the two ids.
  unfoldable pub choose_target : State W → ℕ → ℕ → Outcome (State W)
  unfolding confirm_target
  choose_target s proc_id thread_id =
      guard (not (proc_id == id_all)) assertion
      >> (let chosen = lookup_inferior_from_gdb_id s.inferiors proc_id >>= λ found. elim found [
        | none ↦ put_text s 0 "E02"
        | some i ↦
            let one =
              lookup_thread_from_gdb_id s.inferiors proc_id
                (if thread_id == id_any then 1 else thread_id)
              >>= λ target. confirm_target (record s { target_thread = target }) in
            if thread_id == id_all then confirm_target s else one
      ] in
          if proc_id == id_any then confirm_target s else chosen)

  unfoldable pub handle_set_inferior : State W → ℕ → Bytes → Outcome (State W)
  unfolding choose_target
  handle_set_inferior s junk ptr = next ptr >>= λ (h, ptr₁). peek ptr₁ >>= λ c.
      let parse = λ (ptr₂ : Bytes). parse_thread_id ptr₂ junk 0 >>= λ parsed. elim parsed.end [
        | none ↦ put_text s 0 "E02"
        | some end ↦ choose_target s parsed.proc_id parsed.thread_id
      ] in
      let all : Outcome (State W) = elim s.target_thread [
        | none ↦ guard false assertion >> ok s
        | some t ↦ put_text s 0 "OK"
      ] in
      let go = next ptr₁ >>= λ (c₂, ptr₂). next ptr₂ >>= λ (a, ptr₃).
      let minus = peek ptr₃ >>= λ b. if b == b'1' then all else parse ptr₂ in
      if a == b'-' then minus else parse ptr₂ in
      if not (c == b'g') && not (c == b'c') then put_text s 0 "E01" else go

module _ {W : Type 0} (k : Kernel W) where
  open k use {num_exclusive_breakpoints, num_exclusive_watchpoints}

  -- The loops that take the breakpoints out, with `rounds` entries to go from entry `i` on.
  unfoldable pub detach_software : W → Inferior → ℕ → ℕ → Outcome (W × Inferior)
  detach_software w inferior i zero = ok (w, inferior)
  detach_software w inferior i (suc rounds) =
      or_fault (get_elem? inferior.software_breakpoints i) out_of_bounds >>= λ b.
      let (w', inferior', done) = unset_software_breakpoint k w inferior b.addr in
      detach_software w' inferior' (i + 1) rounds

  unfoldable pub detach_hardware : W → Inferior → ℕ → ℕ → Outcome (W × Inferior)
  detach_hardware w inferior i zero = ok (w, inferior)
  detach_hardware w inferior i (suc rounds) =
      or_fault (get_elem? inferior.hardware_breakpoints i) out_of_bounds >>= λ b.
      let (w', inferior', done) = unset_hardware_breakpoint k w inferior b.addr in
      detach_hardware w' inferior' (i + 1) rounds

  unfoldable pub detach_watchpoints : W → Inferior → ℕ → ℕ → Outcome (W × Inferior)
  detach_watchpoints w inferior i zero = ok (w, inferior)
  detach_watchpoints w inferior i (suc rounds) =
      or_fault (get_elem? inferior.hardware_watchpoints i) out_of_bounds >>= λ b.
      let (w', inferior', done) = unset_hardware_watchpoint k w inferior b.addr b.type b.size in
      detach_watchpoints w' inferior' (i + 1) rounds

  unfoldable pub detach_threads : W → List Thread → W × List Thread
  detach_threads w [] = (w, [])
  detach_threads w (t ∷ ts) = elim t.enabled [
    | false ↦ let (w', ts') = detach_threads w ts in (w', t ∷ ts')
    | true ↦
        let stopped = if t.ss_enabled then disable_single_step k w t else w in
        let (w', ts') = detach_threads stopped ts in
        (w', record t { ss_enabled = false; wakeup = true } ∷ ts')
  ]

  abbrev pub without_breakpoints : Inferior → Inferior
  without_breakpoints inferior = record inferior {
    software_breakpoints = replicate max_sw_breaks zero_sw_break;
    hardware_breakpoints = replicate num_exclusive_breakpoints zero_hw_break;
    hardware_watchpoints = replicate num_exclusive_watchpoints zero_hw_watch;
  }

  unfoldable pub detach_inferior : W → Inferior → Outcome (W × Inferior)
  unfolding detach_software detach_hardware detach_watchpoints detach_threads
  detach_inferior w inferior = do
    (w₁, i₁) ← detach_software w inferior 0 max_sw_breaks
    (w₂, i₂) ← detach_hardware w₁ i₁ 0 num_exclusive_breakpoints
    (w₃, i₃) ← detach_watchpoints w₂ i₂ 0 num_exclusive_watchpoints
    let (w₄, threads') = detach_threads w₃ i₃.threads
    ok (w₄, record (without_breakpoints i₃) { threads = threads' })

  unfoldable pub detach_inferiors : W → List Inferior → Outcome (W × List Inferior)
  detach_inferiors w [] = ok (w, [])
  detach_inferiors w (i ∷ is) = elim i.enabled [
    | false ↦ detach_inferiors w is >>= λ (w', is'). ok (w', i ∷ is')
    | true ↦ detach_inferior w i >>= λ (w₁, i').
        detach_inferiors w₁ is >>= λ (w₂, is'). ok (w₂, i' ∷ is')
  ]

  unfoldable pub handle_detach : State W → Outcome (State W)
  unfolding detach_inferiors detach_inferior
  handle_detach s = do
    s₁ ← put_text s 0 "OK"
    (w, inferiors') ← detach_inferiors s₁.world s₁.inferiors
    ok (record s₁ { world = w; inferiors = inferiors' })
