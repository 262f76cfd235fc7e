-- ===== src/Tests/Gdb.antt =====
-- The theorems on src/gdb.c at concrete inputs.
use libgdb.Prelude.{
  ◌*◌, ◌%◌, ◌≢◌, ◌^◌, ◌-◌, ◌<◌, ℕ, zero, suc, ap, sym, get_elem?, ◌≡◌, ◌⊎◌, refl, [], ◌∷◌, ◌++◌,
  replicate, arith, true, false, none, some,
}
use libgdb.Prelude.Search.{find_index}
use libgdb.Prelude.Outcome.{Outcome, ok, ◌>>=◌}
use libgdb.Prelude.Text.{codes}
use libgdb.Util.Hex.{hexchar_to_int}
use libgdb.Util.Hex.RoundTrip.{hex_digits}
use libgdb.Arch.Memory.Read.{target_bytes}
use libgdb.Gdb.State.{Inferior, State, max_pds, no_error, insufficient_resources}
use libgdb.Gdb.ThreadId.{lookup_inferior_from_id, lookup_thread_from_id, parse_thread_id}
use libgdb.Gdb.ThreadId.Text.{thread_id_text, parse_thread_id-thread_id_text}
use libgdb.Gdb.Registry.{set_inferior, gdb_thread_exit, gdb_register_inferior, resume_system}
use libgdb.Gdb.Registry.Report.{with_text}
use libgdb.Gdb.Registry.Running.{resume_system_lem}
use libgdb.Gdb.Registry.Invariant.{IsValid}
use libgdb.Gdb.Registry.Register.{Registered, IsFull, gdb_register_inferior-Registered}
use libgdb.Arch.Kernel.{UserContext}
use libgdb.Gdb.Target.{handle_write_regs, target_of}
use libgdb.Gdb.Target.Format.{mem_packet}
use libgdb.Gdb.Target.Context.{handle_write_regs-context_text}
use libgdb.Gdb.Packet.{Stack, gdb_handle_packet}
use libgdb.Gdb.Packet.Answers.{answer, gdb_handle_packet-read_mem, gdb_handle_packet-read_regs}
use libgdb.Gdb.Registry.Exit.{without, gdb_thread_exit-without}
use libgdb.Gdb.Faults.Watch.{watch_report, on_write, gdb_handle_fault-watch}
use libgdb.Arch.Regs.RoundTrip.{context_text}
use libgdb.Tests.Arch.{context-IsContext}
use libgdb.Gdb.Faults.{DebugException, gdb_handle_fault}
use libgdb.Gdb.Registry.Found.{Found}
use libgdb.Gdb.Faults.Stop.{stopped, gdb_handle_fault-stop}
use libgdb.Gdb.Vcont.{handle_vcont, vcont_loop, none_handled, action}
use libgdb.Gdb.Vcont.Fuel.{handle_vcont_ends}
use libgdb.Gdb.Vcont.Action.{action_text}
use libgdb.Gdb.Vcont.Resumed.{handle_vcont-step_resumes, handle_vcont-continue_resumes}
use libgdb.Tests.World.{
  context, watched, watched_state, one_program, World, world, kernel, program, running_thread,
  held_thread, debugged, no_inferior, initial,
}

parse_thread_id-thread_id_text_example :
    parse_thread_id (thread_id_text 1 2 ++ (b';' ∷ [])) 0x700 0
    ≡ ok (record { end = some (b';' ∷ []); proc_id = 0x701; thread_id = 2 })
parse_thread_id-thread_id_text_example =
    parse_thread_id-thread_id_text 1 2 0x700 0 b';' [] (unfold hexchar_to_int in refl)

resume_system_lem_example :
    resume_system kernel debugged ≡ record debugged { world = record world { log = 1011 ∷ [] } }
resume_system_lem_example = resume_system_lem kernel debugged

pub debugged_target : target_of debugged ≡ ok running_thread
unfolding target_of
debugged_target = refl

-- What the handlers find in their uninitialised variables.
abbrev stack : Stack
stack = record { context = context; proc_id = 7; thread_id = 7; address = 0x10000 }

gdb_handle_packet-read_mem_example :
    gdb_handle_packet kernel debugged stack (mem_packet b'm' (codes "400800") (codes "3") (0 ∷ []))
    ≡ ok (answer debugged (hex_digits (target_bytes kernel world 9 0x400800 0 3)))
unfolding hexchar_to_int
gdb_handle_packet-read_mem_example =
    gdb_handle_packet-read_mem kernel debugged stack (codes "400800") (codes "3") [] debugged_target
      refl refl (omega arith) (omega arith) (omega arith) (omega arith) (omega arith) (omega arith)

gdb_handle_packet-read_regs_example :
    gdb_handle_packet kernel debugged stack (b'g' ∷ 0 ∷ [])
    ≡ ok
        (answer (record debugged { world = record world { log = 11 ∷ [] } }) (context_text context))
gdb_handle_packet-read_regs_example =
    gdb_handle_packet-read_regs kernel debugged stack (0 ∷ []) debugged_target refl refl

-- A structure that holds other words than the context.
abbrev left_over : UserContext
left_over = record { x = []; sp = 1; pc = 2; spsr = 3 * 2 ^ 32; tpidr_el0 = 4; tpidrro_el0 = 5 }

handle_write_regs-context_text_example :
    handle_write_regs kernel debugged left_over (b'G' ∷ context_text context ++ (0 ∷ []))
    ≡ ok (record (with_text debugged (codes "OK")) {
      world = record world {
        log = 1011 ∷ [];
        context = record left_over {
          x = context.x;
          sp = context.sp;
          pc = context.pc;
          spsr = 0x3600003c5;
        };
      };
    })
handle_write_regs-context_text_example =
    handle_write_regs-context_text kernel debugged left_over context (0 ∷ []) debugged_target
      context-IsContext refl

held-Found : Found debugged 3 6 0 1 program held_thread
unfolding lookup_inferior_from_id lookup_thread_from_id find_index
held-Found = record {
  by_id = refl;
  at_slot = refl;
  thread_by_id = refl;
  thread_at_slot = refl;
  owner = refl;
}

abbrev swbreak : DebugException
swbreak = record { reason = 3; fault_ip = 0x400010; trigger_address = 0; bp_num = 0 }

gdb_handle_fault-stop_example :
    gdb_handle_fault kernel debugged 3 6 8 swbreak
    ≡ ok
        (stopped debugged (0, 1) program held_thread "T05thread:" ";swbreak:;", no_error, some true)
gdb_handle_fault-stop_example =
    gdb_handle_fault-stop kernel debugged 3 6 8 swbreak held-Found refl refl refl

gdb_thread_exit-without_example :
    (gdb_thread_exit kernel debugged 3 6
      ≡ ok (
        with_text
            (set_inferior debugged 0 (without program 1 held_thread))
            (codes "w00;" ++ thread_id_text 1 2),
        no_error,
      ))
    × (lookup_thread_from_id (without program 1 held_thread) 6 ≢ some 1)
gdb_thread_exit-without_example = gdb_thread_exit-without kernel debugged 3 6 held-Found refl

watched-Found : Found watched_state 3 6 0 1 watched held_thread
unfolding lookup_inferior_from_id lookup_thread_from_id find_index
watched-Found = record {
  by_id = refl;
  at_slot = refl;
  thread_by_id = refl;
  thread_at_slot = refl;
  owner = refl;
}

abbrev triggered : DebugException
triggered = record { reason = 1; fault_ip = 0x400010; trigger_address = 0x500000; bp_num = 7 }

gdb_handle_fault-watch_example :
    gdb_handle_fault kernel watched_state 3 6 8 triggered
    ≡ ok (
      record (with_text watched_state
          (watch_report kernel watched held_thread ";watch:" 0x500000)) {
            target_thread = some (0, 1);
          },
      no_error,
      some true,
    )
gdb_handle_fault-watch_example =
    gdb_handle_fault-watch kernel watched_state 3 6 8 triggered watched-Found refl refl refl refl
      refl (on_write refl)

handle_vcont_ends_example :
    (m : Outcome (State World)) × (vcont_loop kernel 11 action debugged none_handled 0 0
        (codes ";c:p01.02" ++ (0 ∷ []))
      ≡ some m)
    × (handle_vcont kernel debugged 0 0 (codes ";c:p01.02" ++ (0 ∷ [])) ≡ m)
handle_vcont_ends_example = handle_vcont_ends kernel debugged 0 0 (codes ";c:p01.02" ++ (0 ∷ []))

get_elem?-replicate :
    {A : Type 0} (n i : ℕ) (a b : A) → get_elem? (replicate n a) i ≡ some b → a ≡ b
get_elem?-replicate zero i a b g = cc
get_elem?-replicate (suc n) zero a b g = cc
get_elem?-replicate (suc n) (suc i) a b g = get_elem?-replicate n i a b g

unused : (i : ℕ) (a : Inferior) → get_elem? initial.inferiors i ≡ some a → a.enabled ≡ false
unused i a g = ap (λ x. x.enabled) (sym (get_elem?-replicate max_pds i no_inferior a g))

initial-IsValid : IsValid initial
initial-IsValid = record {
  size = refl;
  placed = λ i a g e. absurd (cc (unused i a g, e));
  distinct = λ i j a b g h ea eb same. absurd (cc (unused i a g, ea));
}

initial-lookup : lookup_inferior_from_id initial.inferiors 3 ≡ none
unfolding lookup_inferior_from_id find_index
initial-lookup = refl

gdb_register_inferior-Registered_example :
    ((s' : State World) × (slot : ℕ) × (gdb_register_inferior kernel initial 3 9
        ≡ ok (s', no_error))
      × Registered initial 3 s' slot)
    ⊎ ((s' : State World) × (gdb_register_inferior kernel initial 3 9
          ≡ ok (s', insufficient_resources))
        × (s'.inferiors ≡ initial.inferiors)
        × IsFull initial)
gdb_register_inferior-Registered_example =
    gdb_register_inferior-Registered kernel initial 3 9 initial-IsValid initial-lookup (omega arith)

rest_unused :
    (i : ℕ) (a : Inferior) → get_elem? one_program.inferiors (suc i) ≡ some a → a.enabled ≡ false
rest_unused i a g = ap (λ x. x.enabled) (sym (get_elem?-replicate 63 i no_inferior a g))

one_program-IsValid : IsValid one_program
one_program-IsValid = record { size = refl; placed = placed; distinct = distinct }
  where
    placed :
        (i : ℕ) (a : Inferior)
        → get_elem? one_program.inferiors i ≡ some a
        → a.enabled ≡ true
        → (0 < a.gdb_id) × (a.gdb_id < 2 ^ 16) × ((a.gdb_id - 1) % max_pds ≡ i)
    placed zero a g e = let same : a ≡ program = cc g in rw same (omega arith)
    placed (suc i) a g e = absurd (cc (rest_unused i a g, e))

    distinct :
        (i j : ℕ) (a b : Inferior)
        → get_elem? one_program.inferiors i ≡ some a
        → get_elem? one_program.inferiors j ≡ some b
        → a.enabled ≡ true
        → b.enabled ≡ true
        → a.id ≡ b.id
        → i ≡ j
    distinct zero zero a b g h ea eb same = refl
    distinct zero (suc j) a b g h ea eb same = absurd (cc (rest_unused j b h, eb))
    distinct (suc i) j a b g h ea eb same = absurd (cc (rest_unused i a g, ea))

-- The second thread, which is held, takes a step and is the only one to run.
handle_vcont-step_resumes_example :
    (handle_vcont kernel debugged 0 7 (action_text true 1 2 []) >>= λ s.
    ok (resume_system kernel s).world)
    ≡ ok (record world { log = 1012 ∷ [] })
handle_vcont-step_resumes_example =
    handle_vcont-step_resumes kernel debugged 1 2 0 7 [] (omega arith) (omega arith) (omega arith)
      (omega arith) (omega arith) (omega arith) refl refl refl refl refl

-- The second thread is to continue, and both run.
handle_vcont-continue_resumes_example :
    (handle_vcont kernel debugged 0 7 (action_text false 1 2 []) >>= λ s.
    ok (resume_system kernel s).world)
    ≡ ok (record world { log = 1012 ∷ 1011 ∷ [] })
handle_vcont-continue_resumes_example =
    handle_vcont-continue_resumes kernel debugged 1 2 0 7 [] (omega arith) (omega arith)
      (omega arith) (omega arith) (omega arith) (omega arith) refl refl refl refl refl
