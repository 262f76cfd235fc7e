-- ===== src/Tests/World.antt =====
-- A small kernel: memory as a list of writes over words that hold their own address, a log of the
-- threads that were suspended (positive) and resumed, and one context for all threads.
use libgdb.Prelude.{
  ℕ, ◌≡◌, length, length-replicate, ◌+◌, true, false, List, [], ◌∷◌, replicate, some, none, ◌==◌,
  if◌then◌else◌,
}
use libgdb.Arch.Kernel.{Kernel, ReadWord, UserContext}
use libgdb.Gdb.State.{
  Thread, Inferior, State, zero_thread, zero_sw_break, zero_hw_watch, max_pds, bufsize,
}
use libgdb.Util.Buffer.{Bytes}

pub record World : Type 0 where
  pub writes : List (ℕ × ℕ)
  pub log : List ℕ
  pub context : UserContext

abbrev pub word_of : List (ℕ × ℕ) → ℕ → ℕ
word_of [] addr = addr
word_of ((a, v) ∷ ws) addr = if a == addr then v else word_of ws addr

abbrev pub context : UserContext
context = record {
  x = replicate 31 77;
  sp = 0x80000000;
  pc = 0x400800;
  spsr = 0x1600003c5;
  tpidr_el0 = 0x1000;
  tpidrro_el0 = 0x2000;
}

abbrev pub world : World
world = record { writes = []; log = []; context = context }

abbrev pub kernel : Kernel World
kernel = record {
  num_exclusive_breakpoints = 6;
  num_exclusive_watchpoints = 4;
  first_breakpoint = 0;
  first_watchpoint = 6;
  instruction_breakpoint = 0;
  single_step = 2;
  software_break_request = 3;
  data_breakpoint = 1;
  break_on_read = 0;
  break_on_write = 1;
  break_on_read_write = 2;
  fault_debug_exception = 8;
  read_word = λ w vspace addr. record { error = 0; value = word_of w.writes addr };
  write_word = λ w vspace addr v. (record w { writes = (addr, v) ∷ w.writes }, 0);
  set_breakpoint = λ w tcb n addr type size rw_mode. (w, 0);
  unset_breakpoint = λ w tcb n. record w { log = (tcb + 2000) ∷ w.log };
  configure_single_stepping = λ w tcb n count. w;
  suspend = λ w tcb. record w { log = tcb ∷ w.log };
  resume = λ w tcb. record w { log = (tcb + 1000) ∷ w.log };
  read_registers = λ w tcb suspend_source junk.
      (if suspend_source then record w { log = tcb ∷ w.log } else w, 0, w.context);
  write_registers = λ w tcb resume_target c.
      let w' : World = record w { context = c } in
      (if resume_target then record w' { log = (tcb + 1000) ∷ w'.log } else w', 0);
  snprintf = λ buf p format n. buf;
}

-- A memory of some words: a write to another address is refused.
abbrev pub word_at : List (ℕ × ℕ) → ℕ → ReadWord
word_at [] addr = record { error = 1; value = 0 }
word_at ((a, v) ∷ ws) addr = if a == addr then record { error = 0; value = v } else word_at ws addr

abbrev pub put_word : List (ℕ × ℕ) → ℕ → ℕ → List (ℕ × ℕ) × ℕ
put_word [] addr value = ([], 1)
put_word ((a, v) ∷ ws) addr value =
    let (ws', error) = put_word ws addr value in
    if a == addr then ((a, value) ∷ ws, 0) else ((a, v) ∷ ws', error)

abbrev pub memory_kernel : Kernel (List (ℕ × ℕ))
memory_kernel = record {
  num_exclusive_breakpoints = 6;
  num_exclusive_watchpoints = 4;
  first_breakpoint = 0;
  first_watchpoint = 6;
  instruction_breakpoint = 0;
  single_step = 2;
  software_break_request = 3;
  data_breakpoint = 1;
  break_on_read = 0;
  break_on_write = 1;
  break_on_read_write = 2;
  fault_debug_exception = 8;
  read_word = λ w vspace addr. word_at w addr;
  write_word = λ w vspace addr v. put_word w addr v;
  set_breakpoint = λ w tcb n addr type size rw_mode. (w, 0);
  unset_breakpoint = λ w tcb n. w;
  configure_single_stepping = λ w tcb n count. w;
  suspend = λ w tcb. w;
  resume = λ w tcb. w;
  read_registers = λ w tcb suspend_source junk. (w, 1, junk);
  write_registers = λ w tcb resume_target c. (w, 1);
  snprintf = λ buf p format n. buf;
}

abbrev pub running_thread : Thread
running_thread = record {
  enabled = true;
  wakeup = true;
  ss_enabled = false;
  inferior = some 0;
  id = 5;
  gdb_id = 1;
  tcb = 11;
}

abbrev pub held_thread : Thread
held_thread = record {
  enabled = true;
  wakeup = false;
  ss_enabled = false;
  inferior = some 0;
  id = 6;
  gdb_id = 2;
  tcb = 12;
}

abbrev pub program : Inferior
program = record {
  enabled = true;
  id = 3;
  gdb_id = 1;
  vspace = 9;
  curr_thread_idx = 2;
  threads = running_thread ∷ held_thread ∷ zero_thread ∷ [];
  software_breakpoints =
      record { addr = 0x400000; orig_word = 1 } ∷ zero_sw_break ∷ zero_sw_break ∷ [];
  hardware_breakpoints = [];
  hardware_watchpoints = [];
}

-- Two threads of one program, the first of them the target.
abbrev pub debugged : State World
debugged = record {
  world = world;
  curr_inferior_idx = 1;
  inferiors = program ∷ [];
  target_thread = some (0, 0);
  output = replicate 2048 0;
}

abbrev pub no_inferior : Inferior
no_inferior = record {
  enabled = false;
  id = 0;
  gdb_id = 0;
  vspace = 0;
  curr_thread_idx = 0;
  threads = [];
  software_breakpoints = [];
  hardware_breakpoints = [];
  hardware_watchpoints = [];
}

-- The program with a watchpoint for writes in its second register.
abbrev pub watched : Inferior
watched = record program {
  hardware_watchpoints = zero_hw_watch ∷ record { addr = 0x500000; size = 8; type = 1 } ∷ [];
}

abbrev pub watched_state : State World
watched_state = record debugged { inferiors = watched ∷ [] }

-- The state before anything is registered.
abbrev pub initial : State World
initial = record {
  world = world;
  curr_inferior_idx = 0;
  inferiors = replicate max_pds no_inferior;
  target_thread = none;
  output = [];
}

-- One program in a table of full size.
abbrev pub one_program : State World
one_program = record initial { inferiors = program ∷ replicate 63 no_inferior }

-- A buffer of BUFSIZE bytes.
abbrev pub zeros : Bytes
zeros = replicate 2048 0

pub zeros-length : length zeros ≡ bufsize
zeros-length = length-replicate {A = ℕ} 2048 0
