-- ===== src/Arch/Kernel.antt =====
-- The seL4 calls and constants that libgdb uses: a parameter of the model. `W` is the kernel's state
-- as far as these calls see and change it.
use libgdb.Prelude.{ℕ, Bool, List}
use libgdb.Util.Buffer.{Bytes}

-- What `seL4_ARM_VSpace_Read_Word` returns.
pub record ReadWord : Type 0 where
  pub error : ℕ
  pub value : ℕ

-- `seL4_UserContext`: x0 to x30 in order, and its other words. The library names all but the last two.
pub record UserContext : Type 0 where
  pub x : List ℕ
  pub sp : ℕ
  pub pc : ℕ
  pub spsr : ℕ
  pub tpidr_el0 : ℕ
  pub tpidrro_el0 : ℕ

-- A call that can fail returns 0 for success. `read_registers` takes `suspend_source` and what the
-- structure holds that it is to fill, and returns the error and what the structure holds then;
-- `write_registers` takes `resume_target` and the structure. Their flags and counts are as in the
-- library's calls, no flags and every word of the structure.
pub record Kernel (W : Type 0) : Type 0 where
  pub num_exclusive_breakpoints : ℕ
  pub num_exclusive_watchpoints : ℕ
  pub first_breakpoint : ℕ
  pub first_watchpoint : ℕ
  pub instruction_breakpoint : ℕ
  pub single_step : ℕ
  pub software_break_request : ℕ
  pub data_breakpoint : ℕ
  pub break_on_read : ℕ
  pub break_on_write : ℕ
  pub break_on_read_write : ℕ
  pub fault_debug_exception : ℕ
  pub read_word : W → ℕ → ℕ → ReadWord
  pub write_word : W → ℕ → ℕ → ℕ → W × ℕ
  pub set_breakpoint : W → ℕ → ℕ → ℕ → ℕ → ℕ → ℕ → W × ℕ
  pub unset_breakpoint : W → ℕ → ℕ → W
  pub configure_single_stepping : W → ℕ → ℕ → ℕ → W
  pub suspend : W → ℕ → W
  pub resume : W → ℕ → W
  pub read_registers : W → ℕ → Bool → UserContext → W × ℕ × UserContext
  pub write_registers : W → ℕ → Bool → UserContext → W × ℕ
  pub snprintf : Bytes → ℕ → Bytes → ℕ → Bytes
