-- ===== src/Gdb/State.antt =====
-- The structures of include/gdb.h, and the globals of src/gdb.c.
use libgdb.Prelude.{ℕ, Bool, false, List, Option, none}
use libgdb.Util.Buffer.{Bytes}

abbrev pub max_pds : ℕ
max_pds = 64

abbrev pub max_threads : ℕ
max_threads = 256

abbrev pub max_sw_breaks : ℕ
max_sw_breaks = 32

abbrev pub bufsize : ℕ
bufsize = 2048

-- `hw_watch_t`
pub record HwWatch : Type 0 where
  pub addr : ℕ
  pub size : ℕ
  pub type : ℕ

-- `hw_break_t`
pub record HwBreak : Type 0 where
  pub addr : ℕ

-- `sw_break_t`
pub record SwBreak : Type 0 where
  pub addr : ℕ
  pub orig_word : ℕ

-- `gdb_thread_t`. The pointer to the inferior is its place in the array, `none` for NULL.
pub record Thread : Type 0 where
  pub enabled : Bool
  pub wakeup : Bool
  pub ss_enabled : Bool
  pub inferior : Option ℕ
  pub id : ℕ
  pub gdb_id : ℕ
  pub tcb : ℕ

-- `gdb_inferior_t`
pub record Inferior : Type 0 where
  pub enabled : Bool
  pub id : ℕ
  pub gdb_id : ℕ
  pub vspace : ℕ
  pub curr_thread_idx : ℕ
  pub threads : List Thread
  pub software_breakpoints : List SwBreak
  pub hardware_breakpoints : List HwBreak
  pub hardware_watchpoints : List HwWatch

-- What `memset` to 0 leaves in each structure.
abbrev pub zero_thread : Thread
zero_thread = record {
  enabled = false;
  wakeup = false;
  ss_enabled = false;
  inferior = none;
  id = 0;
  gdb_id = 0;
  tcb = 0;
}

abbrev pub zero_sw_break : SwBreak
zero_sw_break = record { addr = 0; orig_word = 0 }

abbrev pub zero_hw_break : HwBreak
zero_hw_break = record { addr = 0 }

abbrev pub zero_hw_watch : HwWatch
zero_hw_watch = record { addr = 0; size = 0; type = 0 }

-- `enum DebuggerError`
pub data DebuggerError : Type 0 where
  no_error already_registered insufficient_resources invalid_arguments : DebuggerError

-- The globals of gdb.c, with the kernel's state `world` and the caller's buffer `output`, to which
-- every handler is handed a pointer. `target_thread` is the place of an inferior and that of a
-- thread in it. The indices count without a bound: a signed overflow is undefined in C.
pub record State (W : Type 0) : Type 0 where
  pub world : W
  pub curr_inferior_idx : ℕ
  pub inferiors : List Inferior
  pub target_thread : Option (ℕ × ℕ)
  pub output : Bytes
