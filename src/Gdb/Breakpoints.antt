-- ===== src/Gdb/Breakpoints.antt =====
-- The packets Z and z: `handle_configure_debug_events`.
use libgdb.Prelude.{ℕ, Bool, false, not, ◌&&◌, ◌||◌, leb, ◌==◌, if◌then◌else◌}
use libgdb.Prelude.Outcome.{Outcome, ok, assertion, null_pointer, ◌>>=◌, ◌>>◌, guard, or_fault}
use libgdb.Util.Buffer.{Bytes, next, peek}
use libgdb.Util.Hex.{hexstr_to_int}
use libgdb.Arch.Kernel.{Kernel}
use libgdb.Arch.Software.{set_software_breakpoint, unset_software_breakpoint}
use libgdb.Arch.Hardware.{
  set_hardware_breakpoint, unset_hardware_breakpoint, set_hardware_watchpoint,
  unset_hardware_watchpoint,
}
use libgdb.Gdb.State.{Inferior, State}
use libgdb.Gdb.ThreadId.{inferior_at}
use libgdb.Gdb.Target.{target_of}
use libgdb.Gdb.Registry.{set_inferior, put_text}

-- What `parse_breakpoint_format` returns and leaves in its two results.
pub record BreakFormat : Type 0 where
  pub valid : Bool
  pub addr : ℕ
  pub kind : ℕ

abbrev pub is_kind : ℕ → Bool
is_kind kind = kind == 1 || kind == 2 || kind == 4 || kind == 8

unfoldable pub parse_breakpoint_format : Bytes → Outcome BreakFormat
parse_breakpoint_format ptr = next ptr >>= λ (c₁, ptr₁).
    guard (c₁ == b'Z' || c₁ == b'z') assertion
    >> (next ptr₁ >>= λ (c₂, ptr₂).
        guard (leb b'0' c₂ && leb c₂ b'4') assertion
        >> (next ptr₂ >>= λ (c₃, ptr₃).
            guard (c₃ == b',') assertion
            >> (hexstr_to_int ptr₃ 16 0 >>= λ (addr, ptr₄). next ptr₄ >>= λ (comma, ptr₅).
                let kind_part = hexstr_to_int ptr₅ 16 0 >>= λ (kind, ptr₆).
                ok (record { valid = is_kind kind; addr = addr; kind = kind }) in
                if comma == b','
                then kind_part
                else ok (record { valid = false; addr = addr; kind = 0 }))))

-- What a packet asks for. The type of a watchpoint is a constant of the kernel.
pub data Request : Type 0 where
  set_software unset_software set_hardware unset_hardware : Request
  set_watch unset_watch : ℕ → Request
  refused : Request

module _ {W : Type 0} (k : Kernel W) where
  open k use {break_on_read, break_on_write, break_on_read_write}

  -- The tests of the handler, on the first two characters of the packet.
  unfoldable pub request : ℕ → ℕ → Request
  request c₁ c₂ =
      if c₁ == b'Z' && c₂ == b'0'
      then set_software
      else if c₁ == b'z' && c₂ == b'0'
      then unset_software
      else if c₁ == b'Z' && c₂ == b'1'
      then set_hardware
      else if c₁ == b'z' && c₂ == b'1'
      then unset_hardware
      else if c₂ == b'2'
      then watch break_on_write
      else if c₂ == b'3'
      then watch break_on_read
      else if c₂ == b'4'
      then watch break_on_read_write
      else refused
    where
      watch : ℕ → Request
      watch type = if c₁ == b'Z' then set_watch type else unset_watch type

  unfoldable pub perform : Request → W → Inferior → ℕ → ℕ → W × Inferior × Bool
  perform set_software w inferior addr size = set_software_breakpoint k w inferior addr
  perform unset_software w inferior addr size = unset_software_breakpoint k w inferior addr
  perform set_hardware w inferior addr size = set_hardware_breakpoint k w inferior addr
  perform unset_hardware w inferior addr size = unset_hardware_breakpoint k w inferior addr
  perform (set_watch type) w inferior addr size =
      set_hardware_watchpoint k w inferior addr type size
  perform (unset_watch type) w inferior addr size =
      unset_hardware_watchpoint k w inferior addr type size
  perform refused w inferior addr size = (w, inferior, false)

  -- The operation on the inferior of the target thread, and the answer.
  unfoldable pub perform_on_target : State W → Request → ℕ → ℕ → Outcome (State W)
  unfolding target_of perform
  perform_on_target s r addr size = do
    thread ← target_of s
    slot ← or_fault thread.inferior null_pointer
    inferior ← inferior_at s.inferiors slot
    let (w, inferior', success) = perform r s.world inferior addr size
    put_text (record (set_inferior s slot inferior') { world = w }) 0
        (if success then "OK" else "E01")

  unfoldable pub handle_configure_debug_events : State W → Bytes → Outcome (State W)
  unfolding request perform_on_target parse_breakpoint_format
  handle_configure_debug_events s ptr = parse_breakpoint_format ptr >>= λ format.
      let run = next ptr >>= λ (c₁, ptr₁). peek ptr₁ >>= λ c₂.
      let go = perform_on_target s (request c₁ c₂) format.addr format.kind in
      elim (request c₁ c₂) [ refused ↦ put_text s 0 "E01" | _ ↦ go ] in
      if not format.valid then put_text s 0 "E01" else run
