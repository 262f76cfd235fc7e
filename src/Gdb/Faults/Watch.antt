-- ===== src/Gdb/Faults/Watch.antt =====
-- What `gdb_handle_fault` reports when a watchpoint triggers.
use libgdb.Prelude.{
  ℕ, ◌+◌, ◌-◌, ◌*◌, ◌/◌, ◌%◌, ◌^◌, ◌≤◌, ◌≡◌, ◌≢◌, refl, ap, ◌∙◌, [], ◌∷◌, ◌++◌, length,
  length-append, arith, drop, get_elem?, some, eq→==, true, false, ◌==◌,
}
use mathlib.Core.List.{reverse}
use Prim.Native.String.{String}
use libgdb.Prelude.Outcome.{ok, ◌>>=◌, Ensures, Ensures-if, Ensures-ok}
use libgdb.Prelude.Text.{codes}
use libgdb.Util.Buffer.{Bytes, NonNul, AllBytes, object_bytes, object_value}
use libgdb.Util.Buffer.Write.{NonNul-append, write_bytes-extend}
use libgdb.Util.Hex.{mem2hex}
use libgdb.Util.Hex.RoundTrip.{
  hex_digits, hex_digits-NonNul, mem2hex-write_bytes, length-hex_digits,
}
use libgdb.Util.Str.Copy.{strnlen_lem}
use libgdb.Arch.Kernel.{Kernel}
use libgdb.Gdb.State.{bufsize, Thread, Inferior, State, HwWatch, no_error}
use libgdb.Gdb.ThreadId.{inferior_of}
use libgdb.Gdb.ThreadId.Text.{thread_id_text}
use libgdb.Gdb.Registry.Found.{Found, inferior_of-Found}
use libgdb.Gdb.Registry.Report.{with_text, put_text-front, put_text-behind, put_thread_id-behind}
use libgdb.Gdb.Faults.Stop.{is_stop}
use libgdb.Gdb.Faults.{
  DebugException, arch_to_big_endian, watch_text, handle_watchpoint_exception,
  handle_debug_exception, gdb_handle_fault,
}

object_bytes-object_value : (s : Bytes) → AllBytes s → object_bytes (length s) (object_value s) ≡ s
unfolding object_bytes object_value
object_bytes-object_value [] h = refl
object_bytes-object_value (c ∷ s) (hc, hs) =
    let low : (c + 256 * object_value s) % 256 ≡ c = omega arith in
    let high : (c + 256 * object_value s) / 256 ≡ object_value s = omega arith in
    rw (low, high, object_bytes-object_value s hs)

-- The bytes of the swapped word are those of the word, highest first.
object_bytes-arch_to_big_endian :
    (w : ℕ) → object_bytes 8 (arch_to_big_endian w) ≡ reverse (object_bytes 8 w)
unfolding arch_to_big_endian object_bytes
object_bytes-arch_to_big_endian w =
    object_bytes-object_value (reverse (object_bytes 8 w)) (omega arith)

abbrev pub big_endian : ℕ → Bytes
big_endian w = reverse (object_bytes 8 w)

big_endian-AllBytes : (w : ℕ) → AllBytes (big_endian w)
unfolding object_bytes
big_endian-AllBytes w = omega arith

length-big_endian : (w : ℕ) → length (big_endian w) ≡ 8
unfolding object_bytes
length-big_endian w = refl

pub thread_id_text-NonNul : (proc thread : ℕ) → NonNul (thread_id_text proc thread)
thread_id_text-NonNul proc thread = (
  omega arith,
  NonNul-append (hex_digits ((proc % 256) ∷ [])) (b'.' ∷ hex_digits ((thread % 256) ∷ []))
      (hex_digits-NonNul ((proc % 256) ∷ []) (omega arith))
      (omega arith, hex_digits-NonNul ((thread % 256) ∷ []) (omega arith)),
)

-- A short text.
abbrev IsShort : String → Type 0
IsShort word = NonNul (codes word) × (length (codes word) ≤ 8)

module _ {W : Type 0} (k : Kernel W) where
  -- The word that GDB expects for a watchpoint of a type: watch for writes, rwatch for reads, awatch for
  -- both.
  pub data WatchWord : ℕ → String → Type 0 where
    on_write : {type : ℕ} → type ≡ k.break_on_write → WatchWord type ";watch:"
    on_read :
        {type : ℕ} → type ≡ k.break_on_read → type ≢ k.break_on_write → WatchWord type ";rwatch:"
    on_access :
        {type : ℕ}
        → type ≡ k.break_on_read_write
        → type ≢ k.break_on_write
        → type ≢ k.break_on_read
        → WatchWord type ";awatch:"

  watch_text-WatchWord :
      {type : ℕ} {word : String} → WatchWord type word → watch_text k type ≡ ok word
  unfolding watch_text
  watch_text-WatchWord (on_write e) = ground (arith, e)
  watch_text-WatchWord (on_read e n) = ground (arith, e, n)
  watch_text-WatchWord (on_access e n n') = ground (arith, e, n, n')

  watch_text-IsShort : (type : ℕ) → Ensures IsShort (watch_text k type)
  unfolding watch_text
  watch_text-IsShort type = Ensures-if IsShort (type == k.break_on_write) _ _ (omega arith) (
      Ensures-if IsShort (type == k.break_on_read) _ _ (omega arith)
        (Ensures-if IsShort (type == k.break_on_read_write) _ _ (omega arith) tt))

  -- The place of the watchpoint that a fault names.
  abbrev pub watch_place : ℕ → ℕ
  watch_place bp_num = (bp_num + 2 ^ 64 - k.first_watchpoint) % 2 ^ 64

  -- The answer: the thread, the kind of watchpoint, and the address in hexadecimal, highest byte first.
  abbrev pub watch_report : Inferior → Thread → String → ℕ → Bytes
  watch_report inferior thread word trigger_address =
      (((codes "T05thread:" ++ thread_id_text inferior.gdb_id thread.gdb_id) ++ codes word)
        ++ hex_digits (big_endian trigger_address))
      ++ codes ";"

  handle_watchpoint_exception-watch_report :
      (s : State W) (t : ℕ × ℕ) (inferior : Inferior) (thread : Thread) (bp_num trigger_address : ℕ)
      {wp : HwWatch} {word : String}
      → inferior_of s.inferiors thread ≡ ok inferior
      → get_elem? inferior.hardware_watchpoints (watch_place bp_num) ≡ some wp
      → watch_text k wp.type ≡ ok word
      → length s.output ≡ bufsize
      → handle_watchpoint_exception k s t thread bp_num trigger_address
        ≡ ok (record (with_text s (watch_report inferior thread word trigger_address)) {
          target_thread = some t;
        })
  unfolding handle_watchpoint_exception
  handle_watchpoint_exception-watch_report s t inferior thread bp_num trigger_address {wp} {word}
        owner at kind room =
      rw
        (
          put_text-front s "T05thread:" (ground arith) (omega arith) (omega arith),
          put_thread_id-behind s (codes "T05thread:") thread {inferior = inferior} (ground arith)
              (omega arith) owner (omega arith),
          owner,
          at,
          kind,
          before,
          put_text-behind s start word short.0 (omega (arith, short.1))
              (omega (arith, before, short.1)),
          strnlen_lem (start ++ codes word) (drop (length (start ++ codes word) + 1) s.output)
              bufsize plain (omega (arith, size, before, short.1)),
          address,
        )
        (ap (λ m. m >>= λ (s₄ : State W). ok (record s₄ { target_thread = some t }))
          (put_text-behind s ((start ++ codes word) ++ hex_digits (big_endian trigger_address)) ";"
            (ground arith) (omega arith)
            (omega (arith, whole, size, before, digits_size, short.1))))
    where
      start : Bytes
      start = codes "T05thread:" ++ thread_id_text inferior.gdb_id thread.gdb_id

      short : IsShort word
      short = Ensures-ok IsShort (watch_text k wp.type) (watch_text-IsShort wp.type) kind

      before : length (codes "T05thread:") + 6 ≡ length start
      before =
          omega (
            arith,
            length-append (codes "T05thread:") (thread_id_text inferior.gdb_id thread.gdb_id),
          )

      size : length (start ++ codes word) ≡ length start + length (codes word)
      size = length-append start (codes word)

      digits : Bytes
      digits = hex_digits (big_endian trigger_address)

      digits_size : length digits ≡ 16
      digits_size =
          omega (
            arith,
            length-hex_digits (big_endian trigger_address),
            length-big_endian trigger_address,
          )

      whole :
          length ((start ++ codes word) ++ digits) ≡ length (start ++ codes word) + length digits
      whole = length-append (start ++ codes word) digits

      plain : NonNul (start ++ codes word)
      plain =
          NonNul-append start (codes word)
            (NonNul-append (codes "T05thread:") (thread_id_text inferior.gdb_id thread.gdb_id)
              (omega arith) (thread_id_text-NonNul inferior.gdb_id thread.gdb_id))
            short.0

      address :
          mem2hex
            (object_bytes 8 (arch_to_big_endian trigger_address))
            (with_text s (start ++ codes word)).output
            (length (start ++ codes word))
            8
          ≡ ok (
            (with_text s ((start ++ codes word) ++ hex_digits (big_endian trigger_address))).output,
            length ((start ++ codes word) ++ hex_digits (big_endian trigger_address)),
          )
      address = rw object_bytes-arch_to_big_endian (
          rw (length-big_endian trigger_address) at (
            mem2hex-write_bytes (big_endian trigger_address)
              (with_text s (start ++ codes word)).output (length (start ++ codes word)))
          ∙ rw
              (write_bytes-extend s.output (start ++ codes word) digits
                (omega (arith, size, before, digits_size, short.1)))
              (ap (λ q. ok ((with_text s ((start ++ codes word) ++ digits)).output, q))
                (omega (arith, whole, digits_size))))

  -- A watchpoint of a thread that both lookups find, with a number that leads to an entry of a known
  -- type, and a buffer of BUFSIZE bytes: the answer is T05thread with the id of the thread, the word
  -- watch, rwatch or awatch for a watchpoint on writes, reads or both, and the address in hexadecimal, highest byte first. The thread becomes the target,
  -- nothing else of the state changes, and the result is that it is to be resumed.
  pub gdb_handle_fault-watch :
      (s : State W) (inferior_id thread_id exception_reason : ℕ) (e : DebugException) {i j : ℕ}
      {inferior : Inferior} {thread : Thread} {wp : HwWatch} {word : String}
      → Found s inferior_id thread_id i j inferior thread
      → length s.output ≡ bufsize
      → exception_reason ≡ k.fault_debug_exception
      → is_stop k e.reason ≡ false
      → e.reason ≡ k.data_breakpoint
      → get_elem? inferior.hardware_watchpoints (watch_place e.bp_num) ≡ some wp
      → WatchWord wp.type word
      → gdb_handle_fault k s inferior_id thread_id exception_reason e
        ≡ ok (
          record (with_text s (watch_report inferior thread word e.trigger_address)) {
            target_thread = some (i, j);
          },
          no_error,
          some true,
        )
  unfolding gdb_handle_fault handle_debug_exception
  gdb_handle_fault-watch s inferior_id thread_id exception_reason e {i} {j} {inferior} {thread} f
        room debug other reason at kind =
      rw (
        f.by_id,
        gdb_handle_fault,
        f.at_slot,
        ◌>>=◌,
        f.thread_by_id,
        f.thread_at_slot,
        eq→== exception_reason k.fault_debug_exception debug,
        other,
        eq→== e.reason k.data_breakpoint reason,
        handle_watchpoint_exception-watch_report s (i, j) inferior thread e.bp_num e.trigger_address
            (inferior_of-Found s f) at (watch_text-WatchWord kind) room,
      )
