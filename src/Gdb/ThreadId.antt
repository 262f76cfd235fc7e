-- ===== src/Gdb/ThreadId.antt =====
-- Thread ids as text, and the threads and inferiors that ids stand for. An `int` is its 32-bit
-- pattern; the ids of structures are unsigned.
pub mod Text
pub mod Suffix
use libgdb.Prelude.{
  ℕ, ◌+◌, ◌-◌, ◌*◌, ◌/◌, ◌%◌, ◌^◌, not, ◌&&◌, List, [], ◌∷◌, get_elem?, Option, none, some, ltb,
  leb, ◌==◌, if◌then◌else◌,
}
use libgdb.Prelude.Outcome.{Outcome, ok, fault, out_of_bounds, null_pointer, ◌>>=◌, or_fault}
use libgdb.Prelude.Text.{literal}
use libgdb.Prelude.Search.{find_index}
use libgdb.Util.Buffer.{Bytes, store, next, peek, object_bytes, object_value}
use libgdb.Util.Hex.{minus_one, hexchar_to_int, mem2hex, hex2mem}
use libgdb.Util.Str.{strncmp}
use libgdb.Gdb.State.{max_pds, max_threads, Thread, Inferior}

abbrev pub id_all : ℕ
id_all = minus_one

abbrev pub id_any : ℕ
id_any = 0

-- `inferiors[i]` and `inferior->threads[j]`
abbrev pub inferior_at : List Inferior → ℕ → Outcome Inferior
inferior_at inferiors i = or_fault (get_elem? inferiors i) out_of_bounds

abbrev pub thread_at : Inferior → ℕ → Outcome Thread
thread_at inferior j = or_fault (get_elem? inferior.threads j) out_of_bounds

-- `thread->inferior`
abbrev pub inferior_of : List Inferior → Thread → Outcome Inferior
inferior_of inferiors thread =
    or_fault thread.inferior null_pointer >>= λ i. inferior_at inferiors i

-- Of each id the lowest byte is printed.
unfoldable pub write_thread_id : List Inferior → Thread → Bytes → ℕ → Outcome (Bytes × ℕ)
write_thread_id inferiors thread buf p = do
  buf₁ ← store buf p b'p'
  inferior ← inferior_of inferiors thread
  (buf₂, p₂) ← mem2hex (object_bytes 2 inferior.gdb_id) buf₁ (p + 1) 1
  buf₃ ← store buf₂ p₂ b'.'
  mem2hex (object_bytes 2 thread.gdb_id) buf₃ (p₂ + 1) 1

-- `while (*ptr++ != '.') size++;`: the size and the pointer behind the dot.
unfoldable pub dot_scan : Bytes → ℕ → Outcome (ℕ × Bytes)
dot_scan [] size = fault out_of_bounds
dot_scan (c ∷ rest) size =
    let more = dot_scan rest (size + 1) in if c == b'.' then ok (size, rest) else more

-- `while (hexchar_to_int(*ptr++) != -1) size++;`: the size and the pointer to the character at which
-- the loop ended.
unfoldable pub digit_scan : Bytes → ℕ → Outcome (ℕ × Bytes)
digit_scan [] size = fault out_of_bounds
digit_scan (c ∷ rest) size =
    let more = digit_scan rest (size + 1) in
    if hexchar_to_int c == minus_one then ok (size, c ∷ rest) else more

-- The low bytes of an `int` replaced; more than four lie outside of it.
unfoldable pub set_low_bytes : ℕ → Bytes → ℕ → Outcome ℕ
set_low_bytes size mem old =
    if leb size 4
    then ok (object_value mem + 256 ^ size * (old / 256 ^ size))
    else fault out_of_bounds

-- One id of `size` digits at `ptr`, into an `int` that held `old`.
unfoldable pub read_id : Bytes → ℕ → ℕ → Outcome ℕ
unfolding set_low_bytes
read_id ptr size old =
    let several = hex2mem ptr (size / 2) >>= λ (mem, rest). set_low_bytes (size / 2) mem old in
    if size / 2 == 0 then (peek ptr >>= λ c. ok (hexchar_to_int c)) else several

-- What `parse_thread_id` returns and leaves in its two results. `end` is `none` for NULL.
pub record Parsed : Type 0 where
  pub end : Option Bytes
  pub proc_id : ℕ
  pub thread_id : ℕ

-- The part behind the dot.
unfoldable pub parse_thread_part : Bytes → ℕ → ℕ → Outcome Parsed
unfolding read_id digit_scan
parse_thread_part ptr proc_id thread_id =
    let number = digit_scan ptr 0 >>= λ (size, end). read_id ptr size thread_id >>= λ id.
    ok (record { end = some end; proc_id = proc_id; thread_id = id }) in
    (strncmp ptr (literal "-1") 3 >>= λ d.
    if not (d == 0)
    then number
    else (next ptr >>= λ (a, ptr₁). next ptr₁ >>= λ (b, ptr₂).
        ok (record { end = some ptr₂; proc_id = proc_id; thread_id = id_all })))

-- `proc_id` and `thread_id` are what the two `int`s held before the call.
unfoldable pub parse_thread_id : Bytes → ℕ → ℕ → Outcome Parsed
unfolding parse_thread_part dot_scan
parse_thread_id ptr proc_id thread_id = next ptr >>= λ (c, ptr₁).
    let number = dot_scan ptr₁ 0 >>= λ (size, behind).
    read_id ptr₁ size proc_id >>= λ id. parse_thread_part behind id thread_id in
    let all = strncmp ptr₁ (literal "-1") 3 >>= λ d.
    if not (d == 0)
    then number
    else (next ptr₁ >>= λ (a, ptr₂). next ptr₂ >>= λ (b, ptr₃).
        ok (record { end = some ptr₃; proc_id = id_all; thread_id = thread_id })) in
    if not (c == b'p')
    then ok (record { end = none; proc_id = proc_id; thread_id = thread_id })
    else all

-- `array[(x - 1) % m]` with the remainder of C: a negative index is outside of the array.
unfoldable pub id_to_index : ℕ → ℕ → Outcome ℕ
id_to_index x m =
    if x == 0
    then fault out_of_bounds
    else if ltb x (2 ^ 31)
    then ok ((x - 1) % m)
    else if (2 ^ 32 - x + 1) % m == 0
    then ok 0
    else fault out_of_bounds

-- The lookups return the place of what they find, `none` for NULL.
unfoldable pub lookup_inferior_from_id : List Inferior → ℕ → Option ℕ
lookup_inferior_from_id inferiors inferior_id =
    find_index (λ inferior. inferior.enabled && inferior.id == inferior_id) inferiors 0

unfoldable pub lookup_thread_from_id : Inferior → ℕ → Option ℕ
lookup_thread_from_id inferior thread_id =
    find_index (λ thread. thread.enabled && thread.id == thread_id) inferior.threads 0

unfoldable pub lookup_inferior_from_gdb_id : List Inferior → ℕ → Outcome (Option ℕ)
unfolding id_to_index
lookup_inferior_from_gdb_id inferiors proc_id = do
  i ← id_to_index proc_id max_pds
  inferior ← inferior_at inferiors i
  ok (if inferior.gdb_id == proc_id then some i else none)

unfoldable pub lookup_thread_from_gdb_id : List Inferior → ℕ → ℕ → Outcome (Option (ℕ × ℕ))
unfolding id_to_index
lookup_thread_from_gdb_id inferiors proc_id thread_id = id_to_index proc_id max_pds >>= λ i.
    inferior_at inferiors i >>= λ inferior.
    let found = id_to_index thread_id max_threads >>= λ j. thread_at inferior j >>= λ thread.
    ok (if thread.gdb_id == thread_id then some (i, j) else none) in
    if inferior.gdb_id == proc_id then found else ok none
