-- ===== src/Gdb/ThreadId/Suffix.antt =====
-- `parse_thread_id` returns a pointer into the text that it was given.
use libgdb.Prelude.{ℕ, ◌+◌, ◌≤◌, ◌<◌, ◌≡◌, [], ◌∷◌, length, some, none, Option, not, ◌==◌, arith}
use libgdb.Prelude.Outcome.{ok, Ensures, Ensures-bind, Ensures-if}
use libgdb.Util.Buffer.{Bytes, next}
use libgdb.Util.Str.{strncmp}
use libgdb.Prelude.Text.{literal}
use libgdb.Gdb.ThreadId.{parse_thread_id, parse_thread_part, dot_scan, digit_scan, read_id, Parsed}

dot_scan-length :
    (s : Bytes) (size n : ℕ) (rest : Bytes)
    → dot_scan s size ≡ ok (n, rest)
    → length rest < length s
unfolding dot_scan
dot_scan-length [] size n rest h = ground arith
dot_scan-length (c ∷ s) size n rest h = ground (arith, dot_scan-length s (size + 1) n rest)

digit_scan-length :
    (s : Bytes) (size n : ℕ) (rest : Bytes)
    → digit_scan s size ≡ ok (n, rest)
    → length rest ≤ length s
unfolding digit_scan
digit_scan-length [] size n rest h = ground arith
digit_scan-length (c ∷ s) size n rest h = ground (arith, digit_scan-length s (size + 1) n rest)

pub next-length : (s : Bytes) (r : ℕ × Bytes) → next s ≡ ok r → length r.1 < length s
next-length [] r h = ground arith
next-length (c ∷ s) r h = ground arith

-- The end is NULL or has at most `n` bytes behind it.
abbrev pub EndsIn : ℕ → Option Bytes → Type 0
EndsIn n none = Unit {0}
EndsIn n (some end) = length end ≤ n

abbrev Ends : ℕ → Parsed → Type 0
Ends n parsed = EndsIn n parsed.end

parse_thread_part-Ends :
    (s : Bytes) (n proc junk : ℕ) → length s ≤ n → Ensures (Ends n) (parse_thread_part s proc junk)
unfolding parse_thread_part
parse_thread_part-Ends s n proc junk h = Ensures-bind (Ends n) (strncmp s (literal "-1") 3) _ λ d e.
    Ensures-if (Ends n) (not (d == 0)) _ _
      (Ensures-bind (Ends n) (digit_scan s 0) _ λ (size, end) e'.
        Ensures-bind (Ends n) (read_id s size junk) _
          λ id e''. omega (arith, digit_scan-length s 0 size end e'))
      (Ensures-bind (Ends n) (next s) _ λ (a, s₁) e'.
        Ensures-bind (Ends n) (next s₁) _
          λ (b, s₂) e''. omega (arith, next-length s (a, s₁) e', next-length s₁ (b, s₂) e''))

-- What `parse_thread_id` returns is NULL or points into the text behind its first character.
pub parse_thread_id-Ends :
    (s : Bytes) (n junk_proc junk_thread : ℕ)
    → length s ≤ n
    → Ensures (λ parsed. EndsIn n parsed.end) (parse_thread_id s junk_proc junk_thread)
unfolding parse_thread_id
parse_thread_id-Ends s n junk_proc junk_thread h = Ensures-bind (Ends n) (next s) _ λ (c, s₁) e.
    let l = next-length s (c, s₁) e in
    Ensures-if (Ends n) (not (c == b'p')) _ _ tt (
      Ensures-bind (Ends n) (strncmp s₁ (literal "-1") 3) _ λ d e'.
        Ensures-if (Ends n) (not (d == 0)) _ _
          (Ensures-bind (Ends n) (dot_scan s₁ 0) _ λ (size, behind) e''.
            Ensures-bind (Ends n) (read_id s₁ size junk_proc) _ λ id e₃.
              parse_thread_part-Ends behind n id junk_thread
                (omega (arith, dot_scan-length s₁ 0 size behind e'')))
          (Ensures-bind (Ends n) (next s₁) _ λ (a, s₂) e''.
            Ensures-bind (Ends n) (next s₂) _
              λ (b, s₃) e₃. omega (arith, next-length s₁ (a, s₂) e'', next-length s₂ (b, s₃) e₃)))
