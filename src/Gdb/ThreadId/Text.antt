-- ===== src/Gdb/ThreadId/Text.antt =====
-- A thread id as text, and reading it back.
use libgdb.Prelude.{
  ℕ, ◌+◌, ◌*◌, ◌/◌, ◌%◌, ◌<◌, ◌≡◌, refl, ap, ◌∙◌, List, [], ◌∷◌, ◌++◌, some, arith, ◌≤◌, ◌==◌,
  false,
}
use libgdb.Prelude.Outcome.{ok, ◌>>=◌, >>=-assoc, >>=-cong}
use libgdb.Util.Buffer.{Bytes, store, write_bytes, object_bytes, object_value, ended_at}
use libgdb.Util.Buffer.Write.{write_bytes-over_ended, write_bytes-store}
use libgdb.Util.Hex.{minus_one, hexchar_to_int, int_to_hexchar, hex_byte, hex2mem, mem2hex}
use libgdb.Util.Hex.RoundTrip.{
  hex_digits, mem2hex-write_bytes, hex_byte-digits, hexchar_to_int-int_to_hexchar,
}
use libgdb.Util.Str.{strncmp}
use libgdb.Util.Str.{difference}
use libgdb.Prelude.Text.{literal}
use libgdb.Gdb.State.{Thread, Inferior}
use libgdb.Gdb.ThreadId.{
  inferior_of, write_thread_id, parse_thread_id, parse_thread_part, dot_scan, digit_scan, read_id,
  set_low_bytes,
}

-- `pAA.BB`, of the lowest byte of each id.
abbrev pub thread_id_text : ℕ → ℕ → Bytes
thread_id_text proc thread =
    b'p' ∷ hex_digits ((proc % 256) ∷ []) ++ (b'.' ∷ hex_digits ((thread % 256) ∷ []))

one_byte :
    (w : ℕ) (buf : Bytes) (p : ℕ)
    → mem2hex (object_bytes 2 w) buf p 1
      ≡ ended_at (write_bytes buf p (hex_digits ((w % 256) ∷ []) ++ (0 ∷ []))) (p + 2 * 1)
one_byte w buf p = low ∙ mem2hex-write_bytes ((w % 256) ∷ []) buf p
  where
    low : mem2hex (object_bytes 2 w) buf p 1 ≡ mem2hex ((w % 256) ∷ []) buf p 1
    low = unfold mem2hex object_bytes in refl

-- For a thread whose inferior is in the table `write_thread_id` stores the text of the lowest
-- bytes of both ids and a NUL, and returns the place of the NUL.
pub write_thread_id-write_bytes :
    (inferiors : List Inferior) (thread : Thread) (buf : Bytes) (p : ℕ) {inferior : Inferior}
    → inferior_of inferiors thread ≡ ok inferior
    → write_thread_id inferiors thread buf p
      ≡ ended_at
          (write_bytes buf p (thread_id_text inferior.gdb_id thread.gdb_id ++ (0 ∷ [])))
          (p + 6)
unfolding write_thread_id
write_thread_id-write_bytes inferiors thread buf p {inferior} h = rw h (
    simp (one_byte, >>=-assoc)
      (>>=-cong (store buf p b'p') behind_p
        ∙ write_bytes-store buf p b'p' (proc ++ (b'.' ∷ number ++ (0 ∷ []))) (p + 6)))
  where
    proc : Bytes
    proc = hex_digits ((inferior.gdb_id % 256) ∷ [])

    number : Bytes
    number = hex_digits ((thread.gdb_id % 256) ∷ [])

    behind_p :
        (b : Bytes)
        → (write_bytes b (p + 1) (proc ++ (0 ∷ [])) >>= λ a. store a (p + 1 + 2 * 1) b'.' >>= λ b₂.
            ended_at
              (write_bytes b₂ (p + 1 + 2 * 1 + 1) (number ++ (0 ∷ [])))
              (p + 1 + 2 * 1 + 1 + 2 * 1))
          ≡ ended_at (write_bytes b (p + 1) (proc ++ (b'.' ∷ number ++ (0 ∷ [])))) (p + 6)
    behind_p b =
        >>=-cong (write_bytes b (p + 1) (proc ++ (0 ∷ []))) (λ a.
          write_bytes-store a (p + 1 + 2 * 1) b'.' (number ++ (0 ∷ [])) (p + 1 + 2 * 1 + 1 + 2 * 1))
        ∙ write_bytes-over_ended b (p + 1) proc 0 (b'.' ∷ number ++ (0 ∷ [])) (p + 1 + 2 * 1)
            (p + 1 + 2 * 1 + 1 + 2 * 1) (omega arith) (omega arith)
        ∙ ap (λ q. ended_at (write_bytes b (p + 1) (proc ++ (b'.' ∷ number ++ (0 ∷ [])))) q)
            (omega arith)

module _ (x y : ℕ) (hx : hexchar_to_int x < 16) (hy : hexchar_to_int y < 16) where
  digit_bounds : (c : ℕ) → hexchar_to_int c < 16 → (48 ≤ c) × (c < 103)
  unfolding hexchar_to_int
  digit_bounds c h = ground arith

  not_all : (s : Bytes) → (d : ℕ) × (strncmp (x ∷ s) (literal "-1") 3 ≡ ok d) × ((d == 0) ≡ false)
  unfolding strncmp
  not_all s = let b = digit_bounds x hx in (difference x b'-', ground arith, ground arith)

  dot_scan-digits : (s : Bytes) → dot_scan (x ∷ y ∷ b'.' ∷ s) 0 ≡ ok (2, s)
  unfolding dot_scan
  dot_scan-digits s = let bx = digit_bounds x hx in let b = digit_bounds y hy in ground arith

  digit_scan-digits :
      (stop : ℕ) (s : Bytes)
      → hexchar_to_int stop ≡ minus_one
      → digit_scan (x ∷ y ∷ stop ∷ s) 0 ≡ ok (2, stop ∷ s)
  unfolding digit_scan
  digit_scan-digits stop s h = ground arith

  read_id-digits :
      (s : Bytes) (old : ℕ) → read_id (x ∷ y ∷ s) 2 old ≡ ok (hex_byte x y + 256 * (old / 256))
  unfolding read_id set_low_bytes hex2mem object_value
  read_id-digits s old = ap ok (omega arith)

parse_digits :
    (x y z w junk_proc junk_thread stop : ℕ) (rest : Bytes)
    → hexchar_to_int x < 16
    → hexchar_to_int y < 16
    → hexchar_to_int z < 16
    → hexchar_to_int w < 16
    → hexchar_to_int stop ≡ minus_one
    → parse_thread_id (b'p' ∷ x ∷ y ∷ b'.' ∷ z ∷ w ∷ stop ∷ rest) junk_proc junk_thread
      ≡ ok (record {
        end = some (stop ∷ rest);
        proc_id = hex_byte x y + 256 * (junk_proc / 256);
        thread_id = hex_byte z w + 256 * (junk_thread / 256);
      })
unfolding parse_thread_id parse_thread_part
parse_digits x y z w junk_proc junk_thread stop rest hx hy hz hw h =
    let (d, e, ne) = not_all x y hx hy (y ∷ b'.' ∷ z ∷ w ∷ stop ∷ rest) in
    let (d', e', ne') = not_all z w hz hw (w ∷ stop ∷ rest) in
    rw (
      e,
      ne,
      dot_scan-digits x y hx hy (z ∷ w ∷ stop ∷ rest),
      read_id-digits x y hx hy (b'.' ∷ z ∷ w ∷ stop ∷ rest) junk_proc,
      e',
      ne',
      digit_scan-digits z w hz hw stop rest h,
      read_id-digits z w hz hw (stop ∷ rest) junk_thread,
    )

-- `parse_thread_id` of the text of the lowest byte of each id, before a character that is no
-- digit: the lowest byte of each result is read, the others are what the variables held before,
-- and the pointer that is returned stands on that character.
pub parse_thread_id-thread_id_text :
    (proc thread junk_proc junk_thread stop : ℕ) (rest : Bytes)
    → hexchar_to_int stop ≡ minus_one
    → parse_thread_id (thread_id_text proc thread ++ (stop ∷ rest)) junk_proc junk_thread
      ≡ ok (record {
        end = some (stop ∷ rest);
        proc_id = proc % 256 + 256 * (junk_proc / 256);
        thread_id = thread % 256 + 256 * (junk_thread / 256);
      })
parse_thread_id-thread_id_text proc thread junk_proc junk_thread stop rest h = rw (
  parse_digits _ _ _ _ junk_proc junk_thread stop rest (is_digit (proc % 256 / 16) (omega arith))
      (is_digit (proc % 256 % 16) (omega arith)) (is_digit (thread % 256 / 16) (omega arith))
      (is_digit (thread % 256 % 16) (omega arith)) h,
  hex_byte-digits (proc % 256) (omega arith),
  hex_byte-digits (thread % 256) (omega arith),
)
  where
    is_digit : (d : ℕ) → d < 16 → hexchar_to_int (int_to_hexchar d) < 16
    is_digit d hd = omega (arith, hexchar_to_int-int_to_hexchar d hd)
