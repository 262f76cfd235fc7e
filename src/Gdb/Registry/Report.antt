-- ===== src/Gdb/Registry/Report.antt =====
-- What the buffer for the answer holds after texts and thread ids have been put into it.
use libgdb.Prelude.{◌+◌, ◌<◌, ◌≡◌, [], ◌++◌, length, length-append, drop, arith}
use libgdb.Prelude.Outcome.{ok}
use libgdb.Prelude.Text.{codes}
use libgdb.Util.Buffer.{Bytes, NonNul, text}
use libgdb.Util.Buffer.Write.{with_front, write_bytes-extend, write_bytes-front_text, text-append}
use libgdb.Util.Str.Copy.{strlcpy-fits, strnlen_lem}
use libgdb.Gdb.State.{bufsize, Thread, Inferior, State}
use libgdb.Gdb.ThreadId.{inferior_of}
use libgdb.Gdb.ThreadId.Text.{thread_id_text, write_thread_id-write_bytes}
use libgdb.Gdb.Registry.{put_text, put_thread_id, put_report}
use Prim.Native.String.{String}

module _ {W : Type 0} where
  -- The state whose answer is `t`.
  abbrev pub with_text : State W → Bytes → State W
  with_text s t = record s { output = with_front s.output t }

  pub text-with_text : (s : State W) (t : Bytes) → NonNul t → text (with_text s t).output ≡ t
  text-with_text s t h = text-append t _ h

  -- A text at the start of the buffer is the answer.
  pub put_text-front :
      (s : State W) (t : String)
      → NonNul (codes t)
      → length (codes t) < bufsize
      → length (codes t) < length s.output
      → put_text s 0 t ≡ ok (with_text s (codes t))
  unfolding put_text
  put_text-front s t h fits room = rw (
    strlcpy-fits s.output 0 (codes t) [] bufsize h fits,
    write_bytes-front_text s.output (codes t) room,
  )

  -- A text behind the answer is joined to it.
  pub put_text-behind :
      (s : State W) (t : Bytes) (u : String)
      → NonNul (codes u)
      → length (codes u) < bufsize
      → length t + length (codes u) < length s.output
      → put_text (with_text s t) (length t) u ≡ ok (with_text s (t ++ codes u))
  unfolding put_text
  put_text-behind s t u h fits room = rw (
    strlcpy-fits (with_front s.output t) (length t) (codes u) [] bufsize h fits,
    write_bytes-extend s.output t (codes u) room,
  )

  pub put_thread_id-behind :
      (s : State W) (t : Bytes) (thread : Thread) {inferior : Inferior}
      → NonNul t
      → length t < bufsize
      → inferior_of s.inferiors thread ≡ ok inferior
      → length t + 6 < length s.output
      → put_thread_id (with_text s t) thread
        ≡ ok (with_text s (t ++ thread_id_text inferior.gdb_id thread.gdb_id), length t + 6)
  unfolding put_thread_id
  put_thread_id-behind s t thread {inferior} h fits inf room = rw (
    strnlen_lem t (drop (length t + 1) s.output) bufsize h (omega arith),
    write_thread_id-write_bytes s.inferiors thread (with_front s.output t) (length t) inf,
    write_bytes-extend s.output t (thread_id_text inferior.gdb_id thread.gdb_id) room,
  )

  -- Two texts without NUL, each shorter than BUFSIZE, and the id of a thread whose inferior is in
  -- the table, together shorter than the buffer: stored from the start of the buffer on, they are
  -- the answer, one behind the other, and nothing else of the state changes.
  pub put_report-front :
      (s : State W) (before : String) (thread : Thread) (after : String) {inferior : Inferior}
      → NonNul (codes before)
      → NonNul (codes after)
      → length (codes before) < bufsize
      → length (codes after) < bufsize
      → inferior_of s.inferiors thread ≡ ok inferior
      → length (codes before) + 6 + length (codes after) < length s.output
      → put_report s 0 before thread after
        ≡ ok (
            with_text s
              ((codes before ++ thread_id_text inferior.gdb_id thread.gdb_id) ++ codes after))
  unfolding put_report
  put_report-front s before thread after {inferior} hb ha fb fa inf room =
      rw
        (
          put_text-front s before hb fb (omega arith),
          put_thread_id-behind s (codes before) thread hb fb inf (omega arith),
          behind,
        )
        (put_text-behind s (codes before ++ tid) after ha fa (omega (arith, behind)))
    where
      tid : Bytes
      tid = thread_id_text inferior.gdb_id thread.gdb_id

      behind : length (codes before) + 6 ≡ length (codes before ++ tid)
      behind = omega (arith, length-append (codes before) tid)
