-- ===== src/Gdb/Query.antt =====
-- `handle_query`: the general queries.
use libgdb.Prelude.{ℕ, ◌+◌, true, false, List, [], ◌∷◌, ltb, ◌==◌, if◌then◌else◌}
use libgdb.Prelude.Outcome.{Outcome, ok, ◌>>=◌}
use libgdb.Prelude.Text.{literal}
use libgdb.Util.Buffer.{Bytes, store}
use libgdb.Util.Str.{strncmp}
use libgdb.Arch.Kernel.{Kernel}
use libgdb.Gdb.State.{bufsize, Thread, Inferior, State}
use libgdb.Gdb.ThreadId.{write_thread_id}
use libgdb.Gdb.Registry.{put_text}
use Prim.Native.String.{String}

-- `if (strncmp(ptr, "...", n) == 0) ... else ...`
abbrev pub on_prefix : {A : Type 0} → Bytes → String → ℕ → Outcome A → Outcome A → Outcome A
on_prefix ptr t n yes' no' = strncmp ptr (literal t) n >>= λ d. if d == 0 then yes' else no'

-- The loops of qfThreadInfo. `printed` is the number of ids so far; the results are the buffer, the
-- pointer behind the ids, and their number.
unfoldable pub list_threads : List Inferior → List Thread → Bytes → ℕ → ℕ → Outcome (Bytes × ℕ × ℕ)
list_threads inferiors [] buf p printed = ok (buf, p, printed)
list_threads inferiors (t ∷ ts) buf p printed = elim t.enabled [
  | false ↦ list_threads inferiors ts buf p printed
  | true ↦
      let comma = store buf p b',' >>= λ buf₁. ok (buf₁, p + 1) in
      ((if ltb 0 printed then comma else ok (buf, p)) >>= λ (buf₁, p₁).
      write_thread_id inferiors t buf₁ p₁ >>= λ (buf₂, p₂).
      list_threads inferiors ts buf₂ p₂ (printed + 1))
]

unfoldable pub list_inferiors :
    List Inferior → List Inferior → Bytes → ℕ → ℕ → Outcome (Bytes × ℕ × ℕ)
list_inferiors inferiors [] buf p printed = ok (buf, p, printed)
list_inferiors inferiors (i ∷ is) buf p printed = elim i.enabled [
  | false ↦ list_inferiors inferiors is buf p printed
  | true ↦ list_threads inferiors i.threads buf p printed >>= λ (buf₁, p₁, printed₁).
      list_inferiors inferiors is buf₁ p₁ printed₁
]

unfoldable pub thread_info : {W : Type 0} → State W → Outcome (State W)
unfolding list_inferiors list_threads
thread_info s = do
  buf ← store s.output 0 b'm'
  (buf₁, p, printed) ← list_inferiors s.inferiors s.inferiors buf 1 0
  ok (record s { output = buf₁ })

abbrev pub supported_format : String
supported_format =
    "qSupported:PacketSize=%lx;QThreadEvents+;swbreak+;hwbreak+;vContSupported+;fork-events+;exec-events+;multiprocess+;"

module _ {W : Type 0} (k : Kernel W) where
  open k use {snprintf}

  unfoldable pub handle_query : State W → Bytes → Outcome (State W)
  unfolding thread_info
  handle_query s ptr =
      on_prefix ptr "qSupported" 10
        (ok (record s { output = snprintf s.output bufsize (literal supported_format) bufsize }))
        (on_prefix ptr "qfThreadInfo" 12 (thread_info s) (
          on_prefix ptr "qsThreadInfo" 12 (put_text s 0 "l") (
            on_prefix ptr "qC" 2 (put_text s 0 "QCp1.1") (
              on_prefix ptr "qSymbol" 7 (put_text s 0 "OK") (
                on_prefix ptr "qTStatus" 8 (put_text s 0 "T0") (
                  on_prefix ptr "qAttached" 9 (put_text s 0 "1") (
                    on_prefix ptr "QThreadEvents:1" 15 (put_text s 0 "OK")
                      (on_prefix ptr "QThreadEvents:0" 15 (put_text s 0 "OK") (ok s)))))))))
