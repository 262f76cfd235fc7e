-- ===== src/Gdb/Vcont/Fuel.antt =====
-- The loops of `handle_vcont` end.
use libgdb.Prelude.{
  ℕ, zero, suc, ◌+◌, ◌<◌, ◌≡◌, refl, Bool, true, false, [], ◌∷◌, length, Option, some, none, arith,
  ◌==◌, if◌then◌else◌,
}
use libgdb.Prelude.Outcome.{
  Outcome, ok, fault, assertion, out_of_bounds, null_pointer, or_fault, guard, ◌>>◌, Ensures-ok,
}
use libgdb.Util.Buffer.{Bytes, next, peek}
use libgdb.Arch.Kernel.{Kernel}
use libgdb.Gdb.State.{State}
use libgdb.Gdb.ThreadId.Suffix.{EndsIn, next-length, parse_thread_id-Ends}
use libgdb.Gdb.ThreadId.{Parsed, parse_thread_id}
use libgdb.Gdb.Registry.{put_text}
use libgdb.Gdb.Vcont.{Handled, none_handled, Mode, action, target, within, vcont_loop, handle_vcont}

-- The fuel did not run out.
abbrev Ended : {A : Type 0} → Option (Outcome A) → Type 0
Ended {A} o = (m : Outcome A) × (o ≡ some m)

within-Ended :
    {A B : Type 0} (m : Outcome A) (f : A → Option (Outcome B))
    → ((a : A) → m ≡ ok a → Ended (f a))
    → Ended (within m f)
within-Ended (ok a) f h = h a refl
within-Ended (fault e) f h = (fault e, refl)

if-Ended :
    {A : Type 0} (b : Bool) (o o' : Option (Outcome A))
    → Ended o
    → Ended o'
    → Ended (if b then o else o')
if-Ended true o o' h h' = h
if-Ended false o o' h h' = h'

next_behind :
    (b : Bool) (s : Bytes) (r : ℕ × Bytes)
    → (guard b assertion >> next s) ≡ ok r
    → length r.1 < length s
next_behind true s r e = next-length s r e
next_behind false s r e = ground arith

ends :
    (b : Bool) (s : Bytes) (jp jt : ℕ) (parsed : Parsed) (end : Bytes) {fuel : ℕ}
    → (guard b assertion >> parse_thread_id s jp jt) ≡ ok parsed
    → or_fault parsed.end null_pointer ≡ ok end
    → length s < fuel
    → length end < fuel
ends true s jp jt parsed end {fuel} e e' h =
    in_text parsed.end
      (Ensures-ok (λ p. EndsIn (length s) p.end) (parse_thread_id s jp jt)
        (parse_thread_id-Ends s (length s) jp jt (omega arith)) e)
      e'
  where
    in_text :
        (o : Option Bytes)
        → EndsIn (length s) o
        → or_fault o null_pointer ≡ ok end
        → length end < fuel
    in_text none p q = ground arith
    in_text (some t) p q = ground arith
ends false s jp jt parsed end e e' h = ground arith

module _ {W : Type 0} (k : Kernel W) where
  vcont_loop-Ended :
      (fuel : ℕ) (mode : Mode) (s : State W) (handled : Handled) (jp jt : ℕ) (input : Bytes)
      → length input < fuel
      → Ended (vcont_loop k fuel mode s handled jp jt input)
  unfolding vcont_loop
  vcont_loop-Ended zero mode s handled jp jt input h = absurd (omega arith)
  vcont_loop-Ended (suc fuel) action s handled jp jt [] h = (fault out_of_bounds, refl)
  vcont_loop-Ended (suc fuel) action s handled jp jt (c ∷ input) h =
      if-Ended (c == 0) _ _ (ok s, refl)
        (within-Ended (guard (c == b';') assertion >> next input) _ λ (a, input₂) e.
          let l = next_behind (c == b';') input (a, input₂) e in
          if-Ended (a == b's') _ _
            (vcont_loop-Ended fuel (target true) _ handled jp jt input₂ (omega arith))
            (if-Ended (a == b'c') _ _
              (vcont_loop-Ended fuel (target false) _ handled jp jt input₂ (omega arith))
              (put_text s 0 "E04", refl)))
  vcont_loop-Ended (suc fuel) (target stepping) s handled jp jt [] h = (fault out_of_bounds, refl)
  vcont_loop-Ended (suc fuel) (target stepping) s handled jp jt (c ∷ input) h =
      within-Ended (guard (c == b':') assertion >> parse_thread_id input jp jt) _ λ parsed e.
        within-Ended _ _ λ (s', handled') e₁.
          within-Ended (or_fault parsed.end null_pointer) _ λ end e₂.
            within-Ended (peek end) _ λ c' e₃.
              vcont_loop-Ended fuel (if c' == b':' then target stepping else action) s' handled'
                parsed.proc_id parsed.thread_id end
                (ends (c == b':') input jp jt parsed end e e₂ (omega arith))

  -- On every text and in every state the loops of `handle_vcont` end within the fuel that it gives
  -- them, and it returns what they end with.
  pub handle_vcont_ends :
      (s : State W) (jp jt : ℕ) (input : Bytes)
      → (m : Outcome (State W)) × (vcont_loop k (length input + 1) action s none_handled jp jt input
          ≡ some m)
        × (handle_vcont k s jp jt input ≡ m)
  unfolding handle_vcont
  handle_vcont_ends s jp jt input =
      let (m, e) =
        vcont_loop-Ended (length input + 1) action s none_handled jp jt input (omega arith) in
      (m, e, rw (handle_vcont, e))
