-- ===== src/EventLoop/Notified.antt =====
-- Characters that come with several notifications.
use libgdb.Prelude.{ℕ, ◌+◌, ◌<◌, ◌≡◌, ◌≢◌, refl, ap, sym, ◌∙◌, [], ◌++◌, length, arith}
use mathlib.Core.List.{append_assoc}
use libgdb.Prelude.Outcome.{Outcome, ok, fault, ◌>>=◌, >>=-assoc, >>=-cong, >>=-cong_at, Ensures-ok}
use libgdb.Util.Buffer.{Bytes}
use libgdb.Arch.Kernel.{Kernel}
use libgdb.Gdb.State.{State}
use libgdb.Gdb.Packet.{Stack}
use libgdb.Framing.{Sent, unanswered, acknowledged, resent}
use libgdb.EventLoop.Laws.{IsWire, IsShorter, continue_put}
use libgdb.EventLoop.Chunks.{event_loop-append}
use libgdb.EventLoop.{
  Wire, Debugger, Idle, EventState, none_waiting, waiting_for_input_event_loop,
  waiting_for_input_fault, event_loop, and_sent, on_fault_sent, wake_main, notified,
}

module _ (w : Wire) (laws : IsWire w) {W : Type 0} (k : Kernel W)
    (junk : State W → Bytes → Stack) where
  -- What was sent before.
  abbrev behind : Bytes → Idle w W × Bytes × Bytes → Outcome (Idle w W × Bytes × Bytes)
  behind out (idle, rest, sent) = ok (idle, rest, out ++ sent)

  -- Another notification, after what was sent before.
  abbrev pub then_notified :
      ℕ → Bytes → Idle w W × Bytes × Bytes → Outcome (Idle w W × Bytes × Bytes)
  then_notified fuel s' (idle, rest, out) = notified w k junk fuel idle (rest ++ s') >>= behind out

  -- A debugger whose event loop waits.
  abbrev listening : Debugger w W → w.Sender → Idle w W
  listening d sender = record {
    debugger = d;
    event_state = waiting_for_input_event_loop;
    fault_sender = sender;
  }

  -- A debugger of which t_fault waits.
  abbrev reporting : Debugger w W → w.Sender → Idle w W
  reporting d sender = record {
    debugger = d;
    event_state = waiting_for_input_fault;
    fault_sender = sender;
  }

  abbrev heard : w.Sender → Bytes → Debugger w W × Bytes → Outcome (Idle w W × Bytes × Bytes)
  heard sender out (d, sent) = ok (listening d sender, [], out ++ sent)

  and_sent-listening :
      (sender : w.Sender) (out out' : Bytes) (m : Outcome (Debugger w W × Bytes))
      → (and_sent w k junk out' m >>= heard sender out)
        ≡ (m >>= heard sender [] >>= behind (out ++ out'))
  and_sent-listening sender out out' (ok (d, sent)) =
      ap (λ o. ok (listening d sender, [], o)) (sym (append_assoc out out' sent))
  and_sent-listening sender out out' (fault e) = refl

  wake_main-append :
      (fuel : ℕ) (d : Debugger w W) (sender : w.Sender) (s s' out : Bytes)
      → length s + length s' < fuel
      → wake_main w k junk fuel (listening d sender, s ++ s', out)
        ≡ (wake_main w k junk fuel (listening d sender, s, out) >>= then_notified fuel s')
  unfolding notified
  wake_main-append fuel d sender s s' out h =
      ap (λ m. m >>= heard sender out) (event_loop-append w laws k junk fuel d s s' h)
      ∙ >>=-assoc (event_loop w k junk fuel d s) _ _
      ∙ >>=-cong (event_loop w k junk fuel d s)
          (λ (d', out'). and_sent-listening sender out out' (event_loop w k junk fuel d' s'))
      ∙ sym (>>=-assoc (event_loop w k junk fuel d s) _ _)

  -- t_fault is woken up, and t_main behind it.
  abbrev wake_fault : ℕ → Debugger w W → w.Sender × Sent → Outcome (Idle w W × Bytes × Bytes)
  wake_fault fuel d sent = wake_main w k junk fuel (on_fault_sent w k junk d sent)

  heard-behind :
      (sender : w.Sender) (out sent : Bytes) (m : Outcome (Debugger w W × Bytes))
      → (m >>= heard sender (out ++ sent)) ≡ (m >>= heard sender sent >>= behind out)
  heard-behind sender out sent (ok (d, more)) =
      ap (λ o. ok (listening d sender, [], o)) (append_assoc out sent more)
  heard-behind sender out sent (fault e) = refl

  wake_fault-resent :
      (fuel : ℕ) (d : Debugger w W) (sender : w.Sender) (out : Bytes) (sent : w.Sender × Sent)
      → wake_fault fuel d (sent.0, resent out sent.1)
        ≡ (wake_fault fuel (record d { sender = w.share d.sender sender }) sent >>= behind out)
  wake_fault-resent fuel d sender out (sender', unanswered o) =
      ap (λ x. ok (reporting (record d { sender = x }) sender', [], out ++ o))
        (sym (laws.share_share d.sender sender sender'))
  wake_fault-resent fuel d sender out (sender', acknowledged rest o) =
      ap
        (λ x. wake_main w k junk fuel (listening (record d { sender = x }) sender', rest, out ++ o))
        (sym (laws.share_share d.sender sender sender'))
      ∙ heard-behind sender' out o (
          event_loop w k junk fuel (record d { sender = w.share (w.share d.sender sender) sender' })
            rest)

  wake_fault-append :
      (fuel : ℕ) (d : Debugger w W) (s' : Bytes) (n : ℕ) (sent : w.Sender × Sent)
      → IsShorter w n sent
      → n + length s' < fuel
      → (continue_put w d.state.output s' sent >>= wake_fault fuel d)
        ≡ (wake_fault fuel d sent >>= then_notified fuel s')
  unfolding notified
  wake_fault-append fuel d s' n (sender, unanswered out) h enough =
      >>=-assoc (w.await_reply sender d.state.output s') _ _
      ∙ >>=-cong (w.await_reply sender d.state.output s') (wake_fault-resent fuel d sender out)
      ∙ sym (>>=-assoc (w.await_reply sender d.state.output s') _ _)
  wake_fault-append fuel d s' n (sender, acknowledged rest out) h enough =
      wake_main-append fuel (record d { sender = w.share d.sender sender }) sender rest s' out
        (omega arith)

  waiting-append :
      (fuel : ℕ) (d : Debugger w W) (e : EventState) (sender : w.Sender) (s s' : Bytes)
      → e ≢ none_waiting
      → length s + length s' < fuel
      → notified w k junk fuel
          (record { debugger = d; event_state = e; fault_sender = sender })
          (s ++ s')
        ≡ (notified w k junk fuel
              (record { debugger = d; event_state = e; fault_sender = sender })
              s
            >>= then_notified fuel s')
  unfolding notified
  waiting-append fuel d none_waiting sender s s' h enough = absurd (h refl)
  waiting-append fuel d waiting_for_input_event_loop sender s s' h enough =
      wake_main-append fuel d sender s s' [] enough
  waiting-append fuel d waiting_for_input_fault sender s s' h enough =
      ap (λ m. m >>= wake_fault fuel d) (laws.await_append sender d.state.output s s')
      ∙ >>=-assoc (w.await_reply sender d.state.output s) _ _
      ∙ >>=-cong_at (w.await_reply sender d.state.output s) (λ sent e.
        wake_fault-append fuel d s' (length s) sent
          (Ensures-ok (IsShorter w (length s)) (w.await_reply sender d.state.output s)
            (laws.await_shorter sender d.state.output s) e)
          enough)
      ∙ sym (>>=-assoc (w.await_reply sender d.state.output s) _ _)

  -- For a put_packet whose replies may come in two parts and that uses one of them at least when it
  -- is acknowledged, as that of both programs: while a coroutine waits for input, and with more
  -- fuel than there are characters, one notification with characters that came in two parts does
  -- what a notification for each part does: the debugger ends in the same state and sends the same,
  -- or runs into the same fault. This includes the replies to a fault report, which go to t_fault,
  -- and the characters behind them, which go to t_main.
  pub notified-append :
      (fuel : ℕ) (idle : Idle w W) (s s' : Bytes)
      → idle.event_state ≢ none_waiting
      → length s + length s' < fuel
      → notified w k junk fuel idle (s ++ s') ≡ (
          notified w k junk fuel idle s >>= λ (idle', rest, out).
          notified w k junk fuel idle' (rest ++ s') >>= λ (idle'', rest', out').
          ok (idle'', rest', out ++ out'))
  notified-append fuel idle s s' h enough =
      waiting-append fuel idle.debugger idle.event_state idle.fault_sender s s' h enough
