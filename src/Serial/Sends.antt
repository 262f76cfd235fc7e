-- ===== src/Serial/Sends.antt =====
-- `put_packet` of the serial debugger as the event loop uses it.
use libgdb.Prelude.{◌≡◌, refl, ap, sym, ◌∙◌, ◌++◌}
use libgdb.Prelude.Outcome.{Outcome, ok, ◌>>=◌, >>=-assoc, >>=-cong, Ensures-bind, Ensures-ok}
use libgdb.Util.Buffer.{Bytes}
use libgdb.Framing.{Sent, unanswered, acknowledged, put_packet, await_reply}
use libgdb.Framing.Chunks.{
  ShorterSent, continue_sent, put_packet-append, await_reply-append, put_packet-ShorterSent,
  await_reply-ShorterSent,
}
use libgdb.EventLoop.Laws.{IsWire, IsShorter, continue_put}
use libgdb.Serial.{wire}

continue_put-wire :
    (buf s' : Bytes) (s : Sent)
    → (continue_sent buf s' s >>= λ r. ok (tt, r)) ≡ continue_put wire buf s' (tt, s)
continue_put-wire buf s' (unanswered out) =
    >>=-assoc (await_reply buf s') _ _ ∙ sym (>>=-assoc (await_reply buf s') _ _)
continue_put-wire buf s' (acknowledged rest out) = refl

continued :
    (buf s' : Bytes) (m n : Outcome Sent)
    → m ≡ (n >>= continue_sent buf s')
    → (m >>= λ s. ok (tt, s)) ≡ ((n >>= λ s. ok (tt, s)) >>= continue_put wire buf s')
continued buf s' m n h =
    ap (λ x. x >>= λ s. ok (tt, s)) h
    ∙ >>=-assoc n _ _
    ∙ >>=-cong n (continue_put-wire buf s')
    ∙ sym (>>=-assoc n _ _)

-- The replies to `put_packet` may come in parts, and it uses one of them at least.
pub wire-IsWire : IsWire wire
wire-IsWire = record {
  put_append = λ sender buf s s'.
      continued buf s' (put_packet buf (s ++ s')) (put_packet buf s) (put_packet-append buf s s');
  await_append = λ sender buf s s'.
      continued buf s' (await_reply buf (s ++ s')) (await_reply buf s)
        (await_reply-append buf s s');
  put_shorter = λ sender buf s.
      Ensures-bind (IsShorter wire _) (put_packet buf s) _
        (λ r e. Ensures-ok (ShorterSent _) (put_packet buf s) (put_packet-ShorterSent buf s) e);
  await_shorter = λ sender buf s.
      Ensures-bind (IsShorter wire _) (await_reply buf s) _
        (λ r e. Ensures-ok (ShorterSent _) (await_reply buf s) (await_reply-ShorterSent buf s) e);
  share_share = λ a b c. refl;
}
