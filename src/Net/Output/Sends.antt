-- ===== src/Net/Output/Sends.antt =====
-- `put_packet` of the network debugger as the event loop uses it.
use libgdb.Prelude.{
  suc, ◌≡◌, refl, ap, sym, ◌∙◌, [], ◌∷◌, ◌++◌, length, arith, ◌==◌, Bool-cases, inl, inr,
}
use mathlib.Core.List.{append-nil}
use libgdb.Prelude.Outcome.{
  Outcome, ok, fault, ◌>>=◌, >>=-assoc, >>=-cong, Ensures, Ensures-bind, Ensures-if, Ensures-ok,
}
use libgdb.Util.Buffer.{Bytes}
use libgdb.Framing.{Sent, unanswered, acknowledged, resent}
use libgdb.Framing.Chunks.{ShorterSent-le, ShorterSent-resent, resent-resent}
use libgdb.EventLoop.{Wire}
use libgdb.EventLoop.Laws.{IsWire, IsShorter, continue_put}
use libgdb.Net.Tcp.{link}
use libgdb.Net.Output.{Assembly, send_packet, put_packet_from, put_packet, await_reply}

-- The coroutines share `tcp_output_buf`.
abbrev pub wire : Wire
wire = record {
  link = link;
  Sender = Assembly;
  put_packet = put_packet;
  await_reply = await_reply;
  share = λ a b. record a { tcp_output_buf = b.tcp_output_buf };
}

-- What was sent before.
abbrev behind : Bytes → Assembly × Sent → Outcome (Assembly × Sent)
behind out (a, s) = ok (a, resent out s)

behind-continue :
    (output s' out : Bytes) (p : Assembly × Sent)
    → (continue_put wire output s' p >>= behind out)
      ≡ (behind out p >>= continue_put wire output s')
behind-continue output s' out (a, unanswered sent) =
    >>=-assoc (await_reply a output s') _ _
    ∙ >>=-cong (await_reply a output s')
        (λ (a', s). ap (λ x. ok (a', x)) (resent-resent out sent s))
behind-continue output s' out (a, acknowledged rest sent) = refl

put_packet_from-await_reply :
    (a : Assembly) (output s : Bytes)
    → put_packet_from a output s
      ≡ (send_packet output a >>= λ (out, b). await_reply b output s >>= behind out)
unfolding put_packet_from
put_packet_from-await_reply a output [] =
    >>=-cong (send_packet output a)
      (λ (out, b). ap (λ o. ok (b, unanswered o)) (sym (append-nil out)))
put_packet_from-await_reply a output (c ∷ stream) = >>=-cong (send_packet output a) (λ (out, b).
    elim (Bool-cases (c == b'+')) [
      | inl ack ↦ rw ack (ap (λ o. ok (b, acknowledged stream o)) (sym (append-nil out)))
      | inr other ↦ rw other refl
    ])

put_packet_from-append :
    (a : Assembly) (output s s' : Bytes)
    → put_packet_from a output (s ++ s')
      ≡ (put_packet_from a output s >>= continue_put wire output s')
unfolding put_packet_from
put_packet_from-append a output [] s' =
    put_packet_from-await_reply a output s' ∙ sym (>>=-assoc (send_packet output a) _ _)
put_packet_from-append a output (c ∷ s) s' =
    >>=-cong (send_packet output a) (λ (out, b). elim (Bool-cases (c == b'+')) [
      | inl ack ↦ rw ack refl
      | inr other ↦ rw other (
          ap (λ m. m >>= behind out) (put_packet_from-append b output s s')
          ∙ >>=-assoc (put_packet_from b output s) _ _
          ∙ >>=-cong (put_packet_from b output s) (behind-continue output s' out)
          ∙ sym (>>=-assoc (put_packet_from b output s) _ _))
    ])
    ∙ sym (>>=-assoc (send_packet output a) _ _)

behind-nil : (m : Outcome (Assembly × Sent)) → (m >>= behind []) ≡ m
behind-nil (ok (a, unanswered out)) = refl
behind-nil (ok (a, acknowledged rest out)) = refl
behind-nil (fault e) = refl

await_reply-append :
    (a : Assembly) (output s s' : Bytes)
    → await_reply a output (s ++ s') ≡ (await_reply a output s >>= continue_put wire output s')
await_reply-append a output [] s' = sym (behind-nil (await_reply a output s'))
await_reply-append a output (c ∷ s) s' = elim (Bool-cases (c == b'+')) [
  | inl ack ↦ rw ack refl
  | inr other ↦ rw other (put_packet_from-append a output s s')
]

put_packet_from-ShorterSent :
    (a : Assembly) (output s : Bytes)
    → Ensures (IsShorter wire (length s)) (put_packet_from a output s)
unfolding put_packet_from
put_packet_from-ShorterSent a output [] =
    Ensures-bind (IsShorter wire 0) (send_packet output a) _ (λ (out, b) e. tt)
put_packet_from-ShorterSent a output (c ∷ s) =
    Ensures-bind (IsShorter wire (suc (length s))) (send_packet output a) _ λ (out, b) e.
      Ensures-if (IsShorter wire (suc (length s))) (c == b'+') _ _ (omega arith) (
        Ensures-bind (IsShorter wire (suc (length s))) (put_packet_from b output s) _ λ (b', r) e'.
          ShorterSent-resent (length s) out r (
            Ensures-ok (IsShorter wire (length s)) (put_packet_from b output s)
              (put_packet_from-ShorterSent b output s) e'))

await_reply-ShorterSent :
    (a : Assembly) (output s : Bytes) → Ensures (IsShorter wire (length s)) (await_reply a output s)
await_reply-ShorterSent a output [] = tt
await_reply-ShorterSent a output (c ∷ s) =
    Ensures-if (IsShorter wire (suc (length s))) (c == b'+') _ _ (omega arith)
      (Ensures-later (put_packet_from a output s) (put_packet_from-ShorterSent a output s))
  where
    Ensures-later :
        (m : Outcome (Assembly × Sent))
        → Ensures (IsShorter wire (length s)) m
        → Ensures (IsShorter wire (suc (length s))) m
    Ensures-later (ok (a', r)) h = ShorterSent-le r (omega arith) h
    Ensures-later (fault e) h = tt

-- The replies to `put_packet` may come in parts, and it uses one of them at least.
pub wire-IsWire : IsWire wire
unfolding put_packet
wire-IsWire = record {
  put_append = λ a. put_packet_from-append (record a { tcp_output_tmp = 0; taken = 0 });
  await_append = await_reply-append;
  put_shorter = λ a. put_packet_from-ShorterSent (record a { tcp_output_tmp = 0; taken = 0 });
  await_shorter = await_reply-ShorterSent;
  share_share = λ a b c. refl;
}
