-- ===== src/Framing/Chunks.antt =====
-- A stream that comes in parts: the coroutines go on where the first part left them.
use libgdb.Prelude.{
  ℕ, suc, ◌<◌, ◌≤◌, ◌≡◌, refl, ap, sym, ◌∙◌, [], ◌∷◌, ◌++◌, length, arith, ◌==◌, Bool-cases, inl,
  inr,
}
use mathlib.Core.List.{append_assoc, append-nil}
use libgdb.Prelude.Outcome.{
  Outcome, ok, fault, ◌>>=◌, >>=-assoc, >>=-cong, Ensures, Ensures-bind, Ensures-if, Ensures-ok,
}
use libgdb.Util.Buffer.{Bytes}
use libgdb.Framing.{
  Link, Mode, Step, wait, return, get_packet_step, Received, waiting, packet, after_sent, resume,
  get_packet, Sent, unanswered, acknowledged, resent, send_packet, put_packet, await_reply,
}
use libgdb.Framing.Receive.{after_sent-nil}

-- `get_packet` on a second part.
abbrev pub continue : Link → Bytes → Received → Outcome Received
continue link stream (waiting mode buf sent) =
    get_packet link mode buf stream >>= λ r. ok (after_sent sent r)
continue link stream (packet p buf rest sent) = ok (packet p buf (rest ++ stream) sent)

after_sent-after_sent :
    (a b : Bytes) (r : Received) → after_sent a (after_sent b r) ≡ after_sent (a ++ b) r
after_sent-after_sent a b (waiting mode buf sent) =
    ap (waiting mode buf) (sym (append_assoc a b sent))
after_sent-after_sent a b (packet p buf rest sent) =
    ap (packet p buf rest) (sym (append_assoc a b sent))

continue-after_sent :
    (link : Link) (stream out : Bytes) (r : Received)
    → (continue link stream r >>= λ x. ok (after_sent out x))
      ≡ continue link stream (after_sent out r)
continue-after_sent link stream out (waiting mode buf sent) =
    >>=-assoc (get_packet link mode buf stream) _ _
    ∙ >>=-cong (get_packet link mode buf stream) (λ r. ap ok (after_sent-after_sent out sent r))
continue-after_sent link stream out (packet p buf rest sent) = refl

resume-continue :
    (link : Link) (s s' : Bytes)
    → ((mode : Mode) (buf : Bytes)
        → get_packet link mode buf (s ++ s') ≡ (get_packet link mode buf s >>= continue link s'))
    → (step : Step)
    → resume (λ mode buf. get_packet link mode buf (s ++ s')) (s ++ s') step
      ≡ (resume (λ mode buf. get_packet link mode buf s) s step >>= continue link s')
resume-continue link s s' ih (wait mode buf out) =
    ap (λ m. m >>= λ r. ok (after_sent out r)) (ih mode buf)
    ∙ >>=-assoc (get_packet link mode buf s) _ _
    ∙ >>=-cong (get_packet link mode buf s) (continue-after_sent link s' out)
    ∙ sym (>>=-assoc (get_packet link mode buf s) _ _)
resume-continue link s s' ih (return p buf out) = refl

pub get_packet-append :
    (link : Link) (mode : Mode) (buf s s' : Bytes)
    → get_packet link mode buf (s ++ s') ≡ (get_packet link mode buf s >>= continue link s')
unfolding get_packet
get_packet-append link mode buf [] s' = sym (after_sent-nil (get_packet link mode buf s'))
get_packet-append link mode buf (c ∷ s) s' =
    >>=-cong (get_packet_step link mode buf c)
      (resume-continue link s s' (λ mode' buf'. get_packet-append link mode' buf' s s'))
    ∙ sym (>>=-assoc (get_packet_step link mode buf c) _ _)

-- A packet uses a character of the stream at least.
abbrev pub Shorter : ℕ → Received → Type 0
Shorter n (waiting mode buf sent) = Unit
Shorter n (packet p buf rest sent) = length rest < n

Shorter-after_sent :
    (n : ℕ) (out : Bytes) (r : Received) → Shorter n r → Shorter (suc n) (after_sent out r)
Shorter-after_sent n out (waiting mode buf sent) h = tt
Shorter-after_sent n out (packet p buf rest sent) h = omega arith

resume-Shorter :
    (more : Mode → Bytes → Outcome Received) (stream : Bytes)
    → ((mode : Mode) (buf : Bytes) → Ensures (Shorter (length stream)) (more mode buf))
    → (step : Step) → Ensures (Shorter (suc (length stream))) (resume more stream step)
resume-Shorter more stream ih (wait mode buf out) =
    Ensures-bind (Shorter (suc (length stream))) (more mode buf) (λ r. ok (after_sent out r))
      λ r e.
        Shorter-after_sent (length stream) out r
          (Ensures-ok (Shorter (length stream)) (more mode buf) (ih mode buf) e)
resume-Shorter more stream ih (return p buf out) = omega arith

pub get_packet-Shorter :
    (link : Link) (mode : Mode) (buf stream : Bytes)
    → Ensures (Shorter (length stream)) (get_packet link mode buf stream)
unfolding get_packet
get_packet-Shorter link mode buf [] = tt
get_packet-Shorter link mode buf (c ∷ stream) =
    Ensures-bind (Shorter (suc (length stream))) (get_packet_step link mode buf c) _ λ step e.
      resume-Shorter (λ mode' buf'. get_packet link mode' buf' stream) stream
        (λ mode' buf'. get_packet-Shorter link mode' buf' stream) step

-- `put_packet` on a second part.
abbrev pub continue_sent : Bytes → Bytes → Sent → Outcome Sent
continue_sent buf stream (unanswered out) = await_reply buf stream >>= λ s. ok (resent out s)
continue_sent buf stream (acknowledged rest out) = ok (acknowledged (rest ++ stream) out)

resent-nil : (m : Outcome Sent) → (m >>= λ s. ok (resent [] s)) ≡ m
resent-nil (ok (unanswered out)) = refl
resent-nil (ok (acknowledged rest out)) = refl
resent-nil (fault e) = refl

pub resent-resent : (a b : Bytes) (s : Sent) → resent a (resent b s) ≡ resent (a ++ b) s
resent-resent a b (unanswered out) = ap unanswered (sym (append_assoc a b out))
resent-resent a b (acknowledged rest out) = ap (acknowledged rest) (sym (append_assoc a b out))

continue_sent-resent :
    (buf stream out : Bytes) (s : Sent)
    → (continue_sent buf stream s >>= λ x. ok (resent out x))
      ≡ continue_sent buf stream (resent out s)
continue_sent-resent buf stream out (unanswered sent) =
    >>=-assoc (await_reply buf stream) _ _
    ∙ >>=-cong (await_reply buf stream) (λ s. ap ok (resent-resent out sent s))
continue_sent-resent buf stream out (acknowledged rest sent) = refl

put_packet-await_reply :
    (buf stream : Bytes)
    → put_packet buf stream
      ≡ (send_packet buf >>= λ out. await_reply buf stream >>= λ s. ok (resent out s))
unfolding put_packet
put_packet-await_reply buf [] =
    >>=-cong (send_packet buf) (λ out. ap (λ o. ok (unanswered o)) (sym (append-nil out)))
put_packet-await_reply buf (c ∷ stream) = elim (Bool-cases (c == b'+')) [
  | inl ack ↦ rw ack (
      >>=-cong (send_packet buf)
        (λ out. ap (λ o. ok (acknowledged stream o)) (sym (append-nil out))))
  | inr other ↦ rw other refl
]

pub put_packet-append :
    (buf s s' : Bytes) → put_packet buf (s ++ s') ≡ (put_packet buf s >>= continue_sent buf s')
unfolding put_packet
put_packet-append buf [] s' = put_packet-await_reply buf s' ∙ sym (>>=-assoc (send_packet buf) _ _)
put_packet-append buf (c ∷ s) s' = elim (Bool-cases (c == b'+')) [
  | inl ack ↦ rw ack (sym (>>=-assoc (send_packet buf) _ _))
  | inr other ↦ rw other (
      >>=-cong (send_packet buf) (λ out.
        ap (λ m. m >>= λ x. ok (resent out x)) (put_packet-append buf s s')
        ∙ >>=-assoc (put_packet buf s) _ _
        ∙ >>=-cong (put_packet buf s) (continue_sent-resent buf s' out)
        ∙ sym (>>=-assoc (put_packet buf s) _ _))
      ∙ sym (>>=-assoc (send_packet buf) _ _))
]

pub await_reply-append :
    (buf s s' : Bytes) → await_reply buf (s ++ s') ≡ (await_reply buf s >>= continue_sent buf s')
await_reply-append buf [] s' = sym (resent-nil (await_reply buf s'))
await_reply-append buf (c ∷ s) s' = elim (Bool-cases (c == b'+')) [
  | inl ack ↦ rw ack refl
  | inr other ↦ rw other (put_packet-append buf s s')
]

-- An acknowledgement is a character of the stream.
abbrev pub ShorterSent : ℕ → Sent → Type 0
ShorterSent n (unanswered out) = Unit
ShorterSent n (acknowledged rest out) = length rest < n

pub ShorterSent-resent :
    (n : ℕ) (out : Bytes) (s : Sent) → ShorterSent n s → ShorterSent (suc n) (resent out s)
ShorterSent-resent n out (unanswered sent) h = tt
ShorterSent-resent n out (acknowledged rest sent) h = omega arith

pub put_packet-ShorterSent :
    (buf stream : Bytes) → Ensures (ShorterSent (length stream)) (put_packet buf stream)
unfolding put_packet
put_packet-ShorterSent buf [] = Ensures-bind (ShorterSent 0) (send_packet buf) _ (λ out e. tt)
put_packet-ShorterSent buf (c ∷ stream) =
    Ensures-bind (ShorterSent (suc (length stream))) (send_packet buf) _ λ out e.
      Ensures-if (ShorterSent (suc (length stream))) (c == b'+') _ _ (omega arith) (
        Ensures-bind (ShorterSent (suc (length stream))) (put_packet buf stream) _ λ s e'.
          ShorterSent-resent (length stream) out s (
            Ensures-ok (ShorterSent (length stream)) (put_packet buf stream)
              (put_packet-ShorterSent buf stream) e'))

pub ShorterSent-le : {m n : ℕ} (s : Sent) → m ≤ n → ShorterSent m s → ShorterSent n s
ShorterSent-le (unanswered out) le h = tt
ShorterSent-le (acknowledged rest out) le h = omega arith

pub await_reply-ShorterSent :
    (buf stream : Bytes) → Ensures (ShorterSent (length stream)) (await_reply buf stream)
await_reply-ShorterSent buf [] = tt
await_reply-ShorterSent buf (c ∷ stream) =
    Ensures-if (ShorterSent (suc (length stream))) (c == b'+') _ _ (omega arith)
      (Ensures-le (put_packet buf stream) (put_packet-ShorterSent buf stream))
  where
    Ensures-le :
        (m : Outcome Sent)
        → Ensures (ShorterSent (length stream)) m
        → Ensures (ShorterSent (suc (length stream))) m
    Ensures-le (ok s) h = ShorterSent-le s (omega arith) h
    Ensures-le (fault e) h = tt
