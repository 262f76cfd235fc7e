-- ===== src/Net/Tcp/Poll.antt =====
-- The reading end of the input queue: the coroutine does what `get_packet` does on a stream.
use libgdb.Prelude.{
  ℕ, zero, suc, ◌<◌, ◌≡◌, refl, ap, sym, ◌∙◌, ◌%◌, [], ◌∷◌, length, arith, Bool-cases, inl, inr,
  Option, some, none, get_elem?,
}
use libgdb.Prelude.Outcome.{
  Outcome, ok, fault, out_of_bounds, or_fault, ◌>>=◌, >>=-assoc, >>=-cong, Ensures, Ensures-bind,
  Ensures-ok,
}
use libgdb.EventLoop.{EventState}
use libgdb.Util.Buffer.{Bytes}
use libgdb.Framing.{
  Link, Mode, Step, wait, return, get_packet_step, Received, waiting, packet, after_sent, resume,
  get_packet,
}
use libgdb.Net.CharQueue.{
  CharQueue, queue_capacity, char_queue_length, char_queue_empty, char_dequeue,
}
use libgdb.Net.CharQueue.Window.{contents}
use libgdb.Net.CharQueue.Refine.{IsValid, char_dequeue_refines, length-contents}
use libgdb.Net.CharQueue.Fifo
use libgdb.Net.Tcp.{gdb_get_char, Polled, asleep, received, after_polled, go_on, got, poll}

-- The stream that the queue holds, as `get_packet` on a stream leaves it.
abbrev pub as_received : Polled → Received
as_received (asleep state mode buf sent q) = waiting mode buf sent
as_received (received state p buf sent q) = packet p buf (contents q) sent

after_polled-after_sent :
    (out : Bytes) (m : Outcome Polled)
    → (m >>= (λ r. ok (after_polled out r)) >>= λ r. ok (as_received r))
      ≡ (m >>= (λ r. ok (as_received r)) >>= λ r. ok (after_sent out r))
after_polled-after_sent out (ok (asleep state mode buf sent q)) = refl
after_polled-after_sent out (ok (received state p buf sent q)) = refl
after_polled-after_sent out (fault e) = refl

go_on-resume :
    (polled : Mode → Bytes → CharQueue → Outcome Polled) (more : Mode → Bytes → Outcome Received)
    (state : EventState) (q : CharQueue)
    → ((mode : Mode) (buf : Bytes)
        → (polled mode buf q >>= λ r. ok (as_received r)) ≡ more mode buf)
    → (s : Step) → (go_on polled state q s >>= λ r. ok (as_received r)) ≡ resume more (contents q) s
go_on-resume polled more state q ih (wait mode buf out) =
    after_polled-after_sent out (polled mode buf q)
    ∙ ap (λ m. m >>= λ r. ok (after_sent out r)) (ih mode buf)
go_on-resume polled more state q ih (return p buf out) = refl

-- The global `state` after a call: `new_state` if there was no character, and as before otherwise.
abbrev flagged : EventState → EventState → CharQueue × Option ℕ → EventState × CharQueue × Option ℕ
flagged new_state state (q, none) = (new_state, q, none)
flagged new_state state (q, some c) = (state, q, some c)

gdb_get_char-char_dequeue :
    (new_state state : EventState) (q : CharQueue)
    → gdb_get_char new_state state q ≡ (char_dequeue q >>= λ r. ok (flagged new_state state r))
unfolding gdb_get_char char_dequeue
gdb_get_char-char_dequeue new_state state q = elim (Bool-cases (char_queue_empty q q.head)) [
  | inl empty ↦ rw empty refl
  | inr some_left ↦ rw some_left (
      >>=-assoc (or_fault (get_elem? q.buf (q.head % queue_capacity)) out_of_bounds) _ _
      ∙ sym (>>=-assoc (or_fault (get_elem? q.buf (q.head % queue_capacity)) out_of_bounds) _ _))
]

poll-contents :
    (link : Link) (new_state : EventState) (fuel : ℕ) (state : EventState) (mode : Mode)
    (buf xs : Bytes) (q : CharQueue)
    → IsValid q
    → contents q ≡ xs
    → length xs < fuel
    → (poll link new_state fuel state mode buf q >>= λ r. ok (as_received r))
      ≡ get_packet link mode buf xs
unfolding poll Fifo.take_out get_packet
poll-contents link new_state zero state mode buf xs q valid e enough = absurd (omega arith)
poll-contents link new_state (suc fuel) state mode buf [] q valid e enough =
    let (q', step, holds, valid') = char_dequeue_refines q valid in
    let empty : gdb_get_char new_state state q ≡ ok (new_state, q', none) =
      gdb_get_char-char_dequeue new_state state q
      ∙ rw step (ap (λ l. ok (flagged new_state state (q', (Fifo.take_out l).1))) e) in
    rw empty refl
poll-contents link new_state (suc fuel) state mode buf (c ∷ xs) q valid e enough =
    let (q', step, holds, valid') = char_dequeue_refines q valid in
    let next : gdb_get_char new_state state q ≡ ok (state, q', some c) =
      gdb_get_char-char_dequeue new_state state q
      ∙ rw step (ap (λ l. ok (flagged new_state state (q', (Fifo.take_out l).1))) e) in
    let left : contents q' ≡ xs = holds ∙ ap (λ l. (Fifo.take_out l).0) e in
    rw next (
      >>=-assoc (get_packet_step link mode buf c) _ _
      ∙ >>=-cong (get_packet_step link mode buf c) (
          go_on-resume (poll link new_state fuel state)
            (λ mode' buf'. get_packet link mode' buf' xs) state q'
            (λ mode' buf'.
              poll-contents link new_state fuel state mode' buf' xs q' valid' left (omega arith)))
      ∙ ap
          (λ rest.
            get_packet_step link mode buf c
            >>= resume (λ mode' buf'. get_packet link mode' buf' xs) rest)
          left)

-- The global `state` when control leaves `get_packet`.
abbrev pub HasFlag : EventState → EventState → Polled → Type 0
HasFlag new_state state (asleep state' mode buf sent q) = state' ≡ new_state
HasFlag new_state state (received state' p buf sent q) = state' ≡ state

after_polled-HasFlag :
    (new_state state : EventState) (out : Bytes) (r : Polled)
    → HasFlag new_state state r
    → HasFlag new_state state (after_polled out r)
after_polled-HasFlag new_state state out (asleep state' mode buf sent q) h = h
after_polled-HasFlag new_state state out (received state' p buf sent q) h = h

go_on-HasFlag :
    (new_state state : EventState) (polled : Mode → Bytes → CharQueue → Outcome Polled)
    (q : CharQueue)
    → ((mode : Mode) (buf : Bytes) → Ensures (HasFlag new_state state) (polled mode buf q))
    → (s : Step) → Ensures (HasFlag new_state state) (go_on polled state q s)
go_on-HasFlag new_state state polled q h (wait mode buf out) =
    Ensures-bind (HasFlag new_state state) (polled mode buf q) _ λ r e.
      after_polled-HasFlag new_state state out r
        (Ensures-ok (HasFlag new_state state) (polled mode buf q) (h mode buf) e)
go_on-HasFlag new_state state polled q h (return p buf out) = refl

got-HasFlag :
    (link : Link) (new_state state : EventState)
    (polled : EventState → Mode → Bytes → CharQueue → Outcome Polled) (mode : Mode) (buf : Bytes)
    → ((mode' : Mode) (buf' : Bytes) (q' : CharQueue)
        → Ensures (HasFlag new_state state) (polled state mode' buf' q'))
    → (q : CharQueue) (c : Option ℕ)
    → Ensures (HasFlag new_state state) (
        got
          (λ c' state' q'. get_packet_step link mode buf c' >>= go_on (polled state') state' q')
          mode
          buf
          (flagged new_state state (q, c)))
got-HasFlag link new_state state polled mode buf h q none = refl
got-HasFlag link new_state state polled mode buf h q (some c) =
    Ensures-bind (HasFlag new_state state) (get_packet_step link mode buf c) _
      λ s e. go_on-HasFlag new_state state (polled state) q (λ mode' buf'. h mode' buf' q) s

poll-HasFlag :
    (link : Link) (new_state : EventState) (fuel : ℕ) (state : EventState) (mode : Mode)
    (buf : Bytes) (q : CharQueue)
    → Ensures (HasFlag new_state state) (poll link new_state fuel state mode buf q)
unfolding poll
poll-HasFlag link new_state zero state mode buf q = tt
poll-HasFlag link new_state (suc fuel) state mode buf q =
    rw (gdb_get_char-char_dequeue new_state state q, >>=-assoc)
      (Ensures-bind (HasFlag new_state state) (char_dequeue q) _ (λ r e.
        got-HasFlag link new_state state (poll link new_state fuel) mode buf
          (λ mode' buf' q'. poll-HasFlag link new_state fuel state mode' buf' q') r.0 r.1))

-- On a valid queue, with more fuel than it has characters, get_packet over the queue does what it
-- does on the stream of the queue's contents: it waits or returns with the same buffer and the same
-- replies, leaves the rest of the contents in the queue, or runs into the same fault. Where it waits,
-- the global `state` is `new_state`, and where it returns, as before.
pub poll_refines :
    (link : Link) (new_state : EventState) (fuel : ℕ) (state : EventState) (mode : Mode)
    (buf : Bytes) (q : CharQueue)
    → IsValid q
    → char_queue_length q < fuel
    → ((poll link new_state fuel state mode buf q >>= λ r. ok (as_received r))
        ≡ get_packet link mode buf (contents q))
      × Ensures (HasFlag new_state state) (poll link new_state fuel state mode buf q)
poll_refines link new_state fuel state mode buf q valid enough = (
  poll-contents link new_state fuel state mode buf (contents q) q valid refl
      (omega (arith, length-contents q)),
  poll-HasFlag link new_state fuel state mode buf q,
)
