-- ===== src/Net/CharQueue/Refine.antt =====
-- The ring behaves as the queue of the characters that it holds.
use libgdb.Prelude.{
  ℕ, suc, ◌+◌, ◌%◌, ◌^◌, ◌≤◌, ◌<◌, ◌≡◌, ◌≢◌, refl, ap, ◌∙◌, true, [], ◌∷◌, ◌++◌, length, set,
  length-set, arith, ltb, ◌==◌, ne_of, ==_iff, Bool-cases, inl, inr,
}
use libgdb.Prelude.Outcome.{ok}
use libgdb.Util.Buffer.{store}
use libgdb.Net.CharQueue.{
  CharQueue, queue_capacity, char_queue_length, char_queue_full, char_queue_empty, char_enqueue,
  char_dequeue,
}
use libgdb.Net.CharQueue.Window.{window, window-set, length-window, contents, get_elem?-byte_at}
use libgdb.Net.CharQueue.Fifo.{Op, enqueue, dequeue, Reply, taken, given}
use libgdb.Net.CharQueue.Fifo

-- The ring has its size, the indices have 32 bits, and no more than the ring is in use.
pub record IsValid (q : CharQueue) : Type 0 where
  pub size : length q.buf ≡ queue_capacity
  pub tail_word : q.tail < 2 ^ 32
  pub head_word : q.head < 2 ^ 32
  pub bound : char_queue_length q ≤ queue_capacity

-- How the indices stand to the number of characters.
pub tail-length : (q : CharQueue) → IsValid q → q.tail ≡ (q.head + char_queue_length q) % 2 ^ 32
unfolding char_queue_length
tail-length q v = omega (arith, v.tail_word, v.head_word)

pub length-contents : (q : CharQueue) → length (contents q) ≡ char_queue_length q
length-contents q = length-window q.buf q.head (char_queue_length q)

full_iff : (q : CharQueue) → char_queue_full q q.tail ≡ (char_queue_length q == queue_capacity)
unfolding char_queue_full char_queue_length
full_iff q = refl

empty_iff : (q : CharQueue) → IsValid q → char_queue_empty q q.head ≡ (char_queue_length q == 0)
unfolding char_queue_empty char_queue_length
empty_iff q v = ground (arith, v.tail_word, v.head_word)

-- The queue with one character more, and with one less.
abbrev with_one : CharQueue → ℕ → CharQueue
with_one q c = record q {
  buf = set q.buf (q.tail % queue_capacity) c;
  tail = (q.tail + 1) % 2 ^ 32;
}

abbrev without_one : CharQueue → CharQueue
without_one q = record q { head = (q.head + 1) % 2 ^ 32 }

length-with_one :
    (q : CharQueue) (c : ℕ)
    → IsValid q
    → char_queue_length q ≢ queue_capacity
    → char_queue_length (with_one q c) ≡ suc (char_queue_length q)
unfolding char_queue_length
length-with_one q c v room = omega (arith, v.tail_word, v.head_word, v.bound)

length-without_one :
    (q : CharQueue)
    → IsValid q
    → char_queue_length q ≢ 0
    → char_queue_length q ≡ suc (char_queue_length (without_one q))
unfolding char_queue_length
length-without_one q v some_left = omega (arith, v.tail_word, v.head_word, v.bound)

with_one-IsValid :
    (q : CharQueue) (c : ℕ)
    → IsValid q
    → char_queue_length q ≢ queue_capacity
    → IsValid (with_one q c)
with_one-IsValid q c v room = record {
  size = length-set q.buf (q.tail % queue_capacity) c ∙ v.size;
  tail_word = omega arith;
  head_word = v.head_word;
  bound = omega (arith, length-with_one q c v room, v.bound);
}

without_one-IsValid :
    (q : CharQueue) → IsValid q → char_queue_length q ≢ 0 → IsValid (without_one q)
without_one-IsValid q v some_left = record {
  size = v.size;
  tail_word = v.tail_word;
  head_word = omega arith;
  bound = omega (arith, length-without_one q v some_left, v.bound);
}

contents-with_one :
    (q : CharQueue) (c : ℕ)
    → IsValid q
    → char_queue_length q ≢ queue_capacity
    → contents (with_one q c) ≡ contents q ++ (c ∷ [])
contents-with_one q c v room =
    ap (window (set q.buf (q.tail % queue_capacity) c) q.head) (length-with_one q c v room)
    ∙ window-set q.buf q.head (char_queue_length q) (q.tail % queue_capacity) c v.size
        (omega (arith, v.bound, room)) (omega (arith, tail-length q v))

-- `char_enqueue` does what the queue of the contents does, and keeps the invariant.
pub char_enqueue_refines :
    (q : CharQueue) (c : ℕ)
    → IsValid q
    → (q' : CharQueue) × (char_enqueue q c ≡ ok (q', (Fifo.put queue_capacity (contents q) c).1))
      × (contents q' ≡ (Fifo.put queue_capacity (contents q) c).0)
      × IsValid q'
unfolding char_enqueue Fifo.put store
char_enqueue_refines q c v = elim (Bool-cases (char_queue_length q == queue_capacity)) [
  | inl full ↦
      (q, rw (full_iff q, length-contents q, full) refl, rw (length-contents q, full) refl, v)
  | inr room ↦
      let ne : char_queue_length q ≢ queue_capacity = ne_of room in
      let fits : ltb (q.tail % queue_capacity) (length q.buf) ≡ true = ground (arith, v.size) in
      (
        with_one q c,
        rw (full_iff q, length-contents q, room, fits) refl,
        rw (length-contents q, room) (contents-with_one q c v ne),
        with_one-IsValid q c v ne,
      )
]

-- `char_dequeue` does what the queue of the contents does, and keeps the invariant.
pub char_dequeue_refines :
    (q : CharQueue)
    → IsValid q
    → (q' : CharQueue) × (char_dequeue q ≡ ok (q', (Fifo.take_out (contents q)).1))
      × (contents q' ≡ (Fifo.take_out (contents q)).0)
      × IsValid q'
unfolding char_dequeue Fifo.take_out
char_dequeue_refines q v = elim (Bool-cases (char_queue_length q == 0)) [
  | inl none_left ↦
      let zero_left = (==_iff (char_queue_length q) 0).0 none_left in
      (q, rw (empty_iff q v, none_left, zero_left) refl, rw zero_left refl, v)
  | inr some_left ↦
      let left = length-without_one q v (ne_of some_left) in
      let at = get_elem?-byte_at q.buf (q.head % queue_capacity) (omega (arith, v.size)) in
      (
        without_one q,
        rw (empty_iff q v, some_left, at, left) refl,
        rw left refl,
        without_one-IsValid q v (ne_of some_left),
      )
]
