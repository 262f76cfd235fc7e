-- ===== src/Net/CharQueue.antt =====
-- The character queue of the network debugger, examples/microkit_sddf_net/apps/debugger/char_queue.h.
-- `tail` and `head` are `uint32_t`, and run on without being reduced to the capacity.
pub mod Fifo
pub mod Window
pub mod Refine
pub mod Batch
pub mod History
use libgdb.Prelude.{
  ℕ, ◌+◌, ◌-◌, ◌%◌, ◌^◌, min, Bool, true, false, drop, ltb, leb, ◌==◌, Option, none, some,
  get_elem?, if◌then◌else◌,
}
use libgdb.Prelude.Outcome.{Outcome, ok, assertion, out_of_bounds, ◌>>=◌, ◌>>◌, guard, or_fault}
use libgdb.Util.Buffer.{Bytes, store}
use libgdb.Gdb.State.{bufsize}

abbrev pub queue_capacity : ℕ
queue_capacity = bufsize

-- `struct char_queue`
pub record CharQueue : Type 0 where
  pub tail : ℕ
  pub head : ℕ
  pub buf : Bytes

unfoldable pub char_queue_length : CharQueue → ℕ
char_queue_length q = (q.tail + 2 ^ 32 - q.head) % 2 ^ 32

unfoldable pub char_queue_empty : CharQueue → ℕ → Bool
char_queue_empty q local_head = local_head == q.tail

unfoldable pub char_queue_full : CharQueue → ℕ → Bool
char_queue_full q local_tail = (local_tail + 2 ^ 32 - q.head) % 2 ^ 32 == queue_capacity

-- The results are the queue, the local tail, and whether the character was taken: `true` is 0, `false`
-- is -1.
unfoldable pub char_enqueue_local : CharQueue → ℕ → ℕ → Outcome (CharQueue × ℕ × Bool)
char_enqueue_local q local_tail character =
    let put = store q.buf (local_tail % queue_capacity) character >>= λ buf'.
    ok (record q { buf = buf' }, (local_tail + 1) % 2 ^ 32, true) in
    if char_queue_full q local_tail then ok (q, local_tail, false) else put

unfoldable pub char_enqueue : CharQueue → ℕ → Outcome (CharQueue × Bool)
char_enqueue q character =
    let put = store q.buf (q.tail % queue_capacity) character >>= λ buf'.
    ok (record q { buf = buf'; tail = (q.tail + 1) % 2 ^ 32 }, true) in
    if char_queue_full q q.tail then ok (q, false) else put

-- The results are the local head and the character, `none` for -1.
unfoldable pub char_dequeue_local : CharQueue → ℕ → Outcome (ℕ × Option ℕ)
char_dequeue_local q local_head =
    let take_out = or_fault (get_elem? q.buf (local_head % queue_capacity)) out_of_bounds >>= λ c.
    ok ((local_head + 1) % 2 ^ 32, some c) in
    if char_queue_empty q local_head then ok (local_head, none) else take_out

unfoldable pub char_dequeue : CharQueue → Outcome (CharQueue × Option ℕ)
char_dequeue q =
    let take_out = or_fault (get_elem? q.buf (q.head % queue_capacity)) out_of_bounds >>= λ c.
    ok (record q { head = (q.head + 1) % 2 ^ 32 }, some c) in
    if char_queue_empty q q.head then ok (q, none) else take_out

unfoldable pub char_queue_free : CharQueue → ℕ
char_queue_free q = (queue_capacity + 2 ^ 32 - char_queue_length q) % 2 ^ 32

unfoldable pub char_queue_contiguous_free : CharQueue → ℕ
char_queue_contiguous_free q = min (queue_capacity - q.tail % queue_capacity) (char_queue_free q)

unfoldable pub char_queue_update_shared_tail : CharQueue → ℕ → Outcome CharQueue
char_queue_update_shared_tail q local_tail =
    let current_length = char_queue_length q in
    let new_length : ℕ = (local_tail + 2 ^ 32 - q.head) % 2 ^ 32 in
    guard (leb current_length new_length) assertion
    >> guard (leb new_length queue_capacity) assertion
    >> ok (record q { tail = local_tail })

-- `sddf_memcpy`, of a library that the debugger is linked with: the object of the destination, the
-- place in it, what the source points to, and the number of bytes.
abbrev pub Memcpy : Type 0
Memcpy = Bytes → ℕ → Bytes → ℕ → Outcome Bytes

unfoldable pub char_queue_enqueue_batch : Memcpy → CharQueue → ℕ → Bytes → Outcome (CharQueue × ℕ)
char_queue_enqueue_batch sddf_memcpy q num src =
    let n = min num (char_queue_free q) in
    let num_prewrap = min n (char_queue_contiguous_free q) in
    let num_postwrap : ℕ = n - num_prewrap in
    sddf_memcpy q.buf (q.tail % queue_capacity) src num_prewrap >>= λ buf₁.
    (if num_postwrap == 0 then ok buf₁ else sddf_memcpy buf₁ 0 (drop num_prewrap src) num_postwrap)
    >>= λ buf₂.
        char_queue_update_shared_tail (record q { buf = buf₂ }) ((q.tail + n) % 2 ^ 32) >>= λ q'.
        ok (q', n)
