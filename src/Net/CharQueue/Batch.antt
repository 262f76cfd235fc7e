-- ===== src/Net/CharQueue/Batch.antt =====
-- `char_queue_enqueue_batch`: as many characters as there is room for, in at most two copies.
use libgdb.Prelude.{
  ℕ, zero, suc, ◌+◌, ◌-◌, ◌%◌, ◌^◌, ◌≤◌, ◌≡◌, refl, ap, sym, ◌∙◌, true, [], ◌∷◌, ◌++◌, length, take,
  drop, length-drop, min, arith, leb, ◌==◌, ==_iff, Bool-cases, inl, inr, if◌then◌else◌,
}
use mathlib.Core.List.{append_assoc}
use libgdb.Prelude.Outcome.{ok}
use libgdb.Util.Buffer.{Bytes, write_bytes}
use libgdb.Net.CharQueue.{
  CharQueue, queue_capacity, Memcpy, char_queue_length, char_queue_free, char_queue_contiguous_free,
  char_queue_update_shared_tail, char_queue_enqueue_batch,
}
use libgdb.Net.CharQueue.Window.{window, contents, window-write_bytes}
use libgdb.Net.CharQueue.Refine.{IsValid, tail-length}

-- What a `memcpy` does, as far as the queue relies on it.
abbrev pub Copies : Memcpy → Type 0
Copies memcpy =
    (buf : Bytes) (p : ℕ) (src : Bytes) (n : ℕ)
    → n ≤ length src
    → memcpy buf p src n ≡ write_bytes buf p (take n src)

length-take : (n : ℕ) (xs : Bytes) → n ≤ length xs → length (take n xs) ≡ n
length-take zero xs h = refl
length-take (suc n) [] h = absurd (omega arith)
length-take (suc n) (x ∷ xs) h = ap suc (length-take n xs (omega arith))

take-nil : (n : ℕ) → take {A = ℕ} n [] ≡ []
take-nil zero = refl
take-nil (suc n) = refl

take_split : (m n : ℕ) (xs : Bytes) → take m xs ++ take n (drop m xs) ≡ take (m + n) xs
take_split zero n xs = ap (λ k. take k xs) (omega arith)
take_split (suc m) n [] = take-nil n ∙ sym (take-nil (suc m + n))
take_split (suc m) n (x ∷ xs) =
    let e : suc m + n ≡ suc (m + n) = omega arith in
    ap (λ l. x ∷ l) (take_split m n xs) ∙ ap (λ k. take k (x ∷ xs)) (sym e)

free_lem : (q : CharQueue) → IsValid q → char_queue_free q ≡ queue_capacity - char_queue_length q
unfolding char_queue_free
free_lem q v = omega (arith, v.bound)

-- The tail of a queue moved on by `n`, with room for that.
abbrev moved : (q : CharQueue) → Bytes → ℕ → CharQueue
moved q buf n = record q { buf = buf; tail = (q.tail + n) % 2 ^ 32 }

length-moved :
    (q : CharQueue) (buf : Bytes) (n : ℕ)
    → IsValid q
    → char_queue_length q + n ≤ queue_capacity
    → char_queue_length (moved q buf n) ≡ char_queue_length q + n
unfolding char_queue_length
length-moved q buf n v room = omega (arith, v.tail_word, v.head_word)

update-moved :
    (q : CharQueue) (buf : Bytes) (n : ℕ)
    → IsValid q
    → char_queue_length q + n ≤ queue_capacity
    → char_queue_update_shared_tail (record q { buf = buf }) ((q.tail + n) % 2 ^ 32)
      ≡ ok (moved q buf n)
unfolding char_queue_update_shared_tail char_queue_length
update-moved q buf n v room =
    let grown : ((q.tail + n) % 2 ^ 32 + 2 ^ 32 - q.head) % 2 ^ 32
        ≡ (q.tail + 2 ^ 32 - q.head) % 2 ^ 32 + n =
      omega (arith, v.tail_word, v.head_word) in
    let longer : leb ((q.tail + 2 ^ 32 - q.head) % 2 ^ 32) ((q.tail + 2 ^ 32 - q.head) % 2 ^ 32 + n)
        ≡ true =
      ground arith in
    let fits : leb ((q.tail + 2 ^ 32 - q.head) % 2 ^ 32 + n) queue_capacity ≡ true = ground arith in
    rw (grown, longer, fits) refl

module _ (memcpy : Memcpy) (copies : Copies memcpy) (q : CharQueue) (num : ℕ) (src : Bytes) where
  -- How many characters there is room for, and how many of them go before the end of the ring.
  abbrev pub taken : ℕ
  taken = min num (queue_capacity - char_queue_length q)

  abbrev before : ℕ
  before = min taken (queue_capacity - q.tail % queue_capacity)

  abbrev second : Bytes
  second = take (taken - before) (drop before src)

  second_copy :
      (buf : Bytes)
      → num ≤ length src
      → (if taken - before == 0 then ok buf else memcpy buf 0 (drop before src) (taken - before))
        ≡ write_bytes buf 0 second
  unfolding write_bytes
  second_copy buf long = elim (Bool-cases (taken - before == 0)) [
    | inl none_left ↦ rw (none_left, (==_iff (taken - before) 0).0 none_left) refl
    | inr some_left ↦
        rw some_left
          (copies buf 0 (drop before src) (taken - before) (omega (arith, length-drop before src)))
  ]

  -- The two copies put the characters behind the contents.
  two_copies :
      IsValid q
      → num ≤ length src
      → (buf₁ buf₂ : Bytes) × (write_bytes q.buf (q.tail % queue_capacity) (take before src)
          ≡ ok buf₁)
        × (write_bytes buf₁ 0 second ≡ ok buf₂)
        × (length buf₂ ≡ queue_capacity)
        × (window buf₂ q.head (char_queue_length q + taken) ≡ contents q ++ take taken src)
  two_copies v long =
      let size₁ = length-take before src (omega arith) in
      let size₂ =
        length-take (taken - before) (drop before src) (omega (arith, length-drop before src)) in
      let (buf₁, x) =
        window-write_bytes q.buf q.head (char_queue_length q) (q.tail % queue_capacity)
          (take before src) v.size (omega (arith, size₁, v.bound)) (omega (arith, size₁))
          (λ pos. omega (arith, tail-length q v)) in
      let (buf₂, y) =
        window-write_bytes buf₁ q.head (char_queue_length q + before) 0 second x.size
          (omega (arith, size₂, v.bound)) (omega (arith, size₂))
          (λ pos. omega (arith, tail-length q v, size₂)) in
      let counted₁ : char_queue_length q + length (take before src) ≡ char_queue_length q + before =
        omega (arith, size₁) in
      let counted₂ : char_queue_length q + before + length second ≡ char_queue_length q + taken =
        omega (arith, size₂) in
      let whole : before + (taken - before) ≡ taken = omega arith in
      (
        buf₁,
        buf₂,
        x.stored,
        y.stored,
        y.size,
        ap (window buf₂ q.head) (sym counted₂)
            ∙ y.extends
            ∙ ap (λ w. w ++ second) (ap (window buf₁ q.head) (sym counted₁) ∙ x.extends)
            ∙ append_assoc (contents q) (take before src) second
            ∙ ap (λ w. contents q ++ w)
                (take_split before (taken - before) src ∙ ap (λ n. take n src) whole),
      )

  -- For a valid queue, a source of at least num characters and a memcpy that copies: without a
  -- fault the first characters of the source, as many as there is room for, are put behind the
  -- contents, their number is returned, and the queue stays valid.
  pub char_queue_enqueue_batch-append :
      IsValid q
      → num ≤ length src
      → (q' : CharQueue) × (char_queue_enqueue_batch memcpy q num src ≡ ok (q', taken))
        × (contents q' ≡ contents q ++ take taken src)
        × IsValid q'
  unfolding char_queue_enqueue_batch char_queue_contiguous_free
  char_queue_enqueue_batch-append v long =
      let (buf₁, buf₂, stored₁, stored₂, size, extends) = two_copies v long in
      let room : char_queue_length q + taken ≤ queue_capacity = omega (arith, v.bound) in
      let same_before : min taken
            (min (queue_capacity - q.tail % queue_capacity) (queue_capacity - char_queue_length q))
          ≡ before =
        omega arith in
      (
        moved q buf₂ taken,
        rw
            (
              free_lem q v,
              same_before,
              copies q.buf (q.tail % queue_capacity) src before (omega arith),
              stored₁,
              second_copy buf₁ long,
              stored₂,
              update-moved q buf₂ taken v room,
            )
            refl,
        ap (window buf₂ q.head) (length-moved q buf₂ taken v room) ∙ extends,
        record {
          size = size;
          tail_word = omega arith;
          head_word = v.head_word;
          bound = omega (arith, length-moved q buf₂ taken v room);
        },
      )
