-- ===== src/Net/CharQueue/Fifo.antt =====
-- A bounded queue of characters, as a list: what the ring of the character queue stands for.
use libgdb.Prelude.{
  ℕ, Bool, true, false, List, [], ◌∷◌, ◌++◌, length, Option, none, some, ◌==◌, if◌then◌else◌,
}
use libgdb.Util.Buffer.{Bytes}

unfoldable pub put : ℕ → Bytes → ℕ → Bytes × Bool
put capacity xs c = if length xs == capacity then (xs, false) else (xs ++ (c ∷ []), true)

unfoldable pub take_out : Bytes → Bytes × Option ℕ
take_out [] = ([], none)
take_out (x ∷ xs) = (xs, some x)

-- What a producer and a consumer ask of a queue, and what they are told.
pub data Op : Type 0 where
  enqueue : ℕ → Op
  dequeue : Op

pub data Reply : Type 0 where
  taken : Bool → Reply
  given : Option ℕ → Reply

-- A history of calls: the replies, in order, and the contents at the end.
unfoldable pub run : ℕ → Bytes → List Op → List Reply × Bytes
unfolding put take_out
run capacity xs [] = ([], xs)
run capacity xs (enqueue c ∷ ops) =
    let (xs', done) = put capacity xs c in
    let (replies, end) = run capacity xs' ops in (taken done ∷ replies, end)
run capacity xs (dequeue ∷ ops) =
    let (xs', c) = take_out xs in
    let (replies, end) = run capacity xs' ops in (given c ∷ replies, end)
