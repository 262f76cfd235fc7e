-- ===== src/Net/CharQueue/Window.antt =====
-- The characters that a queue holds: a window of the ring.
use libgdb.Prelude.{
  ℕ, zero, suc, ◌+◌, ◌%◌, ◌^◌, ◌≤◌, ◌<◌, ◌≡◌, ◌≢◌, refl, ap, sym, ◌∙◌, [], ◌∷◌, ◌++◌, length, set,
  length-set, arith, ltb, get_elem?, some, true,
}
use mathlib.Core.Path.{ap₂}
use mathlib.Core.List.{append_assoc, append-nil}
use libgdb.Prelude.Outcome.{ok}
use libgdb.Util.Buffer.{Bytes, store, write_bytes}
use libgdb.Net.CharQueue.{CharQueue, queue_capacity, char_queue_length}

abbrev byte_at : Bytes → ℕ → ℕ
byte_at [] i = 0
byte_at (c ∷ buf) zero = c
byte_at (c ∷ buf) (suc i) = byte_at buf i

pub get_elem?-byte_at :
    (buf : Bytes) (i : ℕ) → i < length buf → get_elem? buf i ≡ some (byte_at buf i)
get_elem?-byte_at [] i h = absurd (omega arith)
get_elem?-byte_at (c ∷ buf) zero h = refl
get_elem?-byte_at (c ∷ buf) (suc i) h = get_elem?-byte_at buf i (omega arith)

byte_at-set_self : (buf : Bytes) (i c : ℕ) → i < length buf → byte_at (set buf i c) i ≡ c
byte_at-set_self [] i c h = absurd (omega arith)
byte_at-set_self (b ∷ buf) zero c h = refl
byte_at-set_self (b ∷ buf) (suc i) c h = byte_at-set_self buf i c (omega arith)

byte_at-set_ne : (buf : Bytes) (i j c : ℕ) → i ≢ j → byte_at (set buf i c) j ≡ byte_at buf j
byte_at-set_ne [] i j c h = refl
byte_at-set_ne (b ∷ buf) zero zero c h = absurd (h refl)
byte_at-set_ne (b ∷ buf) zero (suc j) c h = refl
byte_at-set_ne (b ∷ buf) (suc i) zero c h = refl
byte_at-set_ne (b ∷ buf) (suc i) (suc j) c h = byte_at-set_ne buf i j c (λ e. h (ap suc e))

-- `n` characters from the running index `h` on.
abbrev pub window : Bytes → ℕ → ℕ → Bytes
window buf h zero = []
window buf h (suc n) = byte_at buf (h % queue_capacity) ∷ window buf ((h + 1) % 2 ^ 32) n

pub length-window : (buf : Bytes) (h n : ℕ) → length (window buf h n) ≡ n
length-window buf h zero = refl
length-window buf h (suc n) = ap suc (length-window buf ((h + 1) % 2 ^ 32) n)

abbrev pub contents : CharQueue → Bytes
contents q = window q.buf q.head (char_queue_length q)

-- A store behind a window that leaves room in the ring extends it.
pub window-set :
    (buf : Bytes) (h n i c : ℕ)
    → length buf ≡ queue_capacity
    → n < queue_capacity
    → i ≡ (h + n) % queue_capacity
    → window (set buf i c) h (suc n) ≡ window buf h n ++ (c ∷ [])
window-set buf h zero i c size room e =
    let here : h % queue_capacity ≡ i = omega arith in
    rw here (ap (λ b. b ∷ []) (byte_at-set_self buf i c (omega arith)))
window-set buf h (suc n) i c size room e =
    ap₂ (λ b w. b ∷ w) (byte_at-set_ne buf i (h % queue_capacity) c (λ p. omega arith))
      (window-set buf ((h + 1) % 2 ^ 32) n i c size (omega arith) (omega arith))

-- What a run of stores behind the window leaves.
pub record Extended (buf : Bytes) (h n p : ℕ) (cs buf' : Bytes) : Type 0 where
  pub stored : write_bytes buf p cs ≡ ok buf'
  pub size : length buf' ≡ queue_capacity
  pub extends : window buf' h (n + length cs) ≡ window buf h n ++ cs

pub window-write_bytes :
    (buf : Bytes) (h n p : ℕ) (cs : Bytes)
    → length buf ≡ queue_capacity
    → n + length cs ≤ queue_capacity
    → p + length cs ≤ queue_capacity
    → (0 < length cs → p ≡ (h + n) % queue_capacity)
    → (buf' : Bytes) × Extended buf h n p cs buf'
unfolding write_bytes store
window-write_bytes buf h n p [] size room fits e = (
  buf,
  record {
    stored = refl;
    size = size;
    extends = ap (window buf h) (omega arith) ∙ sym (append-nil (window buf h n));
  },
)
window-write_bytes buf h n p (c ∷ cs) size room fits e =
    let fits_here : ltb p (length buf) ≡ true = ground arith in
    let place : p ≡ (h + n) % queue_capacity = e (omega arith) in
    let next_count : n + 1 ≡ suc n = omega arith in
    let (buf', x) =
      window-write_bytes (set buf p c) h (n + 1) (p + 1) cs (length-set buf p c ∙ size)
        (omega arith) (omega arith) (λ pos. omega arith) in
    (
      buf',
      record {
        stored = rw fits_here x.stored;
        size = x.size;
        extends =
            ap (window buf' h) (omega arith)
            ∙ x.extends
            ∙ ap (λ w. w ++ cs)
                (ap (window (set buf p c) h) next_count
                  ∙ window-set buf h n p c size (omega arith) place)
            ∙ append_assoc (window buf h n) (c ∷ []) cs;
      },
    )
