-- ===== src/Util/Buffer/Write.antt =====
-- How runs of stores compose, and what a buffer holds after them.
use libgdb.Prelude.{
  get_elem?, zero, ℕ, suc, ◌+◌, ◌≤◌, ◌≡◌, refl, ap, sym, ◌∙◌, [], ◌∷◌, ◌++◌, length, List, ◌<◌, set,
  drop, length-set, length-append, length-drop, drop-drop, arith, ltb, Bool-cases, inl, inr,
}
use mathlib.Core.List.{append_assoc}
use libgdb.Prelude.Outcome.{ok, ◌>>=◌, >>=-assoc, >>=-cong, >>=-ok}
use libgdb.Util.Buffer.{NonNul, Bytes, store, write_bytes, text, ended_at}

pub write_bytes-append :
    (buf : Bytes) (p : ℕ) (s t : Bytes)
    → write_bytes buf p (s ++ t)
      ≡ (write_bytes buf p s >>= λ buf'. write_bytes buf' (p + length s) t)
unfolding write_bytes store
write_bytes-append buf p [] t = ap (λ q. write_bytes buf q t) (omega arith)
write_bytes-append buf p (c ∷ s) t = elim (Bool-cases (ltb p (length buf))) [
  | inl h ↦ rw h (
      write_bytes-append (set buf p c) (p + 1) s t
      ∙ ap (λ q. write_bytes (set buf p c) (p + 1) s >>= λ buf'. write_bytes buf' q t)
          (omega arith))
  | inr h ↦ rw h refl
]

pub length-write_bytes :
    (buf : Bytes) (p : ℕ) (s : Bytes) {buf' : Bytes}
    → write_bytes buf p s ≡ ok buf'
    → length buf' ≡ length buf
unfolding write_bytes store
length-write_bytes buf p [] h = ground arith
length-write_bytes buf p (c ∷ s) {buf'} h =
    ground (arith, length-set buf p c, length-write_bytes (set buf p c) (p + 1) s {buf' = buf'})

pub write_bytes-cons :
    (x : ℕ) (buf : Bytes) (p : ℕ) (s : Bytes)
    → write_bytes (x ∷ buf) (suc p) s ≡ (write_bytes buf p s >>= λ buf'. ok (x ∷ buf'))
unfolding write_bytes store
write_bytes-cons x buf p [] = refl
write_bytes-cons x buf p (c ∷ s) = elim (Bool-cases (ltb p (length buf))) [
  | inl h ↦ rw h (ground (arith, write_bytes-cons x (set buf p c) (p + 1) s))
  | inr h ↦ ground arith
]

pub write_bytes-front :
    (buf s : Bytes) → length s ≤ length buf → write_bytes buf 0 s ≡ ok (s ++ drop (length s) buf)
unfolding write_bytes store
write_bytes-front buf [] h = refl
write_bytes-front [] (c ∷ s) h = absurd (omega arith)
write_bytes-front (x ∷ buf) (c ∷ s) h =
    ground (arith, write_bytes-cons c buf 0 s, write_bytes-front buf s)

pub text-append : (s rest : Bytes) → NonNul s → text (s ++ (0 ∷ rest)) ≡ s
unfolding text
text-append [] rest h = refl
text-append (c ∷ s) rest h = ground (arith, text-append s rest h.1)

set-set {ℓ} : {A : Type ℓ} (xs : List A) (i : ℕ) (v w : A) → set (set xs i v) i w ≡ set xs i w
set-set [] i v w = refl
set-set (x ∷ xs) zero v w = refl
set-set (x ∷ xs) (suc i) v w = ap (λ l. x ∷ l) (set-set xs i v w)

store-store : (buf : Bytes) (p c d : ℕ) → (store buf p c >>= λ buf'. store buf' p d) ≡ store buf p d
unfolding store
store-store buf p c d = ground (arith, length-set buf p c, set-set buf p c d)

-- The byte behind a run, mostly its NUL, is written over by the next run that starts there.
pub write_bytes-over :
    (buf : Bytes) (p : ℕ) (s : Bytes) (c : ℕ) (t : Bytes)
    → 0 < length t
    → (write_bytes buf p (s ++ (c ∷ [])) >>= λ buf'. write_bytes buf' (p + length s) t)
      ≡ write_bytes buf p (s ++ t)
write_bytes-over buf p s c [] h = absurd (omega arith)
write_bytes-over buf p s c (d ∷ t) h =
    rw (write_bytes-append, write_bytes-append) (rw >>=-assoc (>>=-cong (write_bytes buf p s) one))
  where
    one :
        (b : Bytes)
        → (write_bytes b (p + length s) (c ∷ []) >>= λ buf'.
            write_bytes buf' (p + length s) (d ∷ t))
          ≡ write_bytes b (p + length s) (d ∷ t)
    one b = unfold write_bytes in simp (>>=-assoc, ← store-store b (p + length s) c d)

-- The same with the pointer behind the first run in `n`, and an end in `q`.
pub write_bytes-over_ended :
    (buf : Bytes) (p : ℕ) (s : Bytes) (c : ℕ) (t : Bytes) (n q : ℕ)
    → 0 < length t
    → n ≡ p + length s
    → (write_bytes buf p (s ++ (c ∷ [])) >>= λ buf'. ended_at (write_bytes buf' n t) q)
      ≡ ended_at (write_bytes buf p (s ++ t)) q
write_bytes-over_ended buf p s c t n q h e = rw e (
    sym (>>=-assoc (write_bytes buf p (s ++ (c ∷ []))) _ _)
    ∙ ap (λ m. ended_at m q) (write_bytes-over buf p s c t h))

-- A store before a run is the run with that byte in front.
pub write_bytes-store :
    (buf : Bytes) (p c : ℕ) (t : Bytes) (q : ℕ)
    → (store buf p c >>= λ buf'. ended_at (write_bytes buf' (p + 1) t) q)
      ≡ ended_at (write_bytes buf p (c ∷ t)) q
unfolding write_bytes
write_bytes-store buf p c t q = sym (>>=-assoc (store buf p c) _ _)

-- A run that starts behind a part of the buffer keeps that part.
pub write_bytes-behind :
    (pre buf : Bytes) (s : Bytes)
    → write_bytes (pre ++ buf) (length pre) s ≡ (write_bytes buf 0 s >>= λ buf'. ok (pre ++ buf'))
write_bytes-behind [] buf s = sym (>>=-ok (write_bytes buf 0 s))
write_bytes-behind (x ∷ pre) buf s =
    write_bytes-cons x (pre ++ buf) (length pre) s
    ∙ rw (write_bytes-behind pre buf s) (>>=-assoc (write_bytes buf 0 s) _ _)

-- A buffer that begins with a text and its NUL, and goes on as it was.
abbrev pub with_front : Bytes → Bytes → Bytes
with_front buf t = t ++ (0 ∷ drop (length t + 1) buf)

-- A text that is stored behind another joins it.
pub write_bytes-extend :
    (buf t u : Bytes)
    → length t + length u < length buf
    → write_bytes (with_front buf t) (length t) (u ++ (0 ∷ [])) ≡ ok (with_front buf (t ++ u))
write_bytes-extend buf t u h =
    write_bytes-behind t (0 ∷ drop (length t + 1) buf) (u ++ (0 ∷ []))
    ∙ rw (write_bytes-front (0 ∷ drop (length t + 1) buf) (u ++ (0 ∷ [])) room, size) (ap ok whole)
  where
    size : length (u ++ (0 ∷ [])) ≡ suc (length u)
    size = omega (arith, length-append u (0 ∷ []))

    room : length (u ++ (0 ∷ [])) ≤ length (0 ∷ drop (length t + 1) buf)
    room = omega (arith, size, length-drop (length t + 1) buf)

    whole :
        t ++ ((u ++ (0 ∷ [])) ++ drop (length u) (drop (length t + 1) buf))
        ≡ (t ++ u) ++ (0 ∷ drop (length (t ++ u) + 1) buf)
    whole =
        rw (drop-drop, append_assoc, append_assoc)
          (ap (λ n. t ++ (u ++ (0 ∷ drop n buf))) (omega (arith, length-append t u)))

pub write_bytes-front_text :
    (buf t : Bytes)
    → length t < length buf
    → write_bytes buf 0 (t ++ (0 ∷ [])) ≡ ok (with_front buf t)
write_bytes-front_text buf t h =
    write_bytes-front buf (t ++ (0 ∷ [])) (omega (arith, length-append t (0 ∷ [])))
    ∙ ap ok (
        append_assoc t (0 ∷ []) _
        ∙ ap (λ n. t ++ (0 ∷ drop n buf)) (omega (arith, length-append t (0 ∷ []))))

pub NonNul-append : (s t : Bytes) → NonNul s → NonNul t → NonNul (s ++ t)
NonNul-append [] t hs ht = ht
NonNul-append (c ∷ s) t (hc, hs) ht = (hc, NonNul-append s t hs ht)

pub write_bytes-one : (b : Bytes) (p c : ℕ) → write_bytes b p (c ∷ []) ≡ store b p c
unfolding write_bytes
write_bytes-one b p c = >>=-ok (store b p c)

drop-nil : (n : ℕ) → drop {A = ℕ} n [] ≡ []
drop-nil zero = refl
drop-nil (suc n) = refl

-- Behind the NUL of the text at its front, a buffer is as it was.
pub get_elem?-with_front :
    (buf t : Bytes) (i : ℕ) → length t < i → get_elem? (with_front buf t) i ≡ get_elem? buf i
get_elem?-with_front buf t zero h = absurd (omega arith)
get_elem?-with_front [] [] (suc i) h = refl
get_elem?-with_front (a ∷ buf) [] (suc i) h = refl
get_elem?-with_front [] (c ∷ t) (suc i) h =
    ap (λ l. get_elem? (t ++ (0 ∷ l)) i)
      (drop-nil (suc (length t) + 1) ∙ sym (drop-nil (length t + 1)))
    ∙ get_elem?-with_front [] t i (omega arith)
get_elem?-with_front (a ∷ buf) (c ∷ t) (suc i) h =
    let e : suc (length t) + 1 ≡ suc (length t + 1) = omega arith in
    ap (λ n. get_elem? (t ++ (0 ∷ drop n (a ∷ buf))) i) e
    ∙ get_elem?-with_front buf t i (omega arith)
