-- ===== src/Net/Transmit/Order.antt =====
-- The pbufs are sent in the order in which they were put into the list.
use libgdb.Prelude.{
  and-false, ℕ, zero, suc, ◌<◌, ◌≡◌, ◌≢◌, ◌⊎◌, inl, inr, refl, ap, sym, ◌∙◌, true, false, ◌&&◌,
  ◌||◌, not, List, [], ◌∷◌, ◌++◌, length, arith, Option, none, some, ◌==◌, eq→==, ne→==,
  if◌then◌else◌, Bool-cases,
}
use mathlib.Core.Path.{subst}
use libgdb.Prelude.Outcome.{ok}
use libgdb.Net.Transmit.{
  Device, Pbufs, is_null, enqueue_pbufs, send_pending, choose_signal, transmit,
}

-- The list from `head` on is `xs`, and `tail` is its last.
abbrev pub Follows : (ℕ → Option ℕ) → Option ℕ → List ℕ → Type 0
Follows next h [] = h ≡ none
Follows next h (x ∷ xs) = (h ≡ some x) × Follows next (next x) xs

abbrev pub EndsIn : Option ℕ → List ℕ → Type 0
EndsIn t [] = t ≡ none
EndsIn t (x ∷ []) = t ≡ some x
EndsIn t (x ∷ y ∷ xs) = EndsIn t (y ∷ xs)

pub record Holds (q : Pbufs) (xs : List ℕ) : Type 0 where
  pub follows : Follows q.next_chain q.head xs
  pub ends : EndsIn q.tail xs

abbrev without_first : Pbufs → ℕ → Pbufs
without_first q x = record q {
  head = q.next_chain x;
  tail = if is_null (q.next_chain x) then none else q.tail;
}

Holds-without_first :
    (q : Pbufs) (x : ℕ) (xs : List ℕ) → Holds q (x ∷ xs) → Holds (without_first q x) xs
Holds-without_first q x [] h = record { follows = h.follows.1; ends = rw h.follows.1 refl }
Holds-without_first q x (y ∷ ys) h =
    let same : (if is_null (q.next_chain x) then none else q.tail) ≡ q.tail =
      rw h.follows.1.0 refl in
    record { follows = h.follows.1; ends = subst (λ t. EndsIn t (y ∷ ys)) (sym same) h.ends }

module _ {World : Type 0} (dev : Device World) where
  open dev use {
    net_queue_empty_free, net_request_signal_free, net_cancel_signal_free, sddf_lwip_transmit_pbuf,
    pbuf_free,
  }

  -- Pbufs are sent one after the other, until none is left or no buffer is free.
  unfoldable pub send_all : World → List ℕ → World × List ℕ
  send_all w [] = (w, [])
  send_all w (x ∷ xs) =
      let rest = send_all (pbuf_free (sddf_lwip_transmit_pbuf w x).0 x) xs in
      if net_queue_empty_free w then (w, x ∷ xs) else rest

  send_pending-send_all :
      (xs : List ℕ) (fuel : ℕ) (w : World) (q : Pbufs)
      → Holds q xs
      → length xs < fuel
      → (q' : Pbufs) × (send_pending dev fuel w q ≡ ok ((send_all w xs).0, q'))
        × Holds q' (send_all w xs).1
  unfolding send_pending send_all
  send_pending-send_all xs zero w q h enough = absurd (omega arith)
  send_pending-send_all [] (suc fuel) w q h enough = (q, rw h.follows refl, h)
  send_pending-send_all (x ∷ xs) (suc fuel) w q h enough =
      let first : q.head ≡ some x = h.follows.0 in
      elim (Bool-cases (net_queue_empty_free w)) [
        | inl none_free ↦ (q, rw (first, none_free) refl, rw none_free h)
        | inr some_free ↦
            let (q', sent, holds) =
              send_pending-send_all xs fuel (pbuf_free (sddf_lwip_transmit_pbuf w x).0 x)
                (without_first q x) (Holds-without_first q x xs h) (omega arith) in
            (q', rw (first, some_free) sent, rw some_free holds)
      ]

  -- Either nothing is left, or there is no free buffer.
  send_all-ends :
      (w : World) (xs : List ℕ)
      → ((send_all w xs).1 ≡ []) ⊎ (net_queue_empty_free (send_all w xs).0 ≡ true)
  unfolding send_all
  send_all-ends w [] = inl refl
  send_all-ends w (x ∷ xs) = elim (Bool-cases (net_queue_empty_free w)) [
    | inl none_free ↦ rw none_free (inr none_free)
    | inr some_free ↦ rw some_free (send_all-ends (pbuf_free (sddf_lwip_transmit_pbuf w x).0 x) xs)
  ]

  -- The requests for a signal leave the free buffers as they are.
  pub record Steady : Type 0 where
    pub request :
        (w : World) → net_queue_empty_free (net_request_signal_free w) ≡ net_queue_empty_free w
    pub cancel :
        (w : World) → net_queue_empty_free (net_cancel_signal_free w) ≡ net_queue_empty_free w

  choose_signal-Steady :
      (w : World) (q : Pbufs)
      → Steady
      → net_queue_empty_free (choose_signal dev w q) ≡ net_queue_empty_free w
  unfolding choose_signal
  choose_signal-Steady w q steady =
      elim (Bool-cases (is_null q.head || not (net_queue_empty_free w))) [
        | inl cancels ↦ rw cancels (steady.cancel w)
        | inr requests ↦ rw requests (steady.request w)
      ]

  -- If the requests for a signal leave the free buffers as they are, and with fuel for two rounds more
  -- than there are pbufs in the list, transmit sends them in order, until none is left or no buffer is
  -- free; the rest stays in the list, and the signal is chosen by what is left.
  pub transmit-send_all :
      (fuel : ℕ) (w : World) (q : Pbufs) (xs : List ℕ)
      → Steady
      → Holds q xs
      → length xs < fuel
      → (q' : Pbufs) × (transmit dev (suc fuel) w q
          ≡ ok (choose_signal dev (send_all w xs).0 q', q'))
        × Holds q' (send_all w xs).1
  unfolding transmit
  transmit-send_all fuel w q xs steady h enough =
      let (q', sent, holds) = send_pending-send_all xs fuel w q h enough in
      (q', rw (sent, stops q' holds) refl, holds)
    where
      stops :
          (q' : Pbufs)
          → Holds q' (send_all w xs).1
          → (not (is_null q'.head)
              && not (net_queue_empty_free (choose_signal dev (send_all w xs).0 q')))
            ≡ false
      stops q' holds = elim (send_all-ends w xs) [
        | inl empty ↦ rw (subst (Follows q'.next_chain q'.head) empty holds.follows) refl
        | inr none_free ↦
            rw (choose_signal-Steady (send_all w xs).0 q' steady, none_free)
              (and-false (not (is_null q'.head)))
      ]

-- No pbuf is `p`; and no pbuf is there twice.
abbrev pub Fresh : ℕ → List ℕ → Type 0
Fresh p [] = Unit {0}
Fresh p (x ∷ xs) = (p ≢ x) × Fresh p xs

abbrev pub Distinct : List ℕ → Type 0
Distinct [] = Unit {0}
Distinct (x ∷ xs) = Fresh x xs × Distinct xs

abbrev or_zero : Option ℕ → ℕ
or_zero none = 0
or_zero (some x) = x

Fresh-EndsIn : (x t y : ℕ) (ys : List ℕ) → Fresh x (y ∷ ys) → EndsIn (some t) (y ∷ ys) → x ≢ t
Fresh-EndsIn x t y [] (ne, h) ends e = ne (e ∙ ap or_zero ends)
Fresh-EndsIn x t y (z ∷ zs) (ne, h) ends e = Fresh-EndsIn x t z zs h ends e

-- `tail->next_chain = p` puts `p` behind the list.
link-Follows :
    (next : ℕ → Option ℕ) (h : Option ℕ) (t p y : ℕ) (ys : List ℕ)
    → Follows next h (y ∷ ys)
    → EndsIn (some t) (y ∷ ys)
    → Distinct (y ∷ ys)
    → Fresh p (y ∷ ys)
    → next p ≡ none
    → Follows (λ i. if i == t then some p else next i) h (y ∷ (ys ++ (p ∷ [])))
link-Follows next h t p y [] follows ends distinct fresh last =
    let same : (y == t) ≡ true = eq→== y t (sym (ap or_zero ends)) in
    let other : (p == t) ≡ false = ne→== p t (λ e. fresh.0 (e ∙ ap or_zero ends)) in
    (follows.0, (rw same refl, rw other last))
link-Follows next h t p y (z ∷ zs) follows ends distinct fresh last =
    let other : (y == t) ≡ false = ne→== y t (Fresh-EndsIn y t z zs distinct.0 ends) in
    let here : (if y == t then some p else next y) ≡ next y = rw other refl in
    (
      follows.0,
      subst (λ h'. Follows (λ i. if i == t then some p else next i) h' (z ∷ (zs ++ (p ∷ []))))
          (sym here) (link-Follows next (next y) t p z zs follows.1 ends distinct.1 fresh.1 last),
    )

EndsIn-append : (y p : ℕ) (ys : List ℕ) → EndsIn (some p) (y ∷ (ys ++ (p ∷ [])))
EndsIn-append y p [] = refl
EndsIn-append y p (z ∷ zs) = EndsIn-append z p zs

EndsIn-some : (t : Option ℕ) (y : ℕ) (ys : List ℕ) → EndsIn t (y ∷ ys) → (u : ℕ) × (t ≡ some u)
EndsIn-some t y [] ends = (y, ends)
EndsIn-some t y (z ∷ zs) ends = EndsIn-some t z zs ends

-- If `head` and `tail` hold a list of pbufs of which no two are the same, a pbuf that is not among them,
-- and whose `next_chain` is NULL, is put behind them; a signal is asked for, and the pbuf is referenced.
pub enqueue_pbufs-append :
    {World : Type 0} (dev : Device World) (w : World) (q : Pbufs) (p : ℕ) (xs : List ℕ)
    → Holds q xs
    → Distinct xs
    → Fresh p xs
    → q.next_chain p ≡ none
    → (q' : Pbufs) × (enqueue_pbufs dev w q p
        ≡ ok (dev.pbuf_ref (dev.net_request_signal_free w) p, q'))
      × Holds q' (xs ++ (p ∷ []))
unfolding enqueue_pbufs
enqueue_pbufs-append dev w q p [] h distinct fresh last = (
  record q { head = some p; tail = some p },
  rw h.follows refl,
  record { follows = (refl, last); ends = refl },
)
enqueue_pbufs-append dev w q p (y ∷ ys) h distinct fresh last =
    let first : q.head ≡ some y = h.follows.0 in
    let (t, at_end) = EndsIn-some q.tail y ys h.ends in
    (
      record q { next_chain = (λ i. if i == t then some p else q.next_chain i); tail = some p },
      rw (first, at_end) refl,
      record {
        follows =
            link-Follows q.next_chain q.head t p y ys h.follows
              (subst (λ u. EndsIn u (y ∷ ys)) at_end h.ends) distinct fresh last;
        ends = EndsIn-append y p ys;
      },
    )
