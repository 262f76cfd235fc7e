-- ===== src/Net/Transmit.antt =====
-- The packet buffers that wait to be sent, in `enqueue_pbufs` and `transmit` of
-- examples/microkit_sddf_net/apps/debugger/debugger.c. A pbuf is a number; `none` is NULL. What is
-- printed on errors is left out.
pub mod Order
use libgdb.Prelude.{
  ℕ, zero, suc, Bool, true, false, ◌&&◌, ◌||◌, not, Option, none, some, ◌==◌, if◌then◌else◌,
}
use libgdb.Prelude.Outcome.{Outcome, ok, fault, null_pointer, out_of_fuel, ◌>>=◌}

-- The calls of sDDF and lwIP, on their state.
pub record Device (World : Type 0) : Type 0 where
  pub net_queue_empty_free : World → Bool
  pub net_request_signal_free : World → World
  pub net_cancel_signal_free : World → World
  pub sddf_lwip_transmit_pbuf : World → ℕ → World × ℕ
  pub pbuf_ref : World → ℕ → World
  pub pbuf_free : World → ℕ → World

-- `head` and `tail`, and the member `next_chain` of each pbuf.
pub record Pbufs : Type 0 where
  pub head : Option ℕ
  pub tail : Option ℕ
  pub next_chain : ℕ → Option ℕ

abbrev pub is_null : Option ℕ → Bool
is_null none = true
is_null (some p) = false

-- `tail->next_chain = p`
abbrev pub link_behind : Pbufs → Option ℕ → ℕ → Outcome Pbufs
link_behind q none p = fault null_pointer
link_behind q (some t) p =
    ok (record q { next_chain = λ i. if i == t then some p else q.next_chain i })

module _ {World : Type 0} (dev : Device World) where
  open dev use {
    net_queue_empty_free, net_request_signal_free, net_cancel_signal_free, sddf_lwip_transmit_pbuf,
    pbuf_ref, pbuf_free,
  }

  unfoldable pub enqueue_pbufs : World → Pbufs → ℕ → Outcome (World × Pbufs)
  enqueue_pbufs w q p =
      (if is_null q.head then ok (record q { head = some p }) else link_behind q q.tail p) >>= λ q'.
      ok (pbuf_ref (net_request_signal_free w) p, record q' { tail = some p })

  -- The inner loop of `transmit`.
  abbrev pub send_next :
      (World → Pbufs → Outcome (World × Pbufs)) → World → Pbufs → Option ℕ → Outcome (World × Pbufs)
  send_next more w q none = ok (w, q)
  send_next more w q (some p) =
      let next = q.next_chain p in
      let q' : Pbufs = record q { head = next; tail = if is_null next then none else q.tail } in
      let rest = more (pbuf_free (sddf_lwip_transmit_pbuf w p).0 p) q' in
      if net_queue_empty_free w then ok (w, q) else rest

  unfoldable pub send_pending : ℕ → World → Pbufs → Outcome (World × Pbufs)
  send_pending zero w q = fault out_of_fuel
  send_pending (suc fuel) w q = send_next (send_pending fuel) w q q.head

  -- A signal is asked for only if pbufs are left.
  unfoldable pub choose_signal : World → Pbufs → World
  choose_signal w q =
      if is_null q.head || not (net_queue_empty_free w)
      then net_cancel_signal_free w
      else net_request_signal_free w

  -- On fuel for each loop.
  unfoldable pub transmit : ℕ → World → Pbufs → Outcome (World × Pbufs)
  transmit zero w q = fault out_of_fuel
  transmit (suc fuel) w q = send_pending fuel w q >>= λ (w₁, q₁).
      let w₂ = choose_signal w₁ q₁ in
      let again = transmit fuel (net_cancel_signal_free w₂) q₁ in
      if not (is_null q₁.head) && not (net_queue_empty_free w₂) then again else ok (w₂, q₁)
