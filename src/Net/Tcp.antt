-- ===== src/Net/Tcp.antt =====
-- The connection of the network debugger, examples/microkit_sddf_net/apps/debugger/tcp.c, and its
-- reading end, `gdb_get_char` and `get_packet` of debugger.c. lwIP is a parameter. An `err_t` is a number,
-- 0 for ERR_OK. What is printed on errors is left out.
pub mod Segment
pub mod Poll
pub mod Delivery
use libgdb.Prelude.{
  ℕ, zero, suc, Bool, true, false, Option, none, some, ◌==◌, if◌then◌else◌, [], ◌∷◌, ◌++◌,
}
use libgdb.Prelude.Outcome.{Outcome, ok, fault, out_of_fuel, ◌>>=◌}
use libgdb.Util.Buffer.{Bytes, store}
use libgdb.Util.Str.{strnlen}
use libgdb.Gdb.State.{bufsize}
use libgdb.EventLoop.{EventState}
use libgdb.Framing.{Link, Mode, Step, wait, return, get_packet_step}
use libgdb.Net.CharQueue.{
  CharQueue, Memcpy, char_queue_empty, char_dequeue, char_queue_enqueue_batch,
}

-- The calls of lwIP, on its state `World` and its buffers `Pbuf`: `pbuf_copy_partial p dst len offset`
-- gives what is in `dst` afterwards.
pub record Lwip (World Pbuf : Type 0) : Type 0 where
  pub tot_len : Pbuf → ℕ
  pub pbuf_copy_partial : Pbuf → Bytes → ℕ → ℕ → Outcome Bytes
  pub pbuf_free : World → Pbuf → World
  pub tcp_arg : World → World
  pub tcp_close : World → World × ℕ
  pub tcp_write : World → Bytes → World × ℕ
  pub tcp_output : World → World × ℕ

module _ {World Pbuf : Type 0} (lwip : Lwip World Pbuf) where
  -- A `p` that is NULL is `none`. `tmp` is the local array, with what happens to be in it. The results
  -- are the state of lwIP, the input queue, and what is returned.
  unfoldable pub tcp_recv_gdb :
      Memcpy → Bytes → World → CharQueue → Option Pbuf → ℕ → Outcome (World × CharQueue × ℕ)
  tcp_recv_gdb memcpy tmp world q none err =
      let (closed, error) = lwip.tcp_close (lwip.tcp_arg world) in ok (closed, q, error)
  tcp_recv_gdb memcpy tmp world q (some p) err =
      let copy = lwip.pbuf_copy_partial p tmp (lwip.tot_len p) 0 >>= λ tmp₁.
      store tmp₁ (lwip.tot_len p) 0 >>= λ tmp₂. strnlen tmp₂ bufsize >>= λ num.
      char_queue_enqueue_batch memcpy q num tmp₂ >>= λ (q', done).
      ok (lwip.pbuf_free world p, q', 0) in
      if err == 0 then copy else ok (world, q, err)

  unfoldable pub tcp_send : World → Bytes → World × ℕ
  tcp_send world buf =
      let (written, error) = lwip.tcp_write world buf in
      let (flushed, ignored) = lwip.tcp_output written in
      if error == 0 then (flushed, 0) else (written, 1)

-- On the global `state` and the queue. `none`: the queue is empty, `state` is `new_state`, and the
-- coroutine has switched to t_event; it comes back to the same call.
unfoldable pub gdb_get_char :
    EventState → EventState → CharQueue → Outcome (EventState × CharQueue × Option ℕ)
gdb_get_char new_state state q =
    let take_out = char_dequeue q >>= λ (q', c). ok (state, q', c) in
    if char_queue_empty q q.head then ok (new_state, q, none) else take_out

-- What `get_packet` does until it returns, or waits for more in the queue. The first field
-- is the global `state`, the last two are what was sent, and the queue.
pub data Polled : Type 0 where
  asleep : EventState → Mode → Bytes → Bytes → CharQueue → Polled
  received : EventState → ℕ → Bytes → Bytes → CharQueue → Polled

abbrev pub after_polled : Bytes → Polled → Polled
after_polled out (asleep state mode buf sent q) = asleep state mode buf (out ++ sent) q
after_polled out (received state p buf sent q) = received state p buf (out ++ sent) q

abbrev pub go_on :
    (Mode → Bytes → CharQueue → Outcome Polled) → EventState → CharQueue → Step → Outcome Polled
go_on more state q (wait mode buf out) = more mode buf q >>= λ r. ok (after_polled out r)
go_on more state q (return p buf out) = ok (received state p buf out q)

-- One character more of the queue.
abbrev pub got :
    (ℕ → EventState → CharQueue → Outcome Polled)
    → Mode
    → Bytes
    → EventState × CharQueue × Option ℕ
    → Outcome Polled
got step mode buf (state, q, none) = ok (asleep state mode buf [] q)
got step mode buf (state, q, some c) = step c state q

-- `get_packet`, on fuel for one call of `gdb_get_char` each.
unfoldable pub poll : Link → EventState → ℕ → EventState → Mode → Bytes → CharQueue → Outcome Polled
poll link new_state zero state mode buf q = fault out_of_fuel
poll link new_state (suc fuel) state mode buf q =
    gdb_get_char new_state state q
    >>= got
        (λ c state' q'.
          get_packet_step link mode buf c >>= go_on (poll link new_state fuel state') state' q')
        mode buf

-- The network debugger echoes `input[1]` and `input[2]`.
abbrev pub link : Link
link = record { interrupts = true; echo_from = 1 }

abbrev pub get_packet : EventState → ℕ → EventState → Mode → Bytes → CharQueue → Outcome Polled
get_packet = poll link
