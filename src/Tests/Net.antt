-- ===== src/Tests/Net.antt =====
-- The network debugger at concrete inputs.
use libgdb.Prelude.{
  none, ◌==◌, if◌then◌else◌, ℕ, zero, suc, ap, ◌-◌, ◌≡◌, refl, List, [], ◌∷◌, ◌++◌, length,
  length-replicate, replicate, take, drop, min, arith, some,
}
use libgdb.Prelude.Outcome.{ok, fault, Ensures, out_of_bounds, ◌>>=◌}
use libgdb.Util.Buffer.{Bytes, NonNul, write_bytes}
use libgdb.Util.Buffer.Write.{with_front}
use libgdb.Framing.{start, packet, get_packet}
use libgdb.Framing.Receive.{frame}
use libgdb.Net.CharQueue.{
  CharQueue, Memcpy, queue_capacity, char_queue_length, char_queue_enqueue_batch,
}
use libgdb.Net.CharQueue.Window.{contents}
use libgdb.Net.CharQueue.Refine.{IsValid}
use libgdb.Net.CharQueue.Fifo.{Op, enqueue, dequeue}
use libgdb.Net.CharQueue.Fifo
use libgdb.Net.CharQueue.History.{run, run_refines}
use libgdb.Net.CharQueue.Batch.{Copies, char_queue_enqueue_batch-append}
use libgdb.Net.Output.{Assembly, put_packet}
use libgdb.Net.Output.Overflow.{put_packet-overflow}
use libgdb.EventLoop.{none_waiting, waiting_for_input_event_loop}
use libgdb.Net.Tcp.{Lwip, tcp_recv_gdb, link, poll}
use libgdb.Net.Tcp
use libgdb.Net.Tcp.Segment.{HasPayload, tcp_recv_gdb-overflow}
use libgdb.Net.Tcp.Poll.{as_received, HasFlag, poll_refines}
use libgdb.Net.Tcp.Delivery.{take-all, tcp_recv_gdb-get_packet}
use libgdb.Net.Transmit.{Device, Pbufs, enqueue_pbufs, choose_signal, transmit}
use libgdb.Net.Transmit.Order.{Holds, send_all, enqueue_pbufs-append, transmit-send_all}
use libgdb.Tests.World.{zeros, zeros-length}

-- An empty queue whose next character is the last of the ring.
abbrev at_end : CharQueue
at_end = record { tail = 2047; head = 2047; buf = zeros }

at_end-IsValid : IsValid at_end
unfolding char_queue_length
at_end-IsValid = record {
  size = zeros-length;
  tail_word = omega arith;
  head_word = omega arith;
  bound = omega arith;
}

at_end-length : char_queue_length at_end ≡ 0
unfolding char_queue_length
at_end-length = refl

-- A queue with the beginning of a packet.
abbrev begun : CharQueue
begun = record { tail = 3; head = 0; buf = b'$' ∷ b'g' ∷ b'#' ∷ replicate 2045 0 }

begun-IsValid : IsValid begun
unfolding char_queue_length
begun-IsValid = record {
  size = ap (λ n. suc (suc (suc n))) (length-replicate {A = ℕ} 2045 0);
  tail_word = omega arith;
  head_word = omega arith;
  bound = omega arith;
}

begun-length : char_queue_length begun ≡ 3
unfolding char_queue_length
begun-length = refl

abbrev memcpy : Memcpy
memcpy buf p src n = write_bytes buf p (take n src)

memcpy-Copies : Copies memcpy
memcpy-Copies buf p src n h = refl

-- A connection that sends nothing, whose packet buffers are lists.
abbrev lwip : Lwip (Unit {0}) Bytes
lwip = record {
  tot_len = λ p. length p;
  pbuf_copy_partial = λ p dst len offset. write_bytes dst 0 (take len (drop offset p));
  pbuf_free = λ w p. w;
  tcp_arg = λ w. w;
  tcp_close = λ w. (w, 0);
  tcp_write = λ w buf. (w, 0);
  tcp_output = λ w. (w, 0);
}

abbrev payload : Bytes → Bytes
payload p = p

lwip-HasPayload : HasPayload lwip payload
lwip-HasPayload = record {
  counts = λ p. refl;
  copies = λ p dst. ap (write_bytes dst 0) (take-all p (length p) (omega arith));
}

abbrev calls : List Op
calls = enqueue b'a' ∷ enqueue b'b' ∷ dequeue ∷ []

run_refines_example :
    (q' : CharQueue) × (run at_end calls
      ≡ ok ((Fifo.run queue_capacity (contents at_end) calls).0, q'))
    × (contents q' ≡ (Fifo.run queue_capacity (contents at_end) calls).1)
    × IsValid q'
run_refines_example = run_refines calls at_end at_end-IsValid

char_queue_enqueue_batch-append_example :
    (q' : CharQueue) × (char_queue_enqueue_batch memcpy at_end 2 (b'a' ∷ b'b' ∷ b'c' ∷ [])
      ≡ ok (q', min 2 (queue_capacity - char_queue_length at_end)))
    × (contents q'
        ≡ contents at_end
          ++ take (min 2 (queue_capacity - char_queue_length at_end)) (b'a' ∷ b'b' ∷ b'c' ∷ []))
    × IsValid q'
char_queue_enqueue_batch-append_example =
    char_queue_enqueue_batch-append memcpy memcpy-Copies at_end 2 (b'a' ∷ b'b' ∷ b'c' ∷ [])
      at_end-IsValid (omega arith)

poll_refines_example :
    ((poll link waiting_for_input_event_loop 4 none_waiting start zeros begun >>= λ r.
    ok (as_received r))
      ≡ get_packet link start zeros (contents begun))
    × Ensures
        (HasFlag waiting_for_input_event_loop none_waiting)
        (poll link waiting_for_input_event_loop 4 none_waiting start zeros begun)
poll_refines_example =
    poll_refines link waiting_for_input_event_loop 4 none_waiting start zeros begun begun-IsValid
      (omega (arith, begun-length))

tcp_recv_gdb-get_packet_example :
    (tcp_recv_gdb lwip memcpy zeros tt at_end (some (frame (b'g' ∷ []))) 0 >>= λ (world', q', err).
    Tcp.get_packet waiting_for_input_event_loop 6 none_waiting start zeros q' >>= λ r.
    ok (as_received r))
    ≡ ok (packet 0 (with_front zeros (b'g' ∷ [])) [] (b'+' ∷ []))
tcp_recv_gdb-get_packet_example =
    tcp_recv_gdb-get_packet lwip payload lwip-HasPayload memcpy memcpy-Copies tt zeros zeros
      (b'g' ∷ []) at_end (frame (b'g' ∷ [])) 0 6 waiting_for_input_event_loop none_waiting
      at_end-IsValid at_end-length refl
      ((λ e. absurd (omega arith)), (λ e. absurd (omega arith)), omega arith, tt) (omega arith)
      (omega arith) zeros-length zeros-length refl (λ e. absurd (omega arith))

-- A segment as long as the local array.
abbrev long_segment : Bytes
long_segment = replicate 2048 b'a'

long_segment-length : length long_segment ≡ 2048
long_segment-length = length-replicate {A = ℕ} 2048 b'a'

tcp_recv_gdb-overflow_example :
    tcp_recv_gdb lwip memcpy zeros tt at_end (some long_segment) 0 ≡ fault out_of_bounds
tcp_recv_gdb-overflow_example =
    tcp_recv_gdb-overflow lwip payload lwip-HasPayload memcpy memcpy-Copies tt zeros at_end
      long_segment zeros-length (omega (arith, long_segment-length))

-- The variables of put_packet before its first call.
abbrev pub unused : Assembly
unused = record { tcp_output_buf = zeros; tcp_output_tmp = 0; taken = 0 }

-- An answer that fills its buffer but for three characters and the NUL.
abbrev long_answer : Bytes
long_answer = replicate 2044 b'a'

replicate-NonNul : (n : ℕ) → NonNul (replicate n b'a')
replicate-NonNul zero = tt
replicate-NonNul (suc n) = (omega arith, replicate-NonNul n)

long_answer-length : length long_answer ≡ 2044
long_answer-length = length-replicate {A = ℕ} 2044 b'a'

put_packet-overflow_example :
    put_packet unused (long_answer ++ (0 ∷ [])) ([] ++ (b'+' ∷ [])) ≡ fault out_of_bounds
put_packet-overflow_example =
    put_packet-overflow long_answer [] (replicate-NonNul 2044) unused [] (b'+' ∷ []) tt zeros-length
      (omega (arith, long_answer-length))

-- A device with a number of free buffers, and two pbufs that wait for them.
abbrev pub device : Device ℕ
device = record {
  net_queue_empty_free = λ n. n == 0;
  net_request_signal_free = λ n. n;
  net_cancel_signal_free = λ n. n;
  sddf_lwip_transmit_pbuf = λ n p. (n - 1, 0);
  pbuf_ref = λ n p. n;
  pbuf_free = λ n p. n;
}

abbrev two_pbufs : Pbufs
two_pbufs = record {
  head = some 4;
  tail = some 2;
  next_chain = λ p. if p == 4 then some 2 else none;
}

two_pbufs-Holds : Holds two_pbufs (4 ∷ 2 ∷ [])
two_pbufs-Holds = record { follows = (refl, (refl, refl)); ends = refl }

enqueue_pbufs-append_example :
    (q' : Pbufs) × (enqueue_pbufs device 1 two_pbufs 7 ≡ ok (1, q'))
    × Holds q' ((4 ∷ 2 ∷ []) ++ (7 ∷ []))
enqueue_pbufs-append_example =
    enqueue_pbufs-append device 1 two_pbufs 7 (4 ∷ 2 ∷ []) two_pbufs-Holds
      (((λ e. absurd (omega arith)), tt), (tt, tt))
      ((λ e. absurd (omega arith)), ((λ e. absurd (omega arith)), tt)) refl

transmit-send_all_example :
    (q' : Pbufs) × (transmit device 4 1 two_pbufs
      ≡ ok (choose_signal device (send_all device 1 (4 ∷ 2 ∷ [])).0 q', q'))
    × Holds q' (send_all device 1 (4 ∷ 2 ∷ [])).1
transmit-send_all_example =
    transmit-send_all device 3 1 two_pbufs (4 ∷ 2 ∷ [])
      (record { request = λ w. refl; cancel = λ w. refl }) two_pbufs-Holds (omega arith)
