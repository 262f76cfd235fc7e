-- ===== src/Net/Connection.antt =====
-- The connection with GDB as examples/microkit_sddf_net/apps/debugger/tcp.c sets it up: `setup_tcp_socket`
-- and the callbacks `tcp_accept_gdb` and `tcp_sent_gdb`. A struct tcp_pcb is a number; `none` is NULL. lwIP
-- is a parameter. What is printed is left out, and with it all that `tcp_err_gdb` does.
use libgdb.Prelude.{ℕ, Bool, true, false, Option, none, some, ◌==◌, if◌then◌else◌}

-- The calls of lwIP, on its state. The last result of `tcp_listen_with_backlog_and_err` is the error
-- that it stores. The callbacks are those of tcp.c.
pub record Sockets (World : Type 0) : Type 0 where
  pub tcp_new_ip_type : World → World × Option ℕ
  pub tcp_bind : World → ℕ → ℕ → World × ℕ
  pub tcp_listen_with_backlog_and_err : World → ℕ → ℕ → World × Option ℕ × ℕ
  pub tcp_accept : World → Option ℕ → World
  pub tcp_nagle_disable : World → ℕ → World
  pub tcp_sent : World → ℕ → World
  pub tcp_recv : World → ℕ → World
  pub tcp_err : World → ℕ → World
  pub tcp_recved : World → ℕ → ℕ → World

-- `gdb_pcb` and `tcp_initialized`, with the state of lwIP.
pub record Connection (World : Type 0) : Type 0 where
  pub world : World
  pub gdb_pcb : Option ℕ
  pub tcp_initialized : Bool

module _ {World : Type 0} (lwip : Sockets World) where
  open lwip use {
    tcp_new_ip_type, tcp_bind, tcp_listen_with_backlog_and_err, tcp_accept, tcp_nagle_disable,
    tcp_sent, tcp_recv, tcp_err, tcp_recved,
  }

  -- It returns ERR_OK, as does the next.
  unfoldable pub tcp_accept_gdb : Connection World → ℕ → Connection World
  tcp_accept_gdb c pcb = record {
    world = tcp_err (tcp_recv (tcp_sent (tcp_nagle_disable c.world pcb) pcb) pcb) pcb;
    gdb_pcb = some pcb;
    tcp_initialized = true;
  }

  unfoldable pub tcp_sent_gdb : Connection World → ℕ → ℕ → Connection World
  tcp_sent_gdb c pcb len = record c { world = tcp_recved c.world pcb len }

  abbrev pub bound : Connection World → ℕ → Connection World × Bool
  bound c pcb =
      let (w, error) = tcp_bind c.world pcb 1234 in
      let (w', listening, error') = tcp_listen_with_backlog_and_err w pcb 1 in
      if error == 0
      then (if error' == 0
          then (record c { world = tcp_accept w' listening; gdb_pcb = listening }, true)
          else (record c { world = w'; gdb_pcb = listening }, false))
      else (record c { world = w }, false)

  -- The last result is true for 0 and false for -1.
  unfoldable pub setup_tcp_socket : Connection World → Connection World × Bool
  setup_tcp_socket c =
      let (w, pcb) = tcp_new_ip_type c.world in
      elim pcb [
        | none ↦ (record c { world = w; gdb_pcb = none }, false)
        | some pcb' ↦ bound (record c { world = w; gdb_pcb = some pcb' }) pcb'
      ]
