-- ===== src/Lib.antt =====
-- libgdb, a library that lets GDB debug the protection domains of an seL4 system. A debugger
-- program hands it the packets of GDB's remote protocol and the faults of the threads that are
-- debugged. The library keeps a table of inferiors (protection domains) and their threads, calls
-- the kernel to read and change them, and leaves the text of its answer in the caller's buffer.
--
-- The parts, and what models them:
--   * Prelude: shared names; Prelude.Outcome is what a C function does (it returns, or it runs into a
--     fault: a failed assert, an access outside an object, a null pointer); Prelude.Search has the
--     search loops over arrays.
--   * Util (src/util.c): Util.Buffer is the memory that the functions see; Util.Str has strlcpy,
--     strncmp and strnlen, Util.Memchr memchr, Util.Memset memset, and Util.Hex the hexadecimal
--     digits (hexchar_to_int, int_to_hexchar, hexstr_to_int, mem2hex, hex2mem).
--   * Arch (src/arch/arm/64/gdb.c): Arch.Kernel is the kernel, a parameter; Arch.Regs has regs2hex
--     and hex2regs, Arch.Software and Arch.Hardware the breakpoints, watchpoints and single stepping,
--     Arch.Memory inf_mem2hex and inf_hex2mem.
--   * Gdb (src/gdb.c and include/gdb.h): Gdb.State has the structures and globals; Gdb.ThreadId the
--     text of thread ids and the lookups; Gdb.Registry the registration and exit of inferiors and
--     threads, suspend_system and resume_system; Gdb.Target the packets g, G, m and M; Gdb.Query the
--     packets q and Q; Gdb.Breakpoints z and Z; Gdb.Requests H, T and D; Gdb.Vcont vCont; Gdb.Faults
--     gdb_handle_fault; Gdb.Packet gdb_handle_packet, which calls the handlers.
--   * Framing (examples/microkit_sddf_serial/apps/debugger/debugger.c): get_packet and put_packet, which
--     turn the text of a packet into `$<text>#<checksum>` and back, with the acknowledgements.
--   * EventLoop (the same file, and debugger.c of the network example): the event loop, which takes a
--     packet, hands it to gdb_handle_packet and sends the answer; the report of a fault; fault and
--     notified. EventLoop.Wire is what it uses of put_packet, and EventLoop.Laws what its theorems do.
--   * Serial (examples/microkit_sddf_serial/apps/debugger/debugger.c): its Wire, and init.
--   * Net (examples/microkit_sddf_net/apps/debugger): Net.CharQueue is the ring of char_queue.h;
--     Net.Tcp has tcp_recv_gdb and tcp_send of tcp.c, which fill the ring, and gdb_get_char and
--     get_packet of debugger.c, which empty it; Net.Connection has the other callbacks of tcp.c and
--     setup_tcp_socket; Net.Output has put_packet of debugger.c and the Wire that it makes,
--     Net.Transmit the list of packet buffers of enqueue_pbufs and transmit, and Net.Debugger init,
--     gdb_connected, fault and notified.
--   * Uart (examples/microkit_integrated_serial/apps/debugger/debugger.c): get_packet and put_packet.
--   * Tests: a small kernel, runs, and the theorems at concrete inputs.
--
-- A function of the source has the name of its definition. It takes the globals as a State and
-- returns the new one; State.world is the kernel's state, State.output the caller's buffer.
-- Pointers to inferiors and threads are places in the arrays. A pointer into a text that is only
-- read is the rest of its object, and a pointer into a buffer that is written is an index. What an
-- uninitialised local holds is an argument of the definition, named junk.
--
-- Integers: a seL4_Word has 64 bits and its wrap-around is written out; a gdb_id has 16 bits; an
-- int that holds an id is its 32-bit pattern; the running indices have no bound, since a signed
-- overflow is undefined in C. AArch64 is little-endian.
--
-- Loops over arrays and texts are structural. The two nested loops of handle_vcont are one loop on
-- fuel, the length of the text and one more: each round takes a character of the text at least.
--
-- The debuggers wait for characters in coroutines. In the model a coroutine is a function of the
-- characters that have come in; when they are used up it returns the place where it waits, and goes
-- on from there, and gdb_get_char has set the global state to the new one. The loop of get_packet
-- takes a character in each round, so it is structural; that of put_packet takes a reply. The event
-- loop and the get_packet over the ring are on fuel: more than there are characters is enough,
-- since a round of either takes one at least. The loops of transmit take a buffer from the list in
-- each round. What a debugger sends is a list. The three versions of get_packet differ in whether
-- the character 3 interrupts and in the bytes that are echoed, which are the fields of
-- Framing.Link.
--
-- Where gdb.c clears whole arrays by memset, the model writes zero values.
--
-- Not modelled: src/printf.c, a copy of a third-party library whose snprintf is a parameter; the
-- kernel, of which nothing is assumed but the types of its calls (a theorem that needs more of a
-- call has it as a hypothesis); lwIP and sddf_memcpy, which are parameters, and the sDDF queues of
-- the serial debugger, which are lists of characters; of the network debugger the calls of init
-- that set up sDDF and lwIP, and what lwIP does with the bytes that the coroutines hand to
-- tcp_send; of the integrated debugger the event loop, which calls the library with arguments that
-- it does not take; the driver of the UART. Messages on the debug console are left out.
pub mod Prelude
pub mod Util
pub mod Arch
pub mod Gdb
pub mod Framing
pub mod EventLoop
pub mod Serial
pub mod Net
pub mod Uart
pub mod Tests
