-- ===== src/Gdb.antt =====
-- src/gdb.c and include/gdb.h: the state of the debugger library and its packet handlers.
pub mod State
pub mod ThreadId
pub mod Registry
pub mod Target
pub mod Query
pub mod Breakpoints
pub mod Requests
pub mod Vcont
pub mod Faults
pub mod Packet
