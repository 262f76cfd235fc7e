-- ===== src/Net.antt =====
-- The debugger of the network example, examples/microkit_sddf_net/apps/debugger.
pub mod CharQueue
pub mod Output
pub mod Tcp
pub mod Connection
pub mod Transmit
pub mod Debugger
