-- ===== src/Tests.antt =====
-- Runs of the model, and the theorems at concrete inputs.
pub mod World
pub mod Util
pub mod Arch
pub mod Gdb
mod Detach
mod Framing
pub mod Net
mod NetDebugger
mod Serial
