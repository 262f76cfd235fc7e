-- ===== src/Arch.antt =====
-- src/arch/arm/64/gdb.c: registers, breakpoints, single stepping and target memory on AArch64.
pub mod Kernel
pub mod Software
pub mod Regs
pub mod Hardware
pub mod Memory
