-- ===== src/Util.antt =====
-- src/util.c: hexadecimal text and the C string functions, over buffers of bytes.
pub mod Buffer
pub mod Hex
pub mod Str
pub mod Memchr
pub mod Memset
