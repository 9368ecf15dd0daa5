-- ===== src/Libc.antt =====
-- libc: the string and memory functions that the kernel shares with user space.
pub mod Memory
pub mod Ctype
pub mod Strings
pub mod Numbers
pub mod Format
