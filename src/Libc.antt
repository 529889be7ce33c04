-- ===== src/Libc.antt =====
-- lethe-libc: the string and memory functions of string.c, and the printer of stdio.c.
pub mod Str
pub mod Stdio
