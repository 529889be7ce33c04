-- ===== src/Devices.antt =====
-- Devices of lethe-kernel: the line of the shell in misc/shell.c, the keyboard's state in misc/keyboard.c,
-- and the terminal in terminal/tty.c.
pub mod Shell
pub mod Keyboard
pub mod Terminal
pub mod Trace
