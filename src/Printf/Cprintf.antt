-- ===== src/Printf/Cprintf.antt =====
-- The two vcprintf: of the kernel (kern/printf.c), which gives each character to cputchar, and of the user library
-- (lib/printf.c), which collects them for sys_cputs.
pub mod Kern
pub mod User
