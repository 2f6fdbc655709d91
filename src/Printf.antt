-- ===== src/Printf.antt =====
-- lib/printfmt.c and its clients. A formatting routine is the list of the characters that it gives to
-- `putch`, in order: no `putch` of the program changes what comes after it. `Number` is printnum,
-- `Format` vprintfmt; `Sprint` is vsnprintf, `Message` a call with a fixed format, `Cprintf` the two vcprintf (lib/printf.c, kern/printf.c).
pub mod Message
pub mod Number
pub mod Format
pub mod Sprint
pub mod Cprintf
mod Tests
