-- ===== src/Console.antt =====
-- kern/console.c: the input buffer (`Input`), the keyboard (`Keyboard`), the text screen (`Screen`), the start of the devices (`Setup`).
-- Ports are hardware: what `inb` returns is an argument, and what `outb` is given is recorded.
pub mod Input
pub mod Keyboard
pub mod Screen
pub mod Setup
mod Tests
