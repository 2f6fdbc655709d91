-- ===== src/Kdebug.antt =====
-- kern/kdebug.c: the table of stabs, and what is known of an instruction address.
pub mod Search
pub mod Info
mod Tests
