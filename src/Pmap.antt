-- ===== src/Pmap.antt =====
-- kern/pmap.c and kern/pmap.h: physical pages and page tables.
-- `Kernel` is the state with the commands over it, `Alloc` the page allocator, `Boot` the code that
-- runs before it, `Table` the page tables; the proofs stand below the component they are about.
pub mod Kernel
pub mod Alloc
pub mod Boot
pub mod Table
pub mod Start
mod Tests
