-- ===== src/Env.antt =====
-- kern/env.c, kern/trap.c and kern/syscall.c: environments, and how traps and calls end them. `State` is the state above
-- that of kern/pmap.c, `Alloc` gives environments and their ids, `Free` takes them back, `Trap` is the handling of traps.
pub mod State
pub mod Alloc
pub mod Pages
pub mod Free
pub mod Trap
mod Tests
