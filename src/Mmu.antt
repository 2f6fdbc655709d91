-- ===== src/Mmu.antt =====
-- inc/mmu.h, inc/memlayout.h and inc/types.h: the macros by which the kernel computes addresses
-- (`Macros`), their laws (`Laws`), and those that build descriptors (`Segments`). An address is a number below 2 ^ 32; `>> k` is `/ 2 ^ k`,
-- `& (2 ^ k - 1)` is `% 2 ^ k`, and `|` of fields that may overlap is `bit_or`.
pub mod Macros
pub mod Laws
pub mod Segments
