-- ===== src/Pmap/Start.antt =====
-- mem_init of kern/pmap.c: the kernel's part of the address space, and the check of it.
pub mod Layout
pub mod Check
pub mod Pages
pub mod Installed
pub mod Init
pub mod Ends
mod Tests
use mit6_828_lab.Base.{ℕ, ◌-◌, bit_or}
use mit6_828_lab.Mmu.Macros.{ptsize, kernbase, kstacktop, kstksize, upages, pte_p, pte_w, pte_u}
use mit6_828_lab.Pmap.Kernel.{M, ◌>>=◌, ◌>>◌, paddr}
use mit6_828_lab.Pmap.Table.{boot_map_region}

-- The three regions of mem_init: the page structs, the kernel stack, and all physical memory.
pub map_kernel : (kern_pgdir pages bootstack : ℕ) → M (Unit {0})
map_kernel kern_pgdir pages bootstack = do
  pages_pa ← paddr pages
  boot_map_region kern_pgdir upages ptsize pages_pa (bit_or pte_u pte_p)
  stack_pa ← paddr bootstack
  boot_map_region kern_pgdir (kstacktop - kstksize) kstksize stack_pa (bit_or pte_w pte_p)
  boot_map_region kern_pgdir kernbase (0xffff_ffff - kernbase) 0 (bit_or pte_w pte_p)
