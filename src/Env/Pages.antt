-- ===== src/Env/Pages.antt =====
-- The loops of env_free over an environment's page tables.
use mit6_828_lab.Base.{ℕ, zero, suc, ◌+◌, ◌*◌, ◌==◌, if◌then◌else◌, bit_and}
use mit6_828_lab.Mmu.Macros.{pgaddr, pte_addr, pte_p, pdx, utop}
use mit6_828_lab.Pmap.Kernel.{M, pure, ◌>>=◌, ◌>>◌, kaddr, pa2page, load, store}
use mit6_828_lab.Pmap.Alloc.{page_decref}
use mit6_828_lab.Pmap.Table.{page_remove}

-- "unmap all PTEs in this page table", from entry `pteno` on.
unfoldable pub remove_entries : (rounds pgdir pdeno pteno pt : ℕ) → M (Unit {0})
remove_entries zero pgdir pdeno pteno pt = pure tt
remove_entries (suc n) pgdir pdeno pteno pt = do
  pte ← load (pt + 4 * pteno)
  if bit_and pte pte_p == 0 then pure tt else page_remove pgdir (pgaddr pdeno pteno 0)
  remove_entries n pgdir pdeno (pteno + 1) pt

-- One page table, where the directory's entry is present.
unfoldable pub free_table : (pgdir pdeno pde : ℕ) → M (Unit {0})
free_table pgdir pdeno pde = do
  pt ← kaddr (pte_addr pde)
  remove_entries 1024 pgdir pdeno 0 pt
  store (pgdir + 4 * pdeno) 0
  pp ← pa2page (pte_addr pde)
  page_decref pp

-- "Flush all mapped pages in the user portion of the address space", from entry `pdeno` on.
unfoldable pub free_tables : (rounds pgdir pdeno : ℕ) → M (Unit {0})
free_tables zero pgdir pdeno = pure tt
free_tables (suc n) pgdir pdeno = do
  pde ← load (pgdir + 4 * pdeno)
  if bit_and pde pte_p == 0 then pure tt else free_table pgdir pdeno pde
  free_tables n pgdir (pdeno + 1)

unfoldable pub flush_pages : (pgdir : ℕ) → M (Unit {0})
flush_pages pgdir = free_tables (pdx utop) pgdir 0
