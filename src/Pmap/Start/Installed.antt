-- ===== src/Pmap/Start/Installed.antt =====
-- check_page_installed_pgdir of kern/pmap.c, which runs when kern_pgdir is in cr3: loads and stores go through its page tables.
use mit6_828_lab.Base.{ℕ, ◌+◌, ◌==◌, ◌&&◌, leb, ltb, if◌then◌else◌}
use mit6_828_lab.Mmu.Macros.{pgsize, kernbase, pgoff, pte_w}
use mit6_828_lab.Pmap.Kernel.{M, ok, ◌>>=◌, ◌>>◌, set_ref, load, store, page2kva}
use mit6_828_lab.Pmap.Alloc.{page_free}
use mit6_828_lab.Pmap.Alloc.Check.{assert, alloc_page}
use mit6_828_lab.Pmap.Table.{page_insert, page_remove, check_va2pa}
use mit6_828_lab.Pmap.Start.Pages.{has_ref, first_table}

-- `memset(p, c, PGSIZE)`, on whole words `w` of four bytes `c`.
unfoldable pub fill_words : (w p : ℕ) → M (Unit {0})
fill_words w p s =
    ok tt (record s { mem = λ a. if leb p a && ltb a (p + pgsize) then w else s.mem a })

-- The kernel address of what the processor finds at `va`.
unfoldable pub installed : (pgdir va : ℕ) → M ℕ
installed pgdir va = do pa ← check_va2pa pgdir va; λ s. ok (pa + pgoff va + kernbase) s

-- `assert(*(uint32_t *)p == w)`
unfoldable pub word_is : (p w : ℕ) → M (Unit {0})
word_is p w = do found ← load p; assert (found == w)

-- "check that we can read and write installed pages"
unfoldable pub check_installed : (pgdir pp1 pp2 : ℕ) → M (Unit {0})
check_installed pgdir pp1 pp2 = do
  one ← page2kva pp1
  fill_words 0x0101_0101 one
  two ← page2kva pp2
  fill_words 0x0202_0202 two
  r ← page_insert pgdir pp1 pgsize pte_w
  has_ref pp1 1
  at ← installed pgdir pgsize
  word_is at 0x0101_0101
  r ← page_insert pgdir pp2 pgsize pte_w
  at ← installed pgdir pgsize
  word_is at 0x0202_0202
  has_ref pp2 1
  has_ref pp1 0
  at ← installed pgdir pgsize
  store at 0x0303_0303
  two ← page2kva pp2
  word_is two 0x0303_0303
  page_remove pgdir pgsize
  has_ref pp2 0

unfoldable pub check_page_installed_pgdir : (kern_pgdir : ℕ) → M (Unit {0})
check_page_installed_pgdir pgdir = do
  pp0 ← alloc_page 0
  pp1 ← alloc_page 0
  pp2 ← alloc_page 0
  page_free pp0
  check_installed pgdir pp1 pp2
  first_table pgdir pp0
  store pgdir 0
  has_ref pp0 1
  set_ref pp0 0
  page_free pp0
