-- ===== src/Pmap/Start/Pages.antt =====
-- check_page of kern/pmap.c: the test of page_insert, page_remove, page_lookup and pgdir_walk that the kernel runs at every boot.
use mit6_828_lab.Base.{
  ℕ, zero, suc, ◌+◌, ◌*◌, Bool, true, false, none, some, ◌==◌, ◌&&◌, leb, ltb, not, is_none,
  bit_and, bit_or, if◌then◌else◌,
}
use mit6_828_lab.Mmu.Macros.{pgsize, ptsize, npdentries, pte_addr, pte_p, pte_w, pte_u}
use mit6_828_lab.Pmap.Kernel.{
  M, ok, panic, null_pointer, pure, ◌>>=◌, ◌>>◌, set_ref, set_free_list, load, store, kaddr,
  page2pa, page2kva,
}
use mit6_828_lab.Pmap.Alloc.{page_free}
use mit6_828_lab.Pmap.Alloc.Check.{assert, alloc_page, alloc_fails, alloc_three, free_three}
use mit6_828_lab.Pmap.Table.{
  Status, success, no_mem, pde_ptr, pte_ptr, pgdir_walk, page_lookup, page_insert, page_remove,
  check_va2pa, no_pa,
}

-- The assertions that come more than once.
abbrev is_success : Status → Bool
is_success r = elim r [ success ↦ true | no_mem ↦ false ]

unfoldable pub insert_works : (pgdir pp va perm : ℕ) → M (Unit {0})
insert_works pgdir pp va perm = do r ← page_insert pgdir pp va perm; assert (is_success r)

unfoldable pub insert_fails : (pgdir pp va perm : ℕ) → M (Unit {0})
insert_fails pgdir pp va perm = do r ← page_insert pgdir pp va perm; assert (not (is_success r))

unfoldable pub maps_to : (pgdir va pa : ℕ) → M (Unit {0})
maps_to pgdir va pa = do found ← check_va2pa pgdir va; assert (found == pa)

unfoldable pub has_ref : (pp n : ℕ) → M (Unit {0})
has_ref pp n s = assert ((s.pages pp).pp_ref == n) s

-- `*pgdir_walk(pgdir, va, 0)`
unfoldable pub walked_entry : (pgdir va : ℕ) → M ℕ
walked_entry pgdir va = do
  pte ← pgdir_walk pgdir va false
  elim pte [ none ↦ (λ s. panic null_pointer) | some pte ↦ load pte ]

-- `pte & flag`
abbrev pub has_flag : ℕ → ℕ → Bool
has_flag pte flag = not (bit_and pte flag == 0)

-- Directory entry 0 names page `pp`.
unfoldable pub first_table : (pgdir pp : ℕ) → M (Unit {0})
first_table pgdir pp = do pde ← load pgdir; assert (pte_addr pde == page2pa pp)

-- `kern_pgdir[i] = 0; pp->pp_ref = 0;`
unfoldable pub take_table_back : (pgdir va pp : ℕ) → M (Unit {0})
take_table_back pgdir va pp = do store (pde_ptr pgdir va) 0; set_ref pp 0

-- With no memory for a page table, and then with `pp0` for it.
unfoldable pub check_table : (pgdir pp0 pp1 : ℕ) → M (Unit {0})
check_table pgdir pp0 pp1 = do
  alloc_fails
  found ← page_lookup pgdir 0
  assert (is_none found)
  insert_fails pgdir pp1 0 pte_w
  page_free pp0
  insert_works pgdir pp1 0 pte_w
  first_table pgdir pp0
  maps_to pgdir 0 (page2pa pp1)
  has_ref pp1 1
  has_ref pp0 1

-- "should be able to map pp2 at PGSIZE", twice, and what pgdir_walk then gives.
unfoldable pub check_twice : (pgdir pp2 : ℕ) → M (Unit {0})
check_twice pgdir pp2 = do
  insert_works pgdir pp2 pgsize pte_w
  maps_to pgdir pgsize (page2pa pp2)
  has_ref pp2 1
  alloc_fails
  insert_works pgdir pp2 pgsize pte_w
  maps_to pgdir pgsize (page2pa pp2)
  has_ref pp2 1
  alloc_fails
  pde ← load (pde_ptr pgdir pgsize)
  table ← kaddr (pte_addr pde)
  walked ← pgdir_walk pgdir pgsize false
  elim walked [ none ↦ assert false | some pte ↦ assert (pte == pte_ptr table pgsize) ]

-- The permissions of the mapping of `pp2`, changed twice; and a page table that there is no memory for.
unfoldable pub check_permissions : (pgdir pp0 pp2 : ℕ) → M (Unit {0})
check_permissions pgdir pp0 pp2 = do
  insert_works pgdir pp2 pgsize (bit_or pte_w pte_u)
  maps_to pgdir pgsize (page2pa pp2)
  has_ref pp2 1
  pte ← walked_entry pgdir pgsize
  assert (has_flag pte pte_u)
  pde ← load pgdir
  assert (has_flag pde pte_u)
  insert_works pgdir pp2 pgsize pte_w
  pte ← walked_entry pgdir pgsize
  assert (has_flag pte pte_w)
  pte ← walked_entry pgdir pgsize
  assert (not (has_flag pte pte_u))
  insert_fails pgdir pp0 ptsize pte_w

-- "insert pp1 at PGSIZE (replacing pp2)"
unfoldable pub check_replace : (pgdir pp1 pp2 : ℕ) → M (Unit {0})
check_replace pgdir pp1 pp2 = do
  insert_works pgdir pp1 pgsize pte_w
  pte ← walked_entry pgdir pgsize
  assert (not (has_flag pte pte_u))
  maps_to pgdir 0 (page2pa pp1)
  maps_to pgdir pgsize (page2pa pp1)
  has_ref pp1 2
  has_ref pp2 0
  pp ← alloc_page 0
  assert (pp == pp2)

-- "unmapping pp1", first at 0 and then at PGSIZE.
unfoldable pub check_remove : (pgdir pp1 pp2 : ℕ) → M (Unit {0})
check_remove pgdir pp1 pp2 = do
  page_remove pgdir 0
  maps_to pgdir 0 no_pa
  maps_to pgdir pgsize (page2pa pp1)
  has_ref pp1 1
  has_ref pp2 0
  insert_works pgdir pp1 pgsize 0
  (λ s. assert (not ((s.pages pp1).pp_ref == 0)) s)
  (λ s. assert (is_none (s.pages pp1).pp_link) s)
  page_remove pgdir pgsize
  maps_to pgdir 0 no_pa
  maps_to pgdir pgsize no_pa
  has_ref pp1 0
  has_ref pp2 0
  pp ← alloc_page 0
  assert (pp == pp1)
  alloc_fails

-- "check pointer arithmetic in pgdir_walk"; an assertion on its result, if it is NULL, fails.
unfoldable pub check_arithmetic : (pgdir va pp0 : ℕ) → M (Unit {0})
check_arithmetic pgdir va pp0 = do
  page_free pp0
  walked ← pgdir_walk pgdir va true
  pde ← load (pde_ptr pgdir va)
  table ← kaddr (pte_addr pde)
  elim walked [ none ↦ assert false | some pte ↦ assert (pte == pte_ptr table va) ]
  take_table_back pgdir va pp0

-- `memset(p, 0xFF, PGSIZE)`, on whole words.
abbrev pub fill_ones : ℕ → M (Unit {0})
fill_ones p s =
    ok tt (record s { mem = λ a. if leb p a && ltb a (p + pgsize) then 0xffff_ffff else s.mem a })

-- `assert((ptep[i] & PTE_P) == 0)`, from entry `i` on.
unfoldable pub assert_absent : (rounds ptep i : ℕ) → M (Unit {0})
assert_absent zero ptep i = pure tt
assert_absent (suc n) ptep i = do
  pte ← load (ptep + 4 * i)
  assert (bit_and pte pte_p == 0)
  assert_absent n ptep (i + 1)

-- "check that new page tables get cleared"
unfoldable pub check_cleared : (pgdir pp0 : ℕ) → M (Unit {0})
check_cleared pgdir pp0 = do
  filled ← page2kva pp0
  fill_ones filled
  page_free pp0
  walked ← pgdir_walk pgdir 0 true
  ptep ← page2kva pp0
  assert_absent 1024 ptep 0
  take_table_back pgdir 0 pp0

unfoldable pub check_page : (kern_pgdir : ℕ) → M (Unit {0})
check_page pgdir = do
  first ← alloc_three
  fl ← (λ s. ok s.page_free_list s)
  set_free_list none
  check_table pgdir first.0 first.1.0
  check_twice pgdir first.1.1
  check_permissions pgdir first.0 first.1.1
  check_replace pgdir first.1.0 first.1.1
  check_remove pgdir first.1.0 first.1.1
  first_table pgdir first.0
  store pgdir 0
  has_ref first.0 1
  set_ref first.0 0
  check_arithmetic pgdir (pgsize * npdentries + pgsize) first.0
  check_cleared pgdir first.0
  set_free_list fl
  free_three first.0 first.1.0 first.1.1
