-- ===== src/Pmap/Alloc/Check.antt =====
-- check_page_alloc of kern/pmap.c, the test that the kernel runs on its page allocator at every boot.
pub mod View
pub mod Steps
pub mod Passes
mod Tests
use mit6_828_lab.Base.{
  ℕ, zero, suc, ◌+◌, ◌-◌, ◌*◌, ◌/◌, ◌%◌, ◌^◌, Bool, Option, none, some, ◌==◌, ◌&&◌, not, is_none,
  ltb, leb, if◌then◌else◌,
}
use mit6_828_lab.Mmu.Macros.{pgsize}
use mit6_828_lab.Pmap.Kernel.{
  Kernel, M, ok, panic, assertion_failed, null_pages, endless, pure, ◌>>=◌, ◌>>◌, set_free_list,
  page2pa, page2kva,
}
use mit6_828_lab.Pmap.Alloc.{page_alloc, page_free, alloc_zero}

abbrev pub assert : Bool → M (Unit {0})
assert b s = if b then ok tt s else panic assertion_failed

-- `for (pp = page_free_list; pp; pp = pp->pp_link) ++nfree;`
unfoldable pub count_free : (fuel : ℕ) → Option ℕ → (nfree : ℕ) → M ℕ
count_free zero p nfree s = panic endless
count_free (suc n) none nfree s = ok nfree s
count_free (suc n) (some pp) nfree s = count_free n (s.pages pp).pp_link (nfree + 1) s

-- `assert((pp = page_alloc(flags)))`
unfoldable pub alloc_page : ℕ → M ℕ
alloc_page flags = do
  r ← page_alloc flags
  elim r [ none ↦ (λ s. panic assertion_failed) | some pp ↦ pure pp ]

-- `assert(!page_alloc(0))`
unfoldable pub alloc_fails : M (Unit {0})
alloc_fails = do r ← page_alloc 0; assert (is_none r)

-- Three calls of page_alloc, and that they give three pages.
unfoldable pub alloc_three : M (ℕ × (ℕ × ℕ))
alloc_three = do
  pp0 ← alloc_page 0
  pp1 ← alloc_page 0
  pp2 ← alloc_page 0
  assert (not (pp1 == pp0))
  assert (not (pp2 == pp1) && not (pp2 == pp0))
  pure (pp0, (pp1, pp2))

unfoldable pub free_three : (pp0 pp1 pp2 : ℕ) → M (Unit {0})
free_three pp0 pp1 pp2 = do page_free pp0; page_free pp1; page_free pp2

abbrev pub in_memory : ℕ → M (Unit {0})
in_memory pp s = assert (ltb (page2pa pp) (s.npages * pgsize % 2 ^ 32)) s

-- `memset(p, 1, PGSIZE)`, on whole words.
abbrev pub fill_page : ℕ → M (Unit {0})
fill_page p s =
    ok tt (record s { mem = λ a. if leb p a && ltb a (p + pgsize) then 0x0101_0101 else s.mem a })

-- `for (i = 0; i < PGSIZE; i++) assert(c[i] == 0);`, from byte `i` on.
unfoldable pub assert_zeros : (rounds c i : ℕ) → M (Unit {0})
assert_zeros zero c i = pure tt
assert_zeros (suc n) c i = do
  (λ s. assert (s.mem (c + (i - i % 4)) / 2 ^ (8 * (i % 4)) % 2 ^ 8 == 0) s)
  assert_zeros n c (i + 1)

-- "test flags"
unfoldable pub test_flags : ℕ → M (Unit {0})
test_flags pp0 = do
  filled ← page2kva pp0
  fill_page filled
  page_free pp0
  pp ← alloc_page alloc_zero
  assert (pp0 == pp)
  c ← page2kva pp
  assert_zeros 4096 c 0

-- `pages` is the address of the array; `--nfree` for each page of the second count is the comparison with it.
unfoldable pub check_page_alloc : (fuel pages : ℕ) → M (Unit {0})
check_page_alloc fuel pages s =
    if pages == 0
    then panic null_pages
    else (do
      nfree ← count_free fuel s.page_free_list 0
      first ← alloc_three
      in_memory first.0
      in_memory first.1.0
      in_memory first.1.1
      fl ← (λ s. ok s.page_free_list s)
      set_free_list none
      alloc_fails
      free_three first.0 first.1.0 first.1.1
      again ← alloc_three
      alloc_fails
      test_flags again.0
      set_free_list fl
      free_three again.0 again.1.0 again.1.1
      left ← (λ s. count_free fuel s.page_free_list 0 s)
      assert (nfree == left))
        s
