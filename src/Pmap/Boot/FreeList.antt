-- ===== src/Pmap/Boot/FreeList.antt =====
-- check_page_free_list of kern/pmap.c, which the kernel runs after page_init. A page pointer is an index, so that of the three
-- assertions on the pointer itself the one on the end of the array is left.
pub mod Loops
pub mod Passes
mod Tests
use mit6_828_lab.Base.{
  ℕ, zero, suc, ◌+◌, ◌-◌, ◌==◌, ◌&&◌, not, Bool, true, false, Option, none, some, ltb, leb,
  if◌then◌else◌,
}
use mit6_828_lab.Mmu.Macros.{pdx, pgsize, iophysmem, extphysmem}
use mit6_828_lab.Pmap.Kernel.{
  Kernel, M, ok, panic, null_free_list, endless, pure, ◌>>=◌, ◌>>◌, page2pa, page2kva,
}
use mit6_828_lab.Pmap.Alloc.Check.{assert}
use mit6_828_lab.Pmap.Alloc.Order.{low_first}
use mit6_828_lab.Pmap.Boot.{boot_alloc}

-- `memset(p, 0x97, 128)`, on whole words.
abbrev pub poison_page : ℕ → M (Unit {0})
poison_page p s =
    ok tt (record s { mem = λ a. if leb p a && ltb a (p + 128) then 0x9797_9797 else s.mem a })

-- "try to make sure it eventually causes trouble": the loop over the list from `p` on.
unfoldable pub poison : (fuel limit : ℕ) → Option ℕ → M (Unit {0})
poison zero limit p s = panic endless
poison (suc n) limit none s = ok tt s
poison (suc n) limit (some pp) s =
    (do
      if leb limit (pdx (page2pa pp)) then pure tt else (do kva ← page2kva pp; poison_page kva)
      (λ s. poison n limit (s.pages pp).pp_link s))
      s

-- The assertions on one page.
unfoldable pub check_free_page : (first pp : ℕ) → M (Unit {0})
check_free_page first pp = do
  (λ s. assert (ltb pp s.npages) s)
  assert (not (page2pa pp == 0))
  assert (not (page2pa pp == iophysmem))
  assert (not (page2pa pp == extphysmem - pgsize))
  assert (not (page2pa pp == extphysmem))
  if ltb (page2pa pp) extphysmem then pure tt else (do kva ← page2kva pp; assert (leb first kva))

-- The loop over the list from `p` on, which counts the pages of base and of extended memory.
unfoldable pub check_pages :
    (fuel first : ℕ) → Option ℕ → (nfree_basemem nfree_extmem : ℕ) → M (ℕ × ℕ)
check_pages zero first p nb ne s = panic endless
check_pages (suc n) first none nb ne s = ok (nb, ne) s
check_pages (suc n) first (some pp) nb ne s =
    (do
      check_free_page first pp
      (λ s.
          check_pages n first (s.pages pp).pp_link
            (nb + (if ltb (page2pa pp) extphysmem then 1 else 0))
            (ne + (if ltb (page2pa pp) extphysmem then 0 else 1)) s))
      s

abbrev pub pdx_limit : Bool → ℕ
pdx_limit only_low_memory = if only_low_memory then 1 else 1024

-- What follows the sorting.
unfoldable pub check_sorted : (fuel limit end : ℕ) → M (Unit {0})
check_sorted fuel limit end = do
  (λ s. poison fuel limit s.page_free_list s)
  first ← boot_alloc end 0
  counts ← (λ s. check_pages fuel first s.page_free_list 0 0 s)
  assert (ltb 0 counts.0)
  assert (ltb 0 counts.1)

unfoldable pub check_page_free_list : (fuel end : ℕ) → (only_low_memory : Bool) → M (Unit {0})
check_page_free_list fuel end only_low s = elim s.page_free_list [
  | none ↦ panic null_free_list
  | some p ↦
      (do
        if only_low then low_first fuel (pdx_limit only_low) else pure tt
        check_sorted fuel (pdx_limit only_low) end)
        s
]
