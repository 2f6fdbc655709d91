-- ===== src/Pmap/Boot/FreeList/Passes.antt =====
-- check_page_free_list passes on a pool of the right pages.
use mit6_828_lab.Base.{
  ℕ, ◌+◌, ◌%◌, ◌^◌, ◌≤◌, ◌<◌, ◌≡◌, refl, ◌∙◌, inl, inr, Bool, true, false, List, [], ◌∷◌, ◌++◌,
  ◌==◌, ltb, if◌then◌else◌, arith, length, Bool-cases,
}
use mit6_828_lab.Mmu.Macros.{pgsize, extphysmem, roundup}
use mit6_828_lab.Pmap.Kernel.{Kernel, ok, ◌>>=◌, ◌>>◌, page2pa}
use mit6_828_lab.Pmap.Alloc.Pool.{IsPool}
use mit6_828_lab.Pmap.Alloc.Decref.{ref}
use mit6_828_lab.Pmap.Alloc.Order.Segment.{count}
use mit6_828_lab.Pmap.Alloc.Order.Partition.{low_pages, high_pages, count-append}
use mit6_828_lab.Pmap.Alloc.Order.Sorted.{
  low_first-IsPool, FreeFrom-member, count-parts, length-parts,
}
use mit6_828_lab.Pmap.Boot.{boot_alloc}
use mit6_828_lab.Pmap.Boot.FreeList.{check_sorted, check_page_free_list}
use mit6_828_lab.Pmap.Boot.FreeList.Loops.{
  MayBeFree, page2pa_lem, poison-memory, base_pages, ext_pages, check_pages-passes,
}

base_pages-pos : (i : ℕ) (xs : List ℕ) → 1 ≤ count i xs → i < 256 → 1 ≤ base_pages xs
base_pages-pos i [] on low = absurd (omega arith)
base_pages-pos i (x ∷ xs) on low = elim (Bool-cases (x == i)) [
  | inl here ↦
      let base : ltb (page2pa x) extphysmem ≡ true =
        ground (arith, here, page2pa_lem i 256 low (omega arith)) in
      rw base (omega arith)
  | inr away ↦ omega (arith, base_pages-pos i xs (ground (arith, away, on)) low)
]

ext_pages-pos : (i : ℕ) (xs : List ℕ) → 1 ≤ count i xs → 256 ≤ i → i < 2 ^ 16 → 1 ≤ ext_pages xs
ext_pages-pos i [] on high small = absurd (omega arith)
ext_pages-pos i (x ∷ xs) on high small = elim (Bool-cases (x == i)) [
  | inl here ↦
      let ext : ltb (page2pa x) extphysmem ≡ false =
        ground (arith, here, page2pa_lem i (2 ^ 16) small (omega arith)) in
      rw ext (omega arith)
  | inr away ↦ omega (arith, ext_pages-pos i xs (ground (arith, away, on)) high small)
]

-- What the pages of a list must be for the test to pass: all may be free, one is in base memory, one is not.
pub record IsBootList (first : ℕ) (xs : List ℕ) (i j : ℕ) : Type 0 where
  pub may_be_free : (k : ℕ) → 1 ≤ count k xs → MayBeFree first k
  pub base : (1 ≤ count i xs) × (i < 256)
  pub ext : (1 ≤ count j xs) × (256 ≤ j)

check_sorted-passes :
    (fuel limit end i j : ℕ) (xs : List ℕ) (s : Kernel)
    → IsPool s xs
    → length xs < fuel
    → 0 < s.nextfree
    → IsBootList s.nextfree xs i j
    → (m : ℕ → ℕ) × (n : ℕ) × (check_sorted fuel limit end s
        ≡ ok tt (record s { mem = m; nextfree = n }))
unfolding check_sorted boot_alloc
check_sorted-passes fuel limit end i j xs s pool enough called good =
    let (m, poisoned) =
      poison-memory fuel limit s.page_free_list xs s pool.chain pool.small enough in
    let n : ℕ = roundup ((s.nextfree + 0) % 2 ^ 32) pgsize in
    let s1 = record s { mem = m; nextfree = n } in
    let counted =
      check_pages-passes fuel s.nextfree s.page_free_list xs 0 0 s1 pool.chain pool.small
        good.may_be_free enough in
    let in_range =
      (FreeFrom-member s.pages s.npages s.page_free_list xs j pool.chain good.ext.0).0 in
    let b : 1 ≤ base_pages xs = base_pages-pos i xs good.base.0 good.base.1 in
    let e : 1 ≤ ext_pages xs =
      ext_pages-pos j xs good.ext.0 good.ext.1 (omega (arith, in_range, pool.small)) in
    let some_base : ltb 0 (0 + base_pages xs) ≡ true = ground arith in
    let some_ext : ltb 0 (0 + ext_pages xs) ≡ true = ground arith in
    let set : (s.nextfree == 0) ≡ false = ground arith in
    (m, n, rw (◌>>◌, ◌>>=◌, poisoned, set, counted, some_base, some_ext) refl)

-- The list after the test.
abbrev pub ordered : Bool → List ℕ → List ℕ
ordered only_low xs = if only_low then low_pages 1 xs ++ high_pages 1 xs else xs

IsPool-mem :
    (s : Kernel) (xs : List ℕ) (m : ℕ → ℕ) (n : ℕ)
    → IsPool s xs
    → IsPool (record s { mem = m; nextfree = n }) xs
IsPool-mem s xs m n pool = record {
  chain = pool.chain;
  used_unlinked = pool.used_unlinked;
  small = pool.small;
}

IsBootList-parts :
    (first : ℕ) (xs : List ℕ) (i j : ℕ)
    → IsBootList first xs i j
    → IsBootList first (low_pages 1 xs ++ high_pages 1 xs) i j
IsBootList-parts first xs i j good =
    let same : (k : ℕ) → count k (low_pages 1 xs ++ high_pages 1 xs) ≡ count k xs =
      λ k. count-append k (low_pages 1 xs) (high_pages 1 xs) ∙ count-parts 1 k xs in
    record {
      may_be_free = λ k on. good.may_be_free k (omega (arith, on, same k));
      base = (omega (arith, good.base.0, same i), good.base.1);
      ext = (omega (arith, good.ext.0, same j), good.ext.1);
    }

-- check_page_free_list returns, with no assertion failed and no panic, on every pool without page 0, the first and the last page
-- of the IO hole, the first page of extended memory, and any page of extended memory below boot_alloc's next free byte, if
-- boot_alloc was called, the fuel exceeds the pool, and the pool has a page of base memory and one of extended memory. It leaves
-- the pool as it was, or (with only_low_memory) with the pages below 4 megabytes first and both parts in their order; every
-- reference count stays.
pub check_page_free_list-passes :
    (fuel end i j : ℕ) (only_low : Bool) (xs : List ℕ) (s : Kernel)
    → IsPool s xs
    → length xs < fuel
    → 0 < s.nextfree
    → IsBootList s.nextfree xs i j
    → (s' : Kernel) × (check_page_free_list fuel end only_low s ≡ ok tt s')
      × IsPool s' (ordered only_low xs)
      × ((k : ℕ) → ref s' k ≡ ref s k)
unfolding check_page_free_list
check_page_free_list-passes fuel end i j only_low [] s pool enough called good =
    absurd (omega (arith, good.base.0))
check_page_free_list-passes fuel end i j true (x ∷ xs) s pool enough called good =
    let (s1, run1, pool1, refs, links, mem, npages, next) =
      low_first-IsPool fuel 1 (x ∷ xs) s pool enough in
    let ys = low_pages 1 (x ∷ xs) ++ high_pages 1 (x ∷ xs) in
    let good1 : IsBootList s1.nextfree ys i j =
      rw next (IsBootList-parts s.nextfree (x ∷ xs) i j good) in
    let fits : length ys < fuel = rw (length-parts 1 (x ∷ xs)) enough in
    let (m, n, run2) = check_sorted-passes fuel 1 end i j ys s1 pool1 fits (rw next called) good1 in
    (
      record s1 { mem = m; nextfree = n },
      rw (pool.chain.0, ← pool.chain.0) (rw (◌>>◌, ◌>>=◌, run1) run2),
      IsPool-mem s1 ys m n pool1,
      refs,
    )
check_page_free_list-passes fuel end i j false (x ∷ xs) s pool enough called good =
    let (m, n, run2) = check_sorted-passes fuel 1024 end i j (x ∷ xs) s pool enough called good in
    (
      record s { mem = m; nextfree = n },
      rw (pool.chain.0, ← pool.chain.0) run2,
      IsPool-mem s (x ∷ xs) m n pool,
      λ k. refl,
    )
