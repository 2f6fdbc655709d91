-- ===== src/Pmap/Boot/Init.antt =====
-- page_init builds the pool of exactly the pages that are neither page 0 nor in the used range.
use native.Mathlib.Numerals.{add-one}
use mit6_828_lab.Base.{
  ℕ, zero, suc, ◌+◌, ◌-◌, ◌*◌, ◌%◌, ◌^◌, ◌≤◌, ◌<◌, ◌≡◌, ◌≢◌, refl, ◌∙◌, inl, inr, Bool, true, false,
  none, some, List, [], ◌∷◌, arith, ◌==◌, leb, not, ◌&&◌, has, if◌then◌else◌, Bool-cases, ==_refl,
}
use mit6_828_lab.Mmu.Macros.{pgsize, kernbase, iophysmem, roundup}
use mit6_828_lab.Pmap.Kernel.{
  PageInfo, Kernel, ok, ◌>>=◌, ◌>>◌, set_page, with_link, with_ref, paddr_lem,
}
use mit6_828_lab.Pmap.Alloc.Pool.{IsPool, FreeFrom-set_page}
use mit6_828_lab.Pmap.Boot.{boot_alloc, init_page, init_pages, page_init}

-- Neither page 0 nor in the range from the I/O hole up to and with address `first`.
abbrev pub is_free : ℕ → ℕ → Bool
is_free first i =
    not (i == 0) && not (leb iophysmem (i * pgsize % 2 ^ 32) && leb (i * pgsize % 2 ^ 32) first)

-- The free pages below `n`, highest first.
unfoldable pub free_pages : ℕ → ℕ → List ℕ
free_pages first zero = []
free_pages first (suc n) = if is_free first n then n ∷ free_pages first n else free_pages first n

has-free_pages : (first i n : ℕ) → n ≤ i → has i (free_pages first n) ≡ false
unfolding free_pages
has-free_pages first i zero h = refl
has-free_pages first i (suc n) h = elim (Bool-cases (is_free first n)) [
  | inl free ↦ rw free (ground (arith, has-free_pages first i n))
  | inr used ↦ rw used (has-free_pages first i n (omega arith))
]

module _ (first i : ℕ) (s : Kernel) (pool : IsPool s (free_pages first i))
    (lt : suc i ≤ s.npages) where
  init_page-used :
      is_free first i ≡ false
      → (s' : Kernel) × (init_page first i s ≡ ok tt s')
        × IsPool s' (free_pages first i)
        × (s'.npages ≡ s.npages)
        × (s'.nextfree ≡ s.nextfree)
  unfolding init_page
  init_page-used used = (
    record s { pages = set_page i (with_ref 1 (s.pages i)) s.pages },
    ground arith,
    record {
      chain =
          FreeFrom-set_page s.pages s.npages s.page_free_list (free_pages first i) i _
            (has-free_pages first i i (omega arith)) pool.chain;
      used_unlinked = λ j out. ground (arith, pool.used_unlinked j);
      small = pool.small;
    },
    refl,
    refl,
  )

  abbrev zeroed_page : ℕ → PageInfo
  zeroed_page = set_page i (with_ref 0 (s.pages i)) s.pages

  init_page-free :
      is_free first i ≡ true
      → (s' : Kernel) × (init_page first i s ≡ ok tt s')
        × IsPool s' (i ∷ free_pages first i)
        × (s'.npages ≡ s.npages)
        × (s'.nextfree ≡ s.nextfree)
  unfolding init_page
  init_page-free free =
      let out : has i (free_pages first i) ≡ false = has-free_pages first i i (omega arith) in
      let once : _ =
        FreeFrom-set_page s.pages s.npages s.page_free_list (free_pages first i) i
          (with_ref 0 (s.pages i)) out pool.chain in
      let twice : _ =
        FreeFrom-set_page zeroed_page s.npages s.page_free_list (free_pages first i) i
          (with_link s.page_free_list (zeroed_page i)) out once in
      (
        record s {
          pages = set_page i (with_link s.page_free_list (zeroed_page i)) zeroed_page;
          page_free_list = some i;
        },
        ground arith,
        record {
          chain = (refl, lt, ground arith, out, rw (==_refl i) twice);
          used_unlinked = λ j out'. ground (arith, pool.used_unlinked j);
          small = pool.small;
        },
        refl,
        refl,
      )

-- One round of the loop, whichever branch it takes.
init_page-IsPool :
    (first i : ℕ) (s : Kernel)
    → IsPool s (free_pages first i)
    → suc i ≤ s.npages
    → (s' : Kernel) × (init_page first i s ≡ ok tt s')
      × IsPool s' (free_pages first (suc i))
      × (s'.npages ≡ s.npages)
      × (s'.nextfree ≡ s.nextfree)
unfolding free_pages
init_page-IsPool first i s pool lt = elim (Bool-cases (is_free first i)) [
  | inl free ↦ rw free (init_page-free first i s pool lt free)
  | inr used ↦ rw used (init_page-used first i s pool lt used)
]

init_pages-IsPool :
    (first n i k : ℕ) (s : Kernel)
    → IsPool s (free_pages first i)
    → i + n ≡ k
    → k ≡ s.npages
    → (s' : Kernel) × (init_pages first n i s ≡ ok tt s')
      × IsPool s' (free_pages first k)
      × (s'.npages ≡ s.npages)
      × (s'.nextfree ≡ s.nextfree)
unfolding init_pages
init_pages-IsPool first zero i k s pool e e' =
    (s, refl, (let at : i ≡ k = omega arith in rw (← at) pool), refl, refl)
init_pages-IsPool first (suc n) i k s pool e e' =
    let (t, ran, pool', same, same_next) = init_page-IsPool first i s pool (omega arith) in
    let next : IsPool t (free_pages first (i + 1)) = rw add-one pool' in
    let (t', rest, pool'', same', same_next') =
      init_pages-IsPool first n (i + 1) k t next (omega arith) (omega arith) in
    (t', rw (ran, ◌>>◌, ◌>>=◌) rest, pool'', same' ∙ same, same_next' ∙ same_next)

-- The same with the fields that stay, and boot_alloc's variable.
pub page_init-Pool :
    (end : ℕ) (s : Kernel)
    → ((i : ℕ) → (s.pages i).pp_link ≡ none)
    → s.npages ≤ 2 ^ 16
    → kernbase ≤ s.nextfree
    → (s' : Kernel) × (page_init end s ≡ ok tt s')
      × IsPool s' (free_pages (s.nextfree - kernbase) s.npages)
      × (s'.npages ≡ s.npages)
      × (s'.nextfree ≡ roundup ((s.nextfree + 0) % 2 ^ 32) pgsize)
unfolding page_init boot_alloc free_pages
page_init-Pool end s unlinked small called =
    let set : (s.nextfree == 0) ≡ false = ground arith in
    let (t, ran, pool, same, same_next) =
      init_pages-IsPool (s.nextfree - kernbase) s.npages 0 s.npages
        (record s { page_free_list = none; nextfree = roundup ((s.nextfree + 0) % 2 ^ 32) pgsize })
        (record { chain = refl; used_unlinked = λ i out. unlinked i; small = small }) (omega arith)
        refl in
    (
      t,
      rw
          (
            set,
            paddr_lem s.nextfree
                (record s {
                  page_free_list = none;
                  nextfree = roundup ((s.nextfree + 0) % 2 ^ 32) pgsize;
                })
                called,
            ◌>>=◌,
          )
          ran,
      pool,
      same,
      same_next,
    )

-- From unlinked pages, once boot_alloc has been called, page_init ends, and the pool is exactly the
-- list of the machine's pages other than page 0 and those that start in [IOPHYSMEM, first], where
-- `first` is the physical address of boot_alloc's next free byte, highest page first.
pub page_init-IsPool :
    (end : ℕ) (s : Kernel)
    → ((i : ℕ) → (s.pages i).pp_link ≡ none)
    → s.npages ≤ 2 ^ 16
    → kernbase ≤ s.nextfree
    → (s' : Kernel) × (page_init end s ≡ ok tt s')
      × IsPool s' (free_pages (s.nextfree - kernbase) s.npages)
page_init-IsPool end s unlinked small called =
    let (t, ran, pool, same, same_next) = page_init-Pool end s unlinked small called in
    (t, ran, pool)

-- Once called, boot_alloc gives the next free byte, which is on a page boundary, and moves it to the
-- first page boundary at least `n` bytes on: two results do not overlap. Its first call starts at
-- the first page boundary from the linker's `end`. (The sums fit 32 bits.)
pub boot_alloc_bounds :
    (end n : ℕ) (s t : Kernel)
    → s.nextfree ≢ 0
    → s.nextfree + n + 4096 ≤ 2 ^ 32
    → t.nextfree ≡ 0
    → end + n + 2 * 4096 ≤ 2 ^ 32
    → let s' = record s { nextfree = roundup ((s.nextfree + n) % 2 ^ 32) pgsize } in
      let t' = record t { nextfree = roundup ((roundup end pgsize + n) % 2 ^ 32) pgsize } in
      (boot_alloc end n s ≡ ok s.nextfree s')
      × (s.nextfree + n ≤ s'.nextfree)
      × (s'.nextfree < s.nextfree + n + 4096)
      × (s'.nextfree % 4096 ≡ 0)
      × (boot_alloc end n t ≡ ok (roundup end pgsize) t')
      × (end ≤ roundup end pgsize)
      × (roundup end pgsize + n ≤ t'.nextfree)
unfolding boot_alloc
boot_alloc_bounds end n s t called fits fresh fits' =
    let set : (s.nextfree == 0) ≡ false = ground arith in
    let unset : (t.nextfree == 0) ≡ true = ground arith in
    (rw set, omega arith, omega arith, omega arith, rw unset, omega arith, omega arith)
