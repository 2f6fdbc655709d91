-- ===== src/Pmap/Alloc/Pool.antt =====
-- The free list as an abstract pool of pages: the invariant, and what each operation does to it.
use mathlib.Core.Path.{fun_ext}
use mit6_828_lab.Base.{
  ℕ, ◌^◌, ◌≤◌, ◌<◌, ◌≡◌, ◌≢◌, ◌⊎◌, refl, ap, ◌∙◌, inl, inr, false, Option, none, some, List, [],
  ◌∷◌, ◌++◌, arith, ◌==◌, ==_iff, ==_refl, has, if◌then◌else◌, Bool-cases,
}
use mit6_828_lab.Pmap.Kernel.{
  PageInfo, Kernel, ◌>>=◌, ok, panic, page_in_use, set_page, with_link, zeroed, kva_of,
  page2kva_lem,
}
use mit6_828_lab.Pmap.Alloc.{take_page, page_alloc, page_free}

-- From `p` the links lead through exactly the pages of the list, each once; all are pages of the
-- machine and unreferenced.
abbrev pub FreeFrom : (ℕ → PageInfo) → ℕ → Option ℕ → List ℕ → Type 0
FreeFrom pages n p [] = p ≡ none
FreeFrom pages n p (x ∷ xs) =
    (p ≡ some x)
    × (x < n)
    × ((pages x).pp_ref ≡ 0)
    × (has x xs ≡ false)
    × FreeFrom pages n (pages x).pp_link xs

-- The pool of free pages. `small` is the kernel's limit of 256 MB, so that KADDR does not wrap.
pub record IsPool (s : Kernel) (xs : List ℕ) : Type 0 where
  pub chain : FreeFrom s.pages s.npages s.page_free_list xs
  pub used_unlinked : (i : ℕ) → has i xs ≡ false → (s.pages i).pp_link ≡ none
  pub small : s.npages ≤ 2 ^ 16

-- A write to a page off the list leaves the list as it is.
pub FreeFrom-set_page :
    (pages : ℕ → PageInfo) (n : ℕ) (p : Option ℕ) (xs : List ℕ) (i : ℕ) (v : PageInfo)
    → has i xs ≡ false
    → FreeFrom pages n p xs
    → FreeFrom (set_page i v pages) n p xs
FreeFrom-set_page pages n p [] i v out c = c
FreeFrom-set_page pages n p (x ∷ xs) i v out c =
    let keep : FreeFrom (set_page i v pages) n (pages x).pp_link xs =
      FreeFrom-set_page pages n (pages x).pp_link xs i v (ground arith) c.4 in
    let other : (i == x) ≡ false = ground arith in rw other (c.0, c.1, c.2, c.3, keep)

abbrev unlinked : ℕ → Kernel → Kernel
unlinked x s = record s {
  page_free_list = (s.pages x).pp_link;
  pages = set_page x (with_link none (s.pages x)) s.pages;
}

-- The state after page `x` is taken off the list.
abbrev pub taken : ℕ → ℕ → Kernel → Kernel
taken flags x s = record s {
  page_free_list = (s.pages x).pp_link;
  pages = set_page x (with_link none (s.pages x)) s.pages;
  mem = if flags == 0 then s.mem else zeroed (kva_of x) s.mem;
}

pub take_page_lem :
    (flags x : ℕ) (s : Kernel)
    → x < s.npages
    → s.npages ≤ 2 ^ 16
    → take_page flags x s ≡ ok (some x) (taken flags x s)
unfolding take_page
take_page_lem flags x s h small = elim (Bool-cases (flags == 0)) [
  | inl none_set ↦ rw none_set
  | inr set ↦ rw set (ground (arith, page2kva_lem x (unlinked x s) h small))
]

pub page_alloc-cons :
    (flags x : ℕ) (xs : List ℕ) (s : Kernel)
    → IsPool s (x ∷ xs)
    → (page_alloc flags s ≡ ok (some x) (taken flags x s)) × IsPool (taken flags x s) xs
unfolding page_alloc
page_alloc-cons flags x xs s pool = (
  rw pool.chain.0 (take_page_lem flags x s pool.chain.1 pool.small),
  record {
    chain = FreeFrom-set_page s.pages s.npages (s.pages x).pp_link xs x _ pool.chain.3 pool.chain.4;
    used_unlinked = λ i out. ground (arith, pool.used_unlinked i);
    small = pool.small;
  },
)

pub page_alloc-nil : (flags : ℕ) (s : Kernel) → IsPool s [] → page_alloc flags s ≡ ok none s
unfolding page_alloc
page_alloc-nil flags s pool = rw pool.chain

-- What a call of page_alloc does to a pool: nothing to an empty one, and otherwise it hands out the
-- head.
abbrev pub Allocates : ℕ → List ℕ → Kernel → Type 0
Allocates flags [] s = page_alloc flags s ≡ ok none s
Allocates flags (x ∷ xs) s =
    (page_alloc flags s ≡ ok (some x) (taken flags x s)) × IsPool (taken flags x s) xs

-- page_alloc gives NULL and changes nothing if the pool is empty; otherwise it gives the pool's head
-- and leaves the rest as the pool: the page is unlinked, its reference count and every other
-- page stay, and its memory is cleared if any flag is set and kept if none is.
pub page_alloc-Allocates :
    (flags : ℕ) (xs : List ℕ) (s : Kernel) → IsPool s xs → Allocates flags xs s
page_alloc-Allocates flags [] s pool = page_alloc-nil flags s pool
page_alloc-Allocates flags (x ∷ xs) s pool = page_alloc-cons flags x xs s pool

-- What `page_free` leaves behind.
abbrev pub freed : ℕ → Kernel → Kernel
freed pp s = record s {
  page_free_list = some pp;
  pages = set_page pp (with_link s.page_free_list (s.pages pp)) s.pages;
}

pub page_free-eq-freed :
    (pp : ℕ) (s : Kernel)
    → (s.pages pp).pp_ref ≡ 0
    → (s.pages pp).pp_link ≡ none
    → page_free pp s ≡ ok tt (freed pp s)
unfolding page_free
page_free-eq-freed pp s unref unlinked = ground arith

pub freed-IsPool :
    (pp : ℕ) (xs : List ℕ) (s : Kernel)
    → IsPool s xs
    → has pp xs ≡ false
    → pp < s.npages
    → (s.pages pp).pp_ref ≡ 0
    → IsPool (freed pp s) (pp ∷ xs)
freed-IsPool pp xs s pool out lt unref = record {
  chain = (
    refl,
    lt,
    ground arith,
    out,
    rw (==_refl pp) (FreeFrom-set_page s.pages s.npages s.page_free_list xs pp _ out pool.chain),
  );
  used_unlinked = λ i out'. ground (arith, pool.used_unlinked i);
  small = pool.small;
}

-- page_free puts an unreferenced page that is not in the pool at the pool's head and changes no
-- other page. On a page that is still referenced or linked it panics.
pub page_free-IsPool :
    (pp : ℕ) (xs : List ℕ) (s t : Kernel)
    → IsPool s xs
    → has pp xs ≡ false
    → pp < s.npages
    → (s.pages pp).pp_ref ≡ 0
    → ((t.pages pp).pp_ref ≢ 0) ⊎ ((t.pages pp).pp_link ≢ none)
    → (page_free pp s ≡ ok tt (freed pp s))
      × IsPool (freed pp s) (pp ∷ xs)
      × (page_free pp t ≡ panic page_in_use)
unfolding page_free
page_free-IsPool pp xs s t pool out lt unref held = (
  page_free-eq-freed pp s unref (pool.used_unlinked pp out),
  freed-IsPool pp xs s pool out lt unref,
  ground arith,
)

FreeFrom-last :
    (pages : ℕ → PageInfo) (n : ℕ) (p : Option ℕ) (ys : List ℕ) (x : ℕ)
    → FreeFrom pages n p (ys ++ x ∷ [])
    → ((pages x).pp_link ≡ none) × ((pages x).pp_ref ≡ 0) × (x < n)
FreeFrom-last pages n p [] x c = (c.4, c.2, c.1)
FreeFrom-last pages n p (y ∷ ys) x c = FreeFrom-last pages n (pages y).pp_link ys x c.4

unlink_again :
    (x : ℕ) (l : Option ℕ) (pages : ℕ → PageInfo) (j : ℕ)
    → (pages x).pp_link ≡ none
    → set_page x
        (with_link none (with_link l (pages x)))
        (set_page x (with_link l (pages x)) pages)
        j
      ≡ pages j
unlink_again x l pages j e = elim (Bool-cases (x == j)) [
  | inl here ↦ let at : x ≡ j = (==_iff x j).0 here in rw here (ground (arith, ap pages at))
  | inr away ↦ rw away
]

-- The test `pp_link == NULL` does not see a double free of the last free page: `page_free` accepts
-- it, and the next `page_alloc` hands it out and restores the very state in which it was free.
pub page_free_twice :
    (ys : List ℕ) (x : ℕ) (s : Kernel)
    → IsPool s (ys ++ x ∷ [])
    → (page_free x >>= λ _. page_alloc 0) s ≡ ok (some x) s
unfolding page_alloc
page_free_twice ys x s pool =
    let last : _ = FreeFrom-last s.pages s.npages s.page_free_list ys x pool.chain in
    let pages_back : set_page x
          (with_link none (set_page x (with_link s.page_free_list (s.pages x)) s.pages x))
          (set_page x (with_link s.page_free_list (s.pages x)) s.pages)
        ≡ s.pages =
      fun_ext λ j. rw (==_refl x) (unlink_again x s.page_free_list s.pages j last.0) in
    let list_back : (set_page x (with_link s.page_free_list (s.pages x)) s.pages x).pp_link
        ≡ s.page_free_list =
      rw (==_refl x) in
    let restored : taken 0 x (freed x s) ≡ s =
      λ i. record s { pages = pages_back i; page_free_list = list_back i } in
    rw (page_free-eq-freed x s last.1 last.0, ◌>>=◌)
      (take_page_lem 0 x (freed x s) last.2 pool.small ∙ ap (ok (some x)) restored)
