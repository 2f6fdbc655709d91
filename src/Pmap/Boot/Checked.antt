-- ===== src/Pmap/Boot/Checked.antt =====
-- page_init, and the two checks of the allocator that mem_init runs on what it leaves.
use mathlib.Core.Path.{subst}
use mit6_828_lab.Base.{
  ℕ, zero, suc, ◌+◌, ◌-◌, ◌*◌, ◌/◌, ◌%◌, ◌^◌, ◌≤◌, ◌<◌, ◌≡◌, ◌≢◌, refl, sym, ◌∙◌, inl, inr, true,
  false, none, List, [], ◌∷◌, arith, ◌==◌, ==_iff, Bool-cases, lt_or_ge, length,
}
use mit6_828_lab.Mmu.Macros.{kernbase, extphysmem}
use mit6_828_lab.Pmap.Kernel.{Kernel, ok, ◌>>=◌, ◌>>◌}
use mit6_828_lab.Pmap.Alloc.Pool.{IsPool}
use mit6_828_lab.Pmap.Alloc.Order.Segment.{count}
use mit6_828_lab.Pmap.Alloc.Order.Sorted.{length-parts}
use mit6_828_lab.Pmap.Alloc.Check.{check_page_alloc}
use mit6_828_lab.Pmap.Alloc.Check.Passes.{check_page_alloc-Restored}
use mit6_828_lab.Pmap.Boot.{page_init}
use mit6_828_lab.Pmap.Boot.Init.{is_free, free_pages, page_init-Pool}
use mit6_828_lab.Pmap.Boot.FreeList.{check_page_free_list}
use mit6_828_lab.Pmap.Boot.FreeList.Passes.{IsBootList, ordered, check_page_free_list-passes}

free_pages-free :
    (first n : ℕ) → is_free first n ≡ true → free_pages first (suc n) ≡ n ∷ free_pages first n
unfolding free_pages
free_pages-free first n free = rw free refl

free_pages-used :
    (first n : ℕ) → is_free first n ≡ false → free_pages first (suc n) ≡ free_pages first n
unfolding free_pages
free_pages-used first n used = rw used refl

-- The list has just the free pages below `n`.
free_pages-on : (first i n : ℕ) → i < n → is_free first i ≡ true → 1 ≤ count i (free_pages first n)
free_pages-on first i zero lt free = absurd (omega arith)
free_pages-on first i (suc n) lt free = elim (Bool-cases (is_free first n)) [
  | inl here_free ↦ rw (free_pages-free first n here_free) (ground (arith, free_pages-on first i n))
  | inr used ↦
      let ne : n ≢ i =
        λ e. let here : is_free first n ≡ true = rw e free in absurd (ground (arith, used, here)) in
      rw (free_pages-used first n used) (free_pages-on first i n (omega (arith, ne)) free)
]

free_pages-off :
    (first i n : ℕ) → 1 ≤ count i (free_pages first n) → (is_free first i ≡ true) × (i < n)
unfolding free_pages
free_pages-off first i zero on = absurd (omega arith)
free_pages-off first i (suc n) on = elim (Bool-cases (is_free first n)) [
  | inr used ↦
      let (free, lt) =
        free_pages-off first i n (subst (λ xs. 1 ≤ count i xs) (free_pages-used first n used) on) in
      (free, omega arith)
  | inl here_free ↦
      let on' = subst (λ xs. 1 ≤ count i xs) (free_pages-free first n here_free) on in
      elim (Bool-cases (n == i)) [
        | inl here ↦ let at : n ≡ i = (==_iff n i).0 here in (rw (← at) here_free, omega arith)
        | inr away ↦
            let (free, lt) = free_pages-off first i n (ground (arith, on')) in (free, omega arith)
      ]
]

length-free_pages : (first n : ℕ) → length (free_pages first n) ≤ n
unfolding free_pages
length-free_pages first zero = omega arith
length-free_pages first (suc n) = elim (Bool-cases (is_free first n)) [
  | inl free ↦ rw free (omega (arith, length-free_pages first n))
  | inr used ↦ rw used (omega (arith, length-free_pages first n))
]

length_three : (first n : ℕ) → 4 ≤ n → 3 ≤ length (free_pages first n)
unfolding free_pages
length_three first zero le = absurd (omega arith)
length_three first (suc n) le = elim (Bool-cases (n == 3)) [
  | inl last ↦ let at : n ≡ 3 = (==_iff n 3).0 last in rw at (omega arith)
  | inr more ↦
      let rest = length_three first n (ground arith) in
      elim (Bool-cases (is_free first n)) [ inl f ↦ rw f (omega arith) | inr u ↦ rw u rest ]
]

three_of :
    (xs : List ℕ)
    → 3 ≤ length xs
    → (x : ℕ) × (y : ℕ) × (z : ℕ) × (rest : List ℕ) × (xs ≡ x ∷ y ∷ z ∷ rest)
three_of [] le = absurd (omega arith)
three_of (x ∷ []) le = absurd (omega arith)
three_of (x ∷ y ∷ []) le = absurd (omega arith)
three_of (x ∷ y ∷ z ∷ rest) le = (x, y, z, rest, refl)

module _ (first n : ℕ) (ext : extphysmem ≤ first) (room : first + 2 * 4096 ≤ n * 4096)
    (small : n ≤ 2 ^ 16) where
  next_free : is_free first (first / 4096 + 1) ≡ true
  next_free =
      let pa : (first / 4096 + 1) * 4096 % 2 ^ 32 ≡ (first / 4096 + 1) * 4096 = omega arith in
      rw pa (ground arith)

  free_pages-IsBootList : IsBootList (first + kernbase) (free_pages first n) 1 (first / 4096 + 1)
  free_pages-IsBootList = record {
    may_be_free = λ k on.
        let (free, lt) = free_pages-off first k n on in
        let pa : k * 4096 % 2 ^ 32 ≡ k * 4096 = omega arith in
        record {
          not_first = λ e. absurd (ground (arith, free));
          not_io = λ e. absurd (ground (arith, free));
          not_last_io = λ e. absurd (ground (arith, free));
          not_ext = λ e. absurd (ground (arith, free));
          behind = elim (lt_or_ge k 256) [
            | inl low ↦ inl low
            | inr high ↦ inr (ground (arith, free))
          ];
        };
    base = (free_pages-on first 1 n (omega arith) refl, omega arith);
    ext = (free_pages-on first (first / 4096 + 1) n (omega arith) next_free, omega arith);
  }

pub check_page_alloc-page_init :
    (fuel end pages : ℕ) (s : Kernel)
    → ((i : ℕ) → (s.pages i).pp_link ≡ none)
    → s.npages ≤ 2 ^ 16
    → s.nextfree % 4096 ≡ 0
    → kernbase + extphysmem ≤ s.nextfree
    → s.nextfree + 2 * 4096 ≤ kernbase + s.npages * 4096
    → s.npages < fuel
    → pages ≢ 0
    → (s' : Kernel) × ((page_init end
            >> check_page_free_list fuel end true
            >> check_page_alloc fuel pages)
          s
        ≡ ok tt s')
      × IsPool s' (ordered true (free_pages (s.nextfree - kernbase) s.npages))
check_page_alloc-page_init fuel end pages s unlinked small aligned behind room enough nonzero =
    let first : ℕ = s.nextfree - kernbase in
    let xs : List ℕ = free_pages first s.npages in
    let (s1, run1, pool1, same, next) = page_init-Pool end s unlinked small (omega arith) in
    let next1 : s1.nextfree ≡ first + kernbase = next ∙ omega arith in
    let fits : length xs < fuel = omega (arith, length-free_pages first s.npages) in
    let boot : IsBootList s1.nextfree xs 1 (first / 4096 + 1) =
      rw next1 (free_pages-IsBootList first s.npages (omega arith) (omega arith) small) in
    let (s2, run2, pool2, refs) =
      check_page_free_list-passes fuel end 1 (first / 4096 + 1) true xs s1 pool1 fits
        (rw next1 (omega arith)) boot in
    let count : length (ordered true xs) ≡ length xs = length-parts 1 xs in
    let (x, y, z, rest, e) =
      three_of (ordered true xs)
        (omega (arith, count, length_three first s.npages (omega arith))) in
    let pool3 : IsPool s2 (x ∷ y ∷ z ∷ rest) = subst (λ ys. IsPool s2 ys) e pool2 in
    let fits3 : length (x ∷ y ∷ z ∷ rest) < fuel =
      subst (λ ys. length ys < fuel) e (omega (arith, count, fits)) in
    let (s3, run3, restored) =
      check_page_alloc-Restored fuel pages x y z rest s2 nonzero pool3 fits3 in
    (s3, rw (◌>>◌, ◌>>=◌, run1, run2) run3, subst (λ ys. IsPool s3 ys) (sym e) restored.pool)
