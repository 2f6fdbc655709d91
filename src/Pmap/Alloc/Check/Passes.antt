-- ===== src/Pmap/Alloc/Check/Passes.antt =====
-- The boot test of the page allocator passes.
use mit6_828_lab.Base.{
  ℕ, ◌+◌, ◌^◌, ◌≤◌, ◌<◌, ◌≡◌, ◌≢◌, ◌⊎◌, refl, sym, ◌∙◌, false, Option, none, some, List, ◌∷◌, ◌==◌,
  ==_refl, arith, length,
}
use mit6_828_lab.Pmap.Kernel.{Kernel, ok, ◌>>=◌, kva_of}
use mit6_828_lab.Pmap.Alloc.Pool.{IsPool}
use mit6_828_lab.Pmap.Alloc.Decref.{ref}
use mit6_828_lab.Pmap.Alloc.Check.{check_page_alloc, in_memory}
use mit6_828_lab.Pmap.Alloc.Check.View.{link, ThreePages, View, flip-ThreePages, flip}
use mit6_828_lab.Pmap.Alloc.Check.Steps.{
  count_free-length, FreeFrom-same, alloc_fails-empty, in_memory_lem, alloc_three_lem,
  free_three_lem, tested, test_flags_lem,
}

-- The three pages at the head of a pool.
pool-ThreePages :
    (s : Kernel) (x y z : ℕ) (xs : List ℕ) → IsPool s (x ∷ y ∷ z ∷ xs) → ThreePages s x y z
pool-ThreePages s x y z xs pool =
    let c = pool.chain in
    record {
      different =
          (λ e. ground (arith, c.3, e), λ e. ground (arith, c.3, e), λ e. ground (arith, c.4.3, e));
      in_range = (c.1, c.4.1, c.4.4.1);
      unreferenced = (c.2, c.4.2, c.4.4.2);
      small = pool.small;
    }

pool-View :
    (s : Kernel) (x y z : ℕ) (xs : List ℕ)
    → IsPool s (x ∷ y ∷ z ∷ xs)
    → View s s x y z (some y) (some z) (link s z) (some x) s.mem
pool-View s x y z xs pool = record {
  link_x = pool.chain.4.0;
  link_y = pool.chain.4.4.0;
  link_z = refl;
  link_other = λ i a b c. refl;
  same_ref = λ i. refl;
  same_npages = refl;
  free_list = pool.chain.0;
  mem = refl;
}

-- Writing the head of the free list.
View-head :
    (s s' : Kernel) (x y z : ℕ) (lx ly lz head head' : Option ℕ) (m : ℕ → ℕ)
    → View s s' x y z lx ly lz head m
    → View s (record s' { page_free_list = head' }) x y z lx ly lz head' m
View-head s s' x y z lx ly lz head head' m v = record {
  link_x = v.link_x;
  link_y = v.link_y;
  link_z = v.link_z;
  link_other = v.link_other;
  same_ref = v.same_ref;
  same_npages = v.same_npages;
  free_list = refl;
  mem = v.mem;
}

-- What the test leaves as it was: the free list, every page, and the memory but for page `z`.
pub record Restored (s s' : Kernel) (z : ℕ) (xs : List ℕ) : Type 0 where
  pub same_link : (i : ℕ) → link s' i ≡ link s i
  pub same_ref : (i : ℕ) → ref s' i ≡ ref s i
  pub same_list : s'.page_free_list ≡ s.page_free_list
  pub pool : IsPool s' xs
  pub same_mem : (a : ℕ) → (a < kva_of z) ⊎ (kva_of z + 4096 ≤ a) → s'.mem a ≡ s.mem a

View-Restored :
    (s s' : Kernel) (x y z : ℕ) (xs : List ℕ)
    → IsPool s (x ∷ y ∷ z ∷ xs)
    → View s s' x y z (some y) (some z) (link s z) (some x) (tested z s.mem)
    → Restored s s' z (x ∷ y ∷ z ∷ xs)
View-Restored s s' x y z xs pool v =
    let links : (i : ℕ) → link s' i ≡ link s i = λ i.
      ground
        (arith, v.link_x, v.link_y, v.link_z, v.link_other i, pool.chain.4.0, pool.chain.4.4.0) in
    let same : s'.page_free_list ≡ s.page_free_list = v.free_list ∙ sym pool.chain.0 in
    record {
      same_link = links;
      same_ref = v.same_ref;
      same_list = same;
      pool = record {
        chain = rw same (
            FreeFrom-same s s' s.npages s'.npages s.page_free_list (x ∷ y ∷ z ∷ xs) v.same_npages
              links v.same_ref pool.chain);
        used_unlinked = λ i out. links i ∙ pool.used_unlinked i out;
        small = rw v.same_npages pool.small;
      };
      same_mem = λ a away. rw v.mem (ground (arith, away));
    }

in_memory-three :
    (s s' : Kernel) (x y z : ℕ)
    → ThreePages s x y z
    → s'.npages ≡ s.npages
    → (in_memory x s' ≡ ok tt s') × (in_memory y s' ≡ ok tt s') × (in_memory z s' ≡ ok tt s')
in_memory-three s s' x y z t same =
    let fits : s'.npages ≤ 2 ^ 16 = rw same t.small in
    (
      in_memory_lem s' x (rw same t.in_range.0) fits,
      in_memory_lem s' y (rw same t.in_range.1) fits,
      in_memory_lem s' z (rw same t.in_range.2) fits,
    )

-- On every pool of at least three pages check_page_alloc returns, if the array has an address other than 0 and the fuel exceeds
-- the pool: no assertion fails and nothing panics. It leaves the free list, every link and every reference count as they were, and all memory but that of the third page.
pub check_page_alloc-Restored :
    (fuel pages x y z : ℕ) (xs : List ℕ) (s : Kernel)
    → pages ≢ 0
    → IsPool s (x ∷ y ∷ z ∷ xs)
    → length (x ∷ y ∷ z ∷ xs) < fuel
    → (s' : Kernel) × (check_page_alloc fuel pages s ≡ ok tt s') × Restored s s' z (x ∷ y ∷ z ∷ xs)
unfolding check_page_alloc
check_page_alloc-Restored fuel pages x y z xs s nonzero pool enough =
    let three = pool-ThreePages s x y z xs pool in
    let back = flip-ThreePages s x y z three in
    let h = link s z in
    let m' = tested z s.mem in
    let (s1, run1, v1) = alloc_three_lem s s x y z h s.mem three (pool-View s x y z xs pool) in
    let ranges = in_memory-three s s1 x y z three v1.same_npages in
    let e1 = record s1 { page_free_list = none } in
    let v1' = View-head s s1 x y z none none none h none s.mem v1 in
    let (s2, run2, v2) = free_three_lem s e1 x y z none s.mem three v1' in
    let (s3, run3, v3) =
      alloc_three_lem s s2 z y x none s.mem back
        (flip s s2 x y z none (some x) (some y) (some z) s.mem v2) in
    let (s4, run4, v4) = test_flags_lem s s3 z y x none none s.mem back v3 in
    let v4' = View-head s s4 z y x none none none none h m' v4 in
    let (s5, run5, v5) = free_three_lem s (record s4 { page_free_list = h }) z y x h m' back v4' in
    let restored =
      View-Restored s s5 x y z xs pool (flip s s5 z y x h (some z) (some y) (some x) m' v5) in
    let count1 =
      count_free-length fuel s.page_free_list (x ∷ y ∷ z ∷ xs) s.npages 0 s pool.chain enough in
    let count2 =
      count_free-length fuel s5.page_free_list (x ∷ y ∷ z ∷ xs) s5.npages 0 s5 restored.pool.chain
        enough in
    let proper : (pages == 0) ≡ false = ground arith in
    (
      s5,
      rw
          (
            proper,
            count1,
            ◌>>=◌,
            run1,
            ranges.0,
            ranges.1,
            ranges.2,
            alloc_fails-empty e1 refl,
            run2,
            run3,
            alloc_fails-empty s3 v3.free_list,
            run4,
            v1.free_list,
            run5,
            count2,
            ==_refl (0 + length (x ∷ y ∷ z ∷ xs)),
          )
          refl,
      restored,
    )
