-- ===== src/Pmap/Alloc/Decref.antt =====
-- page_decref: the reference count goes down by one, and the last reference frees the page.
use mit6_828_lab.Base.{
  ℕ, ◌+◌, ◌-◌, ◌%◌, ◌^◌, ◌<◌, ◌≡◌, ◌≢◌, refl, ◌∙◌, inl, inr, false, List, ◌∷◌, arith, ◌==◌, has,
  if◌then◌else◌, Bool-cases,
}
use mit6_828_lab.Pmap.Kernel.{Kernel, ok, set_page, with_ref}
use mit6_828_lab.Pmap.Alloc.{page_free, page_decref}
use mit6_828_lab.Pmap.Alloc.Pool.{
  IsPool, FreeFrom-set_page, freed, page_free-eq-freed, freed-IsPool,
}

abbrev pub ref : Kernel → ℕ → ℕ
ref s j = (s.pages j).pp_ref

-- How one page's count changes and all else stays.
pub record Dropped (s s' : Kernel) (q : ℕ) : Type 0 where
  pub ref_q : ref s' q + 1 ≡ ref s q
  pub ref_other : (j : ℕ) → j ≢ q → ref s' j ≡ ref s j
  pub same_mem : s'.mem ≡ s.mem
  pub same_invalidated : s'.invalidated ≡ s.invalidated
  pub same_npages : s'.npages ≡ s.npages

abbrev lowered : ℕ → Kernel → Kernel
lowered q s = record s { pages = set_page q (with_ref (ref s q - 1) (s.pages q)) s.pages }

lowered-IsPool :
    (q : ℕ) (xs : List ℕ) (s : Kernel) → IsPool s xs → has q xs ≡ false → IsPool (lowered q s) xs
lowered-IsPool q xs s pool out = record {
  chain = FreeFrom-set_page s.pages s.npages s.page_free_list xs q _ out pool.chain;
  used_unlinked = λ i out'. ground (arith, pool.used_unlinked i);
  small = pool.small;
}

page_decref-eq :
    (q : ℕ) (s : Kernel)
    → 0 < ref s q
    → ref s q < 2 ^ 16
    → page_decref q s ≡ (if ref s q == 1 then page_free q (lowered q s) else ok tt (lowered q s))
unfolding page_decref
page_decref-eq q s pos small =
    let n : (ref s q + 2 ^ 16 - 1) % 2 ^ 16 ≡ ref s q - 1 = omega arith in rw n (ground arith)

-- The pool after the count of `q` fell: `q` joins it if that was the last reference.
abbrev pub pool_after : ℕ → ℕ → List ℕ → List ℕ
pool_after n q xs = if n == 1 then q ∷ xs else xs

dropped : (q : ℕ) (s : Kernel) → 0 < ref s q → Dropped s (lowered q s) q
dropped q s pos = record {
  ref_q = ground arith;
  ref_other = λ j ne. ground arith;
  same_mem = refl;
  same_invalidated = refl;
  same_npages = refl;
}

Dropped-freed : (q : ℕ) (s : Kernel) → 0 < ref s q → Dropped s (freed q (lowered q s)) q
Dropped-freed q s pos = record {
  ref_q = ground arith;
  ref_other = λ j ne. ground arith;
  same_mem = refl;
  same_invalidated = refl;
  same_npages = refl;
}

-- page_decref on a page in use lowers its count by one and changes no other count and no memory, invalidates no translation; the page
-- joins the pool, at its head, exactly if the count was 1.
pub page_decref-Dropped :
    (q : ℕ) (xs : List ℕ) (s : Kernel)
    → IsPool s xs
    → has q xs ≡ false
    → q < s.npages
    → 0 < ref s q
    → ref s q < 2 ^ 16
    → (s' : Kernel) × (page_decref q s ≡ ok tt s')
      × IsPool s' (pool_after (ref s q) q xs)
      × Dropped s s' q
page_decref-Dropped q xs s pool out lt pos small =
    let low : IsPool (lowered q s) xs = lowered-IsPool q xs s pool out in
    elim (Bool-cases (ref s q == 1)) [
      | inl last ↦
          let zero_left : ref (lowered q s) q ≡ 0 = ground arith in
          (
            freed q (lowered q s),
            page_decref-eq q s pos small
                ∙ rw last (page_free-eq-freed q (lowered q s) zero_left (low.used_unlinked q out)),
            rw last (freed-IsPool q xs (lowered q s) low out lt zero_left),
            Dropped-freed q s pos,
          )
      | inr more ↦
          (lowered q s, page_decref-eq q s pos small ∙ rw more, rw more low, dropped q s pos)
    ]
