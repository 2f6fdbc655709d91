-- ===== src/Pmap/Table/Remove.antt =====
-- page_remove and page_insert: the entry, the reference counts, the pool, and what check_va2pa sees.
use mit6_828_lab.Base.{
  ℕ, ◌+◌, ◌*◌, ◌/◌, ◌^◌, ◌≤◌, ◌<◌, ◌≡◌, ◌≢◌, ap, ◌∙◌, false, some, List, ◌∷◌, arith, ◌==◌, has,
  if◌then◌else◌, ==_refl, bit_and,
}
use mit6_828_lab.Mmu.Macros.{pgnum, pte_addr, pte_p}
use mit6_828_lab.Pmap.Kernel.{Kernel, ok, ◌>>=◌, kva_of, kaddr_lem, pa2page_lem}
use mit6_828_lab.Pmap.Alloc.{page_decref}
use mit6_828_lab.Pmap.Alloc.Pool.{IsPool}
use mit6_828_lab.Pmap.Alloc.Decref.{ref, Dropped, pool_after, page_decref-Dropped}
use mit6_828_lab.Pmap.Table.{
  pde_ptr, pte_ptr, page_lookup, page_remove, check_va2pa, no_pa, tlb_invalidate,
}
use mit6_828_lab.Pmap.Table.Entry.{present_test}
use mit6_828_lab.Pmap.Table.Walk.{pde, HasTable, pgdir_walk-HasTable}

-- The table entry of `va` in the table on page `t`.
abbrev pub pte : Kernel → ℕ → ℕ → ℕ
pte s t va = s.mem (pte_ptr (kva_of t) va)

module _ (d va t : ℕ) where
  -- With a table, page_lookup gives the page that the entry's address names, present or not.
  pub page_lookup-HasTable :
      (s : Kernel)
      → HasTable s d va t
      → s.npages ≤ 2 ^ 16
      → pte s t va / 2 ^ 12 < s.npages
      → page_lookup (kva_of d) va s ≡ ok (some (pte s t va / 2 ^ 12, pte_ptr (kva_of t) va)) s
  unfolding page_lookup
  page_lookup-HasTable s h small lt =
      let page : pgnum (pte_addr (pte s t va)) ≡ pte s t va / 2 ^ 12 = omega arith in
      rw (
        pgdir_walk-HasTable d va t false s h small,
        ◌>>=◌,
        pa2page_lem (pte_addr (pte s t va)) s (rw page lt),
        page,
      )

  -- The state after the entry is cleared and its translation invalidated.
  abbrev pub cleared : Kernel → Kernel
  cleared s = record s {
    mem = λ a. if pte_ptr (kva_of t) va == a then 0 else s.mem a;
    invalidated = va ∷ s.invalidated;
  }

  pub page_remove-eq :
      (s u : Kernel) (q : ℕ)
      → HasTable s d va t
      → s.npages ≤ 2 ^ 16
      → pte s t va / 2 ^ 12 ≡ q
      → q < s.npages
      → page_decref q s ≡ ok tt u
      → page_remove (kva_of d) va s ≡ ok tt (cleared u)
  unfolding page_remove tlb_invalidate
  page_remove-eq s u q h small at lt dec =
      rw (page_lookup-HasTable s h small (rw at lt), ◌>>=◌, at, dec)

  -- The entry lies on page `t`, the directory's entry on page `d`.
  pub entries_apart : t ≢ d → pde_ptr (kva_of d) va ≢ pte_ptr (kva_of t) va
  entries_apart apart = omega arith

  pub check_va2pa-HasTable :
      (s : Kernel)
      → HasTable s d va t
      → s.npages ≤ 2 ^ 16
      → check_va2pa (kva_of d) va s
        ≡ ok (if bit_and (pte s t va) pte_p == 0 then no_pa else pte_addr (pte s t va)) s
  unfolding check_va2pa
  check_va2pa-HasTable s h small =
      let addr : pte_addr (pde s d va) ≡ t * 4096 = omega (arith, h) in
      let page : t * 4096 / 2 ^ 12 ≡ t = omega arith in
      rw (
        present_test (pde s d va) h.present,
        addr,
        kaddr_lem (t * 4096) s (rw page h.in_range) small,
        ◌>>=◌,
      )

-- What changes when the mapping of `va` in table page `t` is dropped: its entry becomes 0, the translation of `va` is
-- invalidated and no other, the count of page `q` falls by one, and no other word and no other count changes.
pub record Unmapped (s s' : Kernel) (va t q : ℕ) : Type 0 where
  pub entry : pte s' t va ≡ 0
  pub elsewhere : (a : ℕ) → a ≢ pte_ptr (kva_of t) va → s'.mem a ≡ s.mem a
  pub ref_q : ref s' q + 1 ≡ ref s q
  pub ref_other : (j : ℕ) → j ≢ q → ref s' j ≡ ref s j
  pub invalidated : s'.invalidated ≡ va ∷ s.invalidated
  pub same_npages : s'.npages ≡ s.npages

module _ (d va t q : ℕ) (s u : Kernel) (h : HasTable s d va t) (dec : Dropped s u q) where
  cleared-Unmapped : Unmapped s (cleared d va t u) va t q
  cleared-Unmapped = record {
    entry = rw (==_refl (pte_ptr (kva_of t) va));
    elsewhere = λ a ne. ground (arith, ap (λ (m : ℕ → ℕ). m a) dec.same_mem);
    ref_q = dec.ref_q;
    ref_other = dec.ref_other;
    invalidated = ap (λ l. va ∷ l) dec.same_invalidated;
    same_npages = dec.same_npages;
  }

  cleared-HasTable : HasTable (cleared d va t u) d va t
  cleared-HasTable =
      let same : pde (cleared d va t u) d va ≡ pde s d va = ground (
        arith,
        entries_apart d va t h.apart,
        ap (λ (m : ℕ → ℕ). m (pde_ptr (kva_of d) va)) dec.same_mem,
      ) in
      record {
        present = rw same h.present;
        table = rw same h.table;
        in_range = rw dec.same_npages h.in_range;
        apart = h.apart;
      }

IsPool-cleared :
    (d va t : ℕ) (xs : List ℕ) (u : Kernel) → IsPool u xs → IsPool (cleared d va t u) xs
IsPool-cleared d va t xs u p = record {
  chain = p.chain;
  used_unlinked = p.used_unlinked;
  small = p.small;
}

-- page_remove where the entry of `va` names page `q` in use: the entry becomes 0 and the address
-- unmapped, the count of `q` falls by one and `q` joins the pool exactly if it was 1, the
-- translation of `va` is invalidated, and no other; and nothing else of memory or of the counts changes.
pub page_remove-Unmapped :
    (d va t q : ℕ) (xs : List ℕ) (s : Kernel)
    → HasTable s d va t
    → IsPool s xs
    → pte s t va / 2 ^ 12 ≡ q
    → q < s.npages
    → has q xs ≡ false
    → 0 < ref s q
    → ref s q < 2 ^ 16
    → (s' : Kernel) × (page_remove (kva_of d) va s ≡ ok tt s')
      × Unmapped s s' va t q
      × IsPool s' (pool_after (ref s q) q xs)
      × HasTable s' d va t
      × (check_va2pa (kva_of d) va s' ≡ ok no_pa s')
page_remove-Unmapped d va t q xs s h pool at lt out pos small =
    let (u, ran, pool', dec) = page_decref-Dropped q xs s pool out lt pos small in
    let h' : HasTable (cleared d va t u) d va t = cleared-HasTable d va t q s u h dec in
    let gone : pte (cleared d va t u) t va ≡ 0 = (cleared-Unmapped d va t q s u h dec).entry in
    (
      cleared d va t u,
      page_remove-eq d va t s u q h pool.small at lt ran,
      cleared-Unmapped d va t q s u h dec,
      IsPool-cleared d va t (pool_after (ref s q) q xs) u pool',
      h',
      check_va2pa-HasTable d va t (cleared d va t u) h' (rw dec.same_npages pool.small)
          ∙ rw (==_refl (pte_ptr (kva_of t) va)),
    )

-- Where a table exists but `va` is not mapped, page_lookup gives page 0 and not NULL.
-- page_remove then takes a reference from page 0: with the count 1 that page_init gave it, page 0
-- joins the pool of free pages.
pub page_remove-page_zero :
    (d va t : ℕ) (xs : List ℕ) (s : Kernel)
    → HasTable s d va t
    → IsPool s xs
    → pte s t va ≡ 0
    → has 0 xs ≡ false
    → ref s 0 ≡ 1
    → (page_lookup (kva_of d) va s ≡ ok (some (0, pte_ptr (kva_of t) va)) s)
      × (s' : Kernel) × (page_remove (kva_of d) va s ≡ ok tt s')
      × IsPool s' (0 ∷ xs)
page_remove-page_zero d va t xs s h pool zero_entry out one =
    let at : pte s t va / 2 ^ 12 ≡ 0 = omega arith in
    let some_page : 0 < s.npages = omega (arith, h.in_range) in
    let (u, ran, pool', dec) =
      page_decref-Dropped 0 xs s pool out some_page (omega arith) (omega arith) in
    let freed_zero : IsPool u (0 ∷ xs) = rw one at pool' in
    (
      page_lookup-HasTable d va t s h pool.small (rw at some_page) ∙ rw at,
      cleared d va t u,
      page_remove-eq d va t s u 0 h pool.small at some_page ran,
      IsPool-cleared d va t (0 ∷ xs) u freed_zero,
    )
