-- ===== src/Pmap/Table/Insert.antt =====
-- page_insert: the new entry, the reference counts, the pool, and what check_va2pa sees.
use mit6_828_lab.Base.{
  ℕ, ◌+◌, ◌*◌, ◌/◌, ◌%◌, ◌^◌, ◌≤◌, ◌<◌, ◌≡◌, ◌≢◌, ◌⊎◌, refl, ◌∙◌, true, false, Option, none, some,
  List, [], ◌∷◌, arith, ◌==◌, has, if◌then◌else◌, ==_refl, bit_or,
}
use mit6_828_lab.Mmu.Macros.{pte_addr, pte_p, pte_w, pte_u}
use mit6_828_lab.Pmap.Kernel.{Kernel, ok, ◌>>=◌, set_page, with_ref, kva_of, page2pa}
use mit6_828_lab.Pmap.Alloc.Pool.{IsPool, FreeFrom-set_page}
use mit6_828_lab.Pmap.Alloc.Decref.{ref, pool_after}
use mit6_828_lab.Pmap.Table.{
  success, no_mem, pde_ptr, pte_ptr, enter_page, page_insert, page_remove, check_va2pa,
}
use mit6_828_lab.Pmap.Table.Entry.{IsPresent, present_test, absent_test, page_entry}
use mit6_828_lab.Pmap.Table.Walk.{pde, HasTable, pgdir_walk-HasTable, pgdir_walk-Creates, tabled}
use mit6_828_lab.Pmap.Table.Remove.{
  pte, Unmapped, entries_apart, check_va2pa-HasTable, page_remove-Unmapped,
}

-- The entry that page_insert writes.
abbrev pub new_entry : ℕ → ℕ → ℕ
new_entry pp perm = bit_or (bit_or (page2pa pp) perm) pte_p

-- `pp->pp_ref++`
abbrev pub raised : ℕ → Kernel → Kernel
raised pp s = record s { pages = set_page pp (with_ref (ref s pp + 1) (s.pages pp)) s.pages }

abbrev pub entered : ℕ → ℕ → ℕ → ℕ → Kernel → Kernel
entered t va pp perm s = record s {
  mem = λ a. if pte_ptr (kva_of t) va == a then new_entry pp perm else s.mem a;
}

-- What page_insert changes, where the entry of `va` in table page `t` named page `q` before (`old`) or no
-- page: the entry, and the counts, `pp` up by one and `q` down by one, also if they are the same.
pub record Inserted (s s' : Kernel) (va t pp perm : ℕ) (old : Option ℕ) : Type 0 where
  pub entry : pte s' t va ≡ new_entry pp perm
  pub elsewhere : (a : ℕ) → a ≢ pte_ptr (kva_of t) va → s'.mem a ≡ s.mem a
  pub counts :
      (j : ℕ)
      → ref s' j + (elim old [ none ↦ 0 | some q ↦ if q == j then 1 else 0 ])
        ≡ ref s j + (if pp == j then 1 else 0)

module _ (pp : ℕ) (s : Kernel) (xs : List ℕ) (pool : IsPool s xs) (out : has pp xs ≡ false) where
  raised-IsPool : IsPool (raised pp s) xs
  raised-IsPool = record {
    chain = FreeFrom-set_page s.pages s.npages s.page_free_list xs pp _ out pool.chain;
    used_unlinked = λ i out'. ground (arith, pool.used_unlinked i);
    small = pool.small;
  }

entered-HasTable :
    (d va t pp perm : ℕ) (s : Kernel) → HasTable s d va t → HasTable (entered t va pp perm s) d va t
entered-HasTable d va t pp perm s h =
    let same : pde (entered t va pp perm s) d va ≡ pde s d va =
      ground (arith, entries_apart d va t h.apart) in
    record {
      present = rw same h.present;
      table = rw same h.table;
      in_range = h.in_range;
      apart = h.apart;
    }

-- After the entry is written, check_va2pa translates `va` to page `pp`.
check_va2pa-entered :
    (d va t pp perm : ℕ) (s : Kernel)
    → HasTable s d va t
    → s.npages ≤ 2 ^ 16
    → pp < s.npages
    → perm < 4096
    → check_va2pa (kva_of d) va (entered t va pp perm s) ≡ ok (page2pa pp) (entered t va pp perm s)
check_va2pa-entered d va t pp perm s h small lt p =
    let pa : page2pa pp ≡ pp * 4096 = omega arith in
    let fields : _ = page_entry pp perm p in
    let is_present : IsPresent (new_entry pp perm) = rw pa fields.0 in
    let addr : pte_addr (new_entry pp perm) ≡ page2pa pp = rw pa (omega (arith, fields.1)) in
    check_va2pa-HasTable d va t (entered t va pp perm s) (entered-HasTable d va t pp perm s h) small
    ∙ rw (==_refl (pte_ptr (kva_of t) va), present_test (new_entry pp perm) is_present, addr)

enter_page-absent :
    (d va t pp perm : ℕ) (s : Kernel)
    → pte s t va % 2 ≡ 0
    → ref s pp + 1 < 2 ^ 16
    → enter_page (kva_of d) pp va perm (pte_ptr (kva_of t) va) s
      ≡ ok success (entered t va pp perm (raised pp s))
unfolding enter_page
enter_page-absent d va t pp perm s absent few =
    let up : (ref s pp + 1) % 2 ^ 16 ≡ ref s pp + 1 = omega arith in
    rw (absent_test (pte s t va) absent, up)

-- page_insert of page `pp` in use at an address whose table exists and whose entry is not present: it returns 0,
-- the entry is page2pa(pp)|perm|PTE_P, the count of `pp` goes up by one, the pool and the
-- rest of memory and of the counts stay, and `va` then translates to `pp`.
pub page_insert-absent :
    (d va t pp perm : ℕ) (xs : List ℕ) (s : Kernel)
    → HasTable s d va t
    → IsPool s xs
    → pte s t va % 2 ≡ 0
    → pp < s.npages
    → has pp xs ≡ false
    → ref s pp + 1 < 2 ^ 16
    → perm < 4096
    → (s' : Kernel) × (page_insert (kva_of d) pp va perm s ≡ ok success s')
      × Inserted s s' va t pp perm none
      × IsPool s' xs
      × (check_va2pa (kva_of d) va s' ≡ ok (page2pa pp) s')
unfolding page_insert
page_insert-absent d va t pp perm xs s h pool absent lt out few p =
    let up : IsPool (raised pp s) xs = raised-IsPool pp s xs pool out in
    let h' : HasTable (raised pp s) d va t = record {
      present = h.present;
      table = h.table;
      in_range = h.in_range;
      apart = h.apart;
    } in
    (
      entered t va pp perm (raised pp s),
      rw (pgdir_walk-HasTable d va t true s h pool.small, ◌>>=◌)
          (enter_page-absent d va t pp perm s absent few),
      record {
        entry = rw (==_refl (pte_ptr (kva_of t) va));
        elsewhere = λ a ne. ground arith;
        counts = λ j. ground arith;
      },
      record { chain = up.chain; used_unlinked = up.used_unlinked; small = up.small },
      check_va2pa-entered d va t pp perm (raised pp s) h' pool.small lt p,
    )

module _ (d va t pp perm q : ℕ) (xs : List ℕ) (s : Kernel) where
  enter_page-present :
      (u : Kernel)
      → IsPresent (pte s t va)
      → ref s pp + 1 < 2 ^ 16
      → page_remove (kva_of d) va (raised pp s) ≡ ok tt u
      → enter_page (kva_of d) pp va perm (pte_ptr (kva_of t) va) s
        ≡ ok success (entered t va pp perm u)
  unfolding enter_page
  enter_page-present u present few removed =
      let up : (ref s pp + 1) % 2 ^ 16 ≡ ref s pp + 1 = omega arith in
      rw (present_test (pte s t va) present, up, ◌>>=◌, removed)

  -- The counts of one removal after one increment.
  counts_after :
      (u : Kernel)
      → Unmapped (raised pp s) u va t q
      → (j : ℕ) → ref u j + (if q == j then 1 else 0) ≡ ref s j + (if pp == j then 1 else 0)
  counts_after u un j = ground (arith, un.ref_other j)

-- page_insert of page `pp` in use at an address whose entry maps page `q`, which may be `pp` itself: it
-- returns 0 with the new entry, the count of `pp` goes up by one and that of `q` down by one
-- (so it stays if they are the same), `q` joins the pool exactly if no reference is left, the rest of memory
-- and of the counts stays, and `va` then translates to `pp`.
pub page_insert-present :
    (d va t pp perm q : ℕ) (xs : List ℕ) (s : Kernel)
    → HasTable s d va t
    → IsPool s xs
    → IsPresent (pte s t va)
    → pte s t va / 2 ^ 12 ≡ q
    → q < s.npages
    → has q xs ≡ false
    → 0 < ref s q
    → ref s q + 1 < 2 ^ 16
    → pp < s.npages
    → has pp xs ≡ false
    → ref s pp + 1 < 2 ^ 16
    → perm < 4096
    → (s' : Kernel) × (page_insert (kva_of d) pp va perm s ≡ ok success s')
      × Inserted s s' va t pp perm (some q)
      × IsPool s' (pool_after (ref (raised pp s) q) q xs)
      × (check_va2pa (kva_of d) va s' ≡ ok (page2pa pp) s')
unfolding page_insert
page_insert-present d va t pp perm q xs s h pool present at ltq outq pos fewq lt out few p =
    let up : IsPool (raised pp s) xs = raised-IsPool pp s xs pool out in
    let h' : HasTable (raised pp s) d va t = record {
      present = h.present;
      table = h.table;
      in_range = h.in_range;
      apart = h.apart;
    } in
    let (u, removed, un, pool', h'', gone) =
      page_remove-Unmapped d va t q xs (raised pp s) h' up at ltq outq (ground arith)
        (ground arith) in
    let lt' : pp < u.npages = rw un.same_npages lt in
    (
      entered t va pp perm u,
      rw (pgdir_walk-HasTable d va t true s h pool.small, ◌>>=◌)
          (enter_page-present d va t pp perm q xs s u present few removed),
      record {
        entry = rw (==_refl (pte_ptr (kva_of t) va));
        elsewhere = λ a ne. ground (arith, un.elsewhere a ne);
        counts = λ j. counts_after d va t pp perm q xs s u un j;
      },
      record { chain = pool'.chain; used_unlinked = pool'.used_unlinked; small = pool'.small },
      check_va2pa-entered d va t pp perm u h'' (rw un.same_npages pool.small) lt' p,
    )

-- What changes when page `x` becomes the table of `va` and page `pp` is mapped in it: the directory's entry, the
-- words of page `x` and the two counts.
pub record Created (s s' : Kernel) (d va pp perm x : ℕ) : Type 0 where
  pub has_table : HasTable s' d va x
  pub flags : pde s' d va ≡ bit_or (bit_or (bit_or (x * 4096) pte_p) pte_w) pte_u
  pub entry : pte s' x va ≡ new_entry pp perm
  pub others_zero :
      (a : ℕ) → kva_of x ≤ a → a < kva_of x + 4096 → a ≢ pte_ptr (kva_of x) va → s'.mem a ≡ 0
  pub elsewhere :
      (a : ℕ)
      → (a < kva_of x) ⊎ (kva_of x + 4096 ≤ a)
      → a ≢ pde_ptr (kva_of d) va
      → s'.mem a ≡ s.mem a
  pub ref_x : ref s' x ≡ 1
  pub ref_pp : ref s' pp ≡ ref s pp + 1
  pub ref_other : (j : ℕ) → j ≢ x → j ≢ pp → ref s' j ≡ ref s j

entered-Created :
    (d va pp perm x : ℕ) (s : Kernel)
    → HasTable (raised pp (tabled d va x s)) d va x
    → pp ≢ x
    → Created s (entered x va pp perm (raised pp (tabled d va x s))) d va pp perm x
entered-Created d va pp perm x s h other =
    let u : Kernel = raised pp (tabled d va x s) in
    let h' : HasTable (entered x va pp perm u) d va x = entered-HasTable d va x pp perm u h in
    record {
      has_table = h';
      flags = ground (arith, entries_apart d va x h.apart, ==_refl (pde_ptr (kva_of d) va));
      entry = rw (==_refl (pte_ptr (kva_of x) va));
      others_zero = λ a lo hi ne. ground (arith, h.apart);
      elsewhere = λ a away ne. ground arith;
      ref_x = ground arith;
      ref_pp = ground arith;
      ref_other = λ j ne ne'. ground arith;
    }

-- page_insert where `va` has no table: with an empty pool it returns -E_NO_MEM and changes nothing;
-- otherwise it returns 0. The head `x` of the pool becomes the table of `va`, with the flags PTE_P|PTE_W|PTE_U and the count 1;
-- its entry for `va` is page2pa(pp)|perm|PTE_P and its others are 0. The count of `pp` goes up by one, no other count and no
-- other word of memory changes, the pool is the rest, and `va` then translates to `pp`.
pub page_insert-create :
    (d va pp perm x : ℕ) (xs : List ℕ) (s e : Kernel)
    → IsPool s (x ∷ xs)
    → IsPool e []
    → has d (x ∷ xs) ≡ false
    → pde s d va % 2 ≡ 0
    → pde e d va % 2 ≡ 0
    → pp < s.npages
    → has pp (x ∷ xs) ≡ false
    → ref s pp + 1 < 2 ^ 16
    → perm < 4096
    → (page_insert (kva_of d) pp va perm e ≡ ok no_mem e)
      × (s' : Kernel) × (page_insert (kva_of d) pp va perm s ≡ ok success s')
      × Created s s' d va pp perm x
      × IsPool s' xs
      × (check_va2pa (kva_of d) va s' ≡ ok (page2pa pp) s')
unfolding page_insert
page_insert-create d va pp perm x xs s e pool empty out absent absent' lt outp few p =
    let (walked, pool', h, cleared) = (pgdir_walk-Creates d va (x ∷ xs) s pool out absent).1 in
    let u : Kernel = raised pp (tabled d va x s) in
    let up : IsPool u xs = raised-IsPool pp (tabled d va x s) xs pool' (ground arith) in
    let h' : HasTable u d va x = record {
      present = h.present;
      table = h.table;
      in_range = h.in_range;
      apart = h.apart;
    } in
    let few' : ref (tabled d va x s) pp + 1 < 2 ^ 16 = ground arith in
    let zero_entry : pte (tabled d va x s) x va % 2 ≡ 0 =
      rw (cleared (pte_ptr (kva_of x) va) (omega arith) (omega arith)) in
    (
      rw ((pgdir_walk-Creates d va [] e empty refl absent').1, ◌>>=◌),
      entered x va pp perm u,
      rw (walked, ◌>>=◌) (enter_page-absent d va x pp perm (tabled d va x s) zero_entry few'),
      entered-Created d va pp perm x s h' (ground arith),
      record { chain = up.chain; used_unlinked = up.used_unlinked; small = up.small },
      check_va2pa-entered d va x pp perm u h' pool.small lt p,
    )
