-- ===== src/Pmap/Table/Walk.antt =====
-- pgdir_walk: what it returns on every branch, and what it changes.
use mit6_828_lab.Base.{
  ℕ, ◌+◌, ◌-◌, ◌*◌, ◌/◌, ◌%◌, ◌^◌, ◌≤◌, ◌<◌, ◌≡◌, ◌≢◌, Bool, true, false, none, some, List, [], ◌∷◌,
  arith, ◌==◌, has, if◌then◌else◌, ==_refl, bit_or,
}
use mit6_828_lab.Mmu.Macros.{kernbase, pte_addr, pte_p, pte_w, pte_u}
use mit6_828_lab.Pmap.Kernel.{
  Kernel, ok, ◌>>=◌, set_page, with_ref, kva_of, kaddr_lem, page2kva_lem, paddr_lem,
}
use mit6_828_lab.Pmap.Alloc.Pool.{IsPool, FreeFrom-set_page, taken, page_alloc-cons, page_alloc-nil}
use mit6_828_lab.Pmap.Table.{pde_ptr, pte_ptr, add_table, pgdir_walk}
use mit6_828_lab.Pmap.Table.Entry.{IsPresent, present_test, absent_test, table_entry}

-- The directory entry of `va` in the directory on page `d`.
abbrev pub pde : Kernel → ℕ → ℕ → ℕ
pde s d va = s.mem (pde_ptr (kva_of d) va)

-- The directory on page `d` has page `t` of the machine as the table of `va`, another page than `d`.
pub record HasTable (s : Kernel) (d va t : ℕ) : Type 0 where
  pub present : IsPresent (pde s d va)
  pub table : pde s d va / 2 ^ 12 ≡ t
  pub in_range : t < s.npages
  pub apart : t ≢ d

-- With a table present, pgdir_walk gives the entry's address in it, and changes nothing.
pub pgdir_walk-HasTable :
    (d va t : ℕ) (create : Bool) (s : Kernel)
    → HasTable s d va t
    → s.npages ≤ 2 ^ 16
    → pgdir_walk (kva_of d) va create s ≡ ok (some (pte_ptr (kva_of t) va)) s
unfolding pgdir_walk
pgdir_walk-HasTable d va t create s h small =
    let addr : pte_addr (pde s d va) ≡ t * 4096 = omega (arith, h) in
    let page : t * 4096 / 2 ^ 12 ≡ t = omega arith in
    rw (
      present_test (pde s d va) h.present,
      addr,
      kaddr_lem (t * 4096) s (rw page h.in_range) small,
      ◌>>=◌,
    )

-- The state in which page `x` has become the table of `va`.
abbrev pub tabled : ℕ → ℕ → ℕ → Kernel → Kernel
tabled d va x s =
    let u = taken 1 x s in
    record u {
      pages = set_page x (with_ref 1 (u.pages x)) u.pages;
      mem = λ a.
          if pde_ptr (kva_of d) va == a
          then bit_or (bit_or (bit_or (x * 4096) pte_p) pte_w) pte_u
          else u.mem a;
    }

add_table_lem :
    (d va x : ℕ) (xs : List ℕ) (s : Kernel)
    → IsPool s (x ∷ xs)
    → add_table (kva_of d) va s ≡ ok (some (pte_ptr (kva_of x) va)) (tabled d va x s)
unfolding add_table
add_table_lem d va x xs s pool =
    let pa : x * 4096 + kernbase - kernbase ≡ x * 4096 = omega arith in
    let above : kernbase ≤ kva_of x = omega arith in
    let one : ((taken 1 x s).pages x).pp_ref + 1 ≡ 1 =
      rw (==_refl x) (omega (arith, pool.chain.2)) in
    rw (
      (page_alloc-cons 1 x xs s pool).0,
      page2kva_lem x (taken 1 x s) pool.chain.1 pool.small,
      ◌>>=◌,
      one,
      paddr_lem (kva_of x) _ above,
      pa,
    )

add_table_nil : (d va : ℕ) (s : Kernel) → IsPool s [] → add_table (kva_of d) va s ≡ ok none s
unfolding add_table
add_table_nil d va s pool = rw (page_alloc-nil 1 s pool, ◌>>=◌)

-- The new table belongs to the pool no more, and holds no entry; a second walk finds it.
tabled-IsPool :
    (d va x : ℕ) (xs : List ℕ) (s : Kernel) → IsPool s (x ∷ xs) → IsPool (tabled d va x s) xs
tabled-IsPool d va x xs s pool =
    let rest : IsPool (taken 1 x s) xs = (page_alloc-cons 1 x xs s pool).1 in
    record {
      chain =
          FreeFrom-set_page (taken 1 x s).pages s.npages (s.pages x).pp_link xs x _ pool.chain.3
            rest.chain;
      used_unlinked = λ i out. ground (arith, rest.used_unlinked i);
      small = pool.small;
    }

tabled-HasTable :
    (d va x : ℕ) (xs : List ℕ) (s : Kernel)
    → IsPool s (x ∷ xs)
    → x ≢ d
    → HasTable (tabled d va x s) d va x
tabled-HasTable d va x xs s pool apart = record {
  present = rw (==_refl (pde_ptr (kva_of d) va)) (table_entry x).0;
  table = rw (==_refl (pde_ptr (kva_of d) va)) (table_entry x).1;
  in_range = pool.chain.1;
  apart = apart;
}

tabled_empty :
    (d va x a : ℕ) (s : Kernel)
    → x ≢ d
    → kva_of x ≤ a
    → a < kva_of x + 4096
    → (tabled d va x s).mem a ≡ 0
tabled_empty d va x a s apart lo hi = ground arith

-- What pgdir_walk does where `va` has no table, by the pool: with an empty pool it gives NULL and changes
-- nothing; otherwise the pool's head becomes the table.
abbrev pub Creates : ℕ → ℕ → List ℕ → Kernel → Type 0
Creates d va [] s = pgdir_walk (kva_of d) va true s ≡ ok none s
Creates d va (x ∷ xs) s =
    (pgdir_walk (kva_of d) va true s ≡ ok (some (pte_ptr (kva_of x) va)) (tabled d va x s))
    × IsPool (tabled d va x s) xs
    × HasTable (tabled d va x s) d va x
    × ((a : ℕ) → kva_of x ≤ a → a < kva_of x + 4096 → (tabled d va x s).mem a ≡ 0)

pub pgdir_walk-create :
    (d va : ℕ) (xs : List ℕ) (s : Kernel)
    → IsPool s xs
    → has d xs ≡ false
    → pde s d va % 2 ≡ 0
    → Creates d va xs s
unfolding pgdir_walk
pgdir_walk-create d va [] s pool out absent =
    rw (absent_test (pde s d va) absent) (add_table_nil d va s pool)
pgdir_walk-create d va (x ∷ xs) s pool out absent =
    let apart : x ≢ d = ground arith in
    (
      rw (absent_test (pde s d va) absent) (add_table_lem d va x xs s pool),
      tabled-IsPool d va x xs s pool,
      tabled-HasTable d va x xs s pool apart,
      λ a lo hi. tabled_empty d va x a s apart lo hi,
    )

-- Where `va` has no table, pgdir_walk with create == 0 gives NULL and changes nothing. With
-- create == 1 it gives NULL and changes nothing if the pool is empty; otherwise the head of
-- the pool becomes the table of `va`, all its entries 0, the rest is the pool, and the result is
-- the address of the entry in it. (The directory's own page is in use.)
pub pgdir_walk-Creates :
    (d va : ℕ) (xs : List ℕ) (s : Kernel)
    → IsPool s xs
    → has d xs ≡ false
    → pde s d va % 2 ≡ 0
    → (pgdir_walk (kva_of d) va false s ≡ ok none s) × Creates d va xs s
unfolding pgdir_walk
pgdir_walk-Creates d va xs s pool out absent =
    (rw (absent_test (pde s d va) absent), pgdir_walk-create d va xs s pool out absent)
