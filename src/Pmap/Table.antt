-- ===== src/Pmap/Table.antt =====
-- The page tables of kern/pmap.c: pgdir_walk, boot_map_region, page_insert, page_lookup,
-- page_remove, tlb_invalidate, check_va2pa. `pgdir` is the page directory's kernel virtual address, and
-- a `pte_t *` is the entry's: the index goes by 4 bytes.
pub mod Entry
pub mod Walk
pub mod Remove
pub mod Insert
pub mod Region
use mit6_828_lab.Base.{
  ℕ, zero, suc, ◌+◌, ◌-◌, ◌*◌, ◌/◌, ◌%◌, ◌^◌, Bool, true, false, Option, none, some, ◌∷◌, ◌==◌,
  bit_and, bit_or, if◌then◌else◌,
}
use mit6_828_lab.Mmu.Macros.{pgsize, pdx, ptx, pte_addr, pte_p, pte_w, pte_u}
use mit6_828_lab.Pmap.Kernel.{
  Kernel, M, Run, ok, panic, out_of_memory, pure, ◌>>=◌, ◌>>◌, set_ref, load, store, paddr, kaddr,
  page2pa, pa2page, page2kva,
}
use mit6_828_lab.Pmap.Alloc.{page_alloc, page_decref}

-- pgdir + PDX(va), and &page_table_entry[PTX(va)]
abbrev pub pde_ptr : ℕ → ℕ → ℕ
pde_ptr pgdir va = pgdir + 4 * pdx va

abbrev pub pte_ptr : ℕ → ℕ → ℕ
pte_ptr table va = table + 4 * ptx va

-- The branch of pgdir_walk that adds a page table.
unfoldable pub add_table : ℕ → ℕ → M (Option ℕ)
add_table pgdir va = do
  pp ← page_alloc 1
  elim pp [
    | none ↦ pure none
    | some pp ↦ do
      table ← page2kva pp
      s ← (λ s. ok s s)
      set_ref pp (((s.pages pp).pp_ref + 1) % 2 ^ 16)
      pa ← paddr table
      store (pde_ptr pgdir va) (bit_or (bit_or (bit_or pa pte_p) pte_w) pte_u)
      pure (some (pte_ptr table va))
  ]

pub pgdir_walk : ℕ → ℕ → Bool → M (Option ℕ)
pgdir_walk pgdir va create s =
    if bit_and (s.mem (pde_ptr pgdir va)) pte_p == 0
    then (if create then add_table pgdir va s else ok none s)
    else (do table ← kaddr (pte_addr (s.mem (pde_ptr pgdir va))); pure (some (pte_ptr table va))) s

-- The loop of boot_map_region, with the rounds left; the sums are taken in 32 bits.
pub map_pages : (rounds : ℕ) → ℕ → ℕ → ℕ → ℕ → M (Unit {0})
map_pages zero pgdir va pa perm = pure tt
map_pages (suc n) pgdir va pa perm = do
  pte ← pgdir_walk pgdir va true
  elim pte [
    | none ↦ (λ s. panic out_of_memory)
    | some pte ↦ do
      store pte (bit_or (bit_or pa pte_p) perm)
      map_pages n pgdir ((va + pgsize) % 2 ^ 32) ((pa + pgsize) % 2 ^ 32) perm
  ]

pub boot_map_region : (pgdir va size pa perm : ℕ) → M (Unit {0})
boot_map_region pgdir va size pa perm =
    map_pages (if size % pgsize == 0 then size / pgsize else size / pgsize + 1) pgdir va pa perm

-- invlpg
pub tlb_invalidate : ℕ → ℕ → M (Unit {0})
tlb_invalidate pgdir va s = ok tt (record s { invalidated = va ∷ s.invalidated })

-- The page and, for a caller that gives `pte_store`, the address of its entry.
pub page_lookup : ℕ → ℕ → M (Option (ℕ × ℕ))
page_lookup pgdir va = do
  pt ← pgdir_walk pgdir va false
  elim pt [
    | none ↦ pure none
    | some pt ↦ do pte ← load pt; pp ← pa2page (pte_addr pte); pure (some (pp, pt))
  ]

pub page_remove : ℕ → ℕ → M (Unit {0})
page_remove pgdir va = do
  found ← page_lookup pgdir va
  elim found [
    | none ↦ pure tt
    | some (pp, pt) ↦ do page_decref pp; store pt 0; tlb_invalidate pgdir va
  ]

-- What page_insert returns: 0 or -E_NO_MEM.
pub data Status : Type 0 where
  success no_mem : Status

-- The part of page_insert after the walk.
pub enter_page : ℕ → ℕ → ℕ → ℕ → ℕ → M Status
enter_page pgdir pp va perm pt = do
  s ← (λ s. ok s s)
  set_ref pp (((s.pages pp).pp_ref + 1) % 2 ^ 16)
  pte ← load pt
  if bit_and pte pte_p == 0 then pure tt else page_remove pgdir va
  store pt (bit_or (bit_or (page2pa pp) perm) pte_p)
  pure success

pub page_insert : ℕ → ℕ → ℕ → ℕ → M Status
page_insert pgdir pp va perm = do
  pt ← pgdir_walk pgdir va true
  elim pt [ none ↦ pure no_mem | some pt ↦ enter_page pgdir pp va perm pt ]

-- ~0 in 32 bits
abbrev pub no_pa : ℕ
no_pa = 2 ^ 32 - 1

pub check_va2pa : ℕ → ℕ → M ℕ
check_va2pa pgdir va s =
    if bit_and (s.mem (pde_ptr pgdir va)) pte_p == 0
    then ok no_pa s
    else (do
      table ← kaddr (pte_addr (s.mem (pde_ptr pgdir va)))
      pte ← load (pte_ptr table va)
      pure (if bit_and pte pte_p == 0 then no_pa else pte_addr pte))
        s
