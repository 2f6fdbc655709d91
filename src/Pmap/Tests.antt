-- ===== src/Pmap/Tests.antt =====
-- A small machine, and the theorems about kern/pmap.c at it.
use mit6_828_lab.Base.{
  ℕ, ◌+◌, ◌-◌, ◌≡◌, refl, inl, false, true, none, some, [], ◌∷◌, arith, ◌==◌, if◌then◌else◌,
}
use mit6_828_lab.Mmu.Macros.{kernbase}
use mit6_828_lab.Pmap.Kernel.{PageInfo, Kernel, ok, panic, page_in_use, ◌>>◌, kva_of}
use mit6_828_lab.Pmap.Alloc.{page_free}
use mit6_828_lab.Pmap.Alloc.Pool.{IsPool, Allocates, freed, page_alloc-Allocates, page_free-IsPool}
use mit6_828_lab.Pmap.Boot.{page_init}
use mit6_828_lab.Pmap.Alloc.Check.{check_page_alloc}
use mit6_828_lab.Pmap.Boot.FreeList.{check_page_free_list}
use mit6_828_lab.Pmap.Boot.FreeList.Passes.{ordered}
use mit6_828_lab.Pmap.Boot.Checked.{check_page_alloc-page_init}
use mit6_828_lab.Pmap.Boot.Init.{free_pages}
use mit6_828_lab.Pmap.Table.{
  success, no_mem, pgdir_walk, page_lookup, page_remove, page_insert, check_va2pa, pte_ptr, no_pa,
}
use mit6_828_lab.Pmap.Table.Walk.{HasTable, Creates, pgdir_walk-Creates}
use mit6_828_lab.Pmap.Table.Remove.{Unmapped, page_remove-Unmapped, page_remove-page_zero}
use mit6_828_lab.Pmap.Table.Insert.{
  Inserted, Created, page_insert-absent, page_insert-present, page_insert-create,
}

-- Six pages: 0 is kept, 1 a directory, 4 a table, 5 mapped; 3 and 2 are free.
abbrev machine_pages : ℕ → PageInfo
machine_pages i =
    if i == 3
    then record { pp_link = some 2; pp_ref = 0 }
    else (if i == 2
        then record { pp_link = none; pp_ref = 0 }
        else record { pp_link = none; pp_ref = 1 })

-- `mem` is empty but for the entries of address 0x1000.
abbrev machine_mem : ℕ → ℕ
machine_mem a = if a == kva_of 1 then 0x4007 else (if a == kva_of 4 + 4 then 0x5003 else 0)

abbrev machine : Kernel
machine = record {
  npages = 6;
  npages_basemem = 0;
  nextfree = kva_of 7;
  pages = machine_pages;
  page_free_list = some 3;
  mem = machine_mem;
  invalidated = [];
}

machine-IsPool : IsPool machine (3 ∷ 2 ∷ [])
machine-IsPool = record {
  chain = (refl, omega arith, refl, refl, (refl, omega arith, refl, refl, refl));
  used_unlinked = λ i out. ground arith;
  small = omega arith;
}

-- The same machine with no free page.
abbrev full : Kernel
full = record machine { page_free_list = none; pages = λ i. record { pp_link = none; pp_ref = 1 } }

full-IsPool : IsPool full []
full-IsPool = record { chain = refl; used_unlinked = λ i out. refl; small = omega arith }

table_of_0x1000 : HasTable machine 1 0x1000 4
table_of_0x1000 = record {
  present = refl;
  table = refl;
  in_range = omega arith;
  apart = omega arith;
}

table_of_0x2000 : HasTable machine 1 0x2000 4
table_of_0x2000 = record {
  present = refl;
  table = refl;
  in_range = omega arith;
  apart = omega arith;
}

page_alloc-Allocates_example : Allocates 1 (3 ∷ 2 ∷ []) machine
page_alloc-Allocates_example = page_alloc-Allocates 1 (3 ∷ 2 ∷ []) machine machine-IsPool

-- Page 5 with its count taken to 0.
abbrev dropped_five : Kernel
dropped_five = record machine {
  pages = λ i. if i == 5 then record { pp_link = none; pp_ref = 0 } else machine_pages i;
}

dropped_five-IsPool : IsPool dropped_five (3 ∷ 2 ∷ [])
dropped_five-IsPool = record {
  chain = (refl, omega arith, refl, refl, (refl, omega arith, refl, refl, refl));
  used_unlinked = λ i out. ground arith;
  small = omega arith;
}

page_free-IsPool_example :
    (page_free 5 dropped_five ≡ ok tt (freed 5 dropped_five))
    × IsPool (freed 5 dropped_five) (5 ∷ 3 ∷ 2 ∷ [])
    × (page_free 5 machine ≡ panic page_in_use)
page_free-IsPool_example =
    page_free-IsPool 5 (3 ∷ 2 ∷ []) dropped_five machine dropped_five-IsPool refl (omega arith) refl
      (inl (omega arith))

-- With 0x40000 the next free byte, pages 1 to 5 of a machine of 6 are free.
free_pages_example : free_pages 0x4_0000 6 ≡ 5 ∷ 4 ∷ 3 ∷ 2 ∷ 1 ∷ []
unfolding free_pages
free_pages_example = refl

pgdir_walk-Creates_example :
    (pgdir_walk (kva_of 1) 0x40_0000 false machine ≡ ok none machine)
    × Creates 1 0x40_0000 (3 ∷ 2 ∷ []) machine
pgdir_walk-Creates_example =
    pgdir_walk-Creates 1 0x40_0000 (3 ∷ 2 ∷ []) machine machine-IsPool refl refl

page_remove-Unmapped_example :
    (s' : Kernel) × (page_remove (kva_of 1) 0x1000 machine ≡ ok tt s')
    × Unmapped machine s' 0x1000 4 5
    × IsPool s' (5 ∷ 3 ∷ 2 ∷ [])
    × HasTable s' 1 0x1000 4
    × (check_va2pa (kva_of 1) 0x1000 s' ≡ ok no_pa s')
page_remove-Unmapped_example =
    page_remove-Unmapped 1 0x1000 4 5 (3 ∷ 2 ∷ []) machine table_of_0x1000 machine-IsPool refl
      (omega arith) refl (omega arith) (omega arith)

page_remove-page_zero_example :
    (page_lookup (kva_of 1) 0x2000 machine ≡ ok (some (0, pte_ptr (kva_of 4) 0x2000)) machine)
    × (s' : Kernel) × (page_remove (kva_of 1) 0x2000 machine ≡ ok tt s')
    × IsPool s' (0 ∷ 3 ∷ 2 ∷ [])
page_remove-page_zero_example =
    page_remove-page_zero 1 0x2000 4 (3 ∷ 2 ∷ []) machine table_of_0x2000 machine-IsPool refl refl
      refl

page_insert-absent_example :
    (s' : Kernel) × (page_insert (kva_of 1) 5 0x2000 2 machine ≡ ok success s')
    × Inserted machine s' 0x2000 4 5 2 none
    × IsPool s' (3 ∷ 2 ∷ [])
    × (check_va2pa (kva_of 1) 0x2000 s' ≡ ok 0x5000 s')
page_insert-absent_example =
    page_insert-absent 1 0x2000 4 5 2 (3 ∷ 2 ∷ []) machine table_of_0x2000 machine-IsPool refl
      (omega arith) refl (omega arith) (omega arith)

-- Page 5 inserted again where it is mapped: its count stays 1.
page_insert-present_example :
    (s' : Kernel) × (page_insert (kva_of 1) 5 0x1000 6 machine ≡ ok success s')
    × Inserted machine s' 0x1000 4 5 6 (some 5)
    × IsPool s' (3 ∷ 2 ∷ [])
    × (check_va2pa (kva_of 1) 0x1000 s' ≡ ok 0x5000 s')
page_insert-present_example =
    page_insert-present 1 0x1000 4 5 6 5 (3 ∷ 2 ∷ []) machine table_of_0x1000 machine-IsPool refl
      refl (omega arith) refl (omega arith) (omega arith) (omega arith) refl (omega arith)
      (omega arith)

page_insert-create_example :
    (page_insert (kva_of 1) 5 0x40_0000 2 full ≡ ok no_mem full)
    × (s' : Kernel) × (page_insert (kva_of 1) 5 0x40_0000 2 machine ≡ ok success s')
    × Created machine s' 1 0x40_0000 5 2 3
    × IsPool s' (2 ∷ [])
    × (check_va2pa (kva_of 1) 0x40_0000 s' ≡ ok 0x5000 s')
page_insert-create_example =
    page_insert-create 1 0x40_0000 5 2 3 (2 ∷ []) machine full machine-IsPool full-IsPool refl refl
      refl (omega arith) refl (omega arith) (omega arith)

-- 300 pages, with boot_alloc's memory up to page 258.
abbrev fresh : Kernel
fresh = record {
  npages = 300;
  npages_basemem = 160;
  nextfree = kva_of 258;
  pages = λ i. record { pp_link = none; pp_ref = 0 };
  page_free_list = none;
  mem = λ a. 0;
  invalidated = [];
}

check_page_alloc-page_init_example :
    (s' : Kernel) × ((page_init 0
          >> check_page_free_list 400 0 true
          >> check_page_alloc 400 (kva_of 257))
        fresh
      ≡ ok tt s')
    × IsPool s' (ordered true (free_pages (kva_of 258 - kernbase) 300))
check_page_alloc-page_init_example =
    check_page_alloc-page_init 400 0 (kva_of 257) fresh (λ i. refl) (omega arith) refl (omega arith)
      (omega arith) (omega arith) (λ e. absurd (omega arith))
