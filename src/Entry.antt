-- ===== src/Entry.antt =====
-- kern/entrypgdir.c: the page directory and page table that the kernel starts on. `table` is the address that the linker gives
-- to entry_pgtable; an array is a function of the index.
mod Tests
use mit6_828_lab.Base.{
  ℕ, ◌+◌, ◌-◌, ◌*◌, ◌/◌, ◌%◌, ◌^◌, ◌≤◌, ◌<◌, ◌≡◌, ◌⊎◌, refl, Bool, true, false, ◌==◌, ◌&&◌,
  if◌then◌else◌, bit_or, Option, none, some, arith, all_below, all_below_sound,
}
use mit6_828_lab.Mmu.Macros.{pgsize, kernbase, pte_p, pte_w, pdx, ptx, pgoff, pte_addr}

pub entry_pgtable : ℕ → ℕ
entry_pgtable i = bit_or (bit_or (i * pgsize) pte_p) pte_w

-- The entries that are not named are 0.
pub entry_pgdir : (table : ℕ) → ℕ → ℕ
entry_pgdir table i =
    if i == 0
    then table - kernbase + pte_p
    else (if i == kernbase / 2 ^ 22 then table - kernbase + pte_p + pte_w else 0)

-- The physical address that the processor finds for `va`, and whether a write is allowed, from these two tables alone.
pub translate : (table va : ℕ) → Option (ℕ × Bool)
translate table va =
    let pde = entry_pgdir table (pdx va) in
    let pte = entry_pgtable (ptx va) in
    if pde % 2 == 0
    then none
    else (if pte_addr pde == table - kernbase
        then (if pte % 2 == 0
            then none
            else some (pte_addr pte + pgoff va, (pde / 2 % 2 == 1) && (pte / 2 % 2 == 1)))
        else none)

entry_test : ℕ → Bool
unfolding entry_pgtable
entry_test i = entry_pgtable i == i * 4096 + 3

entry_all : all_below 1024 entry_test ≡ true
unfolding entry_test entry_pgtable
entry_all = refl

entry_sum : (i : ℕ) → i < 1024 → entry_pgtable i ≡ i * 4096 + 3
unfolding entry_test
entry_sum i h =
    let one : entry_test i ≡ true = all_below_sound 1024 entry_test i entry_all h in ground arith

-- The first tables map the first 4 megabytes of virtual addresses, and those from KERNBASE on, to the first 4 megabytes of
-- physical memory: the low ones without write permission, the high ones with it. (The linker puts entry_pgtable on a page
-- boundary behind KERNBASE.)
pub translate-first_4mb :
    (table va : ℕ)
    → va < 2 ^ 22
    → kernbase ≤ table
    → table % 4096 ≡ 0
    → (translate table va ≡ some (va, false)) × (translate table (kernbase + va) ≡ some (va, true))
unfolding translate entry_pgdir
translate-first_4mb table va h above page =
    let here : entry_pgtable (ptx va) ≡ ptx va * 4096 + 3 = entry_sum (ptx va) (omega arith) in
    let low : pdx va ≡ 0 = omega arith in
    let high : pdx (kernbase + va) ≡ 960 = omega arith in
    let high_page : ptx (kernbase + va) ≡ ptx va = omega arith in
    let high_offset : pgoff (kernbase + va) ≡ pgoff va = omega arith in
    let sum : pte_addr (ptx va * 4096 + 3) + pgoff va ≡ va = omega arith in
    (
      rw (low, here, sum) (ground arith),
      rw (high, high_page, high_offset, here, sum) (ground arith),
    )

-- Every other address is not mapped.
pub translate-elsewhere :
    (table va : ℕ)
    → 2 ^ 22 ≤ va
    → va < 2 ^ 32
    → (va < kernbase) ⊎ (kernbase + 2 ^ 22 ≤ va)
    → translate table va ≡ none
unfolding translate entry_pgdir
translate-elsewhere table va low top h =
    let first : (pdx va == 0) ≡ false = ground arith in
    let kernel : (pdx va == 960) ≡ false = ground arith in rw (first, kernel) refl
