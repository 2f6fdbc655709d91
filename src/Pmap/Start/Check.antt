-- ===== src/Pmap/Start/Check.antt =====
-- check_kern_pgdir of kern/pmap.c. The asserted addresses are those of inc/memlayout.h.
use mit6_828_lab.Base.{
  ℕ, zero, suc, ◌+◌, ◌-◌, ◌*◌, ◌/◌, ◌%◌, ◌^◌, Bool, ◌==◌, ◌||◌, leb, not, bit_and, if◌then◌else◌,
}
use mit6_828_lab.Mmu.Macros.{
  pgsize, ptsize, kernbase, kstacktop, kstksize, upages, uvpt, utop, npdentries, pdx, pte_p, pte_w,
  roundup,
}
use mit6_828_lab.Pmap.Kernel.{M, ok, pure, ◌>>=◌, ◌>>◌, paddr, load}
use mit6_828_lab.Pmap.Alloc.Check.{assert}
use mit6_828_lab.Pmap.Table.{check_va2pa, no_pa}
use mit6_828_lab.Env.Alloc.{nenv}

-- UENVS, sizeof(struct PageInfo), sizeof(struct Env)
abbrev pub uenvs : ℕ
uenvs = utop

abbrev pub sizeof_page_info : ℕ
sizeof_page_info = 8

abbrev pub sizeof_env : ℕ
sizeof_env = 96

-- The loops over an array at `kva` that is to be mapped at `va`, from offset `i` on.
unfoldable pub check_array : (rounds pgdir va kva i : ℕ) → M (Unit {0})
check_array zero pgdir va kva i = pure tt
check_array (suc n) pgdir va kva i = do
  found ← check_va2pa pgdir ((va + i) % 2 ^ 32)
  pa ← paddr kva
  assert (found == (pa + i) % 2 ^ 32)
  check_array n pgdir va kva (i + pgsize)

-- "check phys mem"
unfoldable pub check_memory : (rounds pgdir i : ℕ) → M (Unit {0})
check_memory zero pgdir i = pure tt
check_memory (suc n) pgdir i = do
  found ← check_va2pa pgdir ((kernbase + i) % 2 ^ 32)
  assert (found == i)
  check_memory n pgdir (i + pgsize)

-- The cases PDX(UVPT), PDX(KSTACKTOP-1), PDX(UPAGES) and PDX(UENVS).
abbrev pub has_table : ℕ → Bool
has_table i = (i == pdx uvpt) || (i == pdx (kstacktop - 1)) || (i == pdx upages) || (i == pdx uenvs)

-- "check PDE permissions"
unfoldable pub check_pdes : (rounds pgdir i : ℕ) → M (Unit {0})
check_pdes zero pgdir i = pure tt
check_pdes (suc n) pgdir i = do
  pde ← load (pgdir + 4 * i)
  if has_table i
      then assert (not (bit_and pde pte_p == 0))
      else (if leb (pdx kernbase) i
          then (do assert (not (bit_and pde pte_p == 0)); assert (not (bit_and pde pte_w == 0)))
          else assert (pde == 0))
  check_pdes n pgdir (i + 1)

-- `ROUNDUP(n, PGSIZE) / PGSIZE`, the rounds of a loop over an array of `n` bytes
abbrev pub array_rounds : ℕ → ℕ
array_rounds n = roundup n pgsize / pgsize

unfoldable pub check_kern_pgdir : (kern_pgdir pages envs bootstack : ℕ) → M (Unit {0})
check_kern_pgdir pgdir pages envs bootstack = do
  s ← (λ s. ok s s)
  check_array (array_rounds (s.npages * sizeof_page_info % 2 ^ 32)) pgdir upages pages 0
  check_array (array_rounds (nenv * sizeof_env)) pgdir uenvs envs 0
  check_memory (s.npages * pgsize % 2 ^ 32 / pgsize) pgdir 0
  check_array (kstksize / pgsize) pgdir (kstacktop - kstksize) bootstack 0
  guard ← check_va2pa pgdir (kstacktop - ptsize)
  assert (guard == no_pa)
  check_pdes npdentries pgdir 0
