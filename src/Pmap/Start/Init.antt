-- ===== src/Pmap/Start/Init.antt =====
-- mem_init of kern/pmap.c, its steps in their order. The processor's registers cr3 and cr0 are outside the state: cr0 as the
-- entry code left it is an argument, and what is loaded into the two is the result.
use mit6_828_lab.Base.{
  ℕ, ◌-◌, ◌*◌, ◌%◌, ◌^◌, false, true, none, bit_and, bit_or, ltb, if◌then◌else◌,
}
use mit6_828_lab.Mmu.Macros.{pgsize, pte_p, pte_u, uvpt}
use mit6_828_lab.Pmap.Kernel.{M, ok, pure, ◌>>=◌, ◌>>◌, paddr, store, zero_page}
use mit6_828_lab.Pmap.Boot.{i386_detect_memory, boot_alloc, page_init}
use mit6_828_lab.Pmap.Boot.FreeList.{check_page_free_list}
use mit6_828_lab.Pmap.Alloc.Check.{check_page_alloc}
use mit6_828_lab.Pmap.Table.{pde_ptr}
use mit6_828_lab.Pmap.Start.{map_kernel}
use mit6_828_lab.Pmap.Start.Check.{sizeof_page_info, check_kern_pgdir}
use mit6_828_lab.Pmap.Start.Pages.{check_page}
use mit6_828_lab.Pmap.Start.Installed.{check_page_installed_pgdir}

-- `memset(pages, 0, npages * sizeof(struct PageInfo))`
unfoldable pub clear_pages : M (Unit {0})
clear_pages s = ok tt (record s {
  pages = λ i. if ltb i s.npages then record { pp_link = none; pp_ref = 0 } else s.pages i;
})

-- The directory and the array of page structs: their addresses.
unfoldable pub alloc_tables : (end : ℕ) → M (ℕ × ℕ)
alloc_tables end = do
  kern_pgdir ← boot_alloc end pgsize
  zero_page kern_pgdir
  pa ← paddr kern_pgdir
  store (pde_ptr kern_pgdir uvpt) (bit_or (bit_or pa pte_u) pte_p)
  s ← (λ s. ok s s)
  pages ← boot_alloc end (s.npages * sizeof_page_info % 2 ^ 32)
  clear_pages
  pure (kern_pgdir, pages)

-- CR0_PE|CR0_PG|CR0_AM|CR0_WP|CR0_NE|CR0_MP, set, and CR0_TS|CR0_EM, cleared.
abbrev pub new_cr0 : ℕ → ℕ
new_cr0 cr0 = bit_and (bit_or cr0 0x8005_0023) (2 ^ 32 - 1 - 0xc)

-- `envs`, which kern/env.c initialises with NULL and nothing sets.
abbrev pub envs_null : ℕ
envs_null = 0

-- `end` and `bootstack` are the linker's, `fuel` is that of the checks' loops over the free list.
unfoldable pub mem_init : (cmos : ℕ → ℕ) (fuel end bootstack cr0 : ℕ) → M (ℕ × ℕ)
mem_init cmos fuel end bootstack cr0 = do
  i386_detect_memory cmos
  tables ← alloc_tables end
  page_init end
  check_page_free_list fuel end true
  check_page_alloc fuel tables.1
  check_page tables.0
  map_kernel tables.0 tables.1 bootstack
  check_kern_pgdir tables.0 tables.1 envs_null bootstack
  cr3 ← paddr tables.0
  check_page_free_list fuel end false
  check_page_installed_pgdir tables.0
  pure (cr3, new_cr0 cr0)
