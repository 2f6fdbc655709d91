-- ===== src/Pmap/Start/Tests.antt =====
-- Runs of mem_init's mapping and of its checks, on a machine of 100 pages.
use mit6_828_lab.Base.{
  ℕ, zero, suc, ◌+◌, ◌-◌, ◌≤◌, ◌<◌, ◌≡◌, inl, inr, refl, true, false, Option, none, some, List, [],
  ◌∷◌, arith, ◌==◌, ltb, has, if◌then◌else◌, Bool-cases,
}
use mit6_828_lab.Mmu.Macros.{pte_w, upages}
use mit6_828_lab.Pmap.Table.{no_pa}
use mit6_828_lab.Pmap.Kernel.{
  PageInfo, Kernel, ok, panic, paddr_invalid, assertion_failed, ◌>>◌, kva_of,
}
use mit6_828_lab.Pmap.Alloc.Pool.{IsPool, FreeFrom}
use mit6_828_lab.Pmap.Table.Region.Directory.{dir, IsDirectory, check_va2pa-word}
use mit6_828_lab.Pmap.Table.Region.Maps.{RegionMapped, boot_map_region-RegionMapped, pages_of}
use mit6_828_lab.Pmap.Table.Region.Loop.{IsRegion}
use mit6_828_lab.Pmap.Start.{map_kernel}
use mit6_828_lab.Pmap.Start.Layout.{Layout, CanMap, self, map_kernel-Layout}
use mit6_828_lab.Pmap.Start.Check.{check_kern_pgdir}
use mit6_828_lab.Pmap.Start.Init.{envs_null}
use mit6_828_lab.Pmap.Start.Ends.{FirstWrong, check_kern_pgdir-map_kernel}

-- Pages 2 to 81 are free, the highest first; page 1 holds the directory.
abbrev many_pages : ℕ → PageInfo
many_pages i = record {
  pp_link = if ltb 2 i then (if ltb i 82 then some (i - 1) else none) else none;
  pp_ref = 0;
}

abbrev many : Kernel
many = record {
  npages = 100;
  npages_basemem = 0;
  nextfree = kva_of 2;
  pages = many_pages;
  page_free_list = some 81;
  mem = λ a. 0;
  invalidated = [];
}

unfoldable many_free : ℕ → List ℕ
many_free zero = []
many_free (suc n) = (n + 2) ∷ many_free n

above-many_free : (n i : ℕ) → n + 2 ≤ i → has i (many_free n) ≡ false
unfolding many_free
above-many_free zero i le = refl
above-many_free (suc n) i le = ground (arith, above-many_free n i)

abbrev head_of : ℕ → Option ℕ
head_of n = if n == 0 then none else some (n + 1)

many_free-FreeFrom : (n : ℕ) → n ≤ 80 → FreeFrom many_pages 100 (head_of n) (many_free n)
unfolding many_free
many_free-FreeFrom zero le = refl
many_free-FreeFrom (suc n) le =
    let link : (many_pages (n + 2)).pp_link ≡ head_of n = ground arith in
    (
      ground arith,
      omega arith,
      refl,
      above-many_free n (n + 2) (omega arith),
      rw link (many_free-FreeFrom n (omega arith)),
    )

in-many_free : (n i : ℕ) → 2 ≤ i → i < n + 2 → has i (many_free n) ≡ true
unfolding many_free
in-many_free zero i le lt = absurd (omega arith)
in-many_free (suc n) i le lt = elim (Bool-cases (n + 2 == i)) [
  | inl here ↦ rw here refl
  | inr later ↦ rw later (in-many_free n i le (ground arith))
]

many-IsPool : IsPool many (many_free 80)
many-IsPool = record {
  chain = many_free-FreeFrom 80 (omega arith);
  used_unlinked = λ i out. ground (arith, in-many_free 80 i);
  small = omega arith;
}

many-CanMap : CanMap many 1 (kva_of 2) 0xf010_d000 (many_free 80)
unfolding many_free
many-CanMap = record {
  pool = many-IsPool;
  in_use = refl;
  enough = omega arith;
  empty = λ i lt out. refl;
  pages_aligned = refl;
  pages_high = omega arith;
  pages_fit = omega arith;
  stack_aligned = refl;
  stack_high = omega arith;
  stack_fits = omega arith;
}

map_kernel-Layout_example :
    (s' : Kernel) × (ys : List ℕ) × (map_kernel (kva_of 1) (kva_of 2) 0xf010_d000 many ≡ ok tt s')
    × IsPool s' ys
    × IsDirectory s' 1 self ys
    × (dir s' 1 self ≡ dir many 1 self)
    × Layout s' 1 (kva_of 2) 0xf010_d000
map_kernel-Layout_example =
    map_kernel-Layout many 1 (kva_of 2) 0xf010_d000 (many_free 80) many-CanMap

many-IsDirectory : IsDirectory many 1 self (many_free 80)
unfolding many_free
many-IsDirectory = record {
  in_use = refl;
  in_range = λ i lt out here. absurd (omega (arith, here));
  apart = λ i lt out here. absurd (omega (arith, here));
  taken = λ i lt out here. absurd (omega (arith, here));
  distinct = λ i j lt lt' out out' ne here here'. absurd (omega (arith, here));
  small = omega arith;
}

-- Before the mapping, page 0 of the array is not mapped.
many-FirstWrong : FirstWrong many 1 (kva_of 2) 0 no_pa
many-FirstWrong = record {
  in_array = omega arith;
  few = omega arith;
  before = λ j lt. absurd (omega arith);
  found = check_va2pa-word many 1 self upages (many_free 80) many-IsDirectory (omega arith);
  wrong = omega arith;
}

check_kern_pgdir-map_kernel_example :
    ((map_kernel (kva_of 1) (kva_of 2) 0xf010_d000
          >> check_kern_pgdir (kva_of 1) (kva_of 2) envs_null 0xf010_d000)
        many
      ≡ panic paddr_invalid)
    × (check_kern_pgdir (kva_of 1) (kva_of 2) envs_null 0xf010_d000 many ≡ panic assertion_failed)
check_kern_pgdir-map_kernel_example =
    check_kern_pgdir-map_kernel many many 1 (kva_of 2) 0xf010_d000 0 no_pa (many_free 80)
      many-CanMap many-FirstWrong

-- 10000 bytes, three pages, across the border of two page tables.
low-IsRegion : IsRegion 1 self pte_w 1 (pages_of 10000) 0x3f_f000 0x5000
low-IsRegion = record {
  aligned = refl;
  va_fits = omega arith;
  pa_fits = omega arith;
  reach = omega arith;
  not_exempt = λ vb lo hi. omega arith;
}

boot_map_region-RegionMapped_example :
    (s' : Kernel) × (ys : List ℕ) × RegionMapped many s' 1 self 1 0x3f_f000 10000 0x5000 pte_w ys
unfolding many_free
boot_map_region-RegionMapped_example =
    boot_map_region-RegionMapped 1 self pte_w 1 0x3f_f000 10000 0x5000 low-IsRegion refl
      (omega arith) many (many_free 80) many-IsDirectory many-IsPool (inl (omega arith))
