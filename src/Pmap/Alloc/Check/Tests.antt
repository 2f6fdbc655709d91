-- ===== src/Pmap/Alloc/Check/Tests.antt =====
-- A machine with three free pages, and check_page_alloc on it.
use mit6_828_lab.Base.{◌≡◌, refl, none, some, [], ◌∷◌, ◌==◌, if◌then◌else◌, arith}
use mit6_828_lab.Pmap.Kernel.{Kernel, ok, kva_of}
use mit6_828_lab.Pmap.Alloc.Pool.{IsPool}
use mit6_828_lab.Pmap.Alloc.Check.{check_page_alloc}
use mit6_828_lab.Pmap.Alloc.Check.Passes.{Restored, check_page_alloc-Restored}

-- Six pages: 4, 2 and 1 are free.
abbrev machine : Kernel
machine = record {
  npages = 6;
  npages_basemem = 0;
  nextfree = kva_of 7;
  pages = λ i. record {
    pp_link = if i == 4 then some 2 else (if i == 2 then some 1 else none);
    pp_ref = if i == 4 then 0 else (if i == 2 then 0 else (if i == 1 then 0 else 1));
  };
  page_free_list = some 4;
  mem = λ a. 7;
  invalidated = [];
}

machine-IsPool : IsPool machine (4 ∷ 2 ∷ 1 ∷ [])
machine-IsPool = record {
  chain = (
    refl,
    omega arith,
    refl,
    refl,
    (refl, omega arith, refl, refl, (refl, omega arith, refl, refl, refl)),
  );
  used_unlinked = λ i out. ground arith;
  small = omega arith;
}

check_page_alloc-Restored_example :
    (s' : Kernel) × (check_page_alloc 4 0xf011_9000 machine ≡ ok tt s')
    × Restored machine s' 1 (4 ∷ 2 ∷ 1 ∷ [])
check_page_alloc-Restored_example =
    check_page_alloc-Restored 4 0xf011_9000 4 2 1 [] machine (λ h. omega arith) machine-IsPool
      (omega arith)
