-- ===== src/Pmap/Boot/FreeList/Tests.antt =====
-- A machine whose free list starts with a high page, and check_page_free_list on it.
use mit6_828_lab.Base.{ℕ, ◌≡◌, refl, true, some, none, [], ◌∷◌, ◌==◌, if◌then◌else◌, arith}
use mit6_828_lab.Pmap.Kernel.{Kernel, ok, kva_of}
use mit6_828_lab.Pmap.Alloc.Pool.{IsPool}
use mit6_828_lab.Pmap.Alloc.Decref.{ref}
use mit6_828_lab.Pmap.Boot.FreeList.{check_page_free_list}
use mit6_828_lab.Pmap.Boot.FreeList.Passes.{IsBootList, check_page_free_list-passes}

-- Pages 1500, 3 and 2 are free; the first is above 4 megabytes.
abbrev machine : Kernel
machine = record {
  npages = 2000;
  npages_basemem = 160;
  nextfree = kva_of 300;
  pages = λ i. record {
    pp_link = if i == 1500 then some 3 else (if i == 3 then some 2 else none);
    pp_ref = if i == 1500 then 0 else (if i == 3 then 0 else (if i == 2 then 0 else 1));
  };
  page_free_list = some 1500;
  mem = λ a. 0;
  invalidated = [];
}

machine-IsPool : IsPool machine (1500 ∷ 3 ∷ 2 ∷ [])
machine-IsPool = record {
  chain = (
    refl,
    omega arith,
    refl,
    refl,
    (refl, omega arith, refl, refl, (refl, omega arith, refl, refl, refl)),
  );
  used_unlinked = λ i out. ground arith;
  small = omega arith;
}

machine-IsBootList : IsBootList (kva_of 300) (1500 ∷ 3 ∷ 2 ∷ []) 2 1500
machine-IsBootList = record {
  may_be_free = λ k on. record {
    not_first = λ e. ground (arith, on, e);
    not_io = λ e. ground (arith, on, e);
    not_last_io = λ e. ground (arith, on, e);
    not_ext = λ e. ground (arith, on, e);
    behind = ground (arith, on);
  };
  base = (omega arith, omega arith);
  ext = (omega arith, omega arith);
}

check_page_free_list-passes_example :
    (s' : Kernel) × (check_page_free_list 4 0 true machine ≡ ok tt s')
    × IsPool s' (3 ∷ 2 ∷ 1500 ∷ [])
    × ((k : ℕ) → ref s' k ≡ ref machine k)
check_page_free_list-passes_example =
    check_page_free_list-passes 4 0 2 1500 true (1500 ∷ 3 ∷ 2 ∷ []) machine machine-IsPool
      (omega arith) (omega arith) machine-IsBootList
