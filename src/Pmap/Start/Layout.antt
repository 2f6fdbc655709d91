-- ===== src/Pmap/Start/Layout.antt =====
-- The address space that mem_init's three calls of boot_map_region build.
use mathlib.Core.Path.{subst}
use mit6_828_lab.Base.{
  ℕ, ◌+◌, ◌-◌, ◌*◌, ◌%◌, ◌^◌, ◌≤◌, ◌<◌, ◌≡◌, ◌≢◌, ◌⊎◌, inl, inr, refl, ◌∙◌, false, List, arith,
  bit_or, length, has,
}
use mit6_828_lab.Mmu.Macros.{
  ptsize, kernbase, kstacktop, kstksize, upages, uvpt, pdx, pte_p, pte_w, pte_u, pte_addr,
}
use mit6_828_lab.Pmap.Kernel.{Kernel, ok, ◌>>=◌, ◌>>◌, kva_of, paddr_lem}
use mit6_828_lab.Pmap.Alloc.Pool.{IsPool}
use mit6_828_lab.Pmap.Table.{check_va2pa, no_pa}
use mit6_828_lab.Pmap.Table.Region.Directory.{dir, word, entry_none, IsDirectory}
use mit6_828_lab.Pmap.Table.Region.Loop.{IsRegion}
use mit6_828_lab.Pmap.Table.Region.Maps.{
  pages_of, RegionMapped, boot_map_region-RegionMapped, check_va2pa-entry, check_va2pa-absent,
}
use mit6_828_lab.Pmap.Start.{map_kernel}

-- The entry at which the kernel's directory is its own table.
abbrev pub self : ℕ
self = pdx uvpt

-- `a` is mapped to `p` with the flags `perm`.
abbrev pub Maps : Kernel → (d a p perm : ℕ) → Type 0
Maps s d a p perm =
    (word s d a ≡ bit_or (bit_or p pte_p) perm) × (check_va2pa (kva_of d) a s ≡ ok p s)

-- The regions of inc/memlayout.h at UPAGES, below KSTACKTOP and from KERNBASE on; and nothing elsewhere, but for the window at
-- UVPT, through which the directory itself is seen.
pub record Layout (s : Kernel) (d pages bootstack : ℕ) : Type 0 where
  pub at_upages :
      (a : ℕ)
      → upages ≤ a
      → a < upages + ptsize
      → Maps s d a (pte_addr (pages - kernbase + (a - upages))) (bit_or pte_u pte_p)
  pub at_stack :
      (a : ℕ)
      → kstacktop - kstksize ≤ a
      → a < kstacktop
      → Maps s d a
          (pte_addr (bootstack - kernbase + (a - (kstacktop - kstksize))))
          (bit_or pte_w pte_p)
  pub at_kernbase :
      (a : ℕ)
      → kernbase ≤ a
      → a < 2 ^ 32
      → Maps s d a (pte_addr (a - kernbase)) (bit_or pte_w pte_p)
  pub below : (a : ℕ) → a < upages → check_va2pa (kva_of d) a s ≡ ok no_pa s
  pub between :
      (a : ℕ)
      → upages + ptsize ≤ a
      → a < kstacktop - kstksize
      → pdx a ≢ self
      → check_va2pa (kva_of d) a s ≡ ok no_pa s

-- Where the directory has but its own entry, there is a page for every table, and the linker puts bootstack, as boot_alloc
-- puts the array, on a page boundary above KERNBASE.
pub record CanMap (s : Kernel) (d pages bootstack : ℕ) (xs : List ℕ) : Type 0 where
  pub pool : IsPool s xs
  pub in_use : has d xs ≡ false
  pub enough : 66 ≤ length xs
  pub empty : (i : ℕ) → i < 1024 → i ≢ self → dir s d i ≡ 0
  pub pages_aligned : pages % 4096 ≡ 0
  pub pages_high : kernbase ≤ pages
  pub pages_fit : pages < 2 ^ 32
  pub stack_aligned : bootstack % 4096 ≡ 0
  pub stack_high : kernbase ≤ bootstack
  pub stack_fits : bootstack < 2 ^ 32

module _ (s : Kernel) (d pages bootstack : ℕ) (xs : List ℕ)
    (can : CanMap s d pages bootstack xs) where
  empty-IsDirectory : IsDirectory s d self xs
  empty-IsDirectory = record {
    in_use = can.in_use;
    in_range = λ i lt out here. absurd (omega (arith, here, can.empty i lt out));
    apart = λ i lt out here. absurd (omega (arith, here, can.empty i lt out));
    taken = λ i lt out here. absurd (omega (arith, here, can.empty i lt out));
    distinct =
        λ i j lt lt' out out' ne here here'. absurd (omega (arith, here, can.empty i lt out));
    small = can.pool.small;
  }

  empty-word : (a : ℕ) → pdx a ≢ self → word s d a ≡ 0
  empty-word a out = entry_none s d _ _ (rw (can.empty (pdx a) (omega arith) out) refl)

  pages-IsRegion :
      IsRegion d self (bit_or pte_u pte_p) 1021 (pages_of ptsize) upages (pages - kernbase)
  pages-IsRegion = record {
    aligned = refl;
    va_fits = omega arith;
    pa_fits = omega (arith, can.pages_fit);
    reach = omega arith;
    not_exempt = λ vb lo hi. omega arith;
  }

  stack-IsRegion :
      IsRegion d self
        (bit_or pte_w pte_p)
        1023
        (pages_of kstksize)
        (kstacktop - kstksize)
        (bootstack - kernbase)
  stack-IsRegion = record {
    aligned = refl;
    va_fits = omega arith;
    pa_fits = omega (arith, can.stack_fits);
    reach = omega arith;
    not_exempt = λ vb lo hi. omega arith;
  }

  memory-IsRegion :
      IsRegion d self (bit_or pte_w pte_p) 1023 (pages_of (0xffff_ffff - kernbase)) kernbase 0
  memory-IsRegion = record {
    aligned = refl;
    va_fits = omega arith;
    pa_fits = omega arith;
    reach = omega arith;
    not_exempt = λ vb lo hi. omega arith;
  }

  module _ (s1 s2 s3 : Kernel) (ys zs ws : List ℕ)
      (r1 : RegionMapped s s1 d self 1021 upages ptsize (pages - kernbase) (bit_or pte_u pte_p) ys)
      (r2 : RegionMapped s1 s2 d self 1023
        (kstacktop - kstksize)
        kstksize
        (bootstack - kernbase)
        (bit_or pte_w pte_p)
        zs)
      (r3 : RegionMapped s2 s3 d self 1023 kernbase
        (0xffff_ffff - kernbase)
        0
        (bit_or pte_w pte_p)
        ws) where
    three-run : map_kernel (kva_of d) pages bootstack s ≡ ok tt s3
    unfolding map_kernel
    three-run =
        rw
          (
            paddr_lem pages s can.pages_high,
            ◌>>=◌,
            ◌>>◌,
            r1.run,
            paddr_lem bootstack s1 can.stack_high,
            r2.run,
          )
          r3.run

    -- An address in no region is not mapped.
    nowhere :
        (a : ℕ)
        → pdx a ≢ self
        → (a < upages) ⊎ ((upages + ptsize ≤ a) × (a < kstacktop - kstksize))
        → check_va2pa (kva_of d) a s3 ≡ ok no_pa s3
    nowhere a out away =
        let above : a < kernbase = elim away [
          | inl low ↦ omega arith
          | inr mid ↦ omega (arith, mid.1)
        ] in
        let under : a < kstacktop - kstksize = elim away [
          | inl low ↦ omega arith
          | inr mid ↦ mid.1
        ] in
        let not_pages : (a < upages) ⊎ (upages + pages_of ptsize * 4096 ≤ a) = elim away [
          | inl low ↦ inl low
          | inr mid ↦ inr (omega (arith, mid.0))
        ] in
        check_va2pa-absent s3 d self a ws r3.directory out (
          (r3.outside a (omega arith) out (inl above)).0
          ∙ (r2.outside a (omega arith) out (inl under)).0
          ∙ (r1.outside a (omega arith) out not_pages).0
          ∙ empty-word a out)

    three-Layout : Layout s3 d pages bootstack
    three-Layout = record {
      at_upages = λ a lo hi.
          let out : pdx a ≢ self = omega arith in
          let w =
            (r3.outside a (omega arith) out (inl (omega arith))).0
            ∙ (r2.outside a (omega arith) out (inl (omega arith))).0
            ∙ (r1.inside a lo (omega arith)).0 in
          (
            w,
            check_va2pa-entry s3 d self a (pte_addr (pages - kernbase + (a - upages)))
                (bit_or pte_u pte_p) ws r3.directory out (omega arith) (omega arith) w,
          );
      at_stack = λ a lo hi.
          let out : pdx a ≢ self = omega arith in
          let w =
            (r3.outside a (omega arith) out (inl (omega arith))).0
            ∙ (r2.inside a lo (omega arith)).0 in
          (
            w,
            check_va2pa-entry s3 d self a
                (pte_addr (bootstack - kernbase + (a - (kstacktop - kstksize))))
                (bit_or pte_w pte_p) ws r3.directory out (omega arith) (omega arith) w,
          );
      at_kernbase = λ a lo hi.
          let at : 0 + (a - kernbase) ≡ a - kernbase = omega arith in
          subst (λ p. Maps s3 d a (pte_addr p) (bit_or pte_w pte_p)) at
            (r3.inside a lo (omega arith));
      below = λ a lt. nowhere a (omega arith) (inl lt);
      between = λ a lo hi out. nowhere a out (inr (lo, hi));
    }

  -- The three calls of boot_map_region in mem_init return and map three of the regions that inc/memlayout.h draws: the page
  -- structs at UPAGES, readable by the user; the stack of KSTKSIZE bytes below KSTACKTOP; and all 256 megabytes from KERNBASE
  -- on, those of the last page included, for which the size is one byte short. Every other address, but for the 4 megabytes of
  -- UVPT, has no mapping: none below UPAGES, none from the end of the page structs to the stack, its guard and the region
  -- of memory-mapped I/O included. The directory's own entry, at UVPT, stays as it was. (The directory had that entry
  -- only, and 66 pages are free.)
  pub map_kernel-Layout :
      (s' : Kernel) × (ys : List ℕ) × (map_kernel (kva_of d) pages bootstack s ≡ ok tt s')
      × IsPool s' ys
      × IsDirectory s' d self ys
      × (dir s' d self ≡ dir s d self)
      × Layout s' d pages bootstack
  unfolding map_kernel
  map_kernel-Layout =
      let (s1, ys, r1) =
        boot_map_region-RegionMapped d self (bit_or pte_u pte_p) 1021 upages ptsize
          (pages - kernbase) pages-IsRegion (omega (arith, can.pages_aligned)) (omega arith) s xs
          empty-IsDirectory can.pool (inl (omega (arith, can.enough))) in
      let (s2, zs, r2) =
        boot_map_region-RegionMapped d self (bit_or pte_w pte_p) 1023 (kstacktop - kstksize)
          kstksize (bootstack - kernbase) stack-IsRegion (omega (arith, can.stack_aligned))
          (omega arith) s1 ys r1.directory r1.pool (inl (omega (arith, r1.left 1023 refl))) in
      let (s3, ws, r3) =
        boot_map_region-RegionMapped d self (bit_or pte_w pte_p) 1023 kernbase
          (0xffff_ffff - kernbase) 0 memory-IsRegion refl (omega arith) s2 zs r2.directory r2.pool
          (inl (omega (arith, r2.left 7 refl))) in
      (
        s3,
        ws,
        three-run s1 s2 s3 ys zs ws r1 r2 r3,
        r3.pool,
        r3.directory,
        r3.own (omega arith) ∙ r2.own (omega arith) ∙ r1.own (omega arith),
        three-Layout s1 s2 s3 ys zs ws r1 r2 r3,
      )
