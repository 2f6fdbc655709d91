-- ===== src/Pmap/Table/Region/Maps.antt =====
-- boot_map_region as its callers see it, by check_va2pa.
use mit6_828_lab.Base.{
  ℕ, suc, ◌+◌, ◌-◌, ◌*◌, ◌/◌, ◌%◌, ◌^◌, ◌≤◌, ◌<◌, ◌≡◌, ◌≢◌, ◌⊎◌, refl, sym, ◌∙◌, List, arith,
  bit_or, length, ◌==◌, if◌then◌else◌, false,
}
use mit6_828_lab.Base.Bits.{bit_or-parity}
use mit6_828_lab.Mmu.Macros.{pdx, pgsize, pte_p, pte_addr}
use mit6_828_lab.Pmap.Kernel.{Kernel, ok, kva_of}
use mit6_828_lab.Pmap.Alloc.Pool.{IsPool}
use mit6_828_lab.Pmap.Table.{boot_map_region, check_va2pa, no_pa}
use mit6_828_lab.Pmap.Table.Entry.{IsPresent, page-bit_or}
use mit6_828_lab.Pmap.Table.Region.Directory.{dir, word, word-page, IsDirectory, check_va2pa-word}
use mit6_828_lab.Pmap.Table.Region.Walked.{Enough}
use mit6_828_lab.Pmap.Table.Region.Loop.{IsRegion, map_pages-Mapped}

-- The pages that `size` bytes take.
abbrev pub pages_of : ℕ → ℕ
pages_of size = (size + 4095) / 4096

-- Every address of the region is mapped to the one at the same distance from `pa`, with the flags; all others, but those
-- of the exempt entry, are mapped as before; that entry of the directory stays.
pub record RegionMapped (s s' : Kernel) (d exempt last va size pa perm : ℕ) (ys : List ℕ)
    : Type 0 where
  pub run : boot_map_region (kva_of d) va size pa perm s ≡ ok tt s'
  pub directory : IsDirectory s' d exempt ys
  pub pool : IsPool s' ys
  pub inside :
      (a : ℕ)
      → va ≤ a
      → a < va + pages_of size * 4096
      → (word s' d a ≡ bit_or (bit_or (pte_addr (pa + (a - va))) pte_p) perm)
        × (check_va2pa (kva_of d) a s' ≡ ok (pte_addr (pa + (a - va))) s')
  pub outside :
      (a : ℕ)
      → a < 2 ^ 32
      → pdx a ≢ exempt
      → (a < va) ⊎ (va + pages_of size * 4096 ≤ a)
      → (word s' d a ≡ word s d a)
        × (w : ℕ) × (check_va2pa (kva_of d) a s ≡ ok w s)
        × (check_va2pa (kva_of d) a s' ≡ ok w s')
  pub own : exempt < 1024 → dir s' d exempt ≡ dir s d exempt
  pub left : (k : ℕ) → suc k ≡ pages_of size → last ≤ pdx (va + k * 4096) + length ys

region_entry :
    (p perm : ℕ)
    → p % 4096 ≡ 0
    → perm < 4096
    → IsPresent (bit_or (bit_or p pte_p) perm) × (pte_addr (bit_or (bit_or p pte_p) perm) ≡ p)
region_entry p perm aligned fits = (
  omega (arith, bit_or-parity (bit_or p pte_p) perm, bit_or-parity p pte_p),
  omega (arith, aligned, page-bit_or (bit_or p pte_p) perm fits, page-bit_or p pte_p (omega arith)),
)

-- An address whose entry is `p|PTE_P|perm` translates to `p`.
pub check_va2pa-entry :
    (s : Kernel) (d exempt a p perm : ℕ) (xs : List ℕ)
    → IsDirectory s d exempt xs
    → pdx a ≢ exempt
    → p % 4096 ≡ 0
    → perm < 4096
    → word s d a ≡ bit_or (bit_or p pte_p) perm
    → check_va2pa (kva_of d) a s ≡ ok p s
check_va2pa-entry s d exempt a p perm xs wf out aligned fits w =
    let e = region_entry p perm aligned fits in
    let here : (word s d a % 2 == 0) ≡ false = rw w (ground (arith, e.0)) in
    check_va2pa-word s d exempt a xs wf out ∙ rw (here, w, e.1) refl

-- The entry 0 reads as ~0.
pub check_va2pa-absent :
    (s : Kernel) (d exempt a : ℕ) (xs : List ℕ)
    → IsDirectory s d exempt xs
    → pdx a ≢ exempt
    → word s d a ≡ 0
    → check_va2pa (kva_of d) a s ≡ ok no_pa s
check_va2pa-absent s d exempt a xs wf out w = check_va2pa-word s d exempt a xs wf out ∙ rw w refl

module _ (d exempt perm last va size pa : ℕ)
    (region : IsRegion d exempt perm last (pages_of size) va pa) (pa_aligned : pa % 4096 ≡ 0)
    (perm_fits : perm < 4096) where
  rounds_lem : (if size % pgsize == 0 then size / pgsize else size / pgsize + 1) ≡ pages_of size
  rounds_lem = ground arith

  -- boot_map_region on a directory whose tables are pages of their own, and a pool with a page for every table that the region needs:
  -- it returns, every address of the region, its last page filled up, translates to the physical address at the same distance
  -- from `pa`, with the given flags, and no other address translates otherwise than before, but for those of the entry at which
  -- the directory is its own table (`exempt`): that entry stays, but through it the new tables can be seen. (The region
  -- starts on page boundaries, stays below 4 gigabytes on both sides, and avoids that entry; the flags fit in 12 bits.)
  pub boot_map_region-RegionMapped :
      (s : Kernel) (xs : List ℕ)
      → IsDirectory s d exempt xs
      → IsPool s xs
      → Enough s d va last xs
      → (s' : Kernel) × (ys : List ℕ) × RegionMapped s s' d exempt last va size pa perm ys
  unfolding boot_map_region
  boot_map_region-RegionMapped s xs wf pool enough =
      let (s', ys, m) =
        map_pages-Mapped d exempt perm last (pages_of size) va pa xs s region wf pool enough in
      (
        s',
        ys,
        record {
          run = rw rounds_lem m.run;
          directory = m.directory;
          pool = m.pool;
          inside = λ a lo hi.
              let k : ℕ = (a - va) / 4096 in
              let page : (va + k * 4096) / 4096 ≡ a / 4096 = omega (arith, region.aligned) in
              let same : pa + k * 4096 ≡ pte_addr (pa + (a - va)) = omega (arith, pa_aligned) in
              let w : word s' d a ≡ bit_or (bit_or (pte_addr (pa + (a - va))) pte_p) perm =
                word-page s' d a (va + k * 4096) (sym page)
                ∙ m.mapped k (omega arith)
                ∙ rw same refl in
              (
                w,
                check_va2pa-entry s' d exempt a (pte_addr (pa + (a - va))) perm ys m.directory
                    (region.not_exempt a lo hi) (omega arith) perm_fits w,
              );
          outside = λ a fits out away. (
            m.others a fits out away,
            _,
            check_va2pa-word s d exempt a xs wf out,
            check_va2pa-word s' d exempt a ys m.directory out ∙ rw (m.others a fits out away) refl,
          );
          own = m.own;
          left = m.left;
        },
      )
