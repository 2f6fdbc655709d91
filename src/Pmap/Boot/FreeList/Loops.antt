-- ===== src/Pmap/Boot/FreeList/Loops.antt =====
-- The loops of check_page_free_list.
use mit6_828_lab.Base.{
  ℕ, zero, suc, ◌+◌, ◌-◌, ◌*◌, ◌^◌, ◌≤◌, ◌<◌, ◌≡◌, ◌≢◌, ◌⊎◌, refl, inl, inr, true, false, Option,
  List, [], ◌∷◌, ◌==◌, ==_refl, ◌&&◌, ltb, leb, if◌then◌else◌, arith, length, Bool-cases,
}
use mit6_828_lab.Mmu.Macros.{pdx, pgsize, iophysmem, extphysmem}
use mit6_828_lab.Pmap.Kernel.{Kernel, ok, ◌>>=◌, ◌>>◌, kva_of, page2pa, page2kva_lem}
use mit6_828_lab.Pmap.Alloc.Pool.{FreeFrom}
use mit6_828_lab.Pmap.Alloc.Order.Segment.{count}
use mit6_828_lab.Pmap.Boot.FreeList.{poison, check_free_page, check_pages}

-- A page that may be on the list: not page 0, not one of those that the test names, and in extended memory not below `first`.
pub record MayBeFree (first i : ℕ) : Type 0 where
  pub not_first : i ≢ 0
  pub not_io : i ≢ 160
  pub not_last_io : i ≢ 255
  pub not_ext : i ≢ 256
  pub behind : (i < 256) ⊎ (first ≤ kva_of i)

pub page2pa_lem : (i n : ℕ) → i < n → n ≤ 2 ^ 16 → page2pa i ≡ i * 4096
page2pa_lem i n lt small = omega arith

check_free_page-passes :
    (first i : ℕ) (s : Kernel)
    → i < s.npages
    → s.npages ≤ 2 ^ 16
    → MayBeFree first i
    → check_free_page first i s ≡ ok tt s
unfolding check_free_page
check_free_page-passes first i s lt small good =
    let pa = page2pa_lem i s.npages lt small in
    let a1 : (page2pa i == 0) ≡ false = ground (arith, pa, good.not_first) in
    let a2 : (page2pa i == iophysmem) ≡ false = ground (arith, pa, good.not_io) in
    let a3 : (page2pa i == extphysmem - pgsize) ≡ false = ground (arith, pa, good.not_last_io) in
    let a4 : (page2pa i == extphysmem) ≡ false = ground (arith, pa, good.not_ext) in
    let inside : ltb i s.npages ≡ true = ground arith in
    elim (Bool-cases (ltb (page2pa i) extphysmem)) [
      | inl base ↦ rw (◌>>◌, ◌>>=◌, inside, a1, a2, a3, a4, base) refl
      | inr ext ↦
          let above : leb first (kva_of i) ≡ true = ground (arith, pa, ext, good.behind) in
          rw (◌>>◌, ◌>>=◌, inside, a1, a2, a3, a4, ext, page2kva_lem i s lt small, above) refl
    ]

pub poison-memory :
    (n limit : ℕ) (p : Option ℕ) (xs : List ℕ) (s : Kernel)
    → FreeFrom s.pages s.npages p xs
    → s.npages ≤ 2 ^ 16
    → length xs < n
    → (m : ℕ → ℕ) × (poison n limit p s ≡ ok tt (record s { mem = m }))
unfolding poison
poison-memory zero limit p xs s c small enough = absurd (omega arith)
poison-memory (suc n) limit p [] s c small enough = (s.mem, rw c refl)
poison-memory (suc n) limit p (x ∷ xs) s c small enough =
    elim (Bool-cases (leb limit (pdx (page2pa x)))) [
      | inl high ↦
          let (m, run) = poison-memory n limit (s.pages x).pp_link xs s c.4 small (omega arith) in
          (m, rw (c.0, poison, high) run)
      | inr low ↦
          let s1 = record s {
            mem = λ a. if leb (kva_of x) a && ltb a (kva_of x + 128) then 0x9797_9797 else s.mem a;
          } in
          let (m, run) = poison-memory n limit (s.pages x).pp_link xs s1 c.4 small (omega arith) in
          (m, rw (c.0, poison, low, ◌>>=◌, page2kva_lem x s c.1 small) run)
    ]

-- How many pages of the list are in base memory, and how many are not.
abbrev pub base_pages : List ℕ → ℕ
base_pages [] = 0
base_pages (x ∷ xs) = (if ltb (page2pa x) extphysmem then 1 else 0) + base_pages xs

abbrev pub ext_pages : List ℕ → ℕ
ext_pages [] = 0
ext_pages (x ∷ xs) = (if ltb (page2pa x) extphysmem then 0 else 1) + ext_pages xs

pub check_pages-passes :
    (n first : ℕ) (p : Option ℕ) (xs : List ℕ) (nb ne : ℕ) (s : Kernel)
    → FreeFrom s.pages s.npages p xs
    → s.npages ≤ 2 ^ 16
    → ((i : ℕ) → 1 ≤ count i xs → MayBeFree first i)
    → length xs < n
    → check_pages n first p nb ne s ≡ ok (nb + base_pages xs, ne + ext_pages xs) s
unfolding check_pages
check_pages-passes zero first p xs nb ne s c small good enough = absurd (omega arith)
check_pages-passes (suc n) first p [] nb ne s c small good enough =
    let b : nb + 0 ≡ nb = omega arith in let e : ne + 0 ≡ ne = omega arith in rw (c, b, e) refl
check_pages-passes (suc n) first p (x ∷ xs) nb ne s c small good enough =
    let here : MayBeFree first x = good x (rw (==_refl x) (omega arith)) in
    let db : ℕ = if ltb (page2pa x) extphysmem then 1 else 0 in
    let de : ℕ = if ltb (page2pa x) extphysmem then 0 else 1 in
    let rest =
      check_pages-passes n first (s.pages x).pp_link xs (nb + db) (ne + de) s c.4 small
        (λ i on. good i (omega (arith, on))) (omega arith) in
    let b : nb + (db + base_pages xs) ≡ nb + db + base_pages xs = omega arith in
    let e : ne + (de + ext_pages xs) ≡ ne + de + ext_pages xs = omega arith in
    rw (c.0, check_pages, ◌>>=◌, check_free_page-passes first x s c.1 small here, b, e) rest
