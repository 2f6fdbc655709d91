-- ===== src/Pmap/Table/Entry.antt =====
-- The words of page directories and tables: an address of a page with flags in its low 12 bits.
use mit6_828_lab.Base.{ℕ, ◌*◌, ◌/◌, ◌%◌, ◌^◌, ◌<◌, ◌≡◌, arith, false, true, ◌==◌, bit_and, bit_or}
use mit6_828_lab.Base.Bits.{bit_or-shift, bit_or-zero, bit_or-parity, bit_and-one}
use mit6_828_lab.Mmu.Macros.{pte_p, pte_w, pte_u}

-- The word has PTE_P.
abbrev pub IsPresent : ℕ → Type 0
IsPresent w = w % 2 ≡ 1

pub present_test : (w : ℕ) → IsPresent w → (bit_and w pte_p == 0) ≡ false
present_test w h = ground (arith, bit_and-one w)

pub absent_test : (w : ℕ) → w % 2 ≡ 0 → (bit_and w pte_p == 0) ≡ true
absent_test w h = ground (arith, bit_and-one w)

-- Flags do not change the page.
pub page-bit_or : (w f : ℕ) → f < 4096 → bit_or w f / 2 ^ 12 ≡ w / 2 ^ 12
page-bit_or w f h =
    let low : f / 2 ^ 12 ≡ 0 = omega arith in
    rw (bit_or-shift 12 w f, low) (bit_or-zero (w / 2 ^ 12))

-- A page directory's entry for table page `x`: present, and of that page.
pub table_entry :
    (x : ℕ)
    → IsPresent (bit_or (bit_or (bit_or (x * 4096) pte_p) pte_w) pte_u)
      × (bit_or (bit_or (bit_or (x * 4096) pte_p) pte_w) pte_u / 2 ^ 12 ≡ x)
table_entry x = (
  omega (
    arith,
    bit_or-parity (bit_or (bit_or (x * 4096) pte_p) pte_w) pte_u,
    bit_or-parity (bit_or (x * 4096) pte_p) pte_w,
    bit_or-parity (x * 4096) pte_p,
  ),
  omega (
    arith,
    page-bit_or (bit_or (bit_or (x * 4096) pte_p) pte_w) pte_u (omega arith),
    page-bit_or (bit_or (x * 4096) pte_p) pte_w (omega arith),
    page-bit_or (x * 4096) pte_p (omega arith),
  ),
)

-- page2pa(pp) | perm | PTE_P: present, of page `pp`, whatever the permissions.
pub page_entry :
    (pp perm : ℕ)
    → perm < 4096
    → IsPresent (bit_or (bit_or (pp * 4096) perm) pte_p)
      × (bit_or (bit_or (pp * 4096) perm) pte_p / 2 ^ 12 ≡ pp)
page_entry pp perm h = (
  omega (arith, bit_or-parity (bit_or (pp * 4096) perm) pte_p),
  omega (
    arith,
    page-bit_or (bit_or (pp * 4096) perm) pte_p (omega arith),
    page-bit_or (pp * 4096) perm h,
  ),
)
