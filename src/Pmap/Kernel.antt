-- ===== src/Pmap/Kernel.antt =====
-- The state that kern/pmap.c keeps, and the commands that its functions are made of.
-- A `struct PageInfo *` is the page's index in `pages` (NULL is `none`); every other pointer is the
-- kernel virtual address itself. `mem` holds the 32-bit words at word-aligned kernel addresses.
use mit6_828_lab.Base.{
  ℕ, ◌+◌, ◌-◌, ◌*◌, ◌/◌, ◌%◌, ◌^◌, ◌≤◌, ◌<◌, ◌≡◌, arith, Option, List, ltb, leb, ◌==◌, ◌&&◌,
  if◌then◌else◌,
}
use mit6_828_lab.Mmu.Macros.{kernbase, pgsize, pgnum}

-- `pp_ref` is a uint16_t.
pub record PageInfo : Type 0 where
  pub pp_link : Option ℕ
  pub pp_ref : ℕ

-- `nextfree` is the static variable of `boot_alloc` (0 before its first call); `invalidated` lists
-- the addresses given to `invlpg`, latest first.
pub record Kernel : Type 0 where
  pub npages : ℕ
  pub npages_basemem : ℕ
  pub nextfree : ℕ
  pub pages : ℕ → PageInfo
  pub page_free_list : Option ℕ
  pub mem : ℕ → ℕ
  pub invalidated : List ℕ

-- The calls of `panic`, by their messages, a failed `assert`, and a load through NULL. `endless` is none of them: a loop over the free list that
-- has not come to its end.
pub data Panic : Type 0 where
  paddr_invalid kaddr_invalid pa2page_invalid page_in_use out_of_memory : Panic
  assertion_failed null_pages null_free_list null_pointer endless : Panic

pub data Run (A : Type 0) : Type 0 where
  ok : A → Kernel → Run A
  panic : Panic → Run A

abbrev pub M : Type 0 → Type 0
M A = Kernel → Run A

abbrev pub pure : {A : Type 0} → A → M A
pure a s = ok a s

infixl 5 ◌>>=◌ ◌>>◌
abbrev pub ◌>>=◌ : {A B : Type 0} → M A → (A → M B) → M B
◌>>=◌ m f s = elim (m s) [ ok a s' ↦ f a s' | panic e ↦ panic e ]

abbrev pub ◌>>◌ : {B : Type 0} → M (Unit {0}) → M B → M B
m >> k = m >>= λ _. k

-- Field writes through a `struct PageInfo *`.
abbrev pub with_link : Option ℕ → PageInfo → PageInfo
with_link l p = record p { pp_link = l }

abbrev pub with_ref : ℕ → PageInfo → PageInfo
with_ref n p = record p { pp_ref = n }

abbrev pub set_page : ℕ → PageInfo → (ℕ → PageInfo) → ℕ → PageInfo
set_page i v pages j = if i == j then v else pages j

abbrev pub set_link : ℕ → Option ℕ → M (Unit {0})
set_link i l s = ok tt (record s { pages = set_page i (with_link l (s.pages i)) s.pages })

abbrev pub set_ref : ℕ → ℕ → M (Unit {0})
set_ref i n s = ok tt (record s { pages = set_page i (with_ref n (s.pages i)) s.pages })

abbrev pub set_free_list : Option ℕ → M (Unit {0})
set_free_list l s = ok tt (record s { page_free_list = l })

-- A word of memory, and `memset(p, 0, PGSIZE)` on whole words.
abbrev pub load : ℕ → M ℕ
load p s = ok (s.mem p) s

abbrev pub store : ℕ → ℕ → M (Unit {0})
store p v s = ok tt (record s { mem = λ a. if p == a then v else s.mem a })

abbrev pub zeroed : ℕ → (ℕ → ℕ) → ℕ → ℕ
zeroed p mem a = if leb p a && ltb a (p + pgsize) then 0 else mem a

abbrev pub zero_page : ℕ → M (Unit {0})
zero_page p s = ok tt (record s { mem = zeroed p s.mem })

-- PADDR and KADDR. Pointer sums are taken in 32 bits.
unfoldable pub paddr : ℕ → M ℕ
paddr kva s = if ltb kva kernbase then panic paddr_invalid else ok (kva - kernbase) s

unfoldable pub kaddr : ℕ → M ℕ
kaddr pa s =
    if leb s.npages (pgnum pa) then panic kaddr_invalid else ok ((pa + kernbase) % 2 ^ 32) s

-- (pp - pages) << PGSHIFT
abbrev pub page2pa : ℕ → ℕ
page2pa pp = pp * 2 ^ 12 % 2 ^ 32

unfoldable pub pa2page : ℕ → M ℕ
pa2page pa s = if leb s.npages (pgnum pa) then panic pa2page_invalid else ok (pgnum pa) s

unfoldable pub page2kva : ℕ → M ℕ
unfolding kaddr
page2kva pp = kaddr (page2pa pp)

-- The kernel virtual address of page `pp`, in a machine within the limit of 256 MB.
abbrev pub kva_of : ℕ → ℕ
kva_of pp = pp * 4096 + kernbase

pub page2kva_lem :
    (pp : ℕ) (s : Kernel) → pp < s.npages → s.npages ≤ 2 ^ 16 → page2kva pp s ≡ ok (kva_of pp) s
unfolding page2kva
page2kva_lem pp s h small =
    let pa : pp * 2 ^ 12 % 2 ^ 32 ≡ pp * 4096 = omega arith in
    let page : pp * 4096 / 2 ^ 12 ≡ pp = omega arith in
    let fits : (pp * 4096 + kernbase) % 2 ^ 32 ≡ pp * 4096 + kernbase = omega arith in
    rw (pa, page, fits) (ground arith)

pub paddr_lem : (kva : ℕ) (s : Kernel) → kernbase ≤ kva → paddr kva s ≡ ok (kva - kernbase) s
unfolding paddr
paddr_lem kva s h = ground arith

-- KADDR of an address in page `n` of the machine.
pub kaddr_lem :
    (pa : ℕ) (s : Kernel)
    → pgnum pa < s.npages
    → s.npages ≤ 2 ^ 16
    → kaddr pa s ≡ ok (pa + kernbase) s
unfolding kaddr
kaddr_lem pa s h small =
    let fits : (pa + kernbase) % 2 ^ 32 ≡ pa + kernbase = omega arith in rw fits (ground arith)

pub pa2page_lem : (pa : ℕ) (s : Kernel) → pgnum pa < s.npages → pa2page pa s ≡ ok (pgnum pa) s
unfolding pa2page
pa2page_lem pa s h = ground arith
