-- ===== src/Mmu/Macros.antt =====
-- The address macros of inc/mmu.h and inc/types.h, the constants of inc/memlayout.h.
use mit6_828_lab.Base.{ℕ, ◌+◌, ◌-◌, ◌*◌, ◌/◌, ◌%◌, ◌^◌, bit_or}

-- PGSIZE, PTSIZE, NPDENTRIES
abbrev pub pgsize : ℕ
pgsize = 4096

abbrev pub npdentries : ℕ
npdentries = 1024

abbrev pub ptsize : ℕ
ptsize = 4096 * 1024

abbrev pub kernbase : ℕ
kernbase = 0xf000_0000

abbrev pub iophysmem : ℕ
iophysmem = 0x0a_0000

abbrev pub extphysmem : ℕ
extphysmem = 0x10_0000

abbrev pub kstacktop : ℕ
kstacktop = kernbase

abbrev pub kstksize : ℕ
kstksize = 8 * pgsize

abbrev pub ulim : ℕ
ulim = kernbase - ptsize - ptsize

abbrev pub uvpt : ℕ
uvpt = ulim - ptsize

abbrev pub upages : ℕ
upages = uvpt - ptsize

abbrev pub utop : ℕ
utop = upages - ptsize

abbrev pub ustacktop : ℕ
ustacktop = utop - 2 * pgsize

abbrev pub pte_p : ℕ
pte_p = 1

abbrev pub pte_w : ℕ
pte_w = 2

abbrev pub pte_u : ℕ
pte_u = 4

-- The fields of a linear address.
abbrev pub pgnum : ℕ → ℕ
pgnum la = la / 2 ^ 12

abbrev pub pdx : ℕ → ℕ
pdx la = la / 2 ^ 22 % 1024

abbrev pub ptx : ℕ → ℕ
ptx la = la / 2 ^ 12 % 1024

abbrev pub pgoff : ℕ → ℕ
pgoff la = la % 4096

unfoldable pub pgaddr : ℕ → ℕ → ℕ → ℕ
pgaddr d t o = bit_or (bit_or (d * 2 ^ 22) (t * 2 ^ 12)) o

-- pte & ~0xFFF
abbrev pub pte_addr : ℕ → ℕ
pte_addr pte = pte - pte % 4096

-- ROUNDDOWN and ROUNDUP, whose sums are taken in uint32_t.
abbrev pub rounddown : ℕ → ℕ → ℕ
rounddown a n = a - a % n

abbrev pub roundup : ℕ → ℕ → ℕ
roundup a n = rounddown ((a + n + 2 ^ 32 - 1) % 2 ^ 32) n
