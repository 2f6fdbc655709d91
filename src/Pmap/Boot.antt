-- ===== src/Pmap/Boot.antt =====
-- The code of kern/pmap.c that runs before the page allocator: i386_detect_memory, boot_alloc,
-- page_init. The registers of the real-time clock (kern/kclock.c reads them by port I/O) and the
-- linker's symbol `end` are parameters.
pub mod Init
pub mod FreeList
pub mod Checked
use mit6_828_lab.Base.{
  ℕ, zero, suc, ◌+◌, ◌*◌, ◌/◌, ◌%◌, ◌^◌, none, some, ◌==◌, leb, ◌&&◌, bit_or, if◌then◌else◌,
}
use mit6_828_lab.Mmu.Macros.{pgsize, iophysmem, roundup}
use mit6_828_lab.Pmap.Kernel.{
  PageInfo, Kernel, M, ok, pure, ◌>>=◌, ◌>>◌, set_link, set_ref, set_free_list, paddr,
}

-- NVRAM_BASELO, NVRAM_EXTLO, NVRAM_EXT16LO: MC_NVRAM_START is 14.
abbrev pub nvram_baselo : ℕ
nvram_baselo = 0x0e + 7

abbrev pub nvram_extlo : ℕ
nvram_extlo = 0x0e + 9

abbrev pub nvram_ext16lo : ℕ
nvram_ext16lo = 0x0e + 38

module _ (cmos : ℕ → ℕ) where
  unfoldable pub nvram_read : ℕ → ℕ
  nvram_read r = bit_or (cmos r) (cmos (r + 1) * 2 ^ 8)

  -- In kilobytes.
  pub totalmem : ℕ
  unfolding nvram_read
  totalmem =
      if nvram_read nvram_ext16lo * 64 == 0
      then (if nvram_read nvram_extlo == 0
          then nvram_read nvram_baselo
          else 1 * 1024 + nvram_read nvram_extlo)
      else 16 * 1024 + nvram_read nvram_ext16lo * 64

  pub i386_detect_memory : M (Unit {0})
  unfolding totalmem
  i386_detect_memory s = ok tt (record s {
    npages = totalmem / (pgsize / 1024);
    npages_basemem = nvram_read nvram_baselo / (pgsize / 1024);
  })

-- The address is returned; `nextfree` is 0 before the first call.
pub boot_alloc : (end n : ℕ) → M ℕ
boot_alloc end n s =
    let result = if s.nextfree == 0 then roundup end pgsize else s.nextfree in
    ok result (record s { nextfree = roundup ((result + n) % 2 ^ 32) pgsize })

-- The body of page_init's loop at page `i`.
pub init_page : (first i : ℕ) → M (Unit {0})
init_page first i s =
    if i == 0
    then set_ref i 1 s
    else (if leb iophysmem (i * pgsize % 2 ^ 32) && leb (i * pgsize % 2 ^ 32) first
        then set_ref i 1 s
        else (do set_ref i 0; set_link i s.page_free_list; set_free_list (some i)) s)

-- `for (i = 0; i < npages; i++)`, with the rounds left.
pub init_pages : (first rounds i : ℕ) → M (Unit {0})
init_pages first zero i s = ok tt s
init_pages first (suc n) i s = (do init_page first i; init_pages first n (i + 1)) s

pub page_init : (end : ℕ) → M (Unit {0})
page_init end s =
    (do
      set_free_list none
      next ← boot_alloc end 0
      first ← paddr next
      init_pages first s.npages 0)
      s
