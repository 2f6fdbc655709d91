-- ===== src/Pmap/Alloc.antt =====
-- The physical page allocator of kern/pmap.c: page_alloc, page_free, page_decref.
pub mod Pool
pub mod Decref
pub mod Check
pub mod Order
use mit6_828_lab.Base.{
  ℕ, ◌+◌, ◌-◌, ◌%◌, ◌^◌, Option, none, some, ◌==◌, ◌&&◌, not, is_none, if◌then◌else◌,
}
use mit6_828_lab.Pmap.Kernel.{
  Kernel, M, Run, ok, panic, page_in_use, pure, ◌>>=◌, ◌>>◌, set_link, set_ref, set_free_list,
  zero_page, page2kva,
}

-- ALLOC_ZERO
abbrev pub alloc_zero : ℕ
alloc_zero = 1

-- `if (alloc_flags && ALLOC_ZERO)`: the logical and of the flags with 1.
clear_page : ℕ → ℕ → M (Unit {0})
clear_page flags pp =
    if not (flags == 0) && not (alloc_zero == 0)
    then (do kva ← page2kva pp; zero_page kva)
    else pure tt

-- What follows the test for NULL, at the head `pp` of the free list.
pub take_page : ℕ → ℕ → M (Option ℕ)
unfolding clear_page
take_page flags pp s =
    (do set_free_list (s.pages pp).pp_link; set_link pp none; clear_page flags pp; pure (some pp)) s

unfoldable pub page_alloc : ℕ → M (Option ℕ)
unfolding take_page
page_alloc flags s = elim s.page_free_list [ none ↦ ok none s | some pp ↦ take_page flags pp s ]

unfoldable pub page_free : ℕ → M (Unit {0})
page_free pp s =
    if ((s.pages pp).pp_ref == 0) && is_none (s.pages pp).pp_link
    then (do set_link pp s.page_free_list; set_free_list (some pp)) s
    else panic page_in_use

-- `--pp->pp_ref == 0`, in uint16_t.
unfoldable pub page_decref : ℕ → M (Unit {0})
page_decref pp s =
    let n = ((s.pages pp).pp_ref + 2 ^ 16 - 1) % 2 ^ 16 in
    (do set_ref pp n; if n == 0 then page_free pp else pure tt) s
