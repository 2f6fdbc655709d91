-- ===== src/Pmap/Alloc/Order.antt =====
-- How check_page_free_list of kern/pmap.c puts the low pages first in the free list, in place.
pub mod Segment
pub mod Partition
pub mod Sorted
use mit6_828_lab.Base.{ℕ, zero, suc, ◌+◌, Option, none, some, leb, if◌then◌else◌}
use mit6_828_lab.Mmu.Macros.{pdx}
use mit6_828_lab.Pmap.Kernel.{PageInfo, Kernel, M, ok, panic, endless, page2pa, set_page, with_link}

-- One of the variables pp1 and pp2 with what its `tp` points to: the variable itself, or the link of a page.
pub record Chain : Type 0 where
  pub first : Option ℕ
  pub tail : Option ℕ

-- `*tp = v`
abbrev pub tail_pages : Chain → Option ℕ → (ℕ → PageInfo) → ℕ → PageInfo
tail_pages c v pages = elim c.tail [
  | none ↦ pages
  | some p ↦ set_page p (with_link v (pages p)) pages
]

abbrev pub tail_first : Chain → Option ℕ → Option ℕ
tail_first c v = elim c.tail [ none ↦ v | some p ↦ c.first ]

-- `*tp = pp; tp = &pp->pp_link;`
abbrev pub append : Chain → ℕ → Chain
append c pp = record { first = tail_first c (some pp); tail = some pp }

pub record Split : Type 0 where
  pub pages : ℕ → PageInfo
  pub low : Chain
  pub high : Chain

unfoldable pub move_page : (limit pp : ℕ) → Split → Split
move_page limit pp s =
    if leb limit (pdx (page2pa pp))
    then record s { high = append s.high pp; pages = tail_pages s.high (some pp) s.pages }
    else record s { low = append s.low pp; pages = tail_pages s.low (some pp) s.pages }

-- The loop over the list, where the next page is read after the writes.
unfoldable pub move_pages : (fuel limit : ℕ) → Option ℕ → Split → Option Split
move_pages zero limit p s = none
move_pages (suc n) limit none s = some s
move_pages (suc n) limit (some pp) s =
    let s' = move_page limit pp s in move_pages n limit (s'.pages pp).pp_link s'

-- `*tp[1] = 0; *tp[0] = pp2; page_free_list = pp1;`
abbrev pub join : Split → Kernel → Kernel
join t s =
    let pp2 = tail_first t.high none in
    record s {
      pages = tail_pages t.low pp2 (tail_pages t.high none t.pages);
      page_free_list = tail_first t.low pp2;
    }

-- "Move pages with lower addresses first in the free list", with the rounds allowed.
unfoldable pub low_first : (fuel limit : ℕ) → M (Unit {0})
low_first fuel limit s =
    elim (move_pages fuel limit s.page_free_list (record {
      pages = s.pages;
      low = record { first = none; tail = none };
      high = record { first = none; tail = none };
    })) [ none ↦ panic endless | some t ↦ ok tt (join t s) ]
