-- ===== src/Entry/Tests.antt =====
-- The first page tables at an address of each kind.
use mit6_828_lab.Base.{◌+◌, ◌≡◌, true, false, some, arith}
use mit6_828_lab.Mmu.Macros.{kernbase}
use mit6_828_lab.Entry.{translate, translate-first_4mb}

translate-first_4mb_example :
    (translate 0xf011_3000 0xb_8000 ≡ some (0xb_8000, false))
    × (translate 0xf011_3000 (kernbase + 0xb_8000) ≡ some (0xb_8000, true))
translate-first_4mb_example =
    translate-first_4mb 0xf011_3000 0xb_8000 (omega arith) (omega arith) (omega arith)
