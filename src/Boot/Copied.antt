-- ===== src/Boot/Copied.antt =====
-- What readseg leaves in memory.
use mit6_828_lab.Base.{
  ℕ, zero, suc, ◌+◌, ◌-◌, ◌*◌, ◌/◌, ◌%◌, ◌^◌, ◌≤◌, ◌<◌, ◌≡◌, ◌⊎◌, inl, inr, refl, ap, ◌∙◌, bit_or,
  some, List, arith, lt_or_ge,
}
use mit6_828_lab.Base.Bits.{bit_or_lowest}
use mit6_828_lab.Boot.{readsect, readseg, Memory, port_value, selected, put_sector, read_sectors}
use mit6_828_lab.Boot.Sectors.{sectors, readseg-sectors}

-- The highest byte of the number, or-ed with the bits that choose the disk.
drive_bits : (x : ℕ) → x < 16 → (bit_or x 0xe0 % 16 ≡ x) × (0 < bit_or x 0xe0)
drive_bits x lt =
    let e0 = bit_or_lowest x 0xe0 in
    let e1 = bit_or_lowest (x / 2) 0x70 in
    let e2 = bit_or_lowest (x / 2 / 2) 0x38 in
    let e3 = bit_or_lowest (x / 2 / 2 / 2) 0x1c in
    let e4 = bit_or_lowest (x / 2 / 2 / 2 / 2) 0xe in
    let e5 = bit_or_lowest (x / 2 / 2 / 2 / 2 / 2) 7 in
    (omega (arith, e0, e1, e2, e3), omega (arith, e0, e1, e2, e3, e4, e5))

-- The writes of readsect select the sector of the number that it was given.
selected-readsect : (offset : ℕ) → offset < 2 ^ 28 → selected (readsect offset) ≡ offset
unfolding selected readsect port_value
selected-readsect offset fits =
    let bits = drive_bits (offset / 2 ^ 24 % 256) (omega arith) in rw bits.0 (omega arith)

-- What `n` sectors in a row leave in memory from `pa` on.
record Copied (disk : ℕ → ℕ) (n pa offset : ℕ) (mem mem' : Memory) : Type 0 where
  pub inside : (a : ℕ) → pa ≤ a → a < pa + n * 512 → mem' a ≡ disk (offset * 512 + (a - pa))
  pub outside : (a : ℕ) → (a < pa) ⊎ (pa + n * 512 ≤ a) → mem' a ≡ mem a

module _ (disk : ℕ → ℕ) where
  put_sector-inside :
      (dst sector a : ℕ) (mem : Memory)
      → dst ≤ a
      → a < dst + 512
      → put_sector disk dst sector mem a ≡ disk (sector * 512 + (a - dst))
  unfolding put_sector
  put_sector-inside dst sector a mem lo hi = ground arith

  put_sector-outside :
      (dst sector a : ℕ) (mem : Memory)
      → (a < dst) ⊎ (dst + 512 ≤ a)
      → put_sector disk dst sector mem a ≡ mem a
  unfolding put_sector
  put_sector-outside dst sector a mem away = ground arith

  read_sectors-Copied :
      (n pa offset : ℕ) (mem : Memory)
      → offset + n < 2 ^ 28
      → Copied disk n pa offset mem (read_sectors disk (sectors n pa offset) mem)
  unfolding read_sectors
  read_sectors-Copied zero pa offset mem fits = record {
    inside = λ a lo hi. absurd (omega arith);
    outside = λ a away. refl;
  }
  read_sectors-Copied (suc n) pa offset mem fits =
      let sector : selected (readsect offset) ≡ offset = selected-readsect offset (omega arith) in
      let first : Memory = put_sector disk pa (selected (readsect offset)) mem in
      let rest = read_sectors-Copied n (pa + 512) (offset + 1) first (omega arith) in
      record {
        inside = λ a lo hi. elim (lt_or_ge a (pa + 512)) [
          | inl here ↦
              rest.outside a (inl here)
              ∙ put_sector-inside pa (selected (readsect offset)) a mem lo here
              ∙ rw sector refl
          | inr later ↦
              let same : (offset + 1) * 512 + (a - (pa + 512)) ≡ offset * 512 + (a - pa) =
                omega arith in
              rest.inside a later (omega arith) ∙ ap disk same
        ];
        outside = λ a away.
            rest.outside a
              (elim away [ inl low ↦ inl (omega arith) | inr high ↦ inr (omega arith) ])
            ∙ put_sector-outside pa (selected (readsect offset)) a mem
                (elim away [ inl low ↦ inl low | inr high ↦ inr (omega arith) ]);
      }

-- readseg ends, and puts the bytes of the disk, from byte `offset` behind the boot sector on, at the `count` bytes from `pa` on, if
-- both lie equally far behind a sector's beginning. Below the sector boundary at or under `pa`, and from 511 bytes behind the area
-- on, no byte changes. The disk's controller is told the sectors by readsect's writes. (The area ends a sector before the address space does.)
pub readseg-copied :
    (disk : ℕ → ℕ) (pa count offset : ℕ) (mem : Memory)
    → pa + count ≤ 2 ^ 32 - 1024
    → offset < 2 ^ 32
    → offset % 512 ≡ pa % 512
    → (reads : List (ℕ × ℕ)) × (readseg pa count offset ≡ some reads)
      × ((i : ℕ) → i < count → read_sectors disk reads mem (pa + i) ≡ disk (512 + offset + i))
      × ((a : ℕ)
          → (a < pa - pa % 512) ⊎ (pa + count + 511 ≤ a)
          → read_sectors disk reads mem a ≡ mem a)
readseg-copied disk pa count offset mem h ho same =
    let (n, run, covers, tight) = readseg-sectors pa count offset h ho in
    let c =
      read_sectors-Copied disk n (pa - pa % 512) (offset / 512 + 1) mem
        (omega (arith, tight, covers)) in
    (
      sectors n (pa - pa % 512) (offset / 512 + 1),
      run,
      λ i lt.
          let at : (offset / 512 + 1) * 512 + (pa + i - (pa - pa % 512)) ≡ 512 + offset + i =
            omega arith in
          c.inside (pa + i) (omega arith) (omega (arith, covers)) ∙ ap disk at,
      λ a away.
          c.outside a (elim away [ inl low ↦ inl low | inr high ↦ inr (omega (arith, tight)) ]),
    )
