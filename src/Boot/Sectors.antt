-- ===== src/Boot/Sectors.antt =====
-- Which sectors readseg reads.
use mathlib.Core.Option
use mit6_828_lab.Base.{
  ℕ, zero, suc, ◌+◌, ◌-◌, ◌*◌, ◌/◌, ◌%◌, ◌^◌, ◌≤◌, ◌<◌, ◌≡◌, refl, ap, true, false, ltb, some, List,
  [], ◌∷◌, arith,
}
use mit6_828_lab.Boot.{readseg_fuel, readseg}

-- `n` sectors in a row, to consecutive places.
abbrev pub sectors : (n pa offset : ℕ) → List (ℕ × ℕ)
sectors zero pa offset = []
sectors (suc n) pa offset = (pa, offset) ∷ sectors n (pa + 512) (offset + 1)

readseg_fuel-sectors :
    (n fuel pa end_pa offset : ℕ)
    → n < fuel
    → end_pa ≤ pa + n * 512
    → (1 ≤ n → pa + n * 512 < end_pa + 512)
    → pa + n * 512 < 2 ^ 32
    → offset + n < 2 ^ 32
    → readseg_fuel fuel pa end_pa offset ≡ some (sectors n pa offset)
unfolding readseg_fuel
readseg_fuel-sectors n zero pa end_pa offset h covers tight fits small = absurd (omega arith)
readseg_fuel-sectors zero (suc fuel) pa end_pa offset h covers tight fits small =
    let done : ltb pa end_pa ≡ false = ground arith in rw done refl
readseg_fuel-sectors (suc n) (suc fuel) pa end_pa offset h covers tight fits small =
    let last : pa + suc n * 512 < end_pa + 512 = tight (omega arith) in
    let more : ltb pa end_pa ≡ true = ground arith in
    let next_pa : (pa + 512) % 2 ^ 32 ≡ pa + 512 = omega arith in
    let next_offset : (offset + 1) % 2 ^ 32 ≡ offset + 1 = omega arith in
    rw (more, next_pa, next_offset)
      (ap (Option.map (λ t. (pa, offset) ∷ t)) (
        readseg_fuel-sectors n fuel (pa + 512) end_pa (offset + 1) (omega arith) (omega arith)
          (λ one. omega arith) (omega arith) (omega arith)))

-- readseg ends, and reads consecutive sectors to consecutive places: from the sector boundary at or below `pa` on, just as many
-- as reach `pa + count`, and none if that boundary is there already. The first is the sector behind the boot sector
-- that holds byte `offset`. (The area ends a sector before the address space does.)
pub readseg-sectors :
    (pa count offset : ℕ)
    → pa + count ≤ 2 ^ 32 - 1024
    → offset < 2 ^ 32
    → (n : ℕ) × (readseg pa count offset ≡ some (sectors n (pa - pa % 512) (offset / 512 + 1)))
      × (pa + count ≤ pa - pa % 512 + n * 512)
      × (pa - pa % 512 + n * 512 < pa + count + 512)
unfolding readseg
readseg-sectors pa count offset h ho =
    let n : ℕ = (pa % 512 + count + 511) / 512 in
    let end_pa : (pa + count) % 2 ^ 32 ≡ pa + count = omega arith in
    let covers : pa + count ≤ pa - pa % 512 + (pa % 512 + count + 511) / 512 * 512 = omega arith in
    let tight : pa - pa % 512 + (pa % 512 + count + 511) / 512 * 512 < pa + count + 512 =
      omega arith in
    (
      n,
      rw end_pa (
          readseg_fuel-sectors n (count / 512 + 3) (pa - pa % 512) (pa + count) (offset / 512 + 1)
            (omega arith) covers (λ one. tight) (omega arith) (omega arith)),
      covers,
      tight,
    )
