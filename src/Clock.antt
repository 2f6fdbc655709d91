-- ===== src/Clock.antt =====
-- kern/kclock.c: the registers of the real-time clock, which are read and written through two ports.
use mit6_828_lab.Base.{ℕ, ◌+◌, ◌*◌, ◌%◌, ◌^◌, ◌<◌, ◌≡◌, refl, List, ◌∷◌, arith, bit_or}
use mit6_828_lab.Pmap.Boot.{nvram_read}

-- IO_RTC
abbrev pub io_rtc : ℕ
io_rtc = 0x70

-- The writes to ports, latest first; `inb` is what a port reads as after them.
module _ (inb : ℕ → List (ℕ × ℕ) → ℕ) where
  unfoldable pub mc146818_read : (reg : ℕ) → List (ℕ × ℕ) → ℕ × List (ℕ × ℕ)
  mc146818_read reg ports =
      let ports' = (io_rtc, reg % 2 ^ 8) ∷ ports in (inb (io_rtc + 1) ports', ports')

  unfoldable pub mc146818_write : (reg datum : ℕ) → List (ℕ × ℕ) → List (ℕ × ℕ)
  mc146818_write reg datum ports = (io_rtc + 1, datum % 2 ^ 8) ∷ (io_rtc, reg % 2 ^ 8) ∷ ports

  -- Where the second port reads as the register that was last selected by the first, nvram_read, with its two calls of mc146818_read,
  -- is that of the two registers.
  pub mc146818_read-nvram_read :
      (cmos : ℕ → ℕ) (r : ℕ) (ports : List (ℕ × ℕ))
      → ((reg : ℕ) (before : List (ℕ × ℕ)) → inb (io_rtc + 1) ((io_rtc, reg) ∷ before) ≡ cmos reg)
      → r + 1 < 2 ^ 8
      → let first = mc146818_read r ports in
        bit_or first.0 ((mc146818_read (r + 1) first.1).0 * 2 ^ 8) ≡ nvram_read cmos r
  unfolding mc146818_read nvram_read
  mc146818_read-nvram_read cmos r ports selects fits =
      let low : r % 2 ^ 8 ≡ r = omega arith in
      let high : (r + 1) % 2 ^ 8 ≡ r + 1 = omega arith in
      rw (low, high, selects r ports, selects (r + 1) ((io_rtc, r) ∷ ports)) refl
