-- ===== src/Console/Screen.antt =====
-- The screen of kern/console.c: cga_putc and cons_putc. `ports` records the writes to ports, latest first.
-- The bounded waits of serial_putc and lpt_putc for their devices change nothing.
pub mod Bounds
use mit6_828_lab.Base.{
  ℕ, ◌+◌, ◌-◌, ◌*◌, ◌/◌, ◌%◌, ◌^◌, List, ◌∷◌, bit_or, ltb, leb, ◌==◌, not, ◌&&◌, if◌then◌else◌,
}

abbrev pub crt_cols : ℕ
crt_cols = 80

abbrev pub crt_size : ℕ
crt_size = 25 * 80

-- `crt_buf` is the frame buffer's 16-bit cells, `addr_6845` the display controller's port.
pub record Screen : Type 0 where
  pub addr_6845 : ℕ
  pub crt_buf : ℕ → ℕ
  pub crt_pos : ℕ
  pub ports : List (ℕ × ℕ)

abbrev pub outb : ℕ → ℕ → Screen → Screen
outb port v s = record s { ports = (port, v % 256) ∷ s.ports }

abbrev pub set_cell : ℕ → ℕ → Screen → Screen
set_cell i v s = record s { crt_buf = λ j. if i == j then v % 2 ^ 16 else s.crt_buf j }

unfoldable pub serial_putc : ℕ → Screen → Screen
serial_putc c s = outb 0x3f8 c s

unfoldable pub lpt_putc : ℕ → Screen → Screen
lpt_putc c s = outb (0x378 + 2) 0x08 (outb (0x378 + 2) 0x0d (outb 0x378 c s))

-- `if (!(c & ~0xFF)) c |= 0x0700;`
unfoldable pub with_attribute : ℕ → ℕ
with_attribute c = if ltb c 256 then bit_or c 0x0700 else c

-- The cases of the switch but for the tab.
unfoldable pub write_char : ℕ → Screen → Screen
write_char c s =
    if c % 256 == 8
    then (if ltb 0 s.crt_pos
        then set_cell (s.crt_pos - 1) (c - c % 256 + 32) (record s { crt_pos = s.crt_pos - 1 })
        else s)
    else (if c % 256 == 10
        then record s {
          crt_pos = (s.crt_pos + crt_cols) % 2 ^ 16 - (s.crt_pos + crt_cols) % 2 ^ 16 % crt_cols;
        }
        else (if c % 256 == 13
            then record s { crt_pos = s.crt_pos - s.crt_pos % crt_cols }
            else set_cell s.crt_pos c (record s { crt_pos = (s.crt_pos + 1) % 2 ^ 16 })))

-- The screen's rows move up by one when the position has left it.
unfoldable pub scroll : Screen → Screen
scroll s = if ltb s.crt_pos crt_size then s else record s {
  crt_buf = λ i.
      if ltb i (crt_size - crt_cols)
      then s.crt_buf (i + crt_cols)
      else (if ltb i crt_size then bit_or 0x0700 32 else s.crt_buf i);
  crt_pos = s.crt_pos - crt_cols;
}

unfoldable pub move_cursor : Screen → Screen
move_cursor s =
    outb (s.addr_6845 + 1) s.crt_pos
      (outb s.addr_6845 15 (outb (s.addr_6845 + 1) (s.crt_pos / 256) (outb s.addr_6845 14 s)))

-- cga_putc of any character but a tab, and cons_putc of such.
unfoldable pub cga_putc_plain : ℕ → Screen → Screen
cga_putc_plain c s = move_cursor (scroll (write_char (with_attribute c) s))

unfoldable pub put_space : Screen → Screen
put_space s = cga_putc_plain 32 (lpt_putc 32 (serial_putc 32 s))

unfoldable pub cga_putc : ℕ → Screen → Screen
cga_putc c s =
    if with_attribute c % 256 == 9
    then move_cursor (scroll (put_space (put_space (put_space (put_space (put_space s))))))
    else cga_putc_plain c s

unfoldable pub cons_putc : ℕ → Screen → Screen
cons_putc c s = cga_putc c (lpt_putc c (serial_putc c s))

pub cputchar : ℕ → Screen → Screen
cputchar c s = cons_putc c s
