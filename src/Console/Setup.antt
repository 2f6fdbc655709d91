-- ===== src/Console/Setup.antt =====
-- serial_init, cga_init and cons_init of kern/console.c. What the devices answer is an argument.
use mit6_828_lab.Base.{
  ℕ, ◌+◌, ◌*◌, ◌/◌, ◌%◌, ◌^◌, ◌<◌, ◌≡◌, Bool, List, [], ◌∷◌, ◌==◌, not, bit_or, arith,
  if◌then◌else◌,
}
use mit6_828_lab.Base.Bits.{bit_or_disjoint}
use mit6_828_lab.Mmu.Macros.{kernbase}
use mit6_828_lab.Printf.Message.{PrintCall}
use mit6_828_lab.Console.Screen.{Screen, outb}

-- COM1
abbrev pub com1 : ℕ
com1 = 0x3f8

-- `lsr` is what the line status register reads as. The two reads that follow have no use.
unfoldable pub serial_init : (lsr : ℕ) → Screen → Bool × Screen
serial_init lsr s = (
  not (lsr == 0xff),
  outb (com1 + 1) 1 (
      outb (com1 + 4) 0 (
        outb (com1 + 3) 3
          (outb (com1 + 1) 0 (outb com1 12 (outb (com1 + 3) 0x80 (outb (com1 + 2) 0 s)))))),
)

-- CGA_BASE, CGA_BUF, MONO_BASE, MONO_BUF
abbrev pub cga_base : ℕ
cga_base = 0x3d4

abbrev pub cga_buf : ℕ
cga_buf = 0xb8000

abbrev pub mono_base : ℕ
mono_base = 0x3b4

abbrev pub mono_buf : ℕ
mono_buf = 0xb0000

-- `cells` holds the 16-bit cells by address; `probe` is what the first cell of the colour screen reads as after 0xA55A was stored
-- there; `high` and `low` are the two bytes of the cursor's position. The cell that was tried gets its value back.
unfoldable pub cga_init : (cells : ℕ → ℕ) (probe high low : ℕ) → List (ℕ × ℕ) → Screen
cga_init cells probe high low ports =
    let base = if probe == 0xa55a then cga_base else mono_base in
    let buf = if probe == 0xa55a then cga_buf else mono_buf in
    record {
      addr_6845 = base;
      crt_buf = λ i. cells (kernbase + buf + 2 * i);
      crt_pos = bit_or (high * 2 ^ 8) low % 2 ^ 16;
      ports = (base, 15) ∷ (base, 14) ∷ ports;
    }

-- The screen, whether there is a serial port, and the message if there is none. kbd_init is empty.
unfoldable pub cons_init :
    (cells : ℕ → ℕ) (probe high low lsr : ℕ) → List (ℕ × ℕ) → Screen × Bool × List PrintCall
cons_init cells probe high low lsr ports =
    let serial = serial_init lsr (cga_init cells probe high low ports) in
    (
      serial.1,
      serial.0,
      (if serial.0
          then []
          else record { format = "Serial port does not exist!\n"; arguments = [] } ∷ []),
    )

-- cga_init takes over the position that cga_putc stores in the display controller: the two bytes that it stores read back as it.
pub cga_init-position :
    (cells : ℕ → ℕ) (probe pos : ℕ) (ports : List (ℕ × ℕ))
    → pos < 2 ^ 16
    → (cga_init cells probe (pos / 256 % 256) (pos % 256) ports).crt_pos ≡ pos
unfolding cga_init
cga_init-position cells probe pos ports fits =
    let sum : bit_or (pos / 256 % 256 * 2 ^ 8) (pos % 256) ≡ pos / 256 % 256 * 2 ^ 8 + pos % 256 =
      bit_or_disjoint 8 (pos / 256 % 256) (pos % 256) (omega arith) in
    rw sum (omega arith)
