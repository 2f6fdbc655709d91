-- ===== src/Boot.antt =====
-- boot/main.c: what the boot loader reads from the disk into memory, and where it enters the kernel. The disk is an argument. The
-- waits for it, before and after the command, change nothing.
mod Sectors
mod Copied
mod Loaded
mod Tests
use mathlib.Core.Option
use mit6_828_lab.Base.{
  ℕ, zero, suc, ◌+◌, ◌-◌, ◌*◌, ◌/◌, ◌%◌, ◌^◌, ◌==◌, ltb, leb, ◌&&◌, if◌then◌else◌, bit_or, Option,
  none, some, List, [], ◌∷◌, ◌++◌,
}

abbrev pub sectsize : ℕ
sectsize = 512

-- The writes to the disk's ports, in order, between the two waits; then a sector is read.
pub readsect : (offset : ℕ) → List (ℕ × ℕ)
readsect offset =
    (0x1f2, 1)
    ∷ (0x1f3, offset % 256)
    ∷ (0x1f4, offset / 2 ^ 8 % 256)
    ∷ (0x1f5, offset / 2 ^ 16 % 256)
    ∷ (0x1f6, bit_or (offset / 2 ^ 24 % 256) 0xe0)
    ∷ (0x1f7, 0x20)
    ∷ []

-- The calls of readsect: the address and the sector of each; `none` where the fuel is too little.
pub readseg_fuel : (fuel pa end_pa offset : ℕ) → Option (List (ℕ × ℕ))
readseg_fuel zero pa end_pa offset = none
readseg_fuel (suc fuel) pa end_pa offset =
    let rest = readseg_fuel fuel ((pa + sectsize) % 2 ^ 32) end_pa ((offset + 1) % 2 ^ 32) in
    if ltb pa end_pa then Option.map (λ t. (pa, offset) ∷ t) rest else some []

-- The fuel is one round more than there are sectors in `count` bytes that start anywhere in a sector.
pub readseg : (pa count offset : ℕ) → Option (List (ℕ × ℕ))
readseg pa count offset =
    readseg_fuel (count / sectsize + 3) (pa - pa % sectsize) ((pa + count) % 2 ^ 32)
      (offset / sectsize + 1)

-- Bytes by their address.
abbrev pub Memory : Type 0
Memory = ℕ → ℕ

-- What a port holds after the writes, if it held `v` before.
unfoldable pub port_value : (port v : ℕ) → List (ℕ × ℕ) → ℕ
port_value port v [] = v
port_value port v ((p, w) ∷ writes) = port_value port (if p == port then w else v) writes

-- The sector that the disk controller takes from four of its ports, of 28 bits.
unfoldable pub selected : List (ℕ × ℕ) → ℕ
selected writes =
    port_value 0x1f3 0 writes
    + port_value 0x1f4 0 writes * 2 ^ 8
    + port_value 0x1f5 0 writes * 2 ^ 16
    + port_value 0x1f6 0 writes % 2 ^ 4 * 2 ^ 24

-- `disk` are the bytes of the disk. After the writes of readsect a sector is put at `dst`.
module _ (disk : ℕ → ℕ) where
  unfoldable pub put_sector : (dst sector : ℕ) → Memory → Memory
  put_sector dst sector mem a =
      if leb dst a && ltb a (dst + sectsize) then disk (sector * sectsize + (a - dst)) else mem a

  -- The calls of readsect, one after the other.
  unfoldable pub read_sectors : List (ℕ × ℕ) → Memory → Memory
  read_sectors [] mem = mem
  read_sectors ((dst, offset) ∷ reads) mem =
      read_sectors reads (put_sector dst (selected (readsect offset)) mem)

-- A uint16_t and a uint32_t at an address.
abbrev pub half : Memory → ℕ → ℕ
half mem a = mem a + mem (a + 1) * 2 ^ 8

abbrev pub word : Memory → ℕ → ℕ
word mem a = half mem a + half mem (a + 2) * 2 ^ 16

abbrev pub elfhdr : ℕ
elfhdr = 0x10000

abbrev pub elf_magic : ℕ
elf_magic = 0x464c457f

-- The fields of struct Elf and of struct Proghdr that are used.
abbrev pub e_magic : Memory → ℕ → ℕ
e_magic mem elf = word mem elf

abbrev pub e_entry : Memory → ℕ → ℕ
e_entry mem elf = word mem (elf + 24)

abbrev pub e_phoff : Memory → ℕ → ℕ
e_phoff mem elf = word mem (elf + 28)

abbrev pub e_phnum : Memory → ℕ → ℕ
e_phnum mem elf = half mem (elf + 44)

abbrev pub sizeof_proghdr : ℕ
sizeof_proghdr = 32

abbrev pub p_offset : Memory → ℕ → ℕ
p_offset mem ph = word mem (ph + 4)

abbrev pub p_pa : Memory → ℕ → ℕ
p_pa mem ph = word mem (ph + 12)

abbrev pub p_memsz : Memory → ℕ → ℕ
p_memsz mem ph = word mem (ph + 20)

-- `disk_loop` is a readseg that reads for ever.
pub data Booted : Type 0 where
  bad_elf : Booted
  disk_loop : Booted
  enter : (entry : ℕ) → Memory → Booted

module _ (disk : ℕ → ℕ) where
  -- The loop over the program headers, with the rounds left.
  pub load_segments : (rounds ph : ℕ) → Memory → Option Memory
  load_segments zero ph mem = some mem
  load_segments (suc n) ph mem = elim (readseg (p_pa mem ph) (p_memsz mem ph) (p_offset mem ph)) [
    | none ↦ none
    | some reads ↦ load_segments n (ph + sizeof_proghdr) (read_sectors disk reads mem)
  ]

  -- What follows the read of the first page. `eph` below `ph`, where the sum has wrapped, is no round.
  pub boot_elf : Memory → Booted
  boot_elf mem =
      let ph = (elfhdr + e_phoff mem elfhdr) % 2 ^ 32 in
      let eph = (ph + sizeof_proghdr * e_phnum mem elfhdr) % 2 ^ 32 in
      if e_magic mem elfhdr == elf_magic
      then elim (load_segments (if ltb ph eph then e_phnum mem elfhdr else 0) ph mem) [
        | none ↦ disk_loop
        | some mem' ↦ enter (e_entry mem' elfhdr) mem'
      ]
      else bad_elf

  pub bootmain : Memory → Booted
  bootmain mem = elim (readseg elfhdr (sectsize * 8) 0) [
    | none ↦ disk_loop
    | some reads ↦ boot_elf (read_sectors disk reads mem)
  ]
