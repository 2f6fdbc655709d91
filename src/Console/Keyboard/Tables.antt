-- ===== src/Console/Keyboard/Tables.antt =====
-- The code tables of kern/console.c. An array with designated initialisers is its leading row and the
-- list of the entries that are named; every other entry is NO.
use mit6_828_lab.Base.{ℕ, List, [], ◌∷◌, bit_and, bit_or, ◌==◌, get_or, if◌then◌else◌}

abbrev pub shift_bit : ℕ
shift_bit = 1

abbrev pub ctl : ℕ
ctl = 2

abbrev pub alt : ℕ
alt = 4

abbrev pub capslock : ℕ
capslock = 8

abbrev pub numlock : ℕ
numlock = 16

abbrev pub scrolllock : ℕ
scrolllock = 32

abbrev pub e0esc : ℕ
e0esc = 64

abbrev pub key_del : ℕ
key_del = 0xe9

abbrev pub get_or_key : List (ℕ × ℕ) → ℕ → ℕ
get_or_key [] i = 0
get_or_key ((j, v) ∷ entries) i = if j == i then v else get_or_key entries i

unfoldable pub shiftcode : ℕ → ℕ
shiftcode i =
    get_or_key
      ((0x1d, ctl)
        ∷ (0x2a, shift_bit)
        ∷ (0x36, shift_bit)
        ∷ (0x38, alt)
        ∷ (0x9d, ctl)
        ∷ (0xb8, alt)
        ∷ [])
      i

unfoldable pub togglecode : ℕ → ℕ
togglecode i = get_or_key ((0x3a, capslock) ∷ (0x45, numlock) ∷ (0x46, scrolllock) ∷ []) i

abbrev normalmap_row : List ℕ
normalmap_row =
    0x00 ∷ 0x1b ∷ 0x31 ∷ 0x32 ∷ 0x33 ∷ 0x34 ∷ 0x35 ∷ 0x36 ∷ 0x37 ∷ 0x38 ∷ 0x39 ∷ 0x30 ∷ 0x2d ∷ 0x3d
    ∷ 0x08 ∷ 0x09 ∷ 0x71 ∷ 0x77 ∷ 0x65 ∷ 0x72 ∷ 0x74 ∷ 0x79 ∷ 0x75 ∷ 0x69 ∷ 0x6f ∷ 0x70 ∷ 0x5b
    ∷ 0x5d ∷ 0x0a ∷ 0x00 ∷ 0x61 ∷ 0x73 ∷ 0x64 ∷ 0x66 ∷ 0x67 ∷ 0x68 ∷ 0x6a ∷ 0x6b ∷ 0x6c ∷ 0x3b
    ∷ 0x27 ∷ 0x60 ∷ 0x00 ∷ 0x5c ∷ 0x7a ∷ 0x78 ∷ 0x63 ∷ 0x76 ∷ 0x62 ∷ 0x6e ∷ 0x6d ∷ 0x2c ∷ 0x2e
    ∷ 0x2f ∷ 0x00 ∷ 0x2a ∷ 0x00 ∷ 0x20 ∷ 0x00 ∷ 0x00 ∷ 0x00 ∷ 0x00 ∷ 0x00 ∷ 0x00 ∷ 0x00 ∷ 0x00
    ∷ 0x00 ∷ 0x00 ∷ 0x00 ∷ 0x00 ∷ 0x00 ∷ 0x37 ∷ 0x38 ∷ 0x39 ∷ 0x2d ∷ 0x34 ∷ 0x35 ∷ 0x36 ∷ 0x2b
    ∷ 0x31 ∷ 0x32 ∷ 0x33 ∷ 0x30 ∷ 0x2e ∷ 0x00 ∷ 0x00 ∷ 0x00 ∷ 0x00 ∷ []

unfoldable pub normalmap : ℕ → ℕ
normalmap i = get_or normalmap_row i (
    get_or_key
      ((0xc7, 0xe0)
        ∷ (0x9c, 0x0a)
        ∷ (0xb5, 0x2f)
        ∷ (0xc8, 0xe2)
        ∷ (0xc9, 0xe6)
        ∷ (0xcb, 0xe4)
        ∷ (0xcd, 0xe5)
        ∷ (0xcf, 0xe1)
        ∷ (0xd0, 0xe3)
        ∷ (0xd1, 0xe7)
        ∷ (0xd2, 0xe8)
        ∷ (0xd3, 0xe9)
        ∷ [])
      i)

abbrev shiftmap_row : List ℕ
shiftmap_row =
    0x00 ∷ 0x1b ∷ 0x21 ∷ 0x40 ∷ 0x23 ∷ 0x24 ∷ 0x25 ∷ 0x5e ∷ 0x26 ∷ 0x2a ∷ 0x28 ∷ 0x29 ∷ 0x5f ∷ 0x2b
    ∷ 0x08 ∷ 0x09 ∷ 0x51 ∷ 0x57 ∷ 0x45 ∷ 0x52 ∷ 0x54 ∷ 0x59 ∷ 0x55 ∷ 0x49 ∷ 0x4f ∷ 0x50 ∷ 0x7b
    ∷ 0x7d ∷ 0x0a ∷ 0x00 ∷ 0x41 ∷ 0x53 ∷ 0x44 ∷ 0x46 ∷ 0x47 ∷ 0x48 ∷ 0x4a ∷ 0x4b ∷ 0x4c ∷ 0x3a
    ∷ 0x22 ∷ 0x7e ∷ 0x00 ∷ 0x7c ∷ 0x5a ∷ 0x58 ∷ 0x43 ∷ 0x56 ∷ 0x42 ∷ 0x4e ∷ 0x4d ∷ 0x3c ∷ 0x3e
    ∷ 0x3f ∷ 0x00 ∷ 0x2a ∷ 0x00 ∷ 0x20 ∷ 0x00 ∷ 0x00 ∷ 0x00 ∷ 0x00 ∷ 0x00 ∷ 0x00 ∷ 0x00 ∷ 0x00
    ∷ 0x00 ∷ 0x00 ∷ 0x00 ∷ 0x00 ∷ 0x00 ∷ 0x37 ∷ 0x38 ∷ 0x39 ∷ 0x2d ∷ 0x34 ∷ 0x35 ∷ 0x36 ∷ 0x2b
    ∷ 0x31 ∷ 0x32 ∷ 0x33 ∷ 0x30 ∷ 0x2e ∷ 0x00 ∷ 0x00 ∷ 0x00 ∷ 0x00 ∷ []

unfoldable pub shiftmap : ℕ → ℕ
shiftmap i = get_or shiftmap_row i (
    get_or_key
      ((0xc7, 0xe0)
        ∷ (0x9c, 0x0a)
        ∷ (0xb5, 0x2f)
        ∷ (0xc8, 0xe2)
        ∷ (0xc9, 0xe6)
        ∷ (0xcb, 0xe4)
        ∷ (0xcd, 0xe5)
        ∷ (0xcf, 0xe1)
        ∷ (0xd0, 0xe3)
        ∷ (0xd1, 0xe7)
        ∷ (0xd2, 0xe8)
        ∷ (0xd3, 0xe9)
        ∷ [])
      i)

abbrev ctlmap_row : List ℕ
ctlmap_row =
    0x00 ∷ 0x00 ∷ 0x00 ∷ 0x00 ∷ 0x00 ∷ 0x00 ∷ 0x00 ∷ 0x00 ∷ 0x00 ∷ 0x00 ∷ 0x00 ∷ 0x00 ∷ 0x00 ∷ 0x00
    ∷ 0x00 ∷ 0x00 ∷ 0x11 ∷ 0x17 ∷ 0x05 ∷ 0x12 ∷ 0x14 ∷ 0x19 ∷ 0x15 ∷ 0x09 ∷ 0x0f ∷ 0x10 ∷ 0x00
    ∷ 0x00 ∷ 0x0d ∷ 0x00 ∷ 0x01 ∷ 0x13 ∷ 0x04 ∷ 0x06 ∷ 0x07 ∷ 0x08 ∷ 0x0a ∷ 0x0b ∷ 0x0c ∷ 0x00
    ∷ 0x00 ∷ 0x00 ∷ 0x00 ∷ 0x1c ∷ 0x1a ∷ 0x18 ∷ 0x03 ∷ 0x16 ∷ 0x02 ∷ 0x0e ∷ 0x0d ∷ 0x00 ∷ 0x00
    ∷ 0xef ∷ 0x00 ∷ 0x00 ∷ []

unfoldable pub ctlmap : ℕ → ℕ
ctlmap i = get_or ctlmap_row i (
    get_or_key
      ((0x97, 0xe0)
        ∷ (0xb5, 0xef)
        ∷ (0xc8, 0xe2)
        ∷ (0xc9, 0xe6)
        ∷ (0xcb, 0xe4)
        ∷ (0xcd, 0xe5)
        ∷ (0xcf, 0xe1)
        ∷ (0xd0, 0xe3)
        ∷ (0xd1, 0xe7)
        ∷ (0xd2, 0xe8)
        ∷ (0xd3, 0xe9)
        ∷ [])
      i)

-- charcode[shift & (CTL | SHIFT)][data]
unfoldable pub charcode : ℕ → ℕ → ℕ
unfolding normalmap shiftmap ctlmap
charcode shift i =
    let plane = bit_and shift (bit_or ctl shift_bit) in
    if plane == 0 then normalmap i else (if plane == 1 then shiftmap i else ctlmap i)
