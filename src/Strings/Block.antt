-- ===== src/Strings/Block.antt =====
-- memset and memmove of lib/string.c (the variants with string instructions). The memory is a function from addresses to
-- bytes; `movs` and `stos` stand for `rep movsb`, `rep movsl`, `rep stosb` and `rep stosl`.
pub mod Move
pub mod Fill
use mit6_828_lab.Base.{
  ℕ, zero, suc, ◌+◌, ◌-◌, ◌*◌, ◌/◌, ◌%◌, ◌^◌, Bool, ◌==◌, ltb, leb, ◌&&◌, if◌then◌else◌, bit_or,
}

-- One move of `w` bytes: all are read before the first is written.
abbrev pub move_block : (w d s : ℕ) → (ℕ → ℕ) → ℕ → ℕ
move_block w d s mem a = if leb d a && ltb a (d + w) then mem (s + (a - d)) else mem a

-- With the direction flag clear the addresses go up.
unfoldable pub movs_up : (w : ℕ) → (count d s : ℕ) → (ℕ → ℕ) → ℕ → ℕ
movs_up w zero d s mem = mem
movs_up w (suc count) d s mem = movs_up w count (d + w) (s + w) (move_block w d s mem)

-- With the direction flag set they go down; the registers after the last move are not used.
unfoldable pub movs_down : (w : ℕ) → (count d s : ℕ) → (ℕ → ℕ) → ℕ → ℕ
movs_down w zero d s mem = mem
movs_down w (suc count) d s mem = movs_down w count (d - w) (s - w) (move_block w d s mem)

abbrev pub aligned : (s d n : ℕ) → Bool
aligned s d n = (s % 4 == 0) && (d % 4 == 0) && (n % 4 == 0)

unfoldable pub move_down : (d s n : ℕ) → (ℕ → ℕ) → ℕ → ℕ
move_down d s n mem =
    if aligned s d n
    then movs_down 4 (n / 4) (d - 4) (s - 4) mem
    else movs_down 1 n (d - 1) (s - 1) mem

unfoldable pub move_up : (d s n : ℕ) → (ℕ → ℕ) → ℕ → ℕ
move_up d s n mem = if aligned s d n then movs_up 4 (n / 4) d s mem else movs_up 1 n d s mem

unfoldable pub memmove : (dst src n : ℕ) → (ℕ → ℕ) → ℕ → ℕ
memmove dst src n mem =
    if ltb src dst && ltb dst ((src + n) % 2 ^ 32)
    then move_down ((dst + n) % 2 ^ 32) ((src + n) % 2 ^ 32) n mem
    else move_up dst src n mem

unfoldable pub memcpy : (dst src n : ℕ) → (ℕ → ℕ) → ℕ → ℕ
memcpy dst src n mem = memmove dst src n mem

-- The bytes of a value of `w` bytes, the lowest first.
abbrev pub store_block : (w d value : ℕ) → (ℕ → ℕ) → ℕ → ℕ
store_block w d value mem a =
    if leb d a && ltb a (d + w) then value / 256 ^ (a - d) % 256 else mem a

unfoldable pub stos : (w : ℕ) → (count d value : ℕ) → (ℕ → ℕ) → ℕ → ℕ
stos w zero d value mem = mem
stos w (suc count) d value mem = stos w count (d + w) value (store_block w d value mem)

-- `c &= 0xFF; c = (c<<24)|(c<<16)|(c<<8)|c`, of the byte that is left
unfoldable pub four_times : ℕ → ℕ
four_times c = bit_or (bit_or (bit_or (c * 2 ^ 24) (c * 2 ^ 16)) (c * 2 ^ 8)) c

unfoldable pub memset : (v c n : ℕ) → (ℕ → ℕ) → ℕ → ℕ
memset v c n mem =
    if n == 0
    then mem
    else (if (v % 4 == 0) && (n % 4 == 0)
        then stos 4 (n / 4) v (four_times (c % 256)) mem
        else stos 1 n v c mem)
