-- ===== src/Console/Keyboard.antt =====
-- The keyboard of kern/console.c: the code tables and kbd_proc_data. The status and data that the
-- two ports give are arguments; `shift` is the function's static variable.
pub mod Tables
pub mod Shift
use mit6_828_lab.Base.{
  ℕ, ◌+◌, ◌-◌, ◌*◌, ◌%◌, ◌^◌, Bool, true, false, Option, none, some, bit_and, bit_or, bit_xor, ◌==◌,
  leb, not, ◌&&◌, if◌then◌else◌,
}
use mit6_828_lab.Console.Keyboard.Tables.{
  ctl, alt, capslock, e0esc, shiftcode, togglecode, charcode, key_del,
}

-- KBS_DIB and KBS_TERR
abbrev pub kbs_dib : ℕ
kbs_dib = 0x01

abbrev pub kbs_terr : ℕ
kbs_terr = 0x20

-- The result (`none` is -1), the new `shift`, and whether the machine was told to reboot.
pub record Scan : Type 0 where
  pub result : Option ℕ
  pub shift : ℕ
  pub reboot : Bool

-- ~x in 32 bits
abbrev pub complement : ℕ → ℕ
complement x = 2 ^ 32 - 1 - x

-- `if (shift & CAPSLOCK)`: the other case for a letter.
unfoldable pub apply_capslock : (shift c : ℕ) → ℕ
apply_capslock shift c =
    if bit_and shift capslock == 0
    then c
    else (if leb b'a' c && leb c b'z'
        then c + b'A' - b'a'
        else (if leb b'A' c && leb c b'Z' then c + b'a' - b'A' else c))

-- From `shift |= shiftcode[data]` on.
unfoldable pub key_pressed : (shift code : ℕ) → Scan
unfolding apply_capslock
key_pressed shift code =
    let held = bit_xor (bit_or shift (shiftcode code)) (togglecode code) in
    let c = apply_capslock held (charcode held code) in
    record {
      result = some c;
      shift = held;
      reboot = (bit_and (complement held) (bit_or ctl alt) == 0) && (c == key_del);
    }

unfoldable pub kbd_proc_data : (stat data_byte shift : ℕ) → Scan
unfolding key_pressed
kbd_proc_data stat byte shift =
    if bit_and stat kbs_dib == 0
    then record { result = none; shift = shift; reboot = false }
    else (if not (bit_and stat kbs_terr == 0)
        then record { result = none; shift = shift; reboot = false }
        else (if byte == 0xe0
            then record { result = some 0; shift = bit_or shift e0esc; reboot = false }
            else (if not (bit_and byte 0x80 == 0)
                then record {
                  result = some 0;
                  shift = bit_and shift (
                      complement (
                        bit_or
                          (shiftcode (if bit_and shift e0esc == 0 then bit_and byte 0x7f else byte))
                          e0esc));
                  reboot = false;
                }
                else (if bit_and shift e0esc == 0
                    then key_pressed shift byte
                    else key_pressed (bit_and shift (complement e0esc)) (bit_or byte 0x80)))))
