-- ===== src/Console/Keyboard/Shift.antt =====
-- What kbd_proc_data does to the modifiers and what it returns, over all their values.
use mit6_828_lab.Base.{
  ℕ, ◌+◌, ◌<◌, ◌≡◌, ◌≢◌, refl, ◌⊎◌, inl, inr, Bool, true, false, not, ◌&&◌, ◌||◌, Option, none,
  some, arith, ltb, ◌==◌, bit_and, Bool-cases, all_below, all_below_both,
}
use mit6_828_lab.Console.Keyboard.Tables.{shiftcode, togglecode, charcode}
use mit6_828_lab.Console.Keyboard.{kbs_dib, kbs_terr, kbd_proc_data}

abbrev pub byte_result : Option ℕ → Bool
byte_result none = true
byte_result (some c) = ltb c 256

abbrev sound_scan : ℕ → ℕ → Bool
sound_scan shift byte =
    ltb (kbd_proc_data 1 byte shift).shift 128 && byte_result (kbd_proc_data 1 byte shift).result

sound_scans : all_below 128 (λ shift. all_below 256 (sound_scan shift)) ≡ true
unfolding kbd_proc_data shiftcode togglecode charcode
sound_scans = refl

-- The status counts only as far as there is data and it is the keyboard's.
kbd_proc_data-status :
    (stat byte shift : ℕ)
    → (kbd_proc_data stat byte shift ≡ kbd_proc_data 1 byte shift)
      ⊎ (kbd_proc_data stat byte shift ≡ record { result = none; shift = shift; reboot = false })
unfolding kbd_proc_data
kbd_proc_data-status stat byte shift = elim (Bool-cases (bit_and stat kbs_dib == 0)) [
  | inl no_data ↦ inr (rw no_data)
  | inr has_data ↦ elim (Bool-cases (bit_and stat kbs_terr == 0)) [
    | inl good ↦ inl (rw (has_data, good))
    | inr mouse ↦ inr (rw (has_data, mouse))
  ]
]

-- For every status, every byte and every modifier state below 128, the new modifier state is below 128 and the
-- result is -1 or a byte.
pub kbd_proc_data_bounds :
    (stat byte shift : ℕ)
    → byte < 256
    → shift < 128
    → ((kbd_proc_data stat byte shift).shift < 128)
      × (byte_result (kbd_proc_data stat byte shift).result ≡ true)
kbd_proc_data_bounds stat byte shift hb hs =
    let here : _ = all_below_both 128 256 sound_scan shift byte sound_scans hs hb in
    elim (kbd_proc_data-status stat byte shift) [
      | inl read ↦ rw read (ground arith)
      | inr ignored ↦ rw ignored (hs, refl)
    ]

abbrev restores : ℕ → ℕ → Bool
restores shift code =
    (not (togglecode code == 0) || not (bit_and shift (shiftcode code) == 0) || code == 0x60)
    || (kbd_proc_data 1 (code + 0x80) (kbd_proc_data 1 code shift).shift).shift == shift

restores_table : all_below 64 (λ shift. all_below 128 (restores shift)) ≡ true
unfolding kbd_proc_data shiftcode togglecode charcode
restores_table = refl

-- Pressing and releasing a key that is not a lock key, and whose modifier is not held already,
-- leaves the modifiers as they were. (No E0 escape is pending; 0x60 is no key: its
-- release code would be the escape.)
pub kbd_proc_data_release :
    (shift code : ℕ)
    → shift < 64
    → code < 128
    → togglecode code ≡ 0
    → bit_and shift (shiftcode code) ≡ 0
    → code ≢ 0x60
    → (kbd_proc_data 1 (code + 0x80) (kbd_proc_data 1 code shift).shift).shift ≡ shift
kbd_proc_data_release shift code hs hc plain free key =
    let here : _ = all_below_both 64 128 restores shift code restores_table hs hc in ground arith
