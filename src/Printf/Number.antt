-- ===== src/Printf/Number.antt =====
-- printnum of lib/printfmt.c.
pub mod Text
use mit6_828_lab.Base.{
  ℕ, zero, suc, ◌-◌, ◌/◌, ◌%◌, List, [], ◌∷◌, ◌++◌, ltb, if◌then◌else◌, get_or, replicate,
}

-- "0123456789abcdef"
abbrev pub digit_chars : List ℕ
digit_chars = 48 ∷ 49 ∷ 50 ∷ 51 ∷ 52 ∷ 53 ∷ 54 ∷ 55 ∷ 56 ∷ 57 ∷ 97 ∷ 98 ∷ 99 ∷ 100 ∷ 101 ∷ 102 ∷ []

unfoldable pub digit_char : ℕ → ℕ
digit_char d = get_or digit_chars d 0

-- `width` is the positive part of the C variable: the loop tests `--width > 0`. The recursion is on fuel;
-- 64 is enough for an unsigned long long and a base of at least 2.
unfoldable pub printnum_fuel : (fuel num base width padc : ℕ) → List ℕ
printnum_fuel zero num base width padc = []
printnum_fuel (suc fuel) num base width padc =
    let more = printnum_fuel fuel (num / base) base (width - 1) padc in
    (if ltb num base then replicate (width - 1) padc else more) ++ digit_char (num % base) ∷ []

unfoldable pub printnum : (num base width padc : ℕ) → List ℕ
unfolding printnum_fuel digit_char
printnum num base width padc = printnum_fuel 64 num base width padc
