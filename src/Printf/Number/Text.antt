-- ===== src/Printf/Number/Text.antt =====
-- printnum prints the number's digits, most significant first, padded on the left to the width.
use native.Mathlib.Nat.{pow-suc, div-lt_iff_lt-mul, div-add-mod', mod-lt, mod-eq_of_lt}
use mathlib.Core.List.{append_assoc}
use mit6_828_lab.Base.{
  ℕ, zero, suc, ◌+◌, ◌-◌, ◌*◌, ◌/◌, ◌%◌, ◌^◌, ◌≤◌, ◌<◌, ◌≡◌, refl, inl, inr, Bool, true, false,
  List, [], ◌∷◌, ◌++◌, arith, ltb, leb, ltb→lt, ◌==◌, ◌&&◌, ◌||◌, if◌then◌else◌, Bool-cases,
  ℕ-cases, replicate, length, length-append, all_below, all_below_sound,
}
use mit6_828_lab.Printf.Number.{digit_char, printnum_fuel, printnum}

-- The value of a hexadecimal digit, and of a text of digits in a base.
unfoldable pub digit_value : ℕ → ℕ
digit_value c = if leb c 57 then c - 48 else c - 87

unfoldable pub value_from : ℕ → ℕ → List ℕ → ℕ
value_from base acc [] = acc
value_from base acc (c ∷ cs) = value_from base (acc * base + digit_value c) cs

-- A digit of a base up to 16, and a text of such digits.
abbrev pub is_digit : ℕ → ℕ → Bool
is_digit base c =
    ((leb b'0' c && leb c b'9') || (leb b'a' c && leb c b'f')) && ltb (digit_value c) base

abbrev pub all_digits : ℕ → List ℕ → Bool
all_digits base [] = true
all_digits base (c ∷ cs) = is_digit base c && all_digits base cs

-- A text of one digit or more that reads back as the number.
pub record IsNumeral (base num : ℕ) (text : List ℕ) : Type 0 where
  pub nonempty : 1 ≤ length text
  pub digits : all_digits base text ≡ true
  pub value : value_from base 0 text ≡ num

-- The digits without padding.
unfoldable pub number_text : (fuel num base : ℕ) → List ℕ
number_text zero num base = []
number_text (suc fuel) num base =
    let more = number_text fuel (num / base) base in
    (if ltb num base then [] else more) ++ digit_char (num % base) ∷ []

value_from-append :
    (base acc : ℕ) (xs : List ℕ) (c : ℕ)
    → value_from base acc (xs ++ c ∷ []) ≡ value_from base acc xs * base + digit_value c
unfolding value_from
value_from-append base acc [] c = refl
value_from-append base acc (x ∷ xs) c = value_from-append base (acc * base + digit_value x) xs c

digit_table : all_below 16 (λ d. digit_value (digit_char d) == d) ≡ true
unfolding digit_value digit_char
digit_table = refl

pub value-digit_char : (d : ℕ) → d < 16 → digit_value (digit_char d) ≡ d
value-digit_char d h =
    let here : _ = all_below_sound 16 (λ d. digit_value (digit_char d) == d) d digit_table h in
    ground arith

hex_table : all_below 16 (λ d. is_digit 16 (digit_char d)) ≡ true
unfolding digit_value digit_char
hex_table = refl

is_digit-digit_char : (base d : ℕ) → base ≤ 16 → d < base → is_digit base (digit_char d) ≡ true
is_digit-digit_char base d hi h =
    let hex : _ = all_below_sound 16 (λ d. is_digit 16 (digit_char d)) d hex_table (omega arith) in
    let value : _ = value-digit_char d (omega arith) in ground arith

all_digits-append :
    (base c : ℕ) (xs : List ℕ)
    → all_digits base xs ≡ true
    → is_digit base c ≡ true
    → all_digits base (xs ++ c ∷ []) ≡ true
all_digits-append base c [] h d = rw d refl
all_digits-append base c (x ∷ xs) h d =
    let rest : _ = all_digits-append base c xs (ground arith) d in ground arith

quotient_bound : (fuel num base : ℕ) → 2 ≤ base → num < 2 ^ suc fuel → num / base < 2 ^ fuel
quotient_bound fuel num base lo h =
    let room : 2 ^ fuel * 2 ≤ 2 ^ fuel * base = grind arith in
    (div-lt_iff_lt-mul {k = base} {x = num} {y = 2 ^ fuel} (omega arith)).1
      (omega (arith, pow-suc 2 fuel))

last_digit : (num base : ℕ) → 0 < base → num % base < base
last_digit num base h = mod-lt num h

-- With enough fuel the text reads back as the number.
pub number_text-value :
    (fuel num base : ℕ)
    → 2 ≤ base
    → base ≤ 16
    → num < 2 ^ fuel
    → value_from base 0 (number_text fuel num base) ≡ num
unfolding number_text value_from
number_text-value zero num base lo hi h = omega arith
number_text-value (suc fuel) num base lo hi h =
    let digit : digit_value (digit_char (num % base)) ≡ num % base =
      value-digit_char (num % base) (omega (arith, last_digit num base (omega arith))) in
    elim (Bool-cases (ltb num base)) [
      | inl last ↦ rw (last, digit) (omega (arith, mod-eq_of_lt (ltb→lt num base last)))
      | inr more ↦
          let high : _ =
            number_text-value fuel (num / base) base lo hi (quotient_bound fuel num base lo h) in
          rw
            (
              more,
              value_from-append base 0 (number_text fuel (num / base) base)
                  (digit_char (num % base)),
              high,
              digit,
            )
            (div-add-mod' num base)
    ]

number_text-digits :
    (fuel num base : ℕ) → 2 ≤ base → base ≤ 16 → all_digits base (number_text fuel num base) ≡ true
unfolding number_text
number_text-digits zero num base lo hi = refl
number_text-digits (suc fuel) num base lo hi =
    let digit : _ = is_digit-digit_char base (num % base) hi (last_digit num base (omega arith)) in
    let high : _ = number_text-digits fuel (num / base) base lo hi in
    elim (Bool-cases (ltb num base)) [
      | inl last ↦ rw (last, digit) refl
      | inr more ↦ rw more (
          all_digits-append base (digit_char (num % base)) (number_text fuel (num / base) base) high
            digit)
    ]

number_text-nonempty : (fuel num base : ℕ) → 1 ≤ length (number_text (suc fuel) num base)
unfolding number_text
number_text-nonempty fuel num base = rw length-append (omega arith)

quotient_pos : (num base : ℕ) → ltb num base ≡ false → 0 < base → 0 < num / base
quotient_pos num base more pos = elim (ℕ-cases (num / base)) [
  | inl none_left ↦
      let below : num < 1 * base =
        (div-lt_iff_lt-mul {k = base} {x = num} {y = 1} pos).0 (omega arith) in
      absurd (ground arith)
  | inr (m, e) ↦ omega arith
]

fuel_left : (fuel n : ℕ) → n < 2 ^ fuel → 0 < n → 0 < fuel
fuel_left zero n h pos = absurd (omega arith)
fuel_left (suc fuel) n h pos = omega arith

-- The number of digits, so that the padding can be stated.
pub printnum_fuel-text :
    (fuel num base width padc : ℕ)
    → 2 ≤ base
    → num < 2 ^ fuel
    → 0 < fuel
    → printnum_fuel fuel num base width padc
      ≡ replicate (width - length (number_text fuel num base)) padc ++ number_text fuel num base
unfolding printnum_fuel number_text
printnum_fuel-text zero num base width padc lo h pos = absurd (omega arith)
printnum_fuel-text (suc fuel) num base width padc lo h pos = elim (Bool-cases (ltb num base)) [
  | inl last ↦ rw last refl
  | inr more ↦
      let high : num / base < 2 ^ fuel = quotient_bound fuel num base lo h in
      let some_left : 0 < num / base = quotient_pos num base more (omega arith) in
      let fueled : 0 < fuel = fuel_left fuel (num / base) high some_left in
      let text : _ = printnum_fuel-text fuel (num / base) base (width - 1) padc lo high fueled in
      let pads : width - 1 - length (number_text fuel (num / base) base)
          ≡ width - length (number_text fuel (num / base) base ++ digit_char (num % base) ∷ []) =
        omega (
          arith,
          length-append {0} (number_text fuel (num / base) base) (digit_char (num % base) ∷ []),
        ) in
      rw (more, text, pads)
        (append_assoc
          (replicate
            (width - length (number_text fuel (num / base) base ++ digit_char (num % base) ∷ []))
            padc)
          (number_text fuel (num / base) base) (digit_char (num % base) ∷ []))
]

-- printnum of a 64-bit number in a base from 2 to 16 prints padding characters up to the width and then a
-- text of one digit of the base or more that reads back as the number.
pub printnum-value :
    (num base width padc : ℕ)
    → 2 ≤ base
    → base ≤ 16
    → num < 2 ^ 64
    → (text : List ℕ) × (printnum num base width padc
        ≡ replicate (width - length text) padc ++ text)
      × IsNumeral base num text
unfolding printnum
printnum-value num base width padc lo hi h = (
  number_text 64 num base,
  printnum_fuel-text 64 num base width padc lo h (omega arith),
  record {
    nonempty = number_text-nonempty 63 num base;
    digits = number_text-digits 64 num base lo hi;
    value = number_text-value 64 num base lo hi h;
  },
)
