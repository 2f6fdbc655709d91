-- ===== src/Strings/Number/Roundtrip.antt =====
-- strtol reads back what printnum prints.
use native.Mathlib.Nat.{mod-eq_of_lt, mod-lt}
use mit6_828_lab.Base.{
  ℕ, zero, suc, ◌+◌, ◌-◌, ◌*◌, ◌/◌, ◌%◌, ◌^◌, ◌≤◌, ◌<◌, ◌≡◌, refl, sym, ap, ◌∙◌, inl, inr, Bool,
  true, false, ◌==◌, ltb, leb, ◌&&◌, Bool-cases, Option, none, some, List, [], ◌∷◌, ◌++◌, arith,
  all_below, all_below_sound, length,
}
use mit6_828_lab.Printf.Number.{digit_char, printnum}
use mit6_828_lab.Printf.Number.Text.{
  digit_value, value_from, number_text, value-digit_char, number_text-value, printnum_fuel-text,
}
use mit6_828_lab.Strings.Number.{
  skip_space, take_sign, hex_prefix, take_base, digit, read_digits, strtol,
}

-- A byte that strtol takes for a digit of the base.
record IsDigit (base c : ℕ) : Type 0 where
  value : digit c ≡ some (digit_value c)
  small : digit_value c < base

abbrev AllDigits : ℕ → List ℕ → Type 0
AllDigits base [] = Unit {0}
AllDigits base (c ∷ cs) = IsDigit base c × AllDigits base cs

AllDigits-snoc :
    (base c : ℕ) (cs : List ℕ) → AllDigits base cs → IsDigit base c → AllDigits base (cs ++ c ∷ [])
AllDigits-snoc base c [] all last = (last, tt)
AllDigits-snoc base c (x ∷ cs) all last = (all.0, AllDigits-snoc base c cs all.1 last)

abbrev is_value : Option ℕ → ℕ → Bool
is_value none v = false
is_value (some x) v = x == v

is_value-some : (o : Option ℕ) (v : ℕ) → is_value o v ≡ true → o ≡ some v
is_value-some none v h = absurd (ground arith)
is_value-some (some x) v h = ap some (ground arith)

digit_table : all_below 16 (λ d. is_value (digit (digit_char d)) d) ≡ true
unfolding digit digit_char
digit_table = refl

digit_char-digit : (d : ℕ) → d < 16 → digit (digit_char d) ≡ some d
digit_char-digit d h =
    is_value-some (digit (digit_char d)) d
      (all_below_sound 16 (λ d. is_value (digit (digit_char d)) d) d digit_table h)

digit_char-IsDigit : (base d : ℕ) → base ≤ 16 → d < base → IsDigit base (digit_char d)
digit_char-IsDigit base d hi h =
    let value : digit_value (digit_char d) ≡ d = value-digit_char d (omega arith) in
    record { value = digit_char-digit d (omega arith) ∙ ap some (sym value); small = omega arith }

number_text-AllDigits :
    (fuel num base : ℕ) → 2 ≤ base → base ≤ 16 → AllDigits base (number_text fuel num base)
unfolding number_text
number_text-AllDigits zero num base lo hi = tt
number_text-AllDigits (suc fuel) num base lo hi =
    let last : IsDigit base (digit_char (num % base)) =
      digit_char-IsDigit base (num % base) hi (mod-lt num (omega arith)) in
    elim (Bool-cases (ltb num base)) [
      | inl one ↦ rw one (last, tt)
      | inr more ↦ rw more (
          AllDigits-snoc base (digit_char (num % base)) (number_text fuel (num / base) base)
            (number_text-AllDigits fuel (num / base) base lo hi) last)
    ]

value_from-grows : (base acc : ℕ) (cs : List ℕ) → 1 ≤ base → acc ≤ value_from base acc cs
unfolding value_from
value_from-grows base acc [] lo = omega arith
value_from-grows base acc (c ∷ cs) lo =
    let more : acc ≤ acc * base + digit_value c = grind arith in
    omega (arith, value_from-grows base (acc * base + digit_value c) cs lo)

-- The loop over the digits of a number that fits a word, up to the 0.
read_digits-value :
    (base acc : ℕ) (cs rest : List ℕ)
    → 1 ≤ base
    → AllDigits base cs
    → value_from base acc cs < 2 ^ 32
    → read_digits base acc (cs ++ 0 ∷ rest) ≡ some (value_from base acc cs, 0 ∷ rest)
unfolding read_digits value_from
read_digits-value base acc [] rest lo all fits = unfold digit in refl
read_digits-value base acc (c ∷ cs) rest lo all fits =
    let small : leb base (digit_value c) ≡ false = ground (arith, all.0.small) in
    let grows : _ = value_from-grows base (acc * base + digit_value c) cs lo in
    let same : (acc * base + digit_value c) % 2 ^ 32 ≡ acc * base + digit_value c =
      mod-eq_of_lt (omega (arith, fits, grows)) in
    rw (read_digits, all.0.value, small, same)
      (read_digits-value base (acc * base + digit_value c) cs rest lo all.1 fits)

-- A digit is no character that strtol takes for something else.
digit-other : (base c x : ℕ) → IsDigit base c → digit x ≡ none → (c == x) ≡ false
digit-other base c x d h = elim (Bool-cases (c == x)) [
  | inl same ↦
      let eq : c ≡ x = ground arith in
      let both : none ≡ some (digit_value c) = sym h ∙ ap digit (sym eq) ∙ d.value in
      absurd (ground arith)
  | inr other ↦ other
]

small-other : (base c : ℕ) → base ≤ 16 → IsDigit base c → (c == b'x') ≡ false
unfolding digit_value
small-other base c hi d = let small : _ = d.small in ground arith

text_prefixes :
    (base : ℕ) (text rest : List ℕ)
    → base ≤ 16
    → AllDigits base text
    → (take_sign (skip_space (text ++ 0 ∷ rest)) ≡ (false, text ++ 0 ∷ rest))
      × (hex_prefix (text ++ 0 ∷ rest) ≡ false)
unfolding take_sign skip_space hex_prefix
text_prefixes base [] [] hi all = (refl, refl)
text_prefixes base [] (x ∷ rest) hi all = (refl, refl)
text_prefixes base (c ∷ []) rest hi all =
    let no_space : (c == 32) ≡ false = digit-other base c 32 all.0 (unfold digit in refl) in
    let no_tab : (c == 9) ≡ false = digit-other base c 9 all.0 (unfold digit in refl) in
    let no_plus : (c == b'+') ≡ false = digit-other base c b'+' all.0 (unfold digit in refl) in
    let no_minus : (c == b'-') ≡ false = digit-other base c b'-' all.0 (unfold digit in refl) in
    (rw (no_space, no_tab, no_plus, no_minus) refl, ground arith)
text_prefixes base (c ∷ x ∷ text) rest hi all =
    let no_space : (c == 32) ≡ false = digit-other base c 32 all.0 (unfold digit in refl) in
    let no_tab : (c == 9) ≡ false = digit-other base c 9 all.0 (unfold digit in refl) in
    let no_plus : (c == b'+') ≡ false = digit-other base c b'+' all.0 (unfold digit in refl) in
    let no_minus : (c == b'-') ≡ false = digit-other base c b'-' all.0 (unfold digit in refl) in
    let no_x : (x == b'x') ≡ false = small-other base x hi all.1.0 in
    (rw (no_space, no_tab, no_plus, no_minus) refl, rw no_x (ground arith))

take_base-given :
    (base : ℕ) (s : List ℕ) → 2 ≤ base → hex_prefix s ≡ false → take_base base s ≡ (base, s)
unfolding take_base
take_base-given base s lo no_hex =
    let given : (base == 0) ≡ false = ground arith in
    let no_16 : ((base == 16) && false) ≡ false = ground arith in rw (given, no_hex, no_16) refl

strtol-text :
    (base : ℕ) (text rest : List ℕ)
    → 2 ≤ base
    → base ≤ 16
    → AllDigits base text
    → value_from base 0 text < 2 ^ 32
    → strtol (text ++ 0 ∷ rest) base ≡ some (value_from base 0 text, 0 ∷ rest)
unfolding strtol
strtol-text base text rest lo hi all fits =
    let (unsigned, no_hex) = text_prefixes base text rest hi all in
    let given : _ = take_base-given base (text ++ 0 ∷ rest) lo no_hex in
    let read : _ = read_digits-value base 0 text rest (omega arith) all fits in
    rw (unsigned, given, read, strtol) (rw unsigned refl)

-- strtol, given the base, reads back every 32-bit number that printnum prints without padding, and stops at the 0 behind it.
pub strtol-printnum :
    (num base padc : ℕ) (rest : List ℕ)
    → 2 ≤ base
    → base ≤ 16
    → num < 2 ^ 32
    → strtol (printnum num base 0 padc ++ 0 ∷ rest) base ≡ some (num, 0 ∷ rest)
unfolding printnum
strtol-printnum num base padc rest lo hi h =
    let text : List ℕ = number_text 64 num base in
    let value : value_from base 0 text ≡ num = number_text-value 64 num base lo hi (omega arith) in
    let made : printnum num base 0 padc ≡ text =
      printnum_fuel-text 64 num base 0 padc lo (omega arith) (omega arith)
      ∙ (let none_left : 0 - length text ≡ 0 = omega arith in rw none_left refl) in
    rw made (
      strtol-text base text rest lo hi (number_text-AllDigits 64 num base lo hi) (omega arith)
      ∙ ap (λ n. some (n, 0 ∷ rest)) value)
