-- ===== src/Strings/Number.antt =====
-- strtol of lib/string.c. The result is the 32-bit word of the `long` and the pointer that `*endptr` gets; what is read behind
-- the object's end makes it `none`, since the loop over the digits only ends at a byte that is none.
pub mod Roundtrip
use mit6_828_lab.Base.{
  ℕ, ◌+◌, ◌-◌, ◌*◌, ◌%◌, ◌^◌, Bool, true, false, ◌==◌, leb, ◌&&◌, ◌||◌, if◌then◌else◌, Option, none,
  some, List, [], ◌∷◌,
}

unfoldable pub skip_space : List ℕ → List ℕ
skip_space [] = []
skip_space (c ∷ s) = if (c == b' ') || (c == 9) then skip_space s else c ∷ s

-- Whether there is a minus sign, and what follows the sign.
unfoldable pub take_sign : List ℕ → Bool × List ℕ
take_sign [] = (false, [])
take_sign (c ∷ s) =
    if c == b'+' then (false, s) else (if c == b'-' then (true, s) else (false, c ∷ s))

unfoldable pub hex_prefix : List ℕ → Bool
hex_prefix [] = false
hex_prefix (c ∷ []) = false
hex_prefix (c ∷ x ∷ s) = (c == b'0') && (x == b'x')

unfoldable pub octal_prefix : List ℕ → Bool
octal_prefix [] = false
octal_prefix (c ∷ s) = c == b'0'

abbrev pub rest_of : List ℕ → List ℕ
rest_of [] = []
rest_of (c ∷ s) = s

-- The base, and the text behind its prefix.
unfoldable pub take_base : ℕ → List ℕ → ℕ × List ℕ
take_base base s =
    if ((base == 0) || (base == 16)) && hex_prefix s
    then (16, rest_of (rest_of s))
    else (if (base == 0) && octal_prefix s
        then (8, rest_of s)
        else (if base == 0 then (10, s) else (base, s)))

unfoldable pub digit : ℕ → Option ℕ
digit c =
    if leb b'0' c && leb c b'9'
    then some (c - b'0')
    else (if leb b'a' c && leb c b'z'
        then some (c - b'a' + 10)
        else (if leb b'A' c && leb c b'Z' then some (c - b'A' + 10) else none))

unfoldable pub read_digits : (base val : ℕ) → List ℕ → Option (ℕ × List ℕ)
read_digits base val [] = none
read_digits base val (c ∷ s) = elim (digit c) [
  | none ↦ some (val, c ∷ s)
  | some dig ↦
      if leb base dig then some (val, c ∷ s) else read_digits base ((val * base + dig) % 2 ^ 32) s
]

abbrev pub negated : Bool → ℕ × List ℕ → ℕ × List ℕ
negated neg (val, s) = (if neg then (2 ^ 32 - val) % 2 ^ 32 else val, s)

unfoldable pub strtol : List ℕ → (base : ℕ) → Option (ℕ × List ℕ)
strtol s base =
    let (neg, s) = take_sign (skip_space s) in
    let (base, s) = take_base base s in
    elim (read_digits base 0 s) [ none ↦ none | some r ↦ some (negated neg r) ]
