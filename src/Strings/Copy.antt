-- ===== src/Strings/Copy.antt =====
-- The functions of lib/string.c that copy strings: strcpy, strcat, strncpy, strlcpy. The result is the object that `dst`
-- points into, and the number that strlcpy returns.
pub mod Kept
use mathlib.Core.Option
use mit6_828_lab.Base.{
  ℕ, zero, suc, ◌+◌, ◌-◌, ◌==◌, if◌then◌else◌, Option, none, some, List, [], ◌∷◌, ◌++◌, take, drop,
}
use mit6_828_lab.Strings.Scan.{strlen}

unfoldable pub strcpy : (dst src : List ℕ) → Option (List ℕ)
strcpy [] src = none
strcpy (d ∷ dst) [] = none
strcpy (d ∷ dst) (c ∷ src) =
    if c == 0 then some (0 ∷ dst) else Option.map (λ t. c ∷ t) (strcpy dst src)

pub strcat : (dst src : List ℕ) → Option (List ℕ)
strcat dst src = elim (strlen dst) [
  | none ↦ none
  | some len ↦ Option.map (λ t. take len dst ++ t) (strcpy (drop len dst) src)
]

unfoldable pub strncpy : (dst src : List ℕ) → (size : ℕ) → Option (List ℕ)
strncpy dst src zero = some dst
strncpy [] src (suc size) = none
strncpy (d ∷ dst) [] (suc size) = none
strncpy (d ∷ dst) (c ∷ src) (suc size) =
    Option.map (λ t. c ∷ t) (strncpy dst (if c == 0 then c ∷ src else src) size)

abbrev pub count_one : ℕ → List ℕ × ℕ → List ℕ × ℕ
count_one c (t, n) = (c ∷ t, suc n)

-- The loop and the write of the 0, where `--size` has given `left`.
unfoldable pub strlcpy_loop : (dst src : List ℕ) → (left : ℕ) → Option (List ℕ × ℕ)
strlcpy_loop [] src left = none
strlcpy_loop (d ∷ dst) src zero = some (0 ∷ dst, 0)
strlcpy_loop (d ∷ dst) [] (suc left) = none
strlcpy_loop (d ∷ dst) (c ∷ src) (suc left) =
    if c == 0 then some (0 ∷ dst, 0) else Option.map (count_one c) (strlcpy_loop dst src left)

pub strlcpy : (dst src : List ℕ) → (size : ℕ) → Option (List ℕ × ℕ)
strlcpy dst src zero = some (dst, 0)
strlcpy dst src (suc left) = strlcpy_loop dst src left
