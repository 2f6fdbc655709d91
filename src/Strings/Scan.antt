-- ===== src/Strings/Scan.antt =====
-- The functions of lib/string.c that only read: strlen, strnlen, strcmp, strncmp, strchr, strfind, memcmp, memfind.
pub mod Compare
use mathlib.Core.Option
use mit6_828_lab.Base.{
  ℕ, zero, suc, ◌%◌, ◌==◌, ◌&&◌, ◌||◌, not, if◌then◌else◌, Option, none, some, List, [], ◌∷◌,
}
use mit6_828_lab.Base.Int.{ℤ, pos, sub_ℕ}

unfoldable pub strlen : List ℕ → Option ℕ
strlen [] = none
strlen (c ∷ s) = if c == 0 then some 0 else Option.map suc (strlen s)

unfoldable pub strnlen : List ℕ → (size : ℕ) → Option ℕ
strnlen s zero = some 0
strnlen [] (suc size) = none
strnlen (c ∷ s) (suc size) = if c == 0 then some 0 else Option.map suc (strnlen s size)

unfoldable pub strcmp : (p q : List ℕ) → Option ℤ
strcmp [] q = none
strcmp (a ∷ p) [] = none
strcmp (a ∷ p) (b ∷ q) = if not (a == 0) && (a == b) then strcmp p q else some (sub_ℕ a b)

unfoldable pub strncmp : (p q : List ℕ) → (n : ℕ) → Option ℤ
strncmp p q zero = some (pos 0)
strncmp [] q (suc n) = none
strncmp (a ∷ p) [] (suc n) = none
strncmp (a ∷ p) (b ∷ q) (suc n) =
    if not (a == 0) && (a == b) then strncmp p q n else some (sub_ℕ a b)

-- The pointer returned, where `some none` is NULL.
unfoldable pub strchr : List ℕ → (c : ℕ) → Option (Option (List ℕ))
strchr [] c = none
strchr (x ∷ s) c =
    if x == 0 then some none else (if x == c then some (some (x ∷ s)) else strchr s c)

unfoldable pub strfind : List ℕ → (c : ℕ) → Option (List ℕ)
strfind [] c = none
strfind (x ∷ s) c = if (x == 0) || (x == c) then some (x ∷ s) else strfind s c

unfoldable pub memcmp : (v1 v2 : List ℕ) → (n : ℕ) → Option ℤ
memcmp v1 v2 zero = some (pos 0)
memcmp [] v2 (suc n) = none
memcmp (a ∷ v1) [] (suc n) = none
memcmp (a ∷ v1) (b ∷ v2) (suc n) = if not (a == b) then some (sub_ℕ a b) else memcmp v1 v2 n

-- `c` counts as an unsigned char.
unfoldable pub memfind : List ℕ → (c n : ℕ) → Option (List ℕ)
memfind s c zero = some s
memfind [] c (suc n) = none
memfind (x ∷ s) c (suc n) = if x == c % 256 then some (x ∷ s) else memfind s c n
