-- ===== src/Strings/Copy/Kept.antt =====
-- What strcpy, strcat, strncpy and strlcpy leave in the destination.
use mathlib.Core.Option
use mit6_828_lab.Base.{
  ℕ, zero, suc, ◌-◌, ◌≤◌, ◌<◌, ◌≡◌, refl, ap, true, false, ◌==◌, some, List, [], ◌∷◌, ◌++◌, arith,
  length, take, drop,
}
use mit6_828_lab.Strings.Scan.Compare.{lacks}
use mit6_828_lab.Strings.Copy.{strcpy, count_one, strlcpy_loop, strlcpy}

-- strcpy of a string to an object with room for it leaves the string and its 0, and what stood behind.
pub strcpy-copies :
    (text rest dst : List ℕ)
    → lacks 0 text ≡ true
    → length text < length dst
    → strcpy dst (text ++ 0 ∷ rest) ≡ some (text ++ 0 ∷ drop (suc (length text)) dst)
unfolding strcpy
strcpy-copies [] rest [] h room = absurd (omega arith)
strcpy-copies [] rest (d ∷ dst) h room = refl
strcpy-copies (c ∷ text) rest [] h room = absurd (omega arith)
strcpy-copies (c ∷ text) rest (d ∷ dst) h room =
    let other : (c == 0) ≡ false = ground arith in
    rw other
      (ap (Option.map (λ t. c ∷ t)) (strcpy-copies text rest dst (ground arith) (omega arith)))

-- The object and the number after strlcpy has stored `kept`.
abbrev pub after_strlcpy : (kept dst : List ℕ) → List ℕ × ℕ
after_strlcpy kept dst = (kept ++ 0 ∷ drop (suc (length kept)) dst, length kept)

strlcpy_loop-copies :
    (text rest dst : List ℕ) (left : ℕ)
    → lacks 0 text ≡ true
    → length (take left text) < length dst
    → strlcpy_loop dst (text ++ 0 ∷ rest) left ≡ some (after_strlcpy (take left text) dst)
unfolding strlcpy_loop
strlcpy_loop-copies text rest [] left h room = absurd (omega arith)
strlcpy_loop-copies text rest (d ∷ dst) zero h room = refl
strlcpy_loop-copies [] rest (d ∷ dst) (suc left) h room = refl
strlcpy_loop-copies (c ∷ text) rest (d ∷ dst) (suc left) h room =
    let other : (c == 0) ≡ false = ground arith in
    rw other (
      ap (Option.map (count_one c))
        (strlcpy_loop-copies text rest dst left (ground arith) (omega arith)))

-- strlcpy with a size of at least 1 stores the first `size - 1` bytes of the string (all, if it is shorter) and a 0, changes
-- nothing behind, and returns how many bytes it stored before the 0. With size 0 it does nothing.
pub strlcpy-copies :
    (text rest dst : List ℕ) (size : ℕ)
    → lacks 0 text ≡ true
    → 1 ≤ size
    → length (take (size - 1) text) < length dst
    → (strlcpy dst (text ++ 0 ∷ rest) size ≡ some (after_strlcpy (take (size - 1) text) dst))
      × (strlcpy dst (text ++ 0 ∷ rest) 0 ≡ some (dst, 0))
unfolding strlcpy
strlcpy-copies text rest dst zero h pos room = absurd (omega arith)
strlcpy-copies text rest dst (suc left) h pos room =
    let size : suc left - 1 ≡ left = omega arith in
    rw size (strlcpy_loop-copies text rest dst left h (rw size at room), refl)
