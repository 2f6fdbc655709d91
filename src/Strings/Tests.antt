-- ===== src/Strings/Tests.antt =====
-- The theorems about lib/string.c at small inputs.
use mit6_828_lab.Base.{ℕ, ◌%◌, ◌≡◌, some, List, [], ◌∷◌, ◌++◌, arith}
use mit6_828_lab.Strings.Block.{memmove}
use mit6_828_lab.Strings.Block.Move.{copied, memmove-copied}
use mit6_828_lab.Strings.Number.{strtol}
use mit6_828_lab.Strings.Number.Roundtrip.{strtol-printnum}
use mit6_828_lab.Printf.Number.{printnum}

abbrev ls : List ℕ
ls = b'l' ∷ b's' ∷ []

-- Eight bytes moved up by four, in words.
memmove-copied_example :
    memmove 0x1004 0x1000 8 (λ a. a % 256) 0x100a ≡ copied 0x1004 0x1000 8 (λ a. a % 256) 0x100a
memmove-copied_example =
    memmove-copied 0x1004 0x1000 8 (λ a. a % 256) 0x100a (omega arith) (omega arith)

-- 255 is "ff".
strtol-printnum_example : strtol (printnum 255 16 0 32 ++ 0 ∷ []) 16 ≡ some (255, 0 ∷ [])
strtol-printnum_example = strtol-printnum 255 16 32 [] (omega arith) (omega arith) (omega arith)
