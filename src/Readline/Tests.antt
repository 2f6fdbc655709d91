-- ===== src/Readline/Tests.antt =====
-- A line with a backspace.
use mit6_828_lab.Base.{◌≤◌, ◌≡◌, refl, true, [], ◌∷◌, ◌++◌, map}
use mit6_828_lab.Base.Int.{pos}
use mit6_828_lab.Readline.{Line, line, readline}
use mit6_828_lab.Readline.Edit.{typed_all, latest_first, readline-typed}

readline-typed_example :
    (l : Line) × (readline true (map pos (b'l' ∷ b'x' ∷ 8 ∷ b's' ∷ []) ++ pos 10 ∷ []) (λ i. 0)
      ≡ line l)
    × (latest_first l.buf l.i ≡ typed_all (b'l' ∷ b'x' ∷ 8 ∷ b's' ∷ []) [])
    × (l.i ≤ 1023)
    × (l.buf l.i ≡ 0)
readline-typed_example = readline-typed true (b'l' ∷ b'x' ∷ 8 ∷ b's' ∷ []) [] 10 (λ i. 0) refl refl
