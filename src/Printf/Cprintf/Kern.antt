-- ===== src/Printf/Cprintf/Kern.antt =====
-- vcprintf of kern/printf.c.
use mit6_828_lab.Base.{ℕ, ◌≡◌, refl, sym, List, [], ◌∷◌, ◌++◌, ◌∙◌, ap}
use mathlib.Core.List.{append_assoc, append-nil}
use mit6_828_lab.Printf.Format.{Arg, printed, fault, out_of_fuel, vprintfmt}

-- `cnt` is the variable that the pointer parameter points to; `console` is what cputchar was given, in order.
pub record Count : Type 0 where
  pub cnt : ℕ
  pub console : List ℕ

-- `*cnt++` moves the parameter and leaves the variable.
pub putch : ℕ → Count → Count
putch ch s = record s { console = s.console ++ ch ∷ [] }

pub put_text : List ℕ → Count → Count
unfolding putch
put_text [] s = s
put_text (ch ∷ text) s = put_text text (putch ch s)

-- The return value and the console; an argument fault has neither.
pub data Returned : Type 0 where
  returned : (cnt : ℕ) (console : List ℕ) → Returned
  bad_format : Returned

pub vcprintf : List ℕ → List Arg → List ℕ → Returned
unfolding put_text
vcprintf fmt ap console = elim (vprintfmt fmt ap) [
  | printed text ↦
      let s = put_text text (record { cnt = 0; console = console }) in returned s.cnt s.console
  | fault ↦ bad_format
  | out_of_fuel ↦ bad_format
]

-- `ap` is what va_start finds.
pub cprintf : List ℕ → List Arg → List ℕ → Returned
cprintf fmt ap console = vcprintf fmt ap console

put_text-cnt :
    (text : List ℕ) (s : Count)
    → ((put_text text s).cnt ≡ s.cnt) × ((put_text text s).console ≡ s.console ++ text)
unfolding put_text
put_text-cnt [] s = (refl, sym (append-nil s.console))
put_text-cnt (ch ∷ text) s =
    let rest : _ = put_text-cnt text (putch ch s) in
    (rest.0, rest.1 ∙ append_assoc s.console (ch ∷ []) text)

-- The kernel's vcprintf gives the text to the console, and returns 0 however long the text is: `*cnt++` counts nothing.
pub vcprintf-zero :
    (fmt : List ℕ) (ap' : List Arg) (text console : List ℕ)
    → vprintfmt fmt ap' ≡ printed text
    → vcprintf fmt ap' console ≡ returned 0 (console ++ text)
unfolding vcprintf
vcprintf-zero fmt ap' text console e =
    let run : _ = put_text-cnt text (record { cnt = 0; console = console }) in
    rw (e, vcprintf, run.0, run.1)
