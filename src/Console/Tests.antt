-- ===== src/Console/Tests.antt =====
-- The theorems about kern/console.c at small inputs.
use mit6_828_lab.Base.{◌≡◌, refl, true, some, [], ◌∷◌, arith, replicate}
use mit6_828_lab.Console.Input.{Cons, cons_intr, cons_getc, take_char}
use mit6_828_lab.Console.Input.Queue.{IsValid, contents, cons_getc-contents, cons_intr_overrun}
use mit6_828_lab.Console.Keyboard.{kbd_proc_data}
use mit6_828_lab.Console.Keyboard.Tables.{shiftcode, togglecode, charcode}
use mit6_828_lab.Console.Screen.{Screen, cga_putc}
use mit6_828_lab.Console.Screen.Bounds.{Inside, cga_putc-Inside}

-- 7 waits at the end of the buffer.
abbrev cons : Cons
cons = record { buf = λ i. 7; rpos = 511; wpos = 0 }

abbrev empty : Cons
empty = record { buf = λ i. 0; rpos = 3; wpos = 3 }

abbrev screen : Screen
screen = record { addr_6845 = 0x3d4; crt_buf = λ i. 0; crt_pos = 1999; ports = [] }

cons_getc-contents_example :
    ((cons_getc true (65 ∷ []) (66 ∷ []) cons).0 ≡ 7)
    × (contents (cons_getc true (65 ∷ []) (66 ∷ []) cons).1 ≡ 65 ∷ 66 ∷ [])
    × IsValid (cons_getc true (65 ∷ []) (66 ∷ []) cons).1
cons_getc-contents_example =
    cons_getc-contents true (65 ∷ []) (66 ∷ []) cons (omega arith) (omega arith)

cons_intr_overrun_example :
    (contents (cons_intr (replicate 512 65) empty) ≡ [])
    × ((take_char (cons_intr (replicate 512 65) empty)).0 ≡ 0)
cons_intr_overrun_example = cons_intr_overrun (replicate 512 65) empty (omega arith) refl refl

shifted_letter : (kbd_proc_data 1 0x1e 1).result ≡ some 65
unfolding kbd_proc_data shiftcode togglecode charcode
shifted_letter = refl

cga_putc-Inside_example : Inside screen (cga_putc 9 screen)
cga_putc-Inside_example = cga_putc-Inside 9 screen (omega arith)
