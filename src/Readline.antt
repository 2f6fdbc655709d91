-- ===== src/Readline.antt =====
-- lib/readline.c: a line from the console into a buffer of 1024 bytes. What getchar returns, call by call, is an argument, and
-- `echo` collects what cputchar is given, latest first; `waiting` is where getchar has not returned.
mod Edit
mod Tests
use mit6_828_lab.Base.{
  ℕ, ◌+◌, ◌-◌, ◌%◌, Bool, ◌==◌, ltb, leb, ◌&&◌, ◌||◌, if◌then◌else◌, List, [], ◌∷◌,
}
use mit6_828_lab.Base.Int.{ℤ, pos, negsuc}

abbrev pub buflen : ℕ
buflen = 1024

pub record Line : Type 0 where
  pub i : ℕ
  pub buf : ℕ → ℕ
  pub echo : List ℕ

pub data Result : Type 0 where
  waiting : Line → Result
  read_error : Line → Result
  line : Line → Result

abbrev pub cputchar : Bool → ℕ → Line → Line
cputchar echoing c l = if echoing then record l { echo = c ∷ l.echo } else l

abbrev pub set_char : ℕ → Line → Line
set_char c l = record l { buf = λ j. if l.i == j then c % 256 else l.buf j }

abbrev pub erase : Bool → Line → Line
erase echoing l = let l' = cputchar echoing 8 l in record l' { i = l'.i - 1 }

abbrev pub append : Bool → ℕ → Line → Line
append echoing c l = let l' = set_char c (cputchar echoing c l) in record l' { i = l'.i + 1 }

-- What one character does, where it does not end the line.
pub edit : Bool → ℕ → Line → Line
edit echoing c l =
    if ((c == 8) || (c == 127)) && ltb 0 l.i
    then erase echoing l
    else (if leb 32 c && ltb l.i (buflen - 1) then append echoing c l else l)

-- Newline and carriage return are below ' ' and are no backspace, so the earlier branches do not take them.
abbrev pub ends_line : ℕ → Bool
ends_line c = (c == 10) || (c == 13)

pub readline_loop : Bool → List ℤ → Line → Result
readline_loop echoing [] l = waiting l
readline_loop echoing (negsuc n ∷ cs) l = read_error l
readline_loop echoing (pos c ∷ cs) l =
    if ends_line c
    then line (set_char 0 (cputchar echoing 10 l))
    else readline_loop echoing cs (edit echoing c l)

-- `stack` is what the static buffer held before.
pub readline : Bool → List ℤ → (stack : ℕ → ℕ) → Result
readline echoing cs stack = readline_loop echoing cs (record { i = 0; buf = stack; echo = [] })
