-- ===== src/Console/Input.antt =====
-- The console's circular input buffer: cons_intr and cons_getc. `proc` of cons_intr is the list of
-- what its calls return before the first -1.
pub mod Queue
use mit6_828_lab.Base.{
  ℕ, ◌+◌, ◌%◌, Bool, Option, none, some, List, [], ◌∷◌, ◌==◌, if◌then◌else◌, bit_and,
}
use mit6_828_lab.Base.Int.{ℤ, pos, negsuc}

-- CONSBUFSIZE
abbrev pub consbufsize : ℕ
consbufsize = 512

pub record Cons : Type 0 where
  pub buf : ℕ → ℕ
  pub rpos : ℕ
  pub wpos : ℕ

-- `p++; if (p == CONSBUFSIZE) p = 0;`
abbrev pub next_pos : ℕ → ℕ
next_pos p = if p + 1 == consbufsize then 0 else p + 1

-- `cons.buf` holds bytes.
pub put : ℕ → Cons → Cons
put c s = record s { buf = λ i. if s.wpos == i then c % 256 else s.buf i; wpos = next_pos s.wpos }

pub cons_intr : List ℕ → Cons → Cons
cons_intr [] s = s
cons_intr (c ∷ cs) s = cons_intr cs (if c == 0 then s else put c s)

-- What follows the polling: the next character, or 0.
pub take_char : Cons → ℕ × Cons
take_char s =
    if s.rpos == s.wpos then (0, s) else (s.buf s.rpos, record s { rpos = next_pos s.rpos })

-- A byte is there if the line status says so; -1 is `negsuc 0`.
pub serial_proc_data : (lsr rx : ℕ) → ℤ
serial_proc_data lsr rx = if bit_and lsr 1 == 0 then negsuc 0 else pos rx

abbrev pub serial_intr : Bool → List ℕ → Cons → Cons
serial_intr serial_exists serial s = if serial_exists then cons_intr serial s else s

abbrev pub kbd_intr : List ℕ → Cons → Cons
kbd_intr kbd s = cons_intr kbd s

-- `serial` and `kbd` are what the two devices have to give at the call.
pub cons_getc : Bool → (serial kbd : List ℕ) → Cons → ℕ × Cons
unfolding cons_intr put take_char
cons_getc serial_exists serial kbd s = take_char (kbd_intr kbd (serial_intr serial_exists serial s))

-- What the devices give at each poll; `none` is where getchar still waits.
pub getchar : Bool → List (List ℕ × List ℕ) → Cons → Option (ℕ × Cons)
getchar serial_exists [] s = none
getchar serial_exists ((serial, kbd) ∷ polls) s =
    let (c, s') = cons_getc serial_exists serial kbd s in
    if c == 0 then getchar serial_exists polls s' else some (c, s')
