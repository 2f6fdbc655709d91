-- ===== src/Monitor.antt =====
-- runcmd of kern/monitor.c: a command line is split at white space and its first word looked up. The buffer is its bytes before
-- the 0; an argument is the bytes that its pointer reaches before the 0 that the splitting writes. What is to be called
-- is the result. The commands, the messages and the loop around runcmd are in `Backtrace` and `Loop`.
use mit6_828_lab.Base.{
  ℕ, zero, suc, ◌+◌, ◌==◌, ◌&&◌, if◌then◌else◌, Bool, true, false, Option, none, some, List, [],
  ◌∷◌, ◌++◌, length,
}
use mit6_828_lab.Base.Int.{ℤ, pos, negsuc}
use mit6_828_lab.Strings.Scan.{strchr, strcmp}
pub mod Split
pub mod Words
pub mod Loop
pub mod Backtrace
mod Tests

abbrev pub whitespace : List ℕ
whitespace = 9 ∷ 13 ∷ 10 ∷ 32 ∷ 0 ∷ []

abbrev pub maxargs : ℕ
maxargs = 16

-- `strchr(WHITESPACE, c)` is not NULL.
unfoldable pub is_white : ℕ → Bool
unfolding strchr
is_white c = elim (strchr whitespace c) [ none ↦ false | some none ↦ false | some (some s) ↦ true ]

unfoldable pub gobble : List ℕ → List ℕ
gobble [] = []
gobble (c ∷ s) = if is_white c then gobble s else c ∷ s

-- An argument and what follows it.
unfoldable pub scan : List ℕ → List ℕ × List ℕ
scan [] = ([], [])
scan (c ∷ s) = let (word, rest) = scan s in if is_white c then ([], c ∷ s) else (c ∷ word, rest)

pub data Arguments : Type 0 where
  arguments : List (List ℕ) → Arguments
  too_many : Arguments
  out_of_fuel : Arguments

abbrev pub first_argument : List ℕ → Arguments → Arguments
first_argument word (arguments words) = arguments (word ∷ words)
first_argument word too_many = too_many
first_argument word out_of_fuel = out_of_fuel

-- The loop, where `argc` arguments are found; every round takes a character.
unfoldable pub split_fuel : (fuel argc : ℕ) → List ℕ → Arguments
split_fuel zero argc buf = out_of_fuel
split_fuel (suc fuel) argc buf = elim (gobble buf) [
  | [] ↦ arguments []
  | c ∷ s ↦
      if argc == 15
      then too_many
      else first_argument (scan (c ∷ s)).0 (split_fuel fuel (argc + 1) (scan (c ∷ s)).1)
]

pub split : List ℕ → Arguments
split buf = split_fuel (length buf + 1) 0 buf

pub data Command : Type 0 where
  mon_help mon_kerninfo mon_backtrace : Command

-- The names, with their final 0.
pub commands : List (List ℕ × Command)
commands =
    (104 ∷ 101 ∷ 108 ∷ 112 ∷ 0 ∷ [], mon_help)
    ∷ (107 ∷ 101 ∷ 114 ∷ 110 ∷ 105 ∷ 110 ∷ 102 ∷ 111 ∷ 0 ∷ [], mon_kerninfo)
    ∷ (98 ∷ 97 ∷ 99 ∷ 107 ∷ 116 ∷ 114 ∷ 97 ∷ 99 ∷ 101 ∷ 0 ∷ [], mon_backtrace)
    ∷ []

-- strcmp(argv[0], name) == 0
abbrev pub is_zero : Option ℤ → Bool
is_zero (some (pos zero)) = true
is_zero (some (pos (suc n))) = false
is_zero (some (negsuc n)) = false
is_zero none = false

pub lookup : List ℕ → List (List ℕ × Command) → Option Command
lookup word [] = none
lookup word ((name, command) ∷ rest) =
    if is_zero (strcmp (word ++ 0 ∷ []) name) then some command else lookup word rest

pub data Action : Type 0 where
  nothing too_many_arguments no_fuel : Action
  call : Command → (argv : List (List ℕ)) → Action
  unknown_command : List ℕ → Action

pub runcmd : List ℕ → Action
runcmd buf = elim (split buf) [
  | out_of_fuel ↦ no_fuel
  | too_many ↦ too_many_arguments
  | arguments [] ↦ nothing
  | arguments (word ∷ words) ↦ elim (lookup word commands) [
    | some command ↦ call command (word ∷ words)
    | none ↦ unknown_command word
  ]
]
