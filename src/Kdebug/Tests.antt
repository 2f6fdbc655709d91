-- ===== src/Kdebug/Tests.antt =====
-- A small table of stabs, and the theorems about kern/kdebug.c at it.
use mit6_828_lab.Base.{
  ℕ, Bool, ◌+◌, ◌≤◌, ◌≡◌, refl, List, [], ◌∷◌, some, arith, ◌==◌, if◌then◌else◌, length, ◌-◌,
}
use mit6_828_lab.Strings.Scan.{strfind}
use mit6_828_lab.Kdebug.Search.{Stab, stab_binsearch}
use mit6_828_lab.Kdebug.Search.Invariant.{IsSearchable}
use mit6_828_lab.Kdebug.Search.Bracket.{Outcome, stab_binsearch-Outcome}
use mit6_828_lab.Kdebug.Search.Range.{stab_binsearch_bounds}
use mit6_828_lab.Kdebug.Info.{
  Tables, Eipdebuginfo, found, n_so, n_fun, n_sline, name_text, name_at, debuginfo_table,
}
use mit6_828_lab.Kdebug.Info.Found.{Last, debuginfo_table-function}

abbrev types : ℕ → ℕ
types i = if i == 1 then n_so else (if i == 2 then n_fun else (if i == 5 then n_so else n_sline))

abbrev values : ℕ → ℕ
values i =
    if i == 1
    then 100
    else (if i == 2 then 104 else (if i == 4 then 6 else (if i == 5 then 200 else 0)))

-- A file with a function of two lines, and the next file.
abbrev table : ℕ → Stab
table i = record { n_strx = i; n_type = types i; n_other = 0; n_desc = i + 10; n_value = values i }

-- "ab" at 2, with its type.
abbrev names : List ℕ
names = 0 ∷ 99 ∷ 97 ∷ 98 ∷ 58 ∷ 70 ∷ 0 ∷ []

abbrev program : Tables
program = record { stabs = table; count = 6; stabstr = names }

files-IsSearchable : IsSearchable table n_so 0 6 112
files-IsSearchable = record {
  ordered = omega arith;
  sorted = λ i j a b c d e. ground arith;
  apart = λ j a b typed. ground arith;
  small = omega arith;
}

functions-IsSearchable : IsSearchable table n_fun 0 6 112
functions-IsSearchable = record {
  ordered = omega arith;
  sorted = λ i j a b c d e. ground arith;
  apart = λ j a b typed. ground arith;
  small = omega arith;
}

file-Last : Last program n_so 0 6 112 1
file-Last = record {
  from = omega arith;
  upto = omega arith;
  typed = refl;
  low = omega arith;
  later = λ j a b typed. ground arith;
}

function-Last : Last program n_fun 0 6 112 2
function-Last = record {
  from = omega arith;
  upto = omega arith;
  typed = refl;
  low = omega arith;
  later = λ j a b typed. ground arith;
}

stab_binsearch-Outcome_example :
    Outcome table n_so 0 6 112 files-IsSearchable (stab_binsearch table 0 6 n_so 112)
stab_binsearch-Outcome_example = stab_binsearch-Outcome table n_so 0 6 112 files-IsSearchable

stab_binsearch_bounds_example :
    (l1 : ℕ) × (e : ℕ) × (stab_binsearch table 0 6 n_so 112 ≡ some (l1, e))
    × (0 ≤ l1)
    × (l1 ≤ 6 + 1)
    × (0 ≤ e)
    × (e ≤ 6)
stab_binsearch_bounds_example = stab_binsearch_bounds table n_so 0 6 112 (omega arith)

debuginfo_table-function_example :
    (line_found : Bool) × (info : Eipdebuginfo) × (rest : List ℕ) × (debuginfo_table program 112
      ≡ found line_found info)
    × (info.eip_fn_addr ≡ 104)
    × (info.eip_fn_name ≡ name_at program 2)
    × (strfind (name_text program (name_at program 2)) b':' ≡ some rest)
    × (info.eip_fn_namelen ≡ length (name_text program (name_at program 2)) - length rest)
debuginfo_table-function_example =
    debuginfo_table-function program 112 1 2 refl files-IsSearchable functions-IsSearchable
      file-Last function-Last (omega arith) (omega arith) (λ j a b typed. ground arith)
