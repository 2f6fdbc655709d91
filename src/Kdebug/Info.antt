-- ===== src/Kdebug/Info.antt =====
-- debuginfo_eip of kern/kdebug.c. `Tables` are the four pointers to a table of stabs and its strings: the kernel's own, or a
-- program's, which stand at addresses that the linker scripts fix. A name is a pointer into the strings. An `int` that
-- can be -1 is kept one higher, as stab_binsearch returns it. Whether the message
-- "line not find" was printed is part of the result.
pub mod Found
use mit6_828_lab.Base.{
  ℕ, zero, suc, ◌+◌, ◌-◌, ◌%◌, ◌^◌, Bool, true, false, Option, none, some, List, [], ◌∷◌, ◌==◌, ltb,
  leb, ◌&&◌, ◌||◌, not, if◌then◌else◌, length, drop, get_or,
}
use mit6_828_lab.Mmu.Macros.{ulim}
use mit6_828_lab.Strings.Scan.{strfind}
use mit6_828_lab.Kdebug.Search.{Stab, stab_binsearch}

abbrev pub n_fun : ℕ
n_fun = 0x24

abbrev pub n_sline : ℕ
n_sline = 0x44

abbrev pub n_so : ℕ
n_so = 0x64

abbrev pub n_sol : ℕ
n_sol = 0x84

abbrev pub n_psym : ℕ
n_psym = 0xa0

pub record Tables : Type 0 where
  pub stabs : ℕ → Stab
  pub count : ℕ
  pub stabstr : List ℕ

pub data Name : Type 0 where
  unknown : Name
  at_strx : ℕ → Name

pub record Eipdebuginfo : Type 0 where
  pub eip_file : Name
  pub eip_line : ℕ
  pub eip_fn_name : Name
  pub eip_fn_namelen : ℕ
  pub eip_fn_addr : ℕ
  pub eip_fn_narg : ℕ

-- The returns of -1 and of 0, here with whether the line was found; where it was not, "line not find" is printed. A read of stabs[-1] or behind the strings.
pub data Debuginfo : Type 0 where
  failed : Eipdebuginfo → Debuginfo
  found : (line_found : Bool) → Eipdebuginfo → Debuginfo
  bad_read : Debuginfo
  out_of_fuel : Debuginfo

abbrev pub no_info : ℕ → Eipdebuginfo
no_info addr = record {
  eip_file = unknown;
  eip_line = 0;
  eip_fn_name = unknown;
  eip_fn_namelen = 9;
  eip_fn_addr = addr;
  eip_fn_narg = 0;
}

-- The bytes from a name's pointer on; the literal is "<unknown>".
abbrev pub name_text : Tables → Name → List ℕ
name_text t unknown = 60 ∷ 117 ∷ 110 ∷ 107 ∷ 110 ∷ 111 ∷ 119 ∷ 110 ∷ 62 ∷ 0 ∷ []
name_text t (at_strx n) = drop n t.stabstr

-- A name, with a check of the bounds.
abbrev pub name_at : Tables → ℕ → Name
name_at t i =
    if ltb (t.stabs i).n_strx (length t.stabstr) then at_strx (t.stabs i).n_strx else unknown

-- `while (lline >= lfile && ...) lline--;`
unfoldable pub file_line : Tables → (lfile : ℕ) → ℕ → ℕ
file_line t lfile zero = zero
file_line t lfile (suc l) =
    let s = t.stabs l in
    let rest = file_line t lfile l in
    if ltb l lfile
    then suc l
    else (if (s.n_type == n_sol) || ((s.n_type == n_so) && not (s.n_value == 0))
        then suc l
        else rest)

unfoldable pub count_args : Tables → (rounds lline : ℕ) → ℕ
count_args t zero lline = 0
count_args t (suc n) lline =
    if (t.stabs lline).n_type == n_psym then suc (count_args t n (lline + 1)) else 0

-- What is stored after the search for the line number; `lline` and `endline` are its result.
abbrev pub with_line : Tables → (lfile lfun endfun lline endline : ℕ) → Eipdebuginfo → Eipdebuginfo
with_line t lfile lfun endfun lline endline info =
    let m = file_line t lfile lline in
    record info {
      eip_line = if leb lline endline then (t.stabs (lline - 1)).n_desc else info.eip_line;
      eip_file =
          if ltb lfile m && ltb (t.stabs (m - 1)).n_strx (length t.stabstr)
          then at_strx (t.stabs (m - 1)).n_strx
          else info.eip_file;
      eip_fn_narg =
          if ltb lfun endfun then count_args t (endfun - 1 - lfun) lfun else info.eip_fn_narg;
    }

unfoldable pub finish_info :
    Tables → (lfile lfun endfun lline endline : ℕ) → Eipdebuginfo → Debuginfo
finish_info t lfile lfun endfun lline endline info =
    if lline == 0
    then bad_read
    else found (leb lline endline) (with_line t lfile lfun endfun lline endline info)

-- The length of the name, and the search for the line in [left, end).
unfoldable pub find_line : Tables → (lfile lfun endfun left end addr : ℕ) → Eipdebuginfo → Debuginfo
find_line t lfile lfun endfun left end addr info =
    let text = name_text t info.eip_fn_name in
    elim (strfind text b':') [
      | none ↦ bad_read
      | some rest ↦ elim (stab_binsearch t.stabs left end n_sline addr) [
        | none ↦ out_of_fuel
        | some (lline, endline) ↦
            finish_info t lfile lfun endfun lline endline
              (record info { eip_fn_namelen = length text - length rest })
      ]
    ]

-- `lfun` is one more than the C variable, `lfile` is not.
unfoldable pub use_function :
    Tables → (lfile endfile lfun endfun addr : ℕ) → Eipdebuginfo → Debuginfo
use_function t lfile endfile lfun endfun addr info =
    if lfun == 0
    then bad_read
    else (if leb lfun endfun
        then find_line t lfile lfun endfun (lfun - 1) endfun
            ((addr + 2 ^ 32 - (t.stabs (lfun - 1)).n_value) % 2 ^ 32)
            (record info {
              eip_fn_name = name_at t (lfun - 1);
              eip_fn_addr = (t.stabs (lfun - 1)).n_value;
            })
        else find_line t lfile lfun endfun lfile endfile addr (record info { eip_fn_addr = addr }))

-- `lfile` is one more than the C variable: 1 is not found, and with 0 the next search reads stabs[-1].
unfoldable pub find_function : Tables → (lfile endfile addr : ℕ) → Eipdebuginfo → Debuginfo
find_function t lfile endfile addr info =
    if lfile == 1
    then failed info
    else (if lfile == 0
        then bad_read
        else elim (stab_binsearch t.stabs (lfile - 1) endfile n_fun addr) [
          | none ↦ out_of_fuel
          | some (lfun, endfun) ↦ use_function t (lfile - 1) endfile lfun endfun addr info
        ])

-- `stabstr_end <= stabstr || stabstr_end[-1] != 0`
abbrev pub bad_strings : List ℕ → Bool
bad_strings s = (length s == 0) || not (get_or s (length s - 1) 0 == 0)

unfoldable pub debuginfo_table : Tables → ℕ → Debuginfo
debuginfo_table t addr =
    if bad_strings t.stabstr
    then failed (no_info addr)
    else elim (stab_binsearch t.stabs 0 t.count n_so addr) [
      | none ↦ out_of_fuel
      | some (lfile, endfile) ↦ find_function t lfile endfile addr (no_info addr)
    ]

pub debuginfo_eip : (kernel user : Tables) → ℕ → Debuginfo
debuginfo_eip kernel user addr = debuginfo_table (if leb ulim addr then kernel else user) addr
