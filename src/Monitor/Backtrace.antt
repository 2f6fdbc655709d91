-- ===== src/Monitor/Backtrace.antt =====
-- mon_backtrace and mon_kerninfo of kern/monitor.c. `mem` holds the words of the stack, `info` is debuginfo_eip (its tables and
-- addresses are the caller's), and the frame pointer of read_ebp is an argument.
pub mod Frames
use mit6_828_lab.Base.{
  ℕ, zero, suc, ◌+◌, ◌-◌, ◌*◌, ◌/◌, ◌%◌, ◌^◌, ◌==◌, if◌then◌else◌, List, [], ◌∷◌, ◌++◌,
}
use mit6_828_lab.Mmu.Macros.{kernbase, roundup}
use mit6_828_lab.Kdebug.Info.{Eipdebuginfo, Debuginfo, failed, found, bad_read, out_of_fuel, Name}

-- What the calls of cprintf print; `no_line` is "line not find" of debuginfo_eip.
pub data Line : Type 0 where
  heading : Line
  frame : (ebp eip a1 a2 a3 a4 a5 : ℕ) → Line
  failed_line : Line
  no_line : Line
  place : (file : Name) (line namelen : ℕ) (name : Name) (offset : ℕ) → Line

-- A backtrace that came to the frame pointer 0, one in which debuginfo_eip reads outside its tables, and one that goes on.
pub data Backtrace : Type 0 where
  finished : List Line → Backtrace
  bad_table : Backtrace
  goes_on : Backtrace

abbrev pub prepend : List Line → Backtrace → Backtrace
prepend ls (finished more) = finished (ls ++ more)
prepend ls bad_table = bad_table
prepend ls goes_on = goes_on

module _ (mem : ℕ → ℕ) (info : ℕ → Debuginfo) where
  -- `ebp[i]`
  abbrev pub word : ℕ → ℕ → ℕ
  word ebp i = mem ((ebp + 4 * i) % 2 ^ 32)

  abbrev pub frame_line : ℕ → Line
  frame_line ebp =
      frame ebp (word ebp 1) (word ebp 2) (word ebp 3) (word ebp 4) (word ebp 5) (word ebp 6)

  abbrev pub place_line : ℕ → Eipdebuginfo → Line
  place_line eip i =
      place i.eip_file i.eip_line i.eip_fn_namelen i.eip_fn_name
        ((eip + 2 ^ 32 - i.eip_fn_addr) % 2 ^ 32)

  -- The lines of one frame, before those of the rest.
  unfoldable pub print_frame : ℕ → Backtrace → Backtrace
  print_frame ebp rest = elim (info (word ebp 1)) [
    | failed i ↦ prepend (frame_line ebp ∷ failed_line ∷ []) rest
    | found line_found i ↦
        let message = if line_found then [] else no_line ∷ [] in
        prepend (frame_line ebp ∷ (message ++ place_line (word ebp 1) i ∷ [])) rest
    | bad_read ↦ bad_table
    | out_of_fuel ↦ goes_on
  ]

  -- `while (ebp)`, with the rounds allowed.
  unfoldable pub print_frames : (fuel ebp : ℕ) → Backtrace
  print_frames zero ebp = goes_on
  print_frames (suc n) ebp =
      let rest = print_frames n (mem ebp) in if ebp == 0 then finished [] else print_frame ebp rest

  unfoldable pub mon_backtrace : (fuel ebp : ℕ) → Backtrace
  mon_backtrace fuel ebp = prepend (heading ∷ []) (print_frames fuel ebp)

-- "Kernel executable memory footprint", in kilobytes.
unfoldable pub footprint : (entry end : ℕ) → ℕ
footprint entry end = roundup ((end + 2 ^ 32 - entry) % 2 ^ 32) 1024 / 1024
