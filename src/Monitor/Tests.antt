-- ===== src/Monitor/Tests.antt =====
-- A stack of two frames, and the theorems about kern/monitor.c at it.
use mit6_828_lab.Base.{ℕ, ◌≡◌, refl, inl, List, [], ◌∷◌, ◌==◌, if◌then◌else◌, arith, leb, length}
use mit6_828_lab.Kdebug.Info.{Debuginfo, failed, no_info}
use mit6_828_lab.Monitor.{split, arguments, too_many}
use mit6_828_lab.Monitor.Words.{words, split-words}
use mit6_828_lab.Monitor.Backtrace.{Line, heading, finished, mon_backtrace}
use mit6_828_lab.Monitor.Backtrace.Frames.{Shows, mon_backtrace-Shows}

-- The frame at 400 was called from the one at 800, which is the first; the one at 1200 points to itself.
abbrev stack : ℕ → ℕ
stack a = if a == 400 then 800 else (if a == 1200 then 1200 else 0)

abbrev no_table : ℕ → Debuginfo
no_table eip = failed (no_info eip)

mon_backtrace-Shows_example :
    (ls : List Line) × (mon_backtrace stack no_table 3 400 ≡ finished (heading ∷ ls))
    × Shows stack no_table (400 ∷ 800 ∷ []) ls
mon_backtrace-Shows_example =
    mon_backtrace-Shows stack no_table 3 400 (400 ∷ 800 ∷ [])
      (refl, (λ h. omega arith), (refl, (λ h. omega arith), refl))
      ((no_info 0, inl refl), ((no_info 0, inl refl), tt)) (omega arith)

-- "  kerninfo\tnow "
abbrev line : List ℕ
line = 32 ∷ 32 ∷ 107 ∷ 101 ∷ 114 ∷ 110 ∷ 105 ∷ 110 ∷ 102 ∷ 111 ∷ 9 ∷ 110 ∷ 111 ∷ 119 ∷ 32 ∷ []

split-words_example :
    split line ≡ (if leb (length (words line)) 15 then arguments (words line) else too_many)
split-words_example = split-words line
