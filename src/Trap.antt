-- ===== src/Trap.antt =====
-- trapname of kern/trap.c: a name for the number of a trap, as its bytes.
-- `Percpu` is the descriptor tables, `Print` the printing of a frame.
pub mod Percpu
pub mod Print
use mit6_828_lab.Base.{ℕ, ◌==◌, if◌then◌else◌, none, some, List, [], ◌∷◌, get_elem?}

pub excnames : List (List ℕ)
excnames =
    (68 ∷ 105 ∷ 118 ∷ 105 ∷ 100 ∷ 101 ∷ 32 ∷ 101 ∷ 114 ∷ 114 ∷ 111 ∷ 114 ∷ [])
    ∷ (68 ∷ 101 ∷ 98 ∷ 117 ∷ 103 ∷ [])
    ∷ (78 ∷ 111 ∷ 110 ∷ 45 ∷ 77 ∷ 97 ∷ 115 ∷ 107 ∷ 97 ∷ 98 ∷ 108 ∷ 101 ∷ 32 ∷ 73 ∷ 110 ∷ 116 ∷ 101
        ∷ 114 ∷ 114 ∷ 117 ∷ 112 ∷ 116 ∷ [])
    ∷ (66 ∷ 114 ∷ 101 ∷ 97 ∷ 107 ∷ 112 ∷ 111 ∷ 105 ∷ 110 ∷ 116 ∷ [])
    ∷ (79 ∷ 118 ∷ 101 ∷ 114 ∷ 102 ∷ 108 ∷ 111 ∷ 119 ∷ [])
    ∷ (66 ∷ 79 ∷ 85 ∷ 78 ∷ 68 ∷ 32 ∷ 82 ∷ 97 ∷ 110 ∷ 103 ∷ 101 ∷ 32 ∷ 69 ∷ 120 ∷ 99 ∷ 101 ∷ 101
        ∷ 100 ∷ 101 ∷ 100 ∷ [])
    ∷ (73 ∷ 110 ∷ 118 ∷ 97 ∷ 108 ∷ 105 ∷ 100 ∷ 32 ∷ 79 ∷ 112 ∷ 99 ∷ 111 ∷ 100 ∷ 101 ∷ [])
    ∷ (68 ∷ 101 ∷ 118 ∷ 105 ∷ 99 ∷ 101 ∷ 32 ∷ 78 ∷ 111 ∷ 116 ∷ 32 ∷ 65 ∷ 118 ∷ 97 ∷ 105 ∷ 108 ∷ 97
        ∷ 98 ∷ 108 ∷ 101 ∷ [])
    ∷ (68 ∷ 111 ∷ 117 ∷ 98 ∷ 108 ∷ 101 ∷ 32 ∷ 70 ∷ 97 ∷ 117 ∷ 108 ∷ 116 ∷ [])
    ∷ (67 ∷ 111 ∷ 112 ∷ 114 ∷ 111 ∷ 99 ∷ 101 ∷ 115 ∷ 115 ∷ 111 ∷ 114 ∷ 32 ∷ 83 ∷ 101 ∷ 103 ∷ 109
        ∷ 101 ∷ 110 ∷ 116 ∷ 32 ∷ 79 ∷ 118 ∷ 101 ∷ 114 ∷ 114 ∷ 117 ∷ 110 ∷ [])
    ∷ (73 ∷ 110 ∷ 118 ∷ 97 ∷ 108 ∷ 105 ∷ 100 ∷ 32 ∷ 84 ∷ 83 ∷ 83 ∷ [])
    ∷ (83 ∷ 101 ∷ 103 ∷ 109 ∷ 101 ∷ 110 ∷ 116 ∷ 32 ∷ 78 ∷ 111 ∷ 116 ∷ 32 ∷ 80 ∷ 114 ∷ 101 ∷ 115
        ∷ 101 ∷ 110 ∷ 116 ∷ [])
    ∷ (83 ∷ 116 ∷ 97 ∷ 99 ∷ 107 ∷ 32 ∷ 70 ∷ 97 ∷ 117 ∷ 108 ∷ 116 ∷ [])
    ∷ (71 ∷ 101 ∷ 110 ∷ 101 ∷ 114 ∷ 97 ∷ 108 ∷ 32 ∷ 80 ∷ 114 ∷ 111 ∷ 116 ∷ 101 ∷ 99 ∷ 116 ∷ 105
        ∷ 111 ∷ 110 ∷ [])
    ∷ (80 ∷ 97 ∷ 103 ∷ 101 ∷ 32 ∷ 70 ∷ 97 ∷ 117 ∷ 108 ∷ 116 ∷ [])
    ∷ (40 ∷ 117 ∷ 110 ∷ 107 ∷ 110 ∷ 111 ∷ 119 ∷ 110 ∷ 32 ∷ 116 ∷ 114 ∷ 97 ∷ 112 ∷ 41 ∷ [])
    ∷ (120 ∷ 56 ∷ 55 ∷ 32 ∷ 70 ∷ 80 ∷ 85 ∷ 32 ∷ 70 ∷ 108 ∷ 111 ∷ 97 ∷ 116 ∷ 105 ∷ 110 ∷ 103 ∷ 45
        ∷ 80 ∷ 111 ∷ 105 ∷ 110 ∷ 116 ∷ 32 ∷ 69 ∷ 114 ∷ 114 ∷ 111 ∷ 114 ∷ [])
    ∷ (65 ∷ 108 ∷ 105 ∷ 103 ∷ 110 ∷ 109 ∷ 101 ∷ 110 ∷ 116 ∷ 32 ∷ 67 ∷ 104 ∷ 101 ∷ 99 ∷ 107 ∷ [])
    ∷ (77 ∷ 97 ∷ 99 ∷ 104 ∷ 105 ∷ 110 ∷ 101 ∷ 45 ∷ 67 ∷ 104 ∷ 101 ∷ 99 ∷ 107 ∷ [])
    ∷ (83 ∷ 73 ∷ 77 ∷ 68 ∷ 32 ∷ 70 ∷ 108 ∷ 111 ∷ 97 ∷ 116 ∷ 105 ∷ 110 ∷ 103 ∷ 45 ∷ 80 ∷ 111 ∷ 105
        ∷ 110 ∷ 116 ∷ 32 ∷ 69 ∷ 120 ∷ 99 ∷ 101 ∷ 112 ∷ 116 ∷ 105 ∷ 111 ∷ 110 ∷ [])
    ∷ []

abbrev pub t_syscall : ℕ
t_syscall = 48

pub unknown_trap : List ℕ
unknown_trap = 40 ∷ 117 ∷ 110 ∷ 107 ∷ 110 ∷ 111 ∷ 119 ∷ 110 ∷ 32 ∷ 116 ∷ 114 ∷ 97 ∷ 112 ∷ 41 ∷ []

pub system_call : List ℕ
system_call = 83 ∷ 121 ∷ 115 ∷ 116 ∷ 101 ∷ 109 ∷ 32 ∷ 99 ∷ 97 ∷ 108 ∷ 108 ∷ []

-- `trapno < ARRAY_SIZE(excnames)` is that the table has an entry.
pub trapname : ℕ → List ℕ
trapname trapno = elim (get_elem? excnames trapno) [
  | some name ↦ name
  | none ↦ if trapno == t_syscall then system_call else unknown_trap
]
