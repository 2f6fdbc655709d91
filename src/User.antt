-- ===== src/User.antt =====
-- The library of user programs: lib/syscall.c, lib/libmain.c, lib/exit.c, lib/console.c and lib/panic.c. A program is the list of the
-- traps and calls of cprintf that it makes; what the kernel leaves in %eax is an argument.
use Prim.Native.String.{String}
use mit6_828_lab.Base.{
  ℕ, ◌^◌, Bool, true, false, Option, none, some, List, [], ◌∷◌, ◌++◌, ◌==◌, ◌&&◌, ltb,
  if◌then◌else◌,
}
use mit6_828_lab.Printf.Message.{number, constant, PrintCall}

-- The registers of `int $T_SYSCALL`, a breakpoint, and a call of cprintf.
pub data UserEvent : Type 0 where
  int_syscall : (num a1 a2 a3 a4 a5 : ℕ) → UserEvent
  breakpoint : UserEvent
  say : PrintCall → UserEvent

-- SYS_cputs, SYS_cgetc, SYS_getenvid, SYS_env_destroy
abbrev pub sys_cputs_num : ℕ
sys_cputs_num = 0

abbrev pub sys_cgetc_num : ℕ
sys_cgetc_num = 1

abbrev pub sys_getenvid_num : ℕ
sys_getenvid_num = 2

abbrev pub sys_env_destroy_num : ℕ
sys_env_destroy_num = 3

-- A call returns, or it panics with a message. `ret` is an int32_t.
pub data SyscallResult : Type 0 where
  gives : (ret : ℕ) → SyscallResult
  panics : PrintCall → SyscallResult

unfoldable pub syscall :
    (num : ℕ) (check : Bool) (a1 a2 a3 a4 a5 ret : ℕ) → List UserEvent × SyscallResult
syscall num check a1 a2 a3 a4 a5 ret = (
  int_syscall num a1 a2 a3 a4 a5 ∷ [],
  (if check && ltb 0 ret && ltb ret (2 ^ 31)
      then panics (record {
        format = "syscall %d returned %d (> 0)";
        arguments = number num ∷ number ret ∷ [];
      })
      else gives ret),
)

unfoldable pub sys_cputs : (s len ret : ℕ) → List UserEvent × SyscallResult
sys_cputs s len ret = syscall sys_cputs_num false s len 0 0 0 ret

unfoldable pub sys_cgetc : (ret : ℕ) → List UserEvent × SyscallResult
sys_cgetc ret = syscall sys_cgetc_num false 0 0 0 0 0 ret

unfoldable pub sys_env_destroy : (envid ret : ℕ) → List UserEvent × SyscallResult
sys_env_destroy envid ret = syscall sys_env_destroy_num true envid 0 0 0 0 ret

unfoldable pub sys_getenvid : (ret : ℕ) → List UserEvent × SyscallResult
sys_getenvid ret = syscall sys_getenvid_num false 0 0 0 0 0 ret

-- exit(): environment 0 is the caller.
unfoldable pub exit : (ret : ℕ) → List UserEvent × SyscallResult
exit ret = sys_env_destroy 0 ret

-- What getchar returns, of the answers to its calls of sys_cgetc; `none` is where it still waits.
pub getchar : List ℕ → List UserEvent × Option ℕ
unfolding sys_cgetc syscall
getchar [] = ([], none)
getchar (ret ∷ rets) =
    let (events, c) = getchar rets in
    if ret == 0 then ((sys_cgetc ret).0 ++ events, c) else ((sys_cgetc ret).0, some ret)

-- libmain, with what `umain` does and `argv`; the name of the program for a panic is the second result. thisenv is NULL.
pub libmain : (umain : List UserEvent) (argv : List String) (ret : ℕ) → List UserEvent × String
unfolding exit sys_env_destroy syscall
libmain umain [] ret = (umain ++ (exit ret).0, "<unknown>")
libmain umain (name ∷ rest) ret = (umain ++ (exit ret).0, name)

-- _panic: the message, and a breakpoint, which it takes again as often as it comes back.
pub user_panic : (binaryname file : String) (line envid : ℕ) → PrintCall → List UserEvent
unfolding sys_getenvid syscall
user_panic binaryname file line envid message =
    (sys_getenvid envid).0
    ++ say (record {
      format = "[%08x] user panic in %s at %s:%d: ";
      arguments = number envid ∷ constant binaryname ∷ constant file ∷ number line ∷ [];
    })
      ∷ say message
      ∷ say (record { format = "\n"; arguments = [] })
      ∷ breakpoint
      ∷ []
