-- ===== src/Env/Trap.antt =====
-- trap_dispatch, trap and page_fault_handler of kern/trap.c, and the calls of kern/syscall.c. The flags of read_eflags and the
-- register cr2 are arguments.
pub mod Ends
pub mod Killed
pub mod Isolated
use mit6_828_lab.Console.Input.{Cons, cons_getc}
use mit6_828_lab.Base.{
  ℕ, ◌%◌, ◌*◌, ◌/◌, ◌^◌, Bool, true, false, ◌==◌, leb, Option, none, some, List, if◌then◌else◌,
  take,
}
use mit6_828_lab.Env.State.{
  Trapframe, Env, EnvStatus, env_running, System, Message, incoming_trap, trap_frame, user_fault,
  exiting, destroying, printed, Result, done, stopped, Stop, null_deref, assert_failed,
  unhandled_in_kernel, not_implemented, in_monitor, S, pure, ◌>>=◌, ◌>>◌, get, put_env, say, cur_id,
}
use mit6_828_lab.Env.Alloc.{gd_kt, same_env, Lookup, env_store, bad_env, bad_curenv, envid2env}
use mit6_828_lab.Env.Free.{switch_to_kernel, env_destroy}

-- A use of `curenv` that reads through it.
abbrev pub with_curenv : {A : Type 0} → (ℕ → S A) → S A
with_curenv k s = elim s.curenv [ none ↦ stopped null_deref | some c ↦ k c s ]

-- `env_destroy(curenv)`: with NULL, env_free loads the kernel's directory before it reads through the pointer.
abbrev pub destroy_curenv : S (Unit {0})
destroy_curenv s = elim s.curenv [
  | none ↦ (do switch_to_kernel; λ s. stopped null_deref) s
  | some c ↦ env_destroy c s
]

unfoldable pub trap_dispatch : Trapframe → S (Unit {0})
trap_dispatch tf = do
  say (trap_frame tf)
  if tf.tf_cs == gd_kt then (λ s. stopped unhandled_in_kernel) else destroy_curenv

-- FL_IF
abbrev pub interrupts : ℕ → Bool
interrupts eflags = eflags / 2 ^ 9 % 2 == 1

-- A trap from user mode: the frame moves into `curenv`.
abbrev pub save_frame : Trapframe → S (Unit {0})
save_frame tf s = elim s.curenv [
  | none ↦ stopped assert_failed
  | some c ↦ put_env c (record (s.envs c) { env_tf = tf }) s
]

abbrev pub is_running : EnvStatus → Bool
is_running env_running = true
is_running _ = false

-- What follows trap_dispatch; env_run is not written.
abbrev pub return_to_env : S (Unit {0})
return_to_env s = elim s.curenv [
  | none ↦ stopped assert_failed
  | some c ↦ stopped (if is_running (s.envs c).env_status then not_implemented else assert_failed)
]

unfoldable pub trap : (eflags : ℕ) → Trapframe → S (Unit {0})
trap eflags tf = do
  if interrupts eflags then (λ s. stopped assert_failed) else pure tt
  say incoming_trap
  if tf.tf_cs % 4 == 3 then save_frame tf else pure tt
  (λ s. done tt (record s { last_tf = some tf }))
  trap_dispatch tf
  return_to_env

unfoldable pub page_fault_handler : (cr2 : ℕ) → Trapframe → S (Unit {0})
page_fault_handler cr2 tf = with_curenv λ c. do
  s ← get
  say (user_fault (s.envs c).env_id cr2 tf.tf_eip)
  say (trap_frame tf)
  env_destroy c

-- `cprintf("%.*s", len, s)`, of the bytes from `s` on up to the first 0: a negative precision is none.
unfoldable pub sys_cputs : List ℕ → (len : ℕ) → S (Unit {0})
sys_cputs text len = say (printed (if leb (2 ^ 31) len then text else take len text))

-- The state of the console's input is not among that of the environments.
unfoldable pub sys_cgetc : (serial_exists : Bool) → (serial kbd : List ℕ) → Cons → ℕ × Cons
sys_cgetc serial_exists serial kbd s = cons_getc serial_exists serial kbd s

unfoldable pub sys_getenvid : S ℕ
sys_getenvid = with_curenv λ c s. done (s.envs c).env_id s

-- What a call returns: 0 or -E_BAD_ENV.
pub data Returned : Type 0 where
  zero_returned bad_env_returned : Returned

-- With envid 0 and no `curenv`, `e` and `curenv` are both NULL, and `curenv->env_id` is read.
unfoldable pub sys_env_destroy : (envid : ℕ) → S Returned
sys_env_destroy envid s = elim (envid2env envid true s) [
  | bad_curenv ↦ stopped null_deref
  | bad_env ↦ done bad_env_returned s
  | env_store none ↦ stopped null_deref
  | env_store (some e) ↦
      with_curenv
        (λ c. do
          s ← get
          if e == c
              then say (exiting (s.envs c).env_id)
              else say (destroying (s.envs c).env_id (s.envs e).env_id)
          env_destroy e
          pure zero_returned)
        s
]

-- The dispatcher panics before its switch.
pub syscall : (syscallno a1 a2 a3 a4 a5 : ℕ) → S ℕ
syscall syscallno a1 a2 a3 a4 a5 s = stopped not_implemented
