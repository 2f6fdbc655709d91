-- ===== src/Env/State.antt =====
-- The environments and what the kernel keeps besides its pages. A `struct Env *` is the index in `envs` (NULL is `none`). An
-- `envid_t` is kept as its 32-bit word.
use mit6_828_lab.Base.{ℕ, Option, none, some, List, ◌∷◌, ◌==◌, if◌then◌else◌}
use mit6_828_lab.Pmap.Kernel.{Kernel, Panic, M, ok, panic}

pub record PushRegs : Type 0 where
  pub reg_edi : ℕ
  pub reg_esi : ℕ
  pub reg_ebp : ℕ
  pub reg_oesp : ℕ
  pub reg_ebx : ℕ
  pub reg_edx : ℕ
  pub reg_ecx : ℕ
  pub reg_eax : ℕ

pub record Trapframe : Type 0 where
  pub tf_regs : PushRegs
  pub tf_es : ℕ
  pub tf_ds : ℕ
  pub tf_trapno : ℕ
  pub tf_err : ℕ
  pub tf_eip : ℕ
  pub tf_cs : ℕ
  pub tf_eflags : ℕ
  pub tf_esp : ℕ
  pub tf_ss : ℕ

pub data EnvStatus : Type 0 where
  env_free env_dying env_runnable env_running env_not_runnable : EnvStatus

pub data EnvType : Type 0 where
  env_type_user : EnvType

pub record Env : Type 0 where
  pub env_tf : Trapframe
  pub env_link : Option ℕ
  pub env_id : ℕ
  pub env_parent_id : ℕ
  pub env_type : EnvType
  pub env_status : EnvStatus
  pub env_runs : ℕ
  pub env_pgdir : ℕ

-- What is printed, by the format of the call.
pub data Message : Type 0 where
  new_env freed_env : (cur id : ℕ) → Message
  destroyed_only : Message
  incoming_trap : Message
  trap_frame : Trapframe → Message
  user_fault : (id va ip : ℕ) → Message
  exiting : (id : ℕ) → Message
  destroying : (id target : ℕ) → Message
  printed : List ℕ → Message

-- `cr3` is what lcr3 was given last; `last_tf` is what the pointer of that name shows; messages are latest first.
pub record System : Type 0 where
  pub kernel : Kernel
  pub envs : ℕ → Env
  pub curenv : Option ℕ
  pub env_free_list : Option ℕ
  pub kern_pgdir : ℕ
  pub cr3 : ℕ
  pub last_tf : Option Trapframe
  pub messages : List Message

-- Where a call ends other than by returning; the monitor's loop runs in the state that it is given.
pub data Stop : Type 0 where
  kernel_panic : Panic → Stop
  null_deref assert_failed unhandled_in_kernel not_implemented : Stop

pub data Result (A : Type 0) : Type 0 where
  done : A → System → Result A
  stopped : Stop → Result A
  in_monitor : System → Result A

abbrev pub S : Type 0 → Type 0
S A = System → Result A

abbrev pub pure : {A : Type 0} → A → S A
pure a s = done a s

infixl 5 ◌>>=◌ ◌>>◌
abbrev pub ◌>>=◌ : {A B : Type 0} → S A → (A → S B) → S B
◌>>=◌ m f s = elim (m s) [
  | done a s' ↦ f a s'
  | stopped e ↦ stopped e
  | in_monitor s' ↦ in_monitor s'
]

abbrev pub ◌>>◌ : {B : Type 0} → S (Unit {0}) → S B → S B
m >> k = m >>= λ _. k

-- A call into kern/pmap.c.
abbrev pub in_kernel : {A : Type 0} → M A → S A
in_kernel m s = elim (m s.kernel) [
  | ok a k ↦ done a (record s { kernel = k })
  | panic p ↦ stopped (kernel_panic p)
]

abbrev pub get : S System
get s = done s s

abbrev pub set_env : ℕ → Env → (ℕ → Env) → ℕ → Env
set_env i v envs j = if i == j then v else envs j

abbrev pub put_env : ℕ → Env → S (Unit {0})
put_env i v s = done tt (record s { envs = set_env i v s.envs })

abbrev pub say : Message → S (Unit {0})
say m s = done tt (record s { messages = m ∷ s.messages })

-- `curenv ? curenv->env_id : 0`
abbrev pub cur_id : System → ℕ
cur_id s = elim s.curenv [ none ↦ 0 | some c ↦ (s.envs c).env_id ]
