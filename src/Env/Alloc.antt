-- ===== src/Env/Alloc.antt =====
-- envid2env, env_setup_vm and env_alloc of kern/env.c.
pub mod Id
pub mod Outcomes
use mit6_828_lab.Base.{
  ℕ, ◌+◌, ◌-◌, ◌*◌, ◌/◌, ◌%◌, ◌^◌, Bool, true, false, not, ◌&&◌, ◌||◌, ◌==◌, leb, Option, none,
  some, if◌then◌else◌, bit_or,
}
use mit6_828_lab.Mmu.Macros.{pdx, pte_p, pte_u, uvpt, ustacktop}
use mit6_828_lab.Pmap.Kernel.{paddr, store}
use mit6_828_lab.Pmap.Kernel
use mit6_828_lab.Pmap.Alloc.{page_alloc, alloc_zero}
use mit6_828_lab.Pmap.Table.{Status, success, no_mem}
use mit6_828_lab.Env.State.{
  PushRegs, Trapframe, EnvStatus, env_free, env_runnable, env_type_user, Env, System, Message,
  new_env, Result, done, stopped, null_deref, in_monitor, S, pure, ◌>>=◌, ◌>>◌, in_kernel, get,
  put_env, say, cur_id,
}

abbrev pub nenv : ℕ
nenv = 1024

abbrev pub envx : ℕ → ℕ
envx envid = envid % nenv

abbrev pub is_free : EnvStatus → Bool
is_free env_free = true
is_free _ = false

-- A returned 0 with `*env_store`; -E_BAD_ENV; a read through a NULL `curenv`.
pub data Lookup : Type 0 where
  env_store : Option ℕ → Lookup
  bad_env : Lookup
  bad_curenv : Lookup

abbrev pub same_env : ℕ → Option ℕ → Bool
same_env e none = false
same_env e (some c) = e == c

-- The check of the permission.
abbrev pub check_owner : System → ℕ → Lookup
check_owner s e = elim s.curenv [
  | none ↦ bad_curenv
  | some c ↦
      if not (e == c) && not ((s.envs e).env_parent_id == (s.envs c).env_id)
      then bad_env
      else env_store (some e)
]

unfoldable pub envid2env : ℕ → (checkperm : Bool) → System → Lookup
envid2env envid checkperm s =
    if envid == 0
    then env_store s.curenv
    else (let e = envx envid in
        if is_free (s.envs e).env_status || not ((s.envs e).env_id == envid)
        then bad_env
        else (if checkperm then check_owner s e else env_store (some e)))

-- The function as it stands: the new page is not entered anywhere, and `env_pgdir` is what it was.
unfoldable pub env_setup_vm : ℕ → S Status
env_setup_vm e = do
  page ← in_kernel (page_alloc alloc_zero)
  elim page [
    | none ↦ pure no_mem
    | some pp ↦ do
      s ← get
      pa ← in_kernel (paddr (s.envs e).env_pgdir)
      in_kernel (store ((s.envs e).env_pgdir + 4 * pdx uvpt) (bit_or (bit_or pa pte_p) pte_u))
      pure success
  ]

-- `(e->env_id + (1 << ENVGENSHIFT)) & ~(NENV - 1)`, and 1 << ENVGENSHIFT where that is not positive as an int32_t.
unfoldable pub generation : ℕ → ℕ
generation id =
    let g = (id + 2 ^ 12) % 2 ^ 32 - (id + 2 ^ 12) % 2 ^ 32 % nenv in
    if (g == 0) || leb (2 ^ 31) g then 2 ^ 12 else g

unfoldable pub make_id : (id e : ℕ) → ℕ
unfolding generation
make_id id e = bit_or (generation id) e

abbrev pub gd_kt : ℕ
gd_kt = 0x8

abbrev pub gd_ut : ℕ
gd_ut = 0x18

abbrev pub gd_ud : ℕ
gd_ud = 0x20

abbrev pub zero_regs : PushRegs
zero_regs = record {
  reg_edi = 0;
  reg_esi = 0;
  reg_ebp = 0;
  reg_oesp = 0;
  reg_ebx = 0;
  reg_edx = 0;
  reg_ecx = 0;
  reg_eax = 0;
}

-- The saved registers, cleared and then set.
abbrev pub new_tf : Trapframe
new_tf = record {
  tf_regs = zero_regs;
  tf_es = bit_or gd_ud 3;
  tf_ds = bit_or gd_ud 3;
  tf_trapno = 0;
  tf_err = 0;
  tf_eip = 0;
  tf_cs = bit_or gd_ut 3;
  tf_eflags = 0;
  tf_esp = ustacktop;
  tf_ss = bit_or gd_ud 3;
}

abbrev pub fresh_env : (e parent_id : ℕ) → Env → Env
fresh_env e parent_id v = record v {
  env_tf = new_tf;
  env_id = make_id v.env_id e;
  env_parent_id = parent_id;
  env_type = env_type_user;
  env_status = env_runnable;
  env_runs = 0;
}

pub data Allocated : Type 0 where
  newenv : ℕ → Allocated
  no_free_env : Allocated
  env_no_mem : Allocated

-- What follows env_setup_vm, with the free list's new head and the message.
abbrev pub commit_env : ℕ → ℕ → S Allocated
commit_env e parent_id s =
    let v = s.envs e in
    (do
      put_env e (fresh_env e parent_id v)
      (λ s. done tt (record s { env_free_list = v.env_link }))
      s' ← get
      say (new_env (cur_id s') (make_id v.env_id e))
      pure (newenv e))
      s

unfoldable pub env_alloc : (parent_id : ℕ) → S Allocated
env_alloc parent_id s = elim s.env_free_list [
  | none ↦ done no_free_env s
  | some e ↦
      (do
        r ← env_setup_vm e
        elim r [ no_mem ↦ pure env_no_mem | success ↦ commit_env e parent_id ])
        s
]
