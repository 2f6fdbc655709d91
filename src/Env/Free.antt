-- ===== src/Env/Free.antt =====
-- env_free and env_destroy of kern/env.c.
pub mod Unmapped
use mit6_828_lab.Base.{ℕ, Option, none, some, if◌then◌else◌}
use mit6_828_lab.Pmap.Kernel.{paddr, pa2page}
use mit6_828_lab.Pmap.Alloc.{page_decref}
use mit6_828_lab.Env.State.{
  EnvStatus, env_free, Env, System, Message, freed_env, destroyed_only, Result, done, stopped,
  null_deref, in_monitor, S, pure, ◌>>=◌, ◌>>◌, in_kernel, get, set_env, put_env, say, cur_id,
}
use mit6_828_lab.Env.Alloc.{same_env}
use mit6_828_lab.Env.Pages.{flush_pages}

abbrev pub lcr3 : ℕ → S (Unit {0})
lcr3 pa s = done tt (record s { cr3 = pa })

abbrev pub switch_to_kernel : S (Unit {0})
switch_to_kernel s = (do pa ← in_kernel (paddr s.kern_pgdir); lcr3 pa) s

-- "free the page directory"
unfoldable pub free_directory : ℕ → S (Unit {0})
free_directory e = do
  s ← get
  pa ← in_kernel (paddr (s.envs e).env_pgdir)
  put_env e (record (s.envs e) { env_pgdir = 0 })
  pp ← in_kernel (pa2page pa)
  in_kernel (page_decref pp)

-- "return the environment to the free list"
abbrev pub return_env : ℕ → S (Unit {0})
return_env e s = done tt (record s {
  envs = set_env e (record (s.envs e) { env_status = env_free; env_link = s.env_free_list }) s.envs;
  env_free_list = some e;
})

unfoldable pub free_env : ℕ → S (Unit {0})
free_env e = do
  s ← get
  if same_env e s.curenv then switch_to_kernel else pure tt
  say (freed_env (cur_id s) (s.envs e).env_id)
  in_kernel (flush_pages (s.envs e).env_pgdir)
  free_directory e
  return_env e

-- `while (1) monitor(NULL);`
abbrev pub run_monitor : S (Unit {0})
run_monitor s = in_monitor s

unfoldable pub env_destroy : ℕ → S (Unit {0})
env_destroy e = do free_env e; say destroyed_only; run_monitor
