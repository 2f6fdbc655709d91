-- ===== src/Env/Tests.antt =====
-- A small machine with two environments, and the theorems about kern/env.c and kern/trap.c at it.
use mit6_828_lab.Base.{ℕ, ◌≡◌, refl, none, some, [], ◌∷◌, arith, ◌==◌, if◌then◌else◌}
use mit6_828_lab.Pmap.Kernel.{Kernel, kva_of, paddr_invalid}
use mit6_828_lab.Pmap.Alloc.Pool.{IsPool}
use mit6_828_lab.Env.State.{
  env_free, env_running, env_type_user, Env, System, done, stopped, in_monitor, kernel_panic,
}
use mit6_828_lab.Env.Alloc.{new_tf, newenv, no_free_env, env_no_mem, env_alloc}
use mit6_828_lab.Env.Alloc.Outcomes.{env_alloc_errors, env_alloc-Fresh, Fresh}
use mit6_828_lab.Env.Free.{free_env}
use mit6_828_lab.Env.Free.Unmapped.{HasDirectory, Unmapped, free_env-Unmapped}
use mit6_828_lab.Env.Trap.{trap}
use mit6_828_lab.Env.Trap.{sys_env_destroy}
use mit6_828_lab.Env.Trap.Isolated.{Isolates, sys_env_destroy-Isolates}
use mit6_828_lab.Env.Trap.Ends.{Leaves, trap-Leaves}
use mit6_828_lab.Env.Trap.Killed.{saved, trap-Unmapped}

-- Six pages: 0 is kept, 1 a directory, 4 and 5 in use; 3 and 2 are free.
abbrev machine : Kernel
machine = record {
  npages = 6;
  npages_basemem = 0;
  nextfree = kva_of 7;
  pages = λ i. record {
    pp_link = if i == 3 then some 2 else none;
    pp_ref = if i == 3 then 0 else (if i == 2 then 0 else 1);
  };
  page_free_list = some 3;
  mem = λ a. 0;
  invalidated = [];
}

machine-IsPool : IsPool machine (3 ∷ 2 ∷ [])
machine-IsPool = record {
  chain = (refl, omega arith, refl, refl, (refl, omega arith, refl, refl, refl));
  used_unlinked = λ i out. ground arith;
  small = omega arith;
}

abbrev full : Kernel
full = record machine { page_free_list = none; pages = λ i. record { pp_link = none; pp_ref = 1 } }

full-IsPool : IsPool full []
full-IsPool = record { chain = refl; used_unlinked = λ i out. refl; small = omega arith }

-- Environment 0 runs; the others are free, from 1 on.
abbrev envs_at : ℕ → ℕ → Env
envs_at pgdir i = record {
  env_tf = new_tf;
  env_link = if i == 1 then some 2 else none;
  env_id = if i == 0 then 0x1000 else 0;
  env_parent_id = 0;
  env_type = env_type_user;
  env_status = if i == 0 then env_running else env_free;
  env_runs = 0;
  env_pgdir = if i == 0 then kva_of 1 else pgdir;
}

abbrev system : System
system = record {
  kernel = machine;
  envs = envs_at 0;
  curenv = some 0;
  env_free_list = some 1;
  kern_pgdir = kva_of 4;
  cr3 = 0;
  last_tf = none;
  messages = [];
}

system-HasDirectory : HasDirectory system 0 1 (3 ∷ 2 ∷ [])
system-HasDirectory = record {
  directory = refl;
  in_range = omega arith;
  pool = machine-IsPool;
  in_use = refl;
  counted = omega arith;
  small_count = omega arith;
  no_tables = λ i lt. refl;
  kernel_directory = omega arith;
}

abbrev none_left : System
none_left = record system { env_free_list = none }

abbrev no_page : System
no_page = record system { kernel = full }

env_alloc_errors_example :
    (env_alloc 0 none_left ≡ done no_free_env none_left)
    × (env_alloc 0 no_page ≡ done env_no_mem no_page)
    × (env_alloc 0 system ≡ stopped (kernel_panic paddr_invalid))
env_alloc_errors_example =
    env_alloc_errors 0 1 3 (2 ∷ []) none_left no_page system refl refl full-IsPool refl
      machine-IsPool (omega arith)

-- The free environments have a directory that was not cleared.
abbrev reused : System
reused = record system { envs = envs_at (kva_of 5) }

env_alloc-Fresh_example :
    (s' : System) × (env_alloc 0x1000 reused ≡ done (newenv 1) s')
    × Fresh reused s' 0x1000 1 3 (2 ∷ [])
env_alloc-Fresh_example =
    env_alloc-Fresh 0x1000 1 3 (2 ∷ []) reused refl machine-IsPool (omega arith) (omega arith)
      (omega arith)

free_env-Unmapped_example :
    (s' : System) × (free_env 0 system ≡ done tt s') × Unmapped system s' 0 1 (3 ∷ 2 ∷ [])
free_env-Unmapped_example = free_env-Unmapped 0 1 (3 ∷ 2 ∷ []) system system-HasDirectory

trap-Unmapped_example :
    (s' : System) × (trap 0 new_tf system ≡ in_monitor s')
    × Unmapped (saved 0 new_tf system) s' 0 1 (3 ∷ 2 ∷ [])
    × ((s'.envs 0).env_tf ≡ new_tf)
    × (s'.last_tf ≡ some new_tf)
trap-Unmapped_example =
    trap-Unmapped 0 0 1 (3 ∷ 2 ∷ []) new_tf system refl refl refl system-HasDirectory

trap-Leaves_example : Leaves (trap 0 new_tf system)
trap-Leaves_example = trap-Leaves 0 new_tf system

sys_env_destroy-Isolates_example : Isolates system 2 (sys_env_destroy 0x1000 system)
sys_env_destroy-Isolates_example =
    sys_env_destroy-Isolates 0x1000 0 2 system refl (λ h. omega arith) (λ h. omega arith)
