-- ===== src/Env/Trap/Killed.antt =====
-- A trap from user mode: the environment that ran is destroyed.
use mit6_828_lab.Base.{ℕ, ◌∙◌, ◌%◌, ◌≡◌, true, false, ◌==◌, ==_refl, some, List, arith, ◌∷◌}
use mit6_828_lab.Env.State.{
  Trapframe, System, done, in_monitor, incoming_trap, trap_frame, destroyed_only, set_env, ◌>>=◌,
  ◌>>◌,
}
use mit6_828_lab.Env.Alloc.{gd_kt}
use mit6_828_lab.Env.Free.{free_env, env_destroy}
use mit6_828_lab.Env.Free.Unmapped.{HasDirectory, Unmapped, free_env-Unmapped}
use mit6_828_lab.Env.Trap.{trap, trap_dispatch, destroy_curenv, interrupts}

-- The state in which trap_dispatch is called, and its message.
abbrev pub saved : ℕ → Trapframe → System → System
saved c tf s = record s {
  envs = set_env c (record (s.envs c) { env_tf = tf }) s.envs;
  last_tf = some tf;
  messages = trap_frame tf ∷ incoming_trap ∷ s.messages;
}

HasDirectory-saved :
    (c q : ℕ) (xs : List ℕ) (tf : Trapframe) (s : System)
    → HasDirectory s c q xs
    → HasDirectory (saved c tf s) c q xs
HasDirectory-saved c q xs tf s h = record {
  directory = rw (==_refl c) h.directory;
  in_range = h.in_range;
  pool = h.pool;
  in_use = h.in_use;
  counted = h.counted;
  small_count = h.small_count;
  no_tables = h.no_tables;
  kernel_directory = h.kernel_directory;
}

-- The state in which the monitor runs.
abbrev pub monitored : System → System
monitored s = record s { messages = destroyed_only ∷ s.messages }

env_destroy-eq :
    (e : ℕ) (s s' : System)
    → free_env e s ≡ done tt s'
    → env_destroy e s ≡ in_monitor (monitored s')
unfolding env_destroy
env_destroy-eq e s s' run = rw (◌>>◌, ◌>>=◌, run)

trap-eq :
    (eflags c : ℕ) (tf : Trapframe) (s s' : System)
    → interrupts eflags ≡ false
    → tf.tf_cs % 4 ≡ 3
    → s.curenv ≡ some c
    → free_env c (saved c tf s) ≡ done tt s'
    → trap eflags tf s ≡ in_monitor (monitored s')
unfolding trap trap_dispatch
trap-eq eflags c tf s s' off user cur run =
    let ring : (tf.tf_cs % 4 == 3) ≡ true = rw user in
    let code : (tf.tf_cs == gd_kt) ≡ false = ground arith in
    let ends : env_destroy c (saved c tf s) ≡ in_monitor (monitored s') =
      env_destroy-eq c (saved c tf s) s' run in
    rw (off, ring, cur, code, ◌>>=◌, destroy_curenv, cur, ends)

-- A trap from user mode, with interrupts off and an environment running whose directory is a page of the machine and has no
-- page table below UTOP, ends in the monitor: the frame was saved in the environment and in last_tf, and the environment
-- was freed as env_free does.
pub trap-Unmapped :
    (eflags c q : ℕ) (xs : List ℕ) (tf : Trapframe) (s : System)
    → interrupts eflags ≡ false
    → tf.tf_cs % 4 ≡ 3
    → s.curenv ≡ some c
    → HasDirectory s c q xs
    → (s' : System) × (trap eflags tf s ≡ in_monitor s')
      × Unmapped (saved c tf s) s' c q xs
      × ((s'.envs c).env_tf ≡ tf)
      × (s'.last_tf ≡ some tf)
trap-Unmapped eflags c q xs tf s off user cur h =
    let (s', run, u) = free_env-Unmapped c q xs (saved c tf s) (HasDirectory-saved c q xs tf s h) in
    (
      monitored s',
      trap-eq eflags c tf s s' off user cur run,
      record {
        pool_left = u.pool_left;
        page_dropped = u.page_dropped;
        no_directory = u.no_directory;
        is_env_free = u.is_env_free;
        first_free = u.first_free;
        then_free = u.then_free;
        same_cur = u.same_cur;
        same_frame = u.same_frame;
        same_last = u.same_last;
      },
      u.same_frame ∙ rw (==_refl c),
      u.same_last,
    )
