-- ===== src/Env/Trap/Isolated.antt =====
-- What sys_env_destroy of kern/syscall.c leaves alone.
use mit6_828_lab.Base.{
  ℕ, ◌≡◌, ◌≢◌, refl, sym, ap, ◌∙◌, ◌⊎◌, inl, inr, Bool, true, false, not, ◌==◌, ◌||◌, ◌&&◌, Option,
  none, some, arith, Bool-cases, if◌then◌else◌,
}
use mit6_828_lab.Pmap.Kernel.{Run, ok, panic, M, paddr, pa2page}
use mit6_828_lab.Pmap.Alloc.{page_decref}
use mit6_828_lab.Env.State.{
  Env, System, freed_env, cur_id, Stop, kernel_panic, Result, done, stopped, in_monitor, S,
  in_kernel, put_env, ◌>>=◌, ◌>>◌, say, pure, get, exiting, destroying, null_deref,
}
use mit6_828_lab.Env.Alloc.{envx, is_free, env_store, bad_env, envid2env, same_env}
use mit6_828_lab.Env.Pages.{flush_pages}
use mit6_828_lab.Env.Free.{switch_to_kernel, return_env, free_directory, free_env, env_destroy}
use mit6_828_lab.Env.Trap.{sys_env_destroy, Returned, zero_returned, bad_env_returned}
use mit6_828_lab.Env.Trap.Ends.{Leaves, env_destroy-Leaves}

-- A panic of the kernel, and no use of NULL.
abbrev pub IsPanic : Stop → Type 0
IsPanic (kernel_panic p) = Unit {0}
IsPanic _ = ⊥

module _ (i : ℕ) (v : Env) where
  -- Wherever the run ends, environment `i` is `v` there; and it ends nowhere but in a panic of the kernel otherwise.
  abbrev pub Keeps : {A : Type 0} → Result A → Type 0
  Keeps (done a s) = s.envs i ≡ v
  Keeps (stopped e) = IsPanic e
  Keeps (in_monitor s) = s.envs i ≡ v

  -- Code that keeps environment `i` in every state.
  abbrev pub Keeper : {A : Type 0} → S A → Type 0
  Keeper m = (s : System) → s.envs i ≡ v → Keeps (m s)

  Keeps-bind :
      {A B : Type 0} (m : Result A) (f : A → S B)
      → Keeps m
      → ((a : A) → Keeper (f a))
      → Keeps {A = B}
          (elim m [ done a s ↦ f a s | stopped e ↦ stopped e | in_monitor s ↦ in_monitor s ])
  Keeps-bind (done a s) f h k = k a s h
  Keeps-bind (stopped e) f h k = h
  Keeps-bind (in_monitor s) f h k = h

  Keeper-bind :
      {A B : Type 0} (m : S A) (f : A → S B)
      → Keeper m
      → ((a : A) → Keeper (f a))
      → Keeper (m >>= f)
  Keeper-bind m f h k s e = Keeps-bind (m s) f (h s e) k

  Keeper-if : (b : Bool) (m n : S (Unit {0})) → Keeper m → Keeper n → Keeper (if b then m else n)
  Keeper-if true m n h k = h
  Keeper-if false m n h k = k

  Keeps-run :
      {A : Type 0} (r : Run A) (s : System)
      → s.envs i ≡ v
      → Keeps {A = A} (elim r [
        | ok a k ↦ done a (record s { kernel = k })
        | panic p ↦ stopped (kernel_panic p)
      ])
  Keeps-run (ok a k) s e = e
  Keeps-run (panic p) s e = tt

  Keeper-in_kernel : {A : Type 0} (m : M A) → Keeper (in_kernel m)
  Keeper-in_kernel m s e = Keeps-run (m s.kernel) s e

  switch_to_kernel-Keeper : Keeper switch_to_kernel
  switch_to_kernel-Keeper s h =
      Keeper-bind (in_kernel (paddr s.kern_pgdir)) _ (Keeper-in_kernel _) (λ pa u k. k) s h

  module _ (e : ℕ) (other : e ≢ i) where
    Keeper-put_env : (w : Env) → Keeper (put_env e w)
    Keeper-put_env w s h = let apart : (e == i) ≡ false = ground arith in rw apart h

    free_directory-Keeper : Keeper (free_directory e)
    unfolding free_directory
    free_directory-Keeper s h =
        Keeper-bind (in_kernel (paddr (s.envs e).env_pgdir)) _ (Keeper-in_kernel _)
          (λ pa.
            Keeper-bind (put_env e (record (s.envs e) { env_pgdir = 0 })) _ (Keeper-put_env _) (λ u.
              Keeper-bind (in_kernel (pa2page pa)) _ (Keeper-in_kernel _)
                (λ pp. Keeper-in_kernel (page_decref pp))))
          s h

    free_env-Keeper : Keeper (free_env e)
    unfolding free_env
    free_env-Keeper s h =
        Keeper-bind (if same_env e s.curenv then switch_to_kernel else pure tt) _
          (Keeper-if (same_env e s.curenv) switch_to_kernel (pure tt) switch_to_kernel-Keeper
            (λ u k. k))
          (λ u.
            Keeper-bind (say (freed_env (cur_id s) (s.envs e).env_id)) _ (λ t k. k)
              (λ u'.
                Keeper-bind (in_kernel (flush_pages (s.envs e).env_pgdir)) _ (Keeper-in_kernel _)
                  (λ u''.
                    Keeper-bind (free_directory e) (λ _. return_env e) free_directory-Keeper
                      (λ u''' t k. let apart : (e == i) ≡ false = ground arith in rw apart k))))
          s h

    env_destroy-Keeper : Keeper (env_destroy e)
    unfolding env_destroy
    env_destroy-Keeper s h = Keeper-bind (free_env e) _ free_env-Keeper (λ u s' k. k) s h

-- What envid2env gives with the check of the permission: the current environment or a child of it, or -E_BAD_ENV.
abbrev MayFind : System → (envid c : ℕ) → Type 0
MayFind s envid c =
    (envid2env envid true s ≡ bad_env)
    ⊎ ((e : ℕ) × (envid2env envid true s ≡ env_store (some e))
        × ((e ≡ c) ⊎ ((s.envs e).env_parent_id ≡ (s.envs c).env_id)))

envid2env-MayFind : (envid c : ℕ) (s : System) → s.curenv ≡ some c → MayFind s envid c
unfolding envid2env
envid2env-MayFind envid c s cur = elim (Bool-cases (envid == 0)) [
  | inl itself ↦ inr (c, rw (envid2env, itself, cur) refl, inl refl)
  | inr given ↦
      let e : ℕ = envx envid in
      elim (Bool-cases (is_free (s.envs e).env_status || not ((s.envs e).env_id == envid))) [
        | inl bad ↦ inl (rw (envid2env, given, bad) refl)
        | inr good ↦
            elim (Bool-cases
              (not (e == c) && not ((s.envs e).env_parent_id == (s.envs c).env_id))) [
                | inl foreign ↦ inl (rw (envid2env, given, good, cur, foreign) refl)
                | inr own ↦ inr (e, rw (envid2env, given, good, cur, own) refl, ground arith)
              ]
      ]
]

-- The call is refused and changes nothing, or it comes to the monitor's loop with environment `i` as it was, or a panic of the
-- kernel ends it.
abbrev pub Isolates : System → ℕ → Result Returned → Type 0
Isolates s i (done r s') = (r ≡ bad_env_returned) × (s' ≡ s)
Isolates s i (stopped e) = IsPanic e
Isolates s i (in_monitor s') = s'.envs i ≡ s.envs i

Isolates-destroyed :
    (i : ℕ) (s : System) (m : Result (Unit {0}))
    → Keeps i (s.envs i) m
    → Leaves m
    → Isolates s i (elim m [
      | done a s' ↦ done zero_returned s'
      | stopped e ↦ stopped e
      | in_monitor s' ↦ in_monitor s'
    ])
Isolates-destroyed i s (done a s') k l = absurd l
Isolates-destroyed i s (stopped e) k l = k
Isolates-destroyed i s (in_monitor s') k l = k

-- What the call does with the environment that it found.
abbrev killing : (e c : ℕ) → S Returned
killing e c = do
  s ← get
  if e == c
      then say (exiting (s.envs c).env_id)
      else say (destroying (s.envs c).env_id (s.envs e).env_id)
  env_destroy e
  pure zero_returned

Isolates-killing : (e c i : ℕ) (s : System) → e ≢ i → Isolates s i (killing e c s)
Isolates-killing e c i s apart = elim (Bool-cases (e == c)) [
  | inl own ↦ rw own (
      Isolates-destroyed i s _ (env_destroy-Keeper i (s.envs i) e apart _ refl)
        (env_destroy-Leaves e _))
  | inr child ↦ rw child (
      Isolates-destroyed i s _ (env_destroy-Keeper i (s.envs i) e apart _ refl)
        (env_destroy-Leaves e _))
]

Isolates-current :
    (c e i : ℕ) (s : System) (o : Option ℕ)
    → o ≡ some c
    → Isolates s i (killing e c s)
    → Isolates s i (elim o [ none ↦ stopped null_deref | some x ↦ killing e x s ])
Isolates-current c e i s o cur h = rw cur h

pub sys_env_destroy-Isolates :
    (envid c i : ℕ) (s : System)
    → s.curenv ≡ some c
    → i ≢ c
    → (s.envs i).env_parent_id ≢ (s.envs c).env_id
    → Isolates s i (sys_env_destroy envid s)
unfolding sys_env_destroy
sys_env_destroy-Isolates envid c i s cur other no_child = elim (envid2env-MayFind envid c s cur) [
  | inl bad ↦ rw (sys_env_destroy, bad) (refl, refl)
  | inr (e, here, allowed) ↦
      let apart : e ≢ i = λ same. elim allowed [
        | inl own ↦ other (sym same ∙ own)
        | inr child ↦ no_child (ap (λ j. (s.envs j).env_parent_id) (sym same) ∙ child)
      ] in
      rw (sys_env_destroy, here)
        (Isolates-current c e i s s.curenv cur (Isolates-killing e c i s apart))
]
