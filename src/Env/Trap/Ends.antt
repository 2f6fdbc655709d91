-- ===== src/Env/Trap/Ends.antt =====
-- No trap comes back: what trap ends in.
use mit6_828_lab.Base.{ℕ, ◌%◌, inl, inr, ◌==◌, Bool-cases, Option-cases}
use mit6_828_lab.Env.State.{Trapframe, System, Result, done, stopped, in_monitor, S, ◌>>=◌}
use mit6_828_lab.Env.Free.{free_env, env_destroy}
use mit6_828_lab.Env.Trap.{interrupts, trap, trap_dispatch, return_to_env}

-- A run that does not come back.
abbrev pub Leaves : {A : Type 0} → Result A → Type 0
Leaves (done a s) = ⊥
Leaves (stopped e) = Unit {0}
Leaves (in_monitor s) = Unit {0}

Leaves-bind :
    {A B : Type 0} (m : Result A) (f : A → S B)
    → ((a : A) (s : System) → Leaves (f a s))
    → Leaves {A = B}
        (elim m [ done a s ↦ f a s | stopped e ↦ stopped e | in_monitor s ↦ in_monitor s ])
Leaves-bind (done a s) f h = h a s
Leaves-bind (stopped e) f h = tt
Leaves-bind (in_monitor s) f h = tt

-- env_destroy never returns.
pub env_destroy-Leaves : (e : ℕ) (s : System) → Leaves (env_destroy e s)
unfolding env_destroy
env_destroy-Leaves e s = Leaves-bind (free_env e s) _ (λ a s'. tt)

return_to_env-Leaves : (s : System) → Leaves (return_to_env s)
return_to_env-Leaves s = elim (Option-cases s.curenv) [
  | inl empty ↦ rw empty tt
  | inr (c, e) ↦ rw e tt
]

-- A sequence leaves when its rest does.
Leaves-then :
    {A B : Type 0} (m : S A) (k : A → S B) (s : System)
    → ((a : A) (s' : System) → Leaves (k a s'))
    → Leaves ((m >>= k) s)
Leaves-then m k s h = Leaves-bind (m s) k h

dispatched-Leaves :
    (tf : Trapframe) (s : System) → Leaves ((trap_dispatch tf >>= λ _. return_to_env) s)
dispatched-Leaves tf s =
    Leaves-then (trap_dispatch tf) (λ _. return_to_env) s (λ _ s'. return_to_env-Leaves s')

pub trap-Leaves : (eflags : ℕ) (tf : Trapframe) (s : System) → Leaves (trap eflags tf s)
unfolding trap
trap-Leaves eflags tf s = elim (Bool-cases (interrupts eflags)) [
  | inl on ↦ rw on tt
  | inr off ↦ elim (Bool-cases (tf.tf_cs % 4 == 3)) [
    | inl user ↦ elim (Option-cases s.curenv) [
      | inl empty ↦ rw (off, user, empty) tt
      | inr (c, e) ↦ rw (off, user, e) (dispatched-Leaves tf _)
    ]
    | inr inside ↦ rw (off, inside) (dispatched-Leaves tf _)
  ]
]
