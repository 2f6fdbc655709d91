-- ===== src/Env/Alloc/Outcomes.antt =====
-- What env_alloc does on every branch.
use mit6_828_lab.Base.{
  ℕ, has, bit_or, ◌+◌, ◌-◌, ◌*◌, ◌^◌, ◌≤◌, ◌<◌, ◌≡◌, ◌≢◌, refl, false, ◌==◌, ==_refl, none, some,
  List, [], ◌∷◌, if◌then◌else◌, arith,
}
use mit6_828_lab.Mmu.Macros.{kernbase, pdx, uvpt, pte_p, pte_u}
use mit6_828_lab.Pmap.Kernel.{paddr, paddr_lem, paddr_invalid}
use mit6_828_lab.Pmap.Alloc.{alloc_zero}
use mit6_828_lab.Pmap.Table.{no_mem}
use mit6_828_lab.Pmap.Alloc.Pool.{IsPool, page_alloc-nil, page_alloc-cons, taken}
use mit6_828_lab.Pmap.Alloc.Decref.{ref}
use mit6_828_lab.Env.State.{
  new_env, set_env, env_runnable, System, done, stopped, kernel_panic, ◌>>=◌, in_kernel,
}
use mit6_828_lab.Env.Alloc.{
  nenv, envx, env_store, envid2env, env_setup_vm, make_id, new_tf, newenv, no_free_env, env_no_mem,
  env_alloc, fresh_env,
}
use mit6_828_lab.Env.Alloc.Id.{make_id_fresh}

-- env_setup_vm with no page to take, and with a page but a directory pointer below KERNBASE.
env_setup_vm-empty : (e : ℕ) (s : System) → IsPool s.kernel [] → env_setup_vm e s ≡ done no_mem s
unfolding env_setup_vm
env_setup_vm-empty e s pool = rw (◌>>=◌, page_alloc-nil alloc_zero s.kernel pool)

env_setup_vm-low :
    (e x : ℕ) (xs : List ℕ) (s : System)
    → IsPool s.kernel (x ∷ xs)
    → (s.envs e).env_pgdir < kernbase
    → env_setup_vm e s ≡ stopped (kernel_panic paddr_invalid)
unfolding env_setup_vm paddr
env_setup_vm-low e x xs s pool null =
    let (run, rest) = page_alloc-cons alloc_zero x xs s.kernel pool in
    rw (◌>>=◌, in_kernel, run) (ground arith)

-- The errors of env_alloc. With no free environment, and with one but no free page, it returns the error's number and changes
-- nothing. With both, but an environment whose directory pointer is below KERNBASE, such as the NULL of one that was never used,
-- it panics, for the page that it took is not made the directory.
pub env_alloc_errors :
    (parent_id e x : ℕ) (xs : List ℕ) (s t u : System)
    → s.env_free_list ≡ none
    → t.env_free_list ≡ some e
    → IsPool t.kernel []
    → u.env_free_list ≡ some e
    → IsPool u.kernel (x ∷ xs)
    → (u.envs e).env_pgdir < kernbase
    → (env_alloc parent_id s ≡ done no_free_env s)
      × (env_alloc parent_id t ≡ done env_no_mem t)
      × (env_alloc parent_id u ≡ stopped (kernel_panic paddr_invalid))
unfolding env_alloc
env_alloc_errors parent_id e x xs s t u no_env t_env empty u_env pool null = (
  rw no_env,
  rw (t_env, ← t_env) (rw (◌>>=◌, env_setup_vm-empty e t empty) refl),
  rw (u_env, ← u_env) (rw (◌>>=◌, env_setup_vm-low e x xs u pool null) refl),
)

-- What a successful env_alloc leaves behind.
pub record Fresh (s s' : System) (parent_id e x : ℕ) (xs : List ℕ) : Type 0 where
  pub found : envid2env (make_id (s.envs e).env_id e) false s' ≡ env_store (some e)
  pub runnable : (s'.envs e).env_status ≡ env_runnable
  pub parent : (s'.envs e).env_parent_id ≡ parent_id
  pub registers : (s'.envs e).env_tf ≡ new_tf
  pub same_directory : (s'.envs e).env_pgdir ≡ (s.envs e).env_pgdir
  pub others : (i : ℕ) → i ≢ e → s'.envs i ≡ s.envs i
  pub list_left : s'.env_free_list ≡ (s.envs e).env_link
  pub pool_left : IsPool s'.kernel xs
  pub lost : (has x xs ≡ false) × (ref s'.kernel x ≡ 0)

set_up : (parent_id e x : ℕ) → System → System
set_up parent_id e x s =
    let v = s.envs e in
    record s {
      kernel = record (taken alloc_zero x s.kernel) {
        mem = λ a.
            if v.env_pgdir + 4 * pdx uvpt == a
            then bit_or (bit_or (v.env_pgdir - kernbase) pte_p) pte_u
            else (taken alloc_zero x s.kernel).mem a;
      };
      envs = set_env e (fresh_env e parent_id v) s.envs;
      env_free_list = v.env_link;
      messages =
          new_env
            (elim s.curenv [
              | none ↦ 0
              | some c ↦ (set_env e (fresh_env e parent_id v) s.envs c).env_id
            ])
            (make_id v.env_id e)
          ∷ s.messages;
    }

set_up-eq :
    (parent_id e x : ℕ) (xs : List ℕ) (s : System)
    → s.env_free_list ≡ some e
    → IsPool s.kernel (x ∷ xs)
    → kernbase ≤ (s.envs e).env_pgdir
    → env_alloc parent_id s ≡ done (newenv e) (set_up parent_id e x s)
unfolding env_alloc env_setup_vm set_up
set_up-eq parent_id e x xs s first pool high =
    let (run, rest) = page_alloc-cons alloc_zero x xs s.kernel pool in
    rw (
      first,
      ◌>>=◌,
      in_kernel,
      run,
      paddr_lem (s.envs e).env_pgdir (taken alloc_zero x s.kernel) high,
    )

-- A runnable environment is found by its id.
envid2env_lem :
    (id e : ℕ) (s : System)
    → id ≢ 0
    → envx id ≡ e
    → (s.envs e).env_status ≡ env_runnable
    → (s.envs e).env_id ≡ id
    → envid2env id false s ≡ env_store (some e)
unfolding envid2env
envid2env_lem id e s nonzero at status same =
    let proper : (id == 0) ≡ false = ground arith in rw (proper, at, status, same, ==_refl id)

-- With a free environment whose directory pointer is above KERNBASE and a page to take, env_alloc gives the first free
-- environment. Its new id finds it; it is runnable, with the given parent, cleared registers and the directory that it had;
-- no other environment changes; and the page taken from the pool is in no pool and has no reference.
pub env_alloc-Fresh :
    (parent_id e x : ℕ) (xs : List ℕ) (s : System)
    → s.env_free_list ≡ some e
    → IsPool s.kernel (x ∷ xs)
    → kernbase ≤ (s.envs e).env_pgdir
    → e < nenv
    → (s.envs e).env_id < 2 ^ 32
    → (s' : System) × (env_alloc parent_id s ≡ done (newenv e) s') × Fresh s s' parent_id e x xs
unfolding set_up
env_alloc-Fresh parent_id e x xs s first pool high slot word =
    let (at, positive, small, new) = make_id_fresh (s.envs e).env_id e word slot in
    let (run, rest) = page_alloc-cons alloc_zero x xs s.kernel pool in
    (
      set_up parent_id e x s,
      set_up-eq parent_id e x xs s first pool high,
      record {
        found =
            envid2env_lem (make_id (s.envs e).env_id e) e (set_up parent_id e x s)
              (λ zero_id. omega arith) at (rw (==_refl e)) (rw (==_refl e));
        runnable = rw (==_refl e);
        parent = rw (==_refl e);
        registers = rw (==_refl e);
        same_directory = rw (==_refl e);
        others = λ i ne. ground arith;
        list_left = refl;
        pool_left = record {
          chain = rest.chain;
          used_unlinked = rest.used_unlinked;
          small = rest.small;
        };
        lost = (pool.chain.3, rw (ref, ==_refl x) pool.chain.2);
      },
    )
