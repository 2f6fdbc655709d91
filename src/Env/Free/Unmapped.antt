-- ===== src/Env/Free/Unmapped.antt =====
-- env_free of an environment with no page table in its user part.
use mit6_828_lab.Base.{
  ℕ, zero, suc, ◌+◌, ◌-◌, ◌*◌, ◌^◌, ◌≤◌, ◌<◌, ◌≡◌, refl, ◌∙◌, inl, inr, true, false, some, List,
  ◌∷◌, if◌then◌else◌, arith, ◌==◌, ==_refl, has, bit_and, Bool-cases,
}
use mit6_828_lab.Mmu.Macros.{kernbase, pgnum, pte_p, pdx, utop}
use mit6_828_lab.Pmap.Kernel.{Kernel, ok, pa2page, paddr_lem, pa2page_lem, kva_of}
use mit6_828_lab.Pmap.Alloc.{page_decref}
use mit6_828_lab.Pmap.Alloc.Pool.{IsPool}
use mit6_828_lab.Pmap.Alloc.Decref.{Dropped, pool_after, page_decref-Dropped, ref}
use mit6_828_lab.Env.State.{
  env_free, System, done, set_env, in_kernel, cur_id, freed_env, ◌>>=◌, ◌>>◌,
}
use mit6_828_lab.Env.Alloc.{same_env}
use mit6_828_lab.Env.Pages.{free_tables, flush_pages}
use mit6_828_lab.Env.Free.{free_directory, free_env}

-- No directory entry of the first `n` from `pdeno` on is present.
abbrev pub HasNoTables : (n pgdir pdeno : ℕ) → Kernel → Type 0
HasNoTables n pgdir pdeno k =
    (i : ℕ) → i < n → (bit_and (k.mem (pgdir + 4 * (pdeno + i))) pte_p == 0) ≡ true

free_tables-none :
    (n pgdir pdeno : ℕ) (k : Kernel)
    → HasNoTables n pgdir pdeno k
    → free_tables n pgdir pdeno k ≡ ok tt k
unfolding free_tables
free_tables-none zero pgdir pdeno k h = refl
free_tables-none (suc n) pgdir pdeno k h =
    let at : pdeno + 0 ≡ pdeno = omega arith in
    let first : (bit_and (k.mem (pgdir + 4 * pdeno)) pte_p == 0) ≡ true =
      rw (← at) (h 0 (omega arith)) in
    let next : (i : ℕ) → pdeno + suc i ≡ pdeno + 1 + i = λ i. omega arith in
    rw first
      (free_tables-none n pgdir (pdeno + 1) k (λ i lt. rw (← next i) (h (suc i) (omega arith))))

-- An environment whose page directory is page `q` of the machine, with no page table in its user part.
pub record HasDirectory (s : System) (e q : ℕ) (xs : List ℕ) : Type 0 where
  pub directory : (s.envs e).env_pgdir ≡ kva_of q
  pub in_range : q < s.kernel.npages
  pub pool : IsPool s.kernel xs
  pub in_use : has q xs ≡ false
  pub counted : 0 < ref s.kernel q
  pub small_count : ref s.kernel q < 2 ^ 16
  pub no_tables : HasNoTables (pdx utop) (kva_of q) 0 s.kernel
  pub kernel_directory : kernbase ≤ s.kern_pgdir

-- The address space is gone: the directory's page lost a reference, and the environment points to no directory.
pub record Unmapped (s s' : System) (e q : ℕ) (xs : List ℕ) : Type 0 where
  pub pool_left : IsPool s'.kernel (pool_after (ref s.kernel q) q xs)
  pub page_dropped : Dropped s.kernel s'.kernel q
  pub no_directory : (s'.envs e).env_pgdir ≡ 0
  pub is_env_free : (s'.envs e).env_status ≡ env_free
  pub first_free : s'.env_free_list ≡ some e
  pub then_free : (s'.envs e).env_link ≡ s.env_free_list
  pub same_cur : s'.curenv ≡ s.curenv
  pub same_frame : (s'.envs e).env_tf ≡ (s.envs e).env_tf
  pub same_last : s'.last_tf ≡ s.last_tf

-- The state after the directory is dropped and the environment is returned.
abbrev without : ℕ → Kernel → System → System
without e k s = record s {
  kernel = k;
  envs =
      set_env e
        (record (record (s.envs e) { env_pgdir = 0 }) {
          env_status = env_free;
          env_link = s.env_free_list;
        })
        (set_env e (record (s.envs e) { env_pgdir = 0 }) s.envs);
  env_free_list = some e;
}

free_directory-eq :
    (e q : ℕ) (xs : List ℕ) (s : System) (k : Kernel)
    → HasDirectory s e q xs
    → page_decref q s.kernel ≡ ok tt k
    → free_directory e s
      ≡ done tt
          (record s { kernel = k; envs = set_env e (record (s.envs e) { env_pgdir = 0 }) s.envs })
unfolding free_directory
free_directory-eq e q xs s k h dec =
    let small : s.kernel.npages ≤ 2 ^ 16 = h.pool.small in
    let page : pgnum (kva_of q - kernbase) ≡ q = omega arith in
    let lookup : pa2page (kva_of q - kernbase) s.kernel ≡ ok q s.kernel =
      pa2page_lem (kva_of q - kernbase) s.kernel (rw page h.in_range) ∙ rw page in
    rw (h.directory, paddr_lem (kva_of q) s.kernel (omega arith), ◌>>=◌, lookup, in_kernel, dec)

flushed :
    (e q : ℕ) (xs : List ℕ) (s : System)
    → HasDirectory s e q xs
    → flush_pages (s.envs e).env_pgdir s.kernel ≡ ok tt s.kernel
unfolding flush_pages
flushed e q xs s h = rw h.directory (free_tables-none (pdx utop) (kva_of q) 0 s.kernel h.no_tables)

-- What env_free does before it walks the directory: nothing but the message and the load of cr3.
abbrev entered : (cr3 e : ℕ) → System → System
entered cr3 e s = record s {
  cr3 = cr3;
  messages = freed_env (cur_id s) (s.envs e).env_id ∷ s.messages;
}

abbrev cr3_after : ℕ → System → ℕ
cr3_after e s = if same_env e s.curenv then s.kern_pgdir - kernbase else s.cr3

HasDirectory-entered :
    (cr3 e q : ℕ) (xs : List ℕ) (s : System)
    → HasDirectory s e q xs
    → HasDirectory (entered cr3 e s) e q xs
HasDirectory-entered cr3 e q xs s h = record {
  directory = h.directory;
  in_range = h.in_range;
  pool = h.pool;
  in_use = h.in_use;
  counted = h.counted;
  small_count = h.small_count;
  no_tables = h.no_tables;
  kernel_directory = h.kernel_directory;
}

free_env-eq :
    (e q : ℕ) (xs : List ℕ) (s : System) (k : Kernel)
    → HasDirectory s e q xs
    → page_decref q s.kernel ≡ ok tt k
    → free_env e s ≡ done tt (without e k (entered (cr3_after e s) e s))
unfolding free_env
free_env-eq e q xs s k h dec =
    let drop : (c : ℕ) → _ =
      λ c. free_directory-eq e q xs (entered c e s) k (HasDirectory-entered c e q xs s h) dec in
    elim (Bool-cases (same_env e s.curenv)) [
      | inl cur ↦ rw (
        cur,
        paddr_lem s.kern_pgdir s.kernel h.kernel_directory,
        ◌>>=◌,
        flushed e q xs s h,
        ◌>>◌,
        drop (s.kern_pgdir - kernbase),
        ==_refl e,
      )
      | inr other ↦
          rw (other, ◌>>=◌, ◌>>◌, in_kernel, flushed e q xs s h, ◌>>◌, drop s.cr3, ==_refl e)
    ]

-- env_free of an environment whose directory is a page of the machine and has no page table below UTOP returns: the page of
-- the directory loses a reference, and joins the pool if that was the last; no other count and no memory changes; and the
-- environment is free, has no directory, and is the first of the free list, before those that were on it.
pub free_env-Unmapped :
    (e q : ℕ) (xs : List ℕ) (s : System)
    → HasDirectory s e q xs
    → (s' : System) × (free_env e s ≡ done tt s') × Unmapped s s' e q xs
free_env-Unmapped e q xs s h =
    let (k, run, left, drop) =
      page_decref-Dropped q xs s.kernel h.pool h.in_use h.in_range h.counted h.small_count in
    (
      without e k (entered (cr3_after e s) e s),
      free_env-eq e q xs s k h run,
      record {
        pool_left = left;
        page_dropped = drop;
        no_directory = rw (==_refl e);
        is_env_free = rw (==_refl e);
        first_free = refl;
        then_free = rw (==_refl e);
        same_cur = refl;
        same_frame = rw (==_refl e);
        same_last = refl;
      },
    )
