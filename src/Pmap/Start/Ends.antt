-- ===== src/Pmap/Start/Ends.antt =====
-- How far mem_init comes in this tree.
use mit6_828_lab.Base.{
  ℕ, zero, suc, ◌+◌, ◌-◌, ◌*◌, ◌%◌, ◌^◌, ◌≤◌, ◌<◌, ◌≡◌, ◌≢◌, ◌==◌, refl, true, false, ==_refl, List,
  arith,
}
use mit6_828_lab.Mmu.Macros.{kernbase, upages, pte_addr}
use mit6_828_lab.Pmap.Kernel.{
  Kernel, Run, M, Panic, ok, panic, paddr_invalid, assertion_failed, ◌>>=◌, ◌>>◌, kva_of, paddr,
  paddr_lem,
}
use mit6_828_lab.Pmap.Boot.{i386_detect_memory, page_init}
use mit6_828_lab.Pmap.Boot.FreeList.{check_page_free_list}
use mit6_828_lab.Pmap.Alloc.Check.{check_page_alloc}
use mit6_828_lab.Pmap.Table.{check_va2pa}
use mit6_828_lab.Pmap.Start.{map_kernel}
use mit6_828_lab.Pmap.Start.Layout.{Layout, CanMap, map_kernel-Layout}
use mit6_828_lab.Pmap.Start.Check.{
  check_array, check_kern_pgdir, array_rounds, uenvs, sizeof_page_info, sizeof_env,
}
use mit6_828_lab.Pmap.Start.Pages.{check_page}
use mit6_828_lab.Pmap.Start.Init.{alloc_tables, mem_init, envs_null}
use mit6_828_lab.Env.Alloc.{nenv}

-- PADDR(NULL)
paddr-null : (s : Kernel) → paddr 0 s ≡ panic paddr_invalid
unfolding paddr
paddr-null s = refl

-- The loop over an array passes where the array is mapped.
pub check_array-passes :
    (n pgdir va kva i : ℕ) (s : Kernel)
    → ((k : ℕ)
        → k < n
        → check_va2pa pgdir (va + (i + k * 4096)) s ≡ ok (kva - kernbase + (i + k * 4096)) s)
    → kernbase ≤ kva
    → va + (i + n * 4096) < 2 ^ 32
    → kva - kernbase + (i + n * 4096) < 2 ^ 32
    → check_array n pgdir va kva i s ≡ ok tt s
unfolding check_array
check_array-passes zero pgdir va kva i s mapped high va_fits pa_fits = refl
check_array-passes (suc n) pgdir va kva i s mapped high va_fits pa_fits =
    let va0 : (va + i) % 2 ^ 32 ≡ va + (i + 0 * 4096) = omega arith in
    let pa0 : (kva - kernbase + i) % 2 ^ 32 ≡ kva - kernbase + (i + 0 * 4096) = omega arith in
    let rest =
      check_array-passes n pgdir va kva (i + 4096) s
        (λ k lt.
          let next : i + 4096 + k * 4096 ≡ i + suc k * 4096 = omega arith in
          rw next (mapped (suc k) (omega arith)))
        high (omega arith) (omega arith) in
    rw
      (
        va0,
        mapped 0 (omega arith),
        ◌>>=◌,
        paddr_lem kva s high,
        pa0,
        ==_refl (kva - kernbase + (i + 0 * 4096)),
        ◌>>◌,
      )
      rest

-- and ends in a failed assertion at the first page that is mapped otherwise.
check_array-fails :
    (k n pgdir va kva i v : ℕ) (s : Kernel)
    → ((j : ℕ)
        → j < k
        → check_va2pa pgdir (va + (i + j * 4096)) s ≡ ok (kva - kernbase + (i + j * 4096)) s)
    → check_va2pa pgdir (va + (i + k * 4096)) s ≡ ok v s
    → v ≢ kva - kernbase + (i + k * 4096)
    → k < n
    → kernbase ≤ kva
    → va + (i + k * 4096) < 2 ^ 32
    → kva - kernbase + (i + k * 4096) < 2 ^ 32
    → check_array n pgdir va kva i s ≡ panic assertion_failed
unfolding check_array
check_array-fails k zero pgdir va kva i v s mapped wrong ne lt high va_fits pa_fits =
    absurd (omega arith)
check_array-fails zero (suc n) pgdir va kva i v s mapped wrong ne lt high va_fits pa_fits =
    let va0 : (va + i) % 2 ^ 32 ≡ va + (i + 0 * 4096) = omega arith in
    let pa0 : (kva - kernbase + i) % 2 ^ 32 ≡ kva - kernbase + (i + 0 * 4096) = omega arith in
    let differs : (v == kva - kernbase + (i + 0 * 4096)) ≡ false = ground arith in
    rw (va0, wrong, ◌>>=◌, paddr_lem kva s high, pa0, differs, ◌>>◌) refl
check_array-fails (suc k) (suc n) pgdir va kva i v s mapped wrong ne lt high va_fits pa_fits =
    let va0 : (va + i) % 2 ^ 32 ≡ va + (i + 0 * 4096) = omega arith in
    let pa0 : (kva - kernbase + i) % 2 ^ 32 ≡ kva - kernbase + (i + 0 * 4096) = omega arith in
    let rest =
      check_array-fails k n pgdir va kva (i + 4096) v s
        (λ j j_lt.
          let next : i + 4096 + j * 4096 ≡ i + suc j * 4096 = omega arith in
          rw next (mapped (suc j) (omega arith)))
        (let next : i + 4096 + k * 4096 ≡ i + suc k * 4096 = omega arith in rw next wrong)
        (let next : i + 4096 + k * 4096 ≡ i + suc k * 4096 = omega arith in rw next ne)
        (omega arith) high (omega arith) (omega arith) in
    rw
      (
        va0,
        mapped 0 (omega arith),
        ◌>>=◌,
        paddr_lem kva s high,
        pa0,
        ==_refl (kva - kernbase + (i + 0 * 4096)),
        ◌>>◌,
      )
      rest

-- Page `k` of the array is the first that is not mapped at UPAGES as it should be.
pub record FirstWrong (s : Kernel) (d pages k v : ℕ) : Type 0 where
  pub in_array : k * 4096 < s.npages * sizeof_page_info
  pub few : s.npages ≤ 2 ^ 16
  pub before :
      (j : ℕ)
      → j < k
      → check_va2pa (kva_of d) (upages + j * 4096) s ≡ ok (pages - kernbase + j * 4096) s
  pub found : check_va2pa (kva_of d) (upages + k * 4096) s ≡ ok v s
  pub wrong : v ≢ pages - kernbase + k * 4096

check_kern_pgdir-FirstWrong :
    (s : Kernel) (d pages bootstack k v : ℕ)
    → FirstWrong s d pages k v
    → kernbase ≤ pages
    → pages < 2 ^ 32
    → check_kern_pgdir (kva_of d) pages envs_null bootstack s ≡ panic assertion_failed
unfolding check_kern_pgdir
check_kern_pgdir-FirstWrong s d pages bootstack k v w high fits =
    let inside = w.in_array in
    let small = w.few in
    let array : check_array (array_rounds (s.npages * sizeof_page_info % 2 ^ 32)) (kva_of d) upages
          pages 0 s
        ≡ panic assertion_failed =
      check_array-fails k (array_rounds (s.npages * sizeof_page_info % 2 ^ 32)) (kva_of d) upages
        pages 0 v s
        (λ j lt. let from : 0 + j * 4096 ≡ j * 4096 = omega arith in rw from (w.before j lt))
        (let from : 0 + k * 4096 ≡ k * 4096 = omega arith in rw from w.found)
        (let from : 0 + k * 4096 ≡ k * 4096 = omega arith in rw from w.wrong) (omega arith) high
        (omega arith) (omega arith) in
    rw (◌>>=◌, ◌>>◌, array) refl

check_kern_pgdir-Layout :
    (s : Kernel) (d pages bootstack : ℕ)
    → Layout s d pages bootstack
    → pages % 4096 ≡ 0
    → kernbase ≤ pages
    → pages < 2 ^ 32
    → s.npages ≤ 2 ^ 16
    → check_kern_pgdir (kva_of d) pages envs_null bootstack s ≡ panic paddr_invalid
unfolding check_kern_pgdir check_array
check_kern_pgdir-Layout s d pages bootstack layout aligned high fits small =
    let rounds : array_rounds (s.npages * sizeof_page_info % 2 ^ 32) ≤ 129 = omega arith in
    let array =
      check_array-passes (array_rounds (s.npages * sizeof_page_info % 2 ^ 32)) (kva_of d) upages
        pages 0 s
        (λ k lt.
          let at : pte_addr (pages - kernbase + (upages + (0 + k * 4096) - upages))
              ≡ pages - kernbase + (0 + k * 4096) =
            omega arith in
          rw (← at) (layout.at_upages (upages + (0 + k * 4096)) (omega arith) (omega arith)).1)
        high (omega arith) (omega arith) in
    let envs : check_array (array_rounds (nenv * sizeof_env)) (kva_of d) uenvs 0 0 s
        ≡ panic paddr_invalid =
      rw (layout.below uenvs (omega arith), ◌>>=◌, paddr-null s) refl in
    rw (◌>>=◌, ◌>>◌, array, envs) refl

pub check_kern_pgdir-map_kernel :
    (s u : Kernel) (d pages bootstack k v : ℕ) (xs : List ℕ)
    → CanMap s d pages bootstack xs
    → FirstWrong u d pages k v
    → ((map_kernel (kva_of d) pages bootstack
            >> check_kern_pgdir (kva_of d) pages envs_null bootstack)
          s
        ≡ panic paddr_invalid)
      × (check_kern_pgdir (kva_of d) pages envs_null bootstack u ≡ panic assertion_failed)
check_kern_pgdir-map_kernel s u d pages bootstack k v xs can first =
    let (s', ys, run, pool, wf, own, layout) = map_kernel-Layout s d pages bootstack xs can in
    (
      rw (◌>>◌, ◌>>=◌, run)
          (check_kern_pgdir-Layout s' d pages bootstack layout can.pages_aligned can.pages_high
            can.pages_fit pool.small),
      check_kern_pgdir-FirstWrong u d pages bootstack k v first can.pages_high can.pages_fit,
    )

-- The code ends in a panic, from every state.
abbrev Stops : {A : Type 0} → M A → Type 0
Stops m = (s : Kernel) → (e : Panic) × (m s ≡ panic e)

run_then :
    {A B : Type 0} (r : Run A) (f : A → M B)
    → ((a : A) → Stops (f a))
    → (e : Panic) × ((elim r [ ok a s ↦ f a s | panic e ↦ panic e ]) ≡ panic e)
run_then (ok a s) f stops = stops a s
run_then (panic e) f stops = (e, refl)

behind : {A B : Type 0} (m : M A) (f : A → M B) → ((a : A) → Stops (f a)) → Stops (m >>= f)
behind m f stops s = run_then (m s) f stops

before : {A B : Type 0} (m : M A) (f : A → M B) → Stops m → Stops (m >>= f)
before m f stops s = let (e, run) = stops s in (e, rw (◌>>=◌, run) refl)

check_array-null : (n pgdir va i : ℕ) → Stops (check_array (suc n) pgdir va 0 i)
unfolding check_array
check_array-null n pgdir va i =
    behind (check_va2pa pgdir ((va + i) % 2 ^ 32)) _
      (λ found. before (paddr 0) _ (λ s. (paddr_invalid, paddr-null s)))

check_kern_pgdir-Stops :
    (pgdir pages bootstack : ℕ) → Stops (check_kern_pgdir pgdir pages envs_null bootstack)
unfolding check_kern_pgdir
check_kern_pgdir-Stops pgdir pages bootstack =
    behind (λ s. ok s s) _
      (λ s.
        behind
          (check_array (array_rounds (s.npages * sizeof_page_info % 2 ^ 32)) pgdir upages pages 0) _
          (λ u.
            before (check_array (array_rounds (nenv * sizeof_env)) pgdir uenvs envs_null 0) _
              (check_array-null 23 pgdir uenvs 0)))

-- mem_init does not return in this tree, whatever the machine and the fuel: it ends in a panic (`endless`, where the fuel runs
-- out, is one), at the latest when check_kern_pgdir looks
-- for the environments, which nothing allocates or maps.
pub mem_init_stops :
    (cmos : ℕ → ℕ) (fuel end bootstack cr0 : ℕ) (s : Kernel)
    → (e : Panic) × (mem_init cmos fuel end bootstack cr0 s ≡ panic e)
unfolding mem_init
mem_init_stops cmos fuel end bootstack cr0 = behind (i386_detect_memory cmos) _ (λ u.
    behind (alloc_tables end) _ (λ tables. behind (page_init end) _ (λ u.
      behind (check_page_free_list fuel end true) _ (λ u.
        behind (check_page_alloc fuel tables.1) _ (λ u. behind (check_page tables.0) _ (λ u.
          behind (map_kernel tables.0 tables.1 bootstack) _ (λ u.
            before (check_kern_pgdir tables.0 tables.1 envs_null bootstack) _
              (check_kern_pgdir-Stops tables.0 tables.1 bootstack))))))))
