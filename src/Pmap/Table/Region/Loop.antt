-- ===== src/Pmap/Table/Region/Loop.antt =====
-- The loop of boot_map_region maps its region, and nothing else.
use mit6_828_lab.Base.{
  ℕ, zero, suc, ◌+◌, ◌*◌, ◌/◌, ◌%◌, ◌^◌, ◌≤◌, ◌<◌, ◌≡◌, ◌≢◌, ◌⊎◌, refl, inl, inr, ◌∙◌, List, arith,
  bit_or, length, ◌==◌, ==_iff, Bool-cases,
}
use mit6_828_lab.Mmu.Macros.{pdx, ptx, pgsize, pte_p}
use mit6_828_lab.Pmap.Kernel.{Kernel, ok, ◌>>=◌, kva_of}
use mit6_828_lab.Pmap.Alloc.Pool.{IsPool}
use mit6_828_lab.Pmap.Table.{map_pages}
use mit6_828_lab.Pmap.Table.Entry.{IsPresent}
use mit6_828_lab.Pmap.Table.Region.Directory.{dir, word, IsDirectory}
use mit6_828_lab.Pmap.Table.Region.Walked.{Enough, walks}
use mit6_828_lab.Pmap.Table.Region.Write.{
  written, dir-written, written-IsDirectory, entry-written, entry-written_other,
}

-- Different pages differ in a field.
fields_ne :
    (va vb : ℕ)
    → va < 2 ^ 32
    → vb < 2 ^ 32
    → vb / 4096 ≢ va / 4096
    → (pdx vb ≢ pdx va) ⊎ (ptx vb ≢ ptx va)
fields_ne va vb fits fits' ne = elim (Bool-cases (pdx vb == pdx va)) [
  | inl same ↦
      let dirs : pdx vb ≡ pdx va = (==_iff (pdx vb) (pdx va)).0 same in
      inr (λ e. ne (omega (arith, dirs, e)))
  | inr other ↦ inl (ground arith)
]

module _ (d exempt perm last : ℕ) where
  -- The entry for a physical page.
  abbrev pub entry_for : ℕ → ℕ
  entry_for pa = bit_or (bit_or pa pte_p) perm

  record Round (s s' : Kernel) (va pa : ℕ) (ys : List ℕ) : Type 0 where
    step :
        (n : ℕ)
        → map_pages (suc n) (kva_of d) va pa perm s
          ≡ map_pages n (kva_of d) ((va + pgsize) % 2 ^ 32) ((pa + pgsize) % 2 ^ 32) perm s'
    directory : IsDirectory s' d exempt ys
    pool : IsPool s' ys
    here : word s' d va ≡ entry_for pa
    others :
        (vb : ℕ)
        → vb < 2 ^ 32
        → pdx vb ≢ exempt
        → vb / 4096 ≢ va / 4096
        → word s' d vb ≡ word s d vb
    own : exempt < 1024 → dir s' d exempt ≡ dir s d exempt
    present : IsPresent (dir s' d (pdx va))
    enough : last ≤ pdx va + length ys

  round :
      (s : Kernel) (va pa : ℕ) (xs : List ℕ)
      → IsDirectory s d exempt xs
      → IsPool s xs
      → va < 2 ^ 32
      → pdx va ≢ exempt
      → pdx va ≤ last
      → Enough s d va last xs
      → (s' : Kernel) × (ys : List ℕ) × Round s s' va pa ys
  unfolding map_pages
  round s va pa xs wf pool fits out reach enough =
      let (s1, t, ys, w, left) = walks s d exempt va last out xs wf pool reach enough in
      let v : ℕ = entry_for pa in
      let i_in : pdx va < 1024 = omega arith in
      let j_in : ptx va < 1024 = omega arith in
      (
        written s1 t (ptx va) v,
        ys,
        record {
          step = λ n. rw (map_pages, ◌>>=◌, w.run) refl;
          directory =
              written-IsDirectory s1 d exempt (pdx va) (ptx va) v t ys w.directory i_in j_in out
                w.present w.table;
          pool = record {
            chain = w.pool.chain;
            used_unlinked = w.pool.used_unlinked;
            small = w.pool.small;
          };
          here =
              entry-written s1 d exempt (pdx va) (ptx va) v t ys w.directory i_in j_in out w.present
                w.table;
          others = λ vb vb_fits vb_out ne.
              entry-written_other s1 d exempt (pdx va) (ptx va) v t ys w.directory i_in j_in out
                w.present w.table (pdx vb) (ptx vb) (omega arith) (omega arith) vb_out
                (fields_ne va vb fits vb_fits ne)
              ∙ w.same (pdx vb) (ptx vb) (omega arith) (omega arith) vb_out;
          own = λ lt.
              dir-written s1 d exempt (pdx va) (ptx va) v t ys w.directory i_in j_in out w.present
                w.table exempt lt
              ∙ w.own lt;
          present =
              rw
                (dir-written s1 d exempt (pdx va) (ptx va) v t ys w.directory i_in j_in out
                  w.present w.table (pdx va) i_in)
                w.present;
          enough = left;
        },
      )

  pub record Mapped (s s' : Kernel) (n va pa : ℕ) (ys : List ℕ) : Type 0 where
    pub run : map_pages n (kva_of d) va pa perm s ≡ ok tt s'
    pub directory : IsDirectory s' d exempt ys
    pub pool : IsPool s' ys
    pub mapped : (k : ℕ) → k < n → word s' d (va + k * 4096) ≡ entry_for (pa + k * 4096)
    pub others :
        (vb : ℕ)
        → vb < 2 ^ 32
        → pdx vb ≢ exempt
        → (vb < va) ⊎ (va + n * 4096 ≤ vb)
        → word s' d vb ≡ word s d vb
    pub own : exempt < 1024 → dir s' d exempt ≡ dir s d exempt
    pub left : (k : ℕ) → suc k ≡ n → last ≤ pdx (va + k * 4096) + length ys

  -- A region's place: whole pages below 4 GB that reach no entry behind `last` and not the exempt one.
  pub record IsRegion (n va pa : ℕ) : Type 0 where
    pub aligned : va % 4096 ≡ 0
    pub va_fits : va + n * 4096 ≤ 2 ^ 32
    pub pa_fits : pa + n * 4096 ≤ 2 ^ 32
    pub reach : va + n * 4096 ≤ (last + 1) * 2 ^ 22
    pub not_exempt : (vb : ℕ) → va ≤ vb → vb < va + n * 4096 → pdx vb ≢ exempt

  map_none :
      (s : Kernel) (va pa : ℕ) (xs : List ℕ)
      → IsDirectory s d exempt xs
      → IsPool s xs
      → Mapped s s 0 va pa xs
  unfolding map_pages
  map_none s va pa xs wf pool = record {
    run = refl;
    directory = wf;
    pool = pool;
    mapped = λ k lt. absurd (omega arith);
    others = λ vb a b c. refl;
    own = λ lt. refl;
    left = λ k e. absurd (omega arith);
  }

  map_one :
      (s s' : Kernel) (va pa : ℕ) (ys : List ℕ)
      → Round s s' va pa ys
      → va % 4096 ≡ 0
      → Mapped s s' 1 va pa ys
  map_one s s' va pa ys r aligned = record {
    run =
        r.step 0
        ∙ (map_none s' ((va + pgsize) % 2 ^ 32) ((pa + pgsize) % 2 ^ 32) ys r.directory r.pool).run;
    directory = r.directory;
    pool = r.pool;
    mapped = λ k lt.
        let va0 : va + k * 4096 ≡ va = omega arith in
        let pa0 : pa + k * 4096 ≡ pa = omega arith in rw (va0, pa0) r.here;
    others = λ vb fits out away. r.others vb fits out (elim away [
      | inl low ↦ λ e. absurd (omega (arith, low))
      | inr high ↦ λ e. absurd (omega (arith, high))
    ]);
    own = r.own;
    left = λ k e. let va0 : va + k * 4096 ≡ va = omega arith in rw va0 r.enough;
  }

  map_more :
      (s s1 s' : Kernel) (n va pa : ℕ) (ys zs : List ℕ)
      → Round s s1 va pa ys
      → Mapped s1 s' (suc n) (va + 4096) (pa + 4096) zs
      → IsRegion (suc (suc n)) va pa
      → Mapped s s' (suc (suc n)) va pa zs
  map_more s s1 s' n va pa ys zs r m region =
      let va1 : (va + pgsize) % 2 ^ 32 ≡ va + 4096 = omega (arith, region.va_fits) in
      let pa1 : (pa + pgsize) % 2 ^ 32 ≡ pa + 4096 = omega (arith, region.pa_fits) in
      record {
        run = r.step (suc n) ∙ rw (va1, pa1) m.run;
        directory = m.directory;
        pool = m.pool;
        mapped = λ k lt. page k lt;
        others = λ vb fits out away.
            m.others vb fits out
              (elim away [ inl low ↦ inl (omega arith) | inr high ↦ inr (omega arith) ])
            ∙ r.others vb fits out (elim away [
              | inl low ↦ λ e. absurd (omega (arith, low, region.aligned))
              | inr high ↦ λ e. absurd (omega (arith, high))
            ]);
        own = λ lt. m.own lt ∙ r.own lt;
        left = λ k e. behind k e;
      }
    where
      page : (k : ℕ) → k < suc (suc n) → word s' d (va + k * 4096) ≡ entry_for (pa + k * 4096)
      page zero lt =
          let va0 : va + 0 * 4096 ≡ va = omega arith in
          let pa0 : pa + 0 * 4096 ≡ pa = omega arith in
          rw (va0, pa0)
            (m.others va (omega (arith, region.va_fits))
                (region.not_exempt va (omega arith) (omega arith)) (inl (omega arith))
              ∙ r.here)
      page (suc k) lt =
          let va0 : va + suc k * 4096 ≡ va + 4096 + k * 4096 = omega arith in
          let pa0 : pa + suc k * 4096 ≡ pa + 4096 + k * 4096 = omega arith in
          rw (va0, pa0) (m.mapped k (omega arith))

      behind : (k : ℕ) → suc k ≡ suc (suc n) → last ≤ pdx (va + k * 4096) + length zs
      behind zero e = absurd (omega arith)
      behind (suc k) e =
          let va0 : va + suc k * 4096 ≡ va + 4096 + k * 4096 = omega arith in
          rw va0 (m.left k (omega arith))

  Round-Enough :
      (s s' : Kernel) (va pa : ℕ) (ys : List ℕ)
      → Round s s' va pa ys
      → va + 4096 < 2 ^ 32
      → Enough s' d (va + 4096) last ys
  Round-Enough s s' va pa ys r fits = elim (Bool-cases (pdx (va + 4096) == pdx va)) [
    | inl same ↦
        let at : pdx (va + 4096) ≡ pdx va = (==_iff (pdx (va + 4096)) (pdx va)).0 same in
        inr (rw at r.present, rw at r.enough)
    | inr other ↦
        let ne : pdx (va + 4096) ≢ pdx va = ground arith in
        let next : pdx (va + 4096) ≡ pdx va + 1 = omega arith in
        inl (rw next (omega (arith, r.enough)))
  ]

  pub map_pages-Mapped :
      (n va pa : ℕ) (xs : List ℕ) (s : Kernel)
      → IsRegion n va pa
      → IsDirectory s d exempt xs
      → IsPool s xs
      → Enough s d va last xs
      → (s' : Kernel) × (ys : List ℕ) × Mapped s s' n va pa ys
  map_pages-Mapped zero va pa xs s region wf pool enough = (s, xs, map_none s va pa xs wf pool)
  map_pages-Mapped (suc zero) va pa xs s region wf pool enough =
      let (s1, ys, r) =
        round s va pa xs wf pool (omega (arith, region.va_fits))
          (region.not_exempt va (omega arith) (omega arith)) (omega (arith, region.reach)) enough in
      (s1, ys, map_one s s1 va pa ys r region.aligned)
  map_pages-Mapped (suc (suc n)) va pa xs s region wf pool enough =
      let (s1, ys, r) =
        round s va pa xs wf pool (omega (arith, region.va_fits))
          (region.not_exempt va (omega arith) (omega arith)) (omega (arith, region.reach)) enough in
      let rest : IsRegion (suc n) (va + 4096) (pa + 4096) = record {
        aligned = omega (arith, region.aligned);
        va_fits = omega (arith, region.va_fits);
        pa_fits = omega (arith, region.pa_fits);
        reach = omega (arith, region.reach);
        not_exempt = λ vb lo hi. region.not_exempt vb (omega arith) (omega arith);
      } in
      let (s2, zs, m) =
        map_pages-Mapped (suc n) (va + 4096) (pa + 4096) ys s1 rest r.directory r.pool
          (Round-Enough s s1 va pa ys r (omega (arith, region.va_fits))) in
      (s2, zs, map_more s s1 s2 n va pa ys zs r m region)
