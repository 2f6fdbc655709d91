-- ===== src/Pmap/Table/Region/Walked.antt =====
-- The walk of a round of boot_map_region: it finds the table or takes a page for it.
use mit6_828_lab.Base.{
  ℕ, ◌+◌, ◌/◌, ◌%◌, ◌^◌, ◌≤◌, ◌<◌, ◌≡◌, ◌≢◌, ◌⊎◌, refl, sym, inl, inr, true, Bool-cases, some, List,
  [], ◌∷◌, arith, ◌==◌, length,
}
use mit6_828_lab.Mmu.Macros.{pdx}
use mit6_828_lab.Pmap.Kernel.{Kernel, ok, kva_of}
use mit6_828_lab.Pmap.Alloc.Pool.{IsPool}
use mit6_828_lab.Pmap.Table.{pte_ptr, pgdir_walk}
use mit6_828_lab.Pmap.Table.Entry.{IsPresent}
use mit6_828_lab.Pmap.Table.Walk.{tabled, pgdir_walk-HasTable, pgdir_walk-create}
use mit6_828_lab.Pmap.Table.Region.Directory.{dir, entry, IsDirectory, directory-HasTable}
use mit6_828_lab.Pmap.Table.Region.Round.{Adds, tabled-Adds, Adds-entry, Adds-IsDirectory}

pub record Walked (s s' : Kernel) (d exempt va t : ℕ) (ys : List ℕ) : Type 0 where
  pub run : pgdir_walk (kva_of d) va true s ≡ ok (some (pte_ptr (kva_of t) va)) s'
  pub present : IsPresent (dir s' d (pdx va))
  pub table : dir s' d (pdx va) / 2 ^ 12 ≡ t
  pub directory : IsDirectory s' d exempt ys
  pub pool : IsPool s' ys
  pub same : (i j : ℕ) → i < 1024 → j < 1024 → i ≢ exempt → entry s' d i j ≡ entry s d i j
  pub own : exempt < 1024 → dir s' d exempt ≡ dir s d exempt
  pub same_npages : s'.npages ≡ s.npages

-- There are pages for the tables from that of `va` to that of directory entry `last`, the first of which may be there.
abbrev pub Enough : Kernel → (d va last : ℕ) → List ℕ → Type 0
Enough s d va last xs =
    (last < pdx va + length xs) ⊎ (IsPresent (dir s d (pdx va)) × (last ≤ pdx va + length xs))

-- After the walk there are pages for the tables behind that of `va`.
abbrev pub Walks : Kernel → (d exempt va last : ℕ) → Type 0
Walks s d exempt va last =
    (s' : Kernel) × (t : ℕ) × (ys : List ℕ) × Walked s s' d exempt va t ys
    × (last ≤ pdx va + length ys)

module _ (s : Kernel) (d exempt va last : ℕ) (out : pdx va ≢ exempt) where
  walk_found :
      (xs : List ℕ)
      → IsDirectory s d exempt xs
      → IsPool s xs
      → IsPresent (dir s d (pdx va))
      → last ≤ pdx va + length xs
      → Walks s d exempt va last
  walk_found xs wf pool here enough = (
    s,
    dir s d (pdx va) / 2 ^ 12,
    xs,
    record {
      run =
          pgdir_walk-HasTable d va (dir s d (pdx va) / 2 ^ 12) true s
            (directory-HasTable s d exempt va xs wf out here) wf.small;
      present = here;
      table = refl;
      directory = wf;
      pool = pool;
      same = λ i j a b c. refl;
      own = λ lt. refl;
      same_npages = refl;
    },
    enough,
  )

  walk_added :
      (x : ℕ) (xs : List ℕ)
      → IsDirectory s d exempt (x ∷ xs)
      → IsPool s (x ∷ xs)
      → dir s d (pdx va) % 2 ≡ 0
      → last ≤ pdx va + length xs
      → Walks s d exempt va last
  walk_added x xs wf pool absent enough =
      let apart : x ≢ d = ground (arith, wf.in_use) in
      let adds : Adds s (tabled d va x s) d (pdx va) x = tabled-Adds s d va x apart in
      let created = pgdir_walk-create d va (x ∷ xs) s pool wf.in_use absent in
      let in_dir : pdx va < 1024 = omega arith in
      (
        tabled d va x s,
        x,
        xs,
        record {
          run = created.0;
          present = adds.present;
          table = adds.table;
          directory =
              Adds-IsDirectory s (tabled d va x s) d exempt (pdx va) x xs wf adds in_dir absent
                pool.chain.3 pool.chain.1 apart;
          pool = created.1;
          same =
              Adds-entry s (tabled d va x s) d exempt (pdx va) x xs wf adds in_dir absent
                pool.chain.3;
          own = λ lt. adds.others exempt lt (λ e. out (sym e));
          same_npages = refl;
        },
        enough,
      )

  pub walks :
      (xs : List ℕ)
      → IsDirectory s d exempt xs
      → IsPool s xs
      → pdx va ≤ last
      → Enough s d va last xs
      → Walks s d exempt va last
  walks xs wf pool reach enough = elim (Bool-cases (dir s d (pdx va) % 2 == 0)) [
    | inr found ↦
        walk_found xs wf pool (ground arith)
          (elim enough [ inl more ↦ omega arith | inr (here, fits) ↦ fits ])
    | inl absent ↦
        walk_absent xs wf pool (ground arith) reach (elim enough [
          | inl more ↦ more
          | inr (here, fits) ↦ absurd (ground (arith, here, absent))
        ])
  ]
    where
      walk_absent :
          (ys : List ℕ)
          → IsDirectory s d exempt ys
          → IsPool s ys
          → dir s d (pdx va) % 2 ≡ 0
          → pdx va ≤ last
          → last < pdx va + length ys
          → Walks s d exempt va last
      walk_absent [] wf' pool' absent reach' more = absurd (omega arith)
      walk_absent (x ∷ ys) wf' pool' absent reach' more =
          walk_added x ys wf' pool' absent (omega arith)
