-- ===== src/Pmap/Table/Region/Directory.antt =====
-- A well-formed page directory, and the entry that it has for each address.
use mit6_828_lab.Base.{
  ℕ, ◌+◌, ◌*◌, ◌/◌, ◌%◌, ◌^◌, ◌≤◌, ◌<◌, ◌≡◌, ◌≢◌, refl, inl, inr, ap, ◌∙◌, false, Bool-cases, List,
  arith, ◌==◌, has, if◌then◌else◌,
}
use mit6_828_lab.Mmu.Macros.{pdx, ptx, pte_addr}
use mit6_828_lab.Pmap.Kernel.{Kernel, ok, ◌>>=◌, kva_of, kaddr_lem}
use mit6_828_lab.Pmap.Table.{pte_ptr, check_va2pa, no_pa}
use mit6_828_lab.Pmap.Table.Entry.{IsPresent, present_test, absent_test}
use mit6_828_lab.Pmap.Table.Walk.{pde, HasTable}

-- Entry `i` of the directory on page `d`.
abbrev pub dir : Kernel → ℕ → ℕ → ℕ
dir s d i = s.mem (kva_of d + 4 * i)

-- Each present entry but `exempt` names a table page of its own, which is another page than the directory's and is not
-- free. (The kernel's directory is its own table at one entry.)
pub record IsDirectory (s : Kernel) (d exempt : ℕ) (xs : List ℕ) : Type 0 where
  pub in_use : has d xs ≡ false
  pub in_range :
      (i : ℕ) → i < 1024 → i ≢ exempt → IsPresent (dir s d i) → dir s d i / 2 ^ 12 < s.npages
  pub apart : (i : ℕ) → i < 1024 → i ≢ exempt → IsPresent (dir s d i) → dir s d i / 2 ^ 12 ≢ d
  pub taken :
      (i : ℕ) → i < 1024 → i ≢ exempt → IsPresent (dir s d i) → has (dir s d i / 2 ^ 12) xs ≡ false
  pub distinct :
      (i j : ℕ)
      → i < 1024
      → j < 1024
      → i ≢ exempt
      → j ≢ exempt
      → i ≢ j
      → IsPresent (dir s d i)
      → IsPresent (dir s d j)
      → dir s d i / 2 ^ 12 ≢ dir s d j / 2 ^ 12
  pub small : s.npages ≤ 2 ^ 16

-- Entry `j` of the table at directory entry `i`, and 0 where there is no table.
abbrev pub entry : Kernel → ℕ → ℕ → ℕ → ℕ
entry s d i j = if dir s d i % 2 == 0 then 0 else s.mem (kva_of (dir s d i / 2 ^ 12) + 4 * j)

pub entry_none : (s : Kernel) (d i j : ℕ) → dir s d i % 2 ≡ 0 → entry s d i j ≡ 0
entry_none s d i j absent = rw absent refl

pub entry_some :
    (s : Kernel) (d i j t : ℕ)
    → IsPresent (dir s d i)
    → dir s d i / 2 ^ 12 ≡ t
    → entry s d i j ≡ s.mem (kva_of t + 4 * j)
entry_some s d i j t here table = rw (here, table) refl

-- The entry of an address.
abbrev pub word : Kernel → ℕ → ℕ → ℕ
word s d va = entry s d (pdx va) (ptx va)

pub directory-HasTable :
    (s : Kernel) (d exempt va : ℕ) (xs : List ℕ)
    → IsDirectory s d exempt xs
    → pdx va ≢ exempt
    → IsPresent (pde s d va)
    → HasTable s d va (pde s d va / 2 ^ 12)
directory-HasTable s d exempt va xs wf out here = record {
  present = here;
  table = refl;
  in_range = wf.in_range (pdx va) (omega arith) out here;
  apart = wf.apart (pdx va) (omega arith) out here;
}

-- The same page reads the same entry.
pub word-page : (s : Kernel) (d va vb : ℕ) → va / 4096 ≡ vb / 4096 → word s d va ≡ word s d vb
word-page s d va vb same =
    let dirs : pdx va ≡ pdx vb = omega arith in
    let tables : ptx va ≡ ptx vb = omega arith in
    ap (λ i. entry s d i (ptx va)) dirs ∙ ap (λ j. entry s d (pdx vb) j) tables

-- check_va2pa reads this entry.
pub check_va2pa-word :
    (s : Kernel) (d exempt va : ℕ) (xs : List ℕ)
    → IsDirectory s d exempt xs
    → pdx va ≢ exempt
    → check_va2pa (kva_of d) va s
      ≡ ok (if word s d va % 2 == 0 then no_pa else pte_addr (word s d va)) s
unfolding check_va2pa
check_va2pa-word s d exempt va xs wf out = elim (Bool-cases (pde s d va % 2 == 0)) [
  | inl absent ↦ rw (absent_test (pde s d va) (ground arith), absent) refl
  | inr present ↦
      let here : IsPresent (pde s d va) = ground arith in
      let h = directory-HasTable s d exempt va xs wf out here in
      let t : ℕ = pde s d va / 2 ^ 12 in
      let addr : pte_addr (pde s d va) ≡ t * 4096 = omega arith in
      let page : t * 4096 / 2 ^ 12 ≡ t = omega arith in
      let lookup = kaddr_lem (t * 4096) s (rw page h.in_range) wf.small in
      elim (Bool-cases (s.mem (pte_ptr (kva_of t) va) % 2 == 0)) [
        | inl unmapped ↦
            rw
              (
                present_test (pde s d va) here,
                present,
                addr,
                lookup,
                ◌>>=◌,
                absent_test (s.mem (pte_ptr (kva_of t) va)) (ground arith),
                unmapped,
              )
              refl
        | inr mapped ↦
            rw
              (
                present_test (pde s d va) here,
                present,
                addr,
                lookup,
                ◌>>=◌,
                present_test (s.mem (pte_ptr (kva_of t) va)) (ground arith),
                mapped,
              )
              refl
      ]
]
