-- ===== src/Pmap/Table/Region/Round.antt =====
-- One round of boot_map_region: the walk, and the write of the entry.
use mit6_828_lab.Base.{
  ℕ, ◌+◌, ◌*◌, ◌/◌, ◌%◌, ◌^◌, ◌<◌, ◌≡◌, ◌≢◌, ◌⊎◌, refl, inl, inr, ap, sym, ◌∙◌, false, Bool-cases,
  List, ◌∷◌, arith, ◌==◌, ==_refl, ==_iff, has,
}
use mit6_828_lab.Mmu.Macros.{pdx}
use mit6_828_lab.Pmap.Kernel.{Kernel, kva_of}
use mit6_828_lab.Pmap.Table.{pde_ptr}
use mit6_828_lab.Pmap.Table.Entry.{IsPresent, table_entry}
use mit6_828_lab.Pmap.Table.Walk.{tabled}
use mit6_828_lab.Pmap.Table.Region.Directory.{dir, entry, entry_none, entry_some, IsDirectory}

-- What adding the table on page `x` at entry `k` does to the directory and to the tables.
pub record Adds (s s' : Kernel) (d k x : ℕ) : Type 0 where
  pub present : IsPresent (dir s' d k)
  pub table : dir s' d k / 2 ^ 12 ≡ x
  pub others : (i : ℕ) → i < 1024 → i ≢ k → dir s' d i ≡ dir s d i
  pub kept :
      (t j : ℕ) → j < 1024 → t ≢ d → t ≢ x → s'.mem (kva_of t + 4 * j) ≡ s.mem (kva_of t + 4 * j)
  pub empty : (j : ℕ) → j < 1024 → s'.mem (kva_of x + 4 * j) ≡ 0
  pub same_npages : s'.npages ≡ s.npages

pub tabled-Adds : (s : Kernel) (d va x : ℕ) → x ≢ d → Adds s (tabled d va x s) d (pdx va) x
tabled-Adds s d va x apart = record {
  present = rw (==_refl (pde_ptr (kva_of d) va)) (table_entry x).0;
  table = rw (==_refl (pde_ptr (kva_of d) va)) (table_entry x).1;
  others = λ i lt ne. ground arith;
  kept = λ t j lt a b. ground arith;
  empty = λ j lt. ground arith;
  same_npages = refl;
}

module _ (s s' : Kernel) (d exempt k x : ℕ) (xs : List ℕ) (wf : IsDirectory s d exempt (x ∷ xs))
    (adds : Adds s s' d k x) (k_in : k < 1024) (absent : dir s d k % 2 ≡ 0)
    (alone : has x xs ≡ false) where
  -- An entry that was present is another one, and is as it was; its table is not the new one.
  old_entry :
      (i : ℕ)
      → i < 1024
      → i ≢ exempt
      → IsPresent (dir s d i)
      → (dir s' d i ≡ dir s d i) × (dir s d i / 2 ^ 12 ≢ x) × (has (dir s d i / 2 ^ 12) xs ≡ false)
  old_entry i lt out here =
      let free = wf.taken i lt out here in
      let ne : i ≢ k = λ e. absurd (omega (arith, here, absent, ap (λ n. dir s d n) e)) in
      (adds.others i lt ne, ground (arith, free), ground (arith, free))

  -- A present entry is the new one or an old one.
  IsPresent-cases :
      (i : ℕ) → i < 1024 → IsPresent (dir s' d i) → (i ≡ k) ⊎ ((i ≢ k) × IsPresent (dir s d i))
  IsPresent-cases i lt here = elim (Bool-cases (i == k)) [
    | inl same ↦ inl ((==_iff i k).0 same)
    | inr other ↦ let ne : i ≢ k = ground arith in inr (ne, rw (← adds.others i lt ne) here)
  ]

  pub Adds-entry : (i j : ℕ) → i < 1024 → j < 1024 → i ≢ exempt → entry s' d i j ≡ entry s d i j
  Adds-entry i j lt lt' out = elim (Bool-cases (dir s d i % 2 == 0)) [
    | inl none_before ↦ elim (Bool-cases (i == k)) [
      | inl same ↦
          let at : i ≡ k = (==_iff i k).0 same in
          entry_some s' d i j x (rw at adds.present) (rw at adds.table)
          ∙ adds.empty j lt'
          ∙ sym (entry_none s d i j (ground arith))
      | inr other ↦
          let before : dir s d i % 2 ≡ 0 = ground arith in
          let old = adds.others i lt (ground arith) in
          entry_none s' d i j (rw old before) ∙ sym (entry_none s d i j before)
    ]
    | inr before ↦
        let here : IsPresent (dir s d i) = ground arith in
        let (old, ne, free) = old_entry i lt out here in
        let t : ℕ = dir s d i / 2 ^ 12 in
        entry_some s' d i j t (rw old here) (rw old refl)
        ∙ adds.kept t j lt' (wf.apart i lt out here) ne
        ∙ sym (entry_some s d i j t here refl)
  ]

  -- The directory stays well-formed, and the new table is no longer free.
  pub Adds-IsDirectory : x < s.npages → x ≢ d → IsDirectory s' d exempt xs
  Adds-IsDirectory lt apart = record {
    in_use = ground (arith, wf.in_use);
    in_range = λ i i_in out here. elim (IsPresent-cases i i_in here) [
      | inl same ↦ rw (same, adds.table, adds.same_npages) lt
      | inr (ne, before) ↦
          rw (adds.others i i_in ne, adds.same_npages) (wf.in_range i i_in out before)
    ];
    apart = λ i i_in out here. elim (IsPresent-cases i i_in here) [
      | inl same ↦ rw (same, adds.table) apart
      | inr (ne, before) ↦ rw (adds.others i i_in ne) (wf.apart i i_in out before)
    ];
    taken = λ i i_in out here. elim (IsPresent-cases i i_in here) [
      | inl same ↦ rw (same, adds.table) alone
      | inr (ne, before) ↦ rw (adds.others i i_in ne) (old_entry i i_in out before).2
    ];
    distinct = λ i j i_in j_in i_out j_out ne i_here j_here. elim (IsPresent-cases i i_in i_here) [
      | inl i_same ↦ elim (IsPresent-cases j j_in j_here) [
        | inl j_same ↦ absurd (ne (i_same ∙ sym j_same))
        | inr (j_ne, j_before) ↦
            rw (i_same, adds.table, adds.others j j_in j_ne)
              (λ e. (old_entry j j_in j_out j_before).1 (sym e))
      ]
      | inr (i_ne, i_before) ↦ elim (IsPresent-cases j j_in j_here) [
        | inl j_same ↦
            rw (j_same, adds.table, adds.others i i_in i_ne) (old_entry i i_in i_out i_before).1
        | inr (j_ne, j_before) ↦
            rw (adds.others i i_in i_ne, adds.others j j_in j_ne)
              (wf.distinct i j i_in j_in i_out j_out ne i_before j_before)
      ]
    ];
    small = rw adds.same_npages wf.small;
  }
