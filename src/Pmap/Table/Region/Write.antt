-- ===== src/Pmap/Table/Region/Write.antt =====
-- The write of a round of boot_map_region: one entry of one table.
use mit6_828_lab.Base.{
  ℕ, ◌+◌, ◌*◌, ◌/◌, ◌%◌, ◌^◌, ◌<◌, ◌≡◌, ◌≢◌, ◌⊎◌, refl, inl, inr, ap, sym, ◌∙◌, Bool-cases, List,
  arith, ◌==◌, ==_refl, ==_iff, if◌then◌else◌,
}
use mit6_828_lab.Pmap.Kernel.{Kernel, kva_of}
use mit6_828_lab.Pmap.Table.Entry.{IsPresent}
use mit6_828_lab.Pmap.Table.Region.Directory.{dir, entry, entry_none, entry_some, IsDirectory}

-- Entry `j` of the table on page `t` is written.
abbrev pub written : Kernel → (t j w : ℕ) → Kernel
written s t j w = record s { mem = λ a. if kva_of t + 4 * j == a then w else s.mem a }

mem-written_other :
    (s : Kernel) (t j w u i : ℕ)
    → j < 1024
    → i < 1024
    → t ≢ u
    → (written s t j w).mem (kva_of u + 4 * i) ≡ s.mem (kva_of u + 4 * i)
mem-written_other s t j w u i lt lt' ne = ground arith

mem-written_same :
    (s : Kernel) (t j w i : ℕ)
    → i ≢ j
    → (written s t j w).mem (kva_of t + 4 * i) ≡ s.mem (kva_of t + 4 * i)
mem-written_same s t j w i ne = ground arith

module _ (s : Kernel) (d exempt k j w t : ℕ) (xs : List ℕ) (wf : IsDirectory s d exempt xs)
    (k_in : k < 1024) (j_in : j < 1024) (out : k ≢ exempt) (here : IsPresent (dir s d k))
    (table : dir s d k / 2 ^ 12 ≡ t) where
  not_directory : t ≢ d
  not_directory = λ e. wf.apart k k_in out here (table ∙ e)

  pub dir-written : (i : ℕ) → i < 1024 → dir (written s t j w) d i ≡ dir s d i
  dir-written i lt = mem-written_other s t j w d i j_in lt not_directory

  pub written-IsDirectory : IsDirectory (written s t j w) d exempt xs
  written-IsDirectory = record {
    in_use = wf.in_use;
    in_range = λ i lt o p. rw (dir-written i lt) (wf.in_range i lt o (rw (← dir-written i lt) p));
    apart = λ i lt o p. rw (dir-written i lt) (wf.apart i lt o (rw (← dir-written i lt) p));
    taken = λ i lt o p. rw (dir-written i lt) (wf.taken i lt o (rw (← dir-written i lt) p));
    distinct = λ i i' lt lt' o o' ne p p'.
        rw (dir-written i lt, dir-written i' lt')
          (wf.distinct i i' lt lt' o o' ne (rw (← dir-written i lt) p)
            (rw (← dir-written i' lt') p'));
    small = wf.small;
  }

  pub entry-written : entry (written s t j w) d k j ≡ w
  entry-written =
      entry_some (written s t j w) d k j t (rw (dir-written k k_in) here)
        (rw (dir-written k k_in) table)
      ∙ rw (==_refl (kva_of t + 4 * j)) refl

  pub entry-written_other :
      (i i' : ℕ)
      → i < 1024
      → i' < 1024
      → i ≢ exempt
      → (i ≢ k) ⊎ (i' ≢ j)
      → entry (written s t j w) d i i' ≡ entry s d i i'
  entry-written_other i i' lt lt' i_out ne = elim (Bool-cases (dir s d i % 2 == 0)) [
    | inl absent ↦
        let none_here : dir s d i % 2 ≡ 0 = ground arith in
        entry_none (written s t j w) d i i' (rw (dir-written i lt) none_here)
        ∙ sym (entry_none s d i i' none_here)
    | inr present ↦
        let p : IsPresent (dir s d i) = ground arith in
        let u : ℕ = dir s d i / 2 ^ 12 in
        entry_some (written s t j w) d i i' u (rw (dir-written i lt) p) (rw (dir-written i lt) refl)
        ∙ other u p refl
        ∙ sym (entry_some s d i i' u p refl)
  ]
    where
      other :
          (u : ℕ)
          → IsPresent (dir s d i)
          → dir s d i / 2 ^ 12 ≡ u
          → (written s t j w).mem (kva_of u + 4 * i') ≡ s.mem (kva_of u + 4 * i')
      other u p e = elim (Bool-cases (i == k)) [
        | inl same ↦
            let at : i ≡ k = (==_iff i k).0 same in
            let u_t : u ≡ t = sym e ∙ ap (λ n. dir s d n / 2 ^ 12) at ∙ table in
            rw u_t (
              mem-written_same s t j w i'
                (elim ne [ inl i_ne ↦ absurd (i_ne at) | inr j_ne ↦ j_ne ]))
        | inr away ↦
            mem-written_other s t j w u i' j_in lt'
              (λ t_u. wf.distinct k i k_in lt out i_out (ground arith) here p (table ∙ t_u ∙ sym e))
      ]
