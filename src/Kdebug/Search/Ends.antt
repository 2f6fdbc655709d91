-- ===== src/Kdebug/Search/Ends.antt =====
-- stab_binsearch ends: each round makes the range smaller, or finds the address at its lower end and looks for the next.
use mit6_828_lab.Base.{
  ℕ, zero, suc, ◌+◌, ◌-◌, ◌*◌, ◌/◌, ◌%◌, ◌^◌, ◌≤◌, ◌<◌, ◌≡◌, inl, inr, refl, true, false, some,
  arith, ltb, leb, ◌==◌, if◌then◌else◌, Bool-cases,
}
use mit6_828_lab.Kdebug.Search.{Stab, Search, earliest, compare_at, search_round, search_loop}
use mit6_828_lab.Kdebug.Search.Earliest.{Earliest, earliest-Earliest}

module _ (stabs : ℕ → Stab) (type : ℕ) where
  -- Two for each index left, and one if the address is found at the lower end.
  measure : Search → ℕ
  measure s = 2 * (s.end - s.l) + (if (stabs s.l).n_value == s.addr then 1 else 0)

  compare_at-measure :
      (s : Search) (m : ℕ)
      → s.l < s.end
      → s.l ≤ m
      → m ≤ (s.l + s.end - 1) / 2
      → measure (compare_at stabs m s) < measure s
  unfolding compare_at measure
  compare_at-measure s m going from upto = elim (Bool-cases (ltb (stabs m).n_value s.addr)) [
    | inl less ↦ rw less (ground arith)
    | inr no_less ↦ elim (Bool-cases (ltb s.addr (stabs m).n_value)) [
      | inl more ↦ rw (no_less, more) (ground arith)
      | inr no_more ↦
          let same : (stabs m).n_value ≡ s.addr = ground arith in
          let moved : ((stabs m).n_value == (s.addr + 1) % 2 ^ 32) ≡ false = ground arith in
          elim (Bool-cases (s.l == m)) [
            | inl at_l ↦
                let eq : s.l ≡ m = ground arith in
                let here : ((stabs s.l).n_value == s.addr) ≡ true = rw eq (ground arith) in
                rw (no_less, no_more, moved, here) (omega arith)
            | inr above ↦ rw (no_less, no_more, moved) (ground arith)
          ]
    ]
  ]

  search_round-measure :
      (s : Search) → s.l < s.end → measure (search_round stabs type s) < measure s
  unfolding search_round
  search_round-measure s going =
      let t : ℕ = (s.l + s.end - 1) / 2 in
      let m1 : ℕ = earliest stabs type s.l (t + 1) in
      let found : Earliest stabs type s.l (t + 1) m1 = earliest-Earliest stabs type s.l (t + 1) in
      elim (Bool-cases (leb m1 s.l)) [
        | inl nothing ↦ rw nothing (unfold measure in ground arith)
        | inr something ↦
            rw something
              (compare_at-measure s (m1 - 1) going (ground arith) (omega (arith, found.inside)))
      ]

  search_loop_ends_below :
      (fuel : ℕ) (s : Search)
      → measure s < fuel
      → (s' : Search) × (search_loop stabs fuel type s ≡ some s')
  unfolding search_loop
  search_loop_ends_below zero s h = absurd (omega arith)
  search_loop_ends_below (suc fuel) s h = elim (Bool-cases (ltb s.l s.end)) [
    | inl going ↦
        let less : _ = search_round-measure s (ground arith) in
        rw going (search_loop_ends_below fuel (search_round stabs type s) (omega arith))
    | inr done ↦ (s, rw done refl)
  ]

  pub search_loop_ends :
      (s : Search) → (s' : Search) × (search_loop stabs (2 * (s.end - s.l) + 2) type s ≡ some s')
  search_loop_ends s =
      search_loop_ends_below (2 * (s.end - s.l) + 2) s (unfold measure in ground arith)
