-- ===== src/Kdebug/Search/Range.antt =====
-- stab_binsearch stays inside its region, whatever the table holds.
use mit6_828_lab.Base.{
  ℕ, zero, suc, ◌+◌, ◌-◌, ◌*◌, ◌/◌, ◌≤◌, ◌<◌, ◌≡◌, inl, inr, refl, false, some, arith, ltb, leb,
  ◌==◌, Bool-cases,
}
use mit6_828_lab.Kdebug.Search.{
  Stab, Search, earliest, compare_at, search_round, search_loop, rightmost, finish_search,
  stab_binsearch,
}
use mit6_828_lab.Kdebug.Search.Earliest.{Earliest, earliest-Earliest}
use mit6_828_lab.Kdebug.Search.Ends.{search_loop_ends}

module _ (stabs : ℕ → Stab) (type left end : ℕ) where
  record Inside (s : Search) : Type 0 where
    l_from : left ≤ s.l
    range : s.l ≤ s.end
    end_upto : s.end ≤ end
    region_from : left ≤ s.region_left
    region_upto : s.region_left ≤ end
    region : s.region_end ≡ s.end

  search_round-Inside : (s : Search) → Inside s → s.l < s.end → Inside (search_round stabs type s)
  unfolding search_round compare_at
  search_round-Inside s v going =
      let t : ℕ = (s.l + s.end - 1) / 2 in
      let m1 : ℕ = earliest stabs type s.l (t + 1) in
      let found : Earliest stabs type s.l (t + 1) m1 = earliest-Earliest stabs type s.l (t + 1) in
      elim (Bool-cases (leb m1 s.l)) [
        | inl nothing ↦ rw nothing (ground (arith, v.l_from, v.range, v.end_upto))
        | inr something ↦
            let from : s.l ≤ m1 - 1 = ground arith in
            let upto : m1 - 1 ≤ t = omega (arith, found.inside) in
            rw something (ground (arith, v.l_from, v.range, v.end_upto))
      ]

  search_loop-Inside :
      (fuel : ℕ) (s s' : Search) → Inside s → search_loop stabs fuel type s ≡ some s' → Inside s'
  unfolding search_loop
  search_loop-Inside zero s s' v e = absurd (ground arith)
  search_loop-Inside (suc fuel) s s' v e = elim (Bool-cases (ltb s.l s.end)) [
    | inl going ↦
        search_loop-Inside fuel (search_round stabs type s) s'
          (search_round-Inside s v (ground arith)) (rw going at e)
    | inr done ↦ let same : s ≡ s' = ground arith in rw (← same) v
  ]

  rightmost_bounds :
      (from e : ℕ)
      → left ≤ from
      → from ≤ end
      → left ≤ e
      → e ≤ end
      → (left ≤ rightmost stabs type from e) × (rightmost stabs type from e ≤ end)
  unfolding rightmost
  rightmost_bounds from zero a b c d = (omega arith, omega arith)
  rightmost_bounds from (suc l) a b c d = elim (Bool-cases (leb l from)) [
    | inl low ↦ rw low (omega arith, omega arith)
    | inr high ↦ elim (Bool-cases ((stabs l).n_type == type)) [
      | inl same ↦ rw (high, same) (omega arith, omega arith)
      | inr other ↦ rw (high, other) (rightmost_bounds from l a b (ground arith) (omega arith))
    ]
  ]

  -- stab_binsearch ends on every table, and both its results are in range: `*region_left` is at least one below its old value
  -- and `*region_right` not above its own. (Both results are one more.)
  pub stab_binsearch_bounds :
      (addr : ℕ)
      → left ≤ end
      → (l1 : ℕ) × (e : ℕ) × (stab_binsearch stabs left end type addr ≡ some (l1, e))
        × (left ≤ l1)
        × (l1 ≤ end + 1)
        × (left ≤ e)
        × (e ≤ end)
  unfolding stab_binsearch finish_search
  stab_binsearch_bounds addr h =
      let start : Search = record {
        l = left;
        end = end;
        region_left = left;
        region_end = end;
        any_matches = false;
        addr = addr;
      } in
      let (s, returned) = search_loop_ends stabs type start in
      let v : Inside s = search_loop-Inside (2 * (end - left) + 2) start s (omega arith) returned in
      let (lo, hi) =
        rightmost_bounds s.region_left s.region_end v.region_from v.region_upto
          (omega (arith, v.region)) (omega (arith, v.region)) in
      elim (Bool-cases s.any_matches) [
        | inl matched ↦ (
          rightmost stabs type s.region_left s.region_end,
          s.region_end,
          rw (stab_binsearch, returned, matched) refl,
          lo,
          omega arith,
          omega (arith, v.region),
          omega (arith, v.region),
        )
        | inr unmatched ↦ (
          s.region_left + 1,
          s.region_left,
          rw (stab_binsearch, returned, unmatched) refl,
          omega (arith, v.region_from),
          omega (arith, v.region_upto),
          v.region_from,
          v.region_upto,
        )
      ]
