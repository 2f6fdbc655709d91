-- ===== src/Kdebug/Search.antt =====
-- stab_binsearch of kern/kdebug.c. The table is a function of the index. `r`, `m` and `*region_right` can be -1: the fields
-- `end`, `region_end` and the results of the inner loops are these variables plus one.
pub mod Earliest
pub mod Invariant
pub mod Bracket
pub mod Ends
pub mod Range
use mit6_828_lab.Base.{
  ℕ, zero, suc, ◌+◌, ◌-◌, ◌*◌, ◌/◌, ◌%◌, ◌^◌, Bool, true, false, Option, none, some, ◌==◌, ltb, leb,
  if◌then◌else◌,
}

pub record Stab : Type 0 where
  pub n_strx : ℕ
  pub n_type : ℕ
  pub n_other : ℕ
  pub n_desc : ℕ
  pub n_value : ℕ

pub record Search : Type 0 where
  pub l : ℕ
  pub end : ℕ
  pub region_left : ℕ
  pub region_end : ℕ
  pub any_matches : Bool
  pub addr : ℕ

module _ (stabs : ℕ → Stab) where
  -- `while (m >= l && stabs[m].n_type != type) m--;`
  unfoldable pub earliest : (type l : ℕ) → ℕ → ℕ
  earliest type l zero = zero
  earliest type l (suc m) =
      let rest = earliest type l m in
      if ltb m l then suc m else (if (stabs m).n_type == type then suc m else rest)

  -- The search at `m`, where the type is right.
  unfoldable pub compare_at : (m : ℕ) → Search → Search
  compare_at m s =
      if ltb (stabs m).n_value s.addr
      then record s { region_left = m; l = (s.l + s.end - 1) / 2 + 1; any_matches = true }
      else (if ltb s.addr (stabs m).n_value
          then record s { region_end = m; end = m; any_matches = true }
          else record s {
            region_left = m;
            l = m;
            addr = (s.addr + 1) % 2 ^ 32;
            any_matches = true;
          })

  -- One round, with `true_m`.
  unfoldable pub search_round : (type : ℕ) → Search → Search
  search_round type s =
      let true_m = (s.l + s.end - 1) / 2 in
      let m1 = earliest type s.l (true_m + 1) in
      if leb m1 s.l then record s { l = true_m + 1 } else compare_at (m1 - 1) s

  unfoldable pub search_loop : (fuel type : ℕ) → Search → Option Search
  search_loop zero type s = none
  search_loop (suc fuel) type s =
      let rest = search_loop fuel type (search_round type s) in
      if ltb s.l s.end then rest else some s

  -- `for (l = *region_right; l > *region_left && stabs[l].n_type != type; l--);`
  unfoldable pub rightmost : (type left : ℕ) → ℕ → ℕ
  rightmost type left zero = zero
  rightmost type left (suc l) =
      let rest = rightmost type left l in
      if leb l left then suc l else (if (stabs l).n_type == type then suc l else rest)

  -- What follows the loop: `*region_left` and `*region_right`, both plus one.
  unfoldable pub finish_search : (type : ℕ) → Search → ℕ × ℕ
  finish_search type s =
      if s.any_matches
      then (rightmost type s.region_left s.region_end, s.region_end)
      else (s.region_left + 1, s.region_left)

  -- Two rounds for each index, one for an exact match at the end, and the one in which the loop ends are enough.
  unfoldable pub stab_binsearch : (left end type addr : ℕ) → Option (ℕ × ℕ)
  stab_binsearch left end type addr =
      elim (search_loop (2 * (end - left) + 2) type (record {
        l = left;
        end = end;
        region_left = left;
        region_end = end;
        any_matches = false;
        addr = addr;
      })) [ none ↦ none | some s ↦ some (finish_search type s) ]
