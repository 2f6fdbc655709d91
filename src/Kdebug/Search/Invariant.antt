-- ===== src/Kdebug/Search/Invariant.antt =====
-- The invariant of the outer loop of stab_binsearch, on stabs of the type in increasing order.
use mit6_828_lab.Base.{
  ℕ, ◌+◌, ◌^◌, ◌≤◌, ◌<◌, ◌≡◌, ◌≢◌, ◌⊎◌, inl, inr, refl, true, false, arith, lt_or_ge,
}
use mit6_828_lab.Kdebug.Search.{Stab, Search}
use mit6_828_lab.Kdebug.Search.Earliest.{Typed}

-- The stabs of the type in [left, end) stand in the order of their values, and none has the value `addr + 1`.
pub record IsSearchable (stabs : ℕ → Stab) (type left end addr : ℕ) : Type 0 where
  pub ordered : left ≤ end
  pub sorted :
      (i j : ℕ)
      → left ≤ i
      → i < j
      → j < end
      → Typed stabs type i
      → Typed stabs type j
      → (stabs i).n_value ≤ (stabs j).n_value
  pub apart : (j : ℕ) → left ≤ j → j < end → Typed stabs type j → (stabs j).n_value ≢ addr + 1
  pub small : addr + 1 < 2 ^ 32

module _ (stabs : ℕ → Stab) (type left end addr : ℕ) where
  -- No stab of the type is seen below the search's range; none above means that none is seen at all.
  pub record NoLeft (s : Search) : Type 0 where
    pub start : s.region_left ≡ left
    pub nothing : (j : ℕ) → left ≤ j → j < s.l → ¬ Typed stabs type j
    pub matched :
        ((s.any_matches ≡ true) × (s.end < end)) ⊎ ((s.any_matches ≡ false) × (s.end ≡ end))

  -- `region_left` is the last one seen below the range.
  pub record HasLeft (s : Search) : Type 0 where
    pub from : left ≤ s.region_left
    pub upto : s.region_left ≤ s.l
    pub before : s.region_left < s.end
    pub typed : Typed stabs type s.region_left
    pub low : (stabs s.region_left).n_value ≤ addr
    pub last : (j : ℕ) → s.region_left < j → j < s.l → ¬ Typed stabs type j
    pub matched : s.any_matches ≡ true

  pub record Inv (s : Search) : Type 0 where
    pub l_from : left ≤ s.l
    pub range : s.l ≤ s.end
    pub end_upto : s.end ≤ end
    pub region : s.region_end ≡ s.end
    pub searched : (s.addr ≡ addr) ⊎ (s.addr ≡ addr + 1)
    pub below : (j : ℕ) → left ≤ j → j < s.l → Typed stabs type j → (stabs j).n_value ≤ addr
    pub above : (j : ℕ) → s.end ≤ j → j < end → Typed stabs type j → addr < (stabs j).n_value
    pub end_typed : (s.end ≡ end) ⊎ Typed stabs type s.end
    pub lefts : NoLeft s ⊎ HasLeft s

  module _ (ok : IsSearchable stabs type left end addr) (s : Search) (inv : Inv s)
      (going : s.l < s.end) where
    -- The round finds no stab of the type in [l, true_m].
    pub skip-Inv :
        (t : ℕ)
        → s.l ≤ t
        → t < s.end
        → ((j : ℕ) → s.l ≤ j → j < t + 1 → ¬ Typed stabs type j)
        → Inv (record s { l = t + 1 })
    skip-Inv t lo hi absent = record {
      l_from = omega (arith, inv.l_from);
      range = omega arith;
      end_upto = inv.end_upto;
      region = inv.region;
      searched = inv.searched;
      below = λ j a b typed. elim (lt_or_ge j s.l) [
        | inl seen ↦ inv.below j a seen typed
        | inr new ↦ absurd (absent j new b typed)
      ];
      above = inv.above;
      end_typed = inv.end_typed;
      lefts = elim inv.lefts [
        | inl no_left ↦ inl (record {
          start = no_left.start;
          nothing = λ j a b typed. elim (lt_or_ge j s.l) [
            | inl seen ↦ no_left.nothing j a seen typed
            | inr new ↦ absent j new b typed
          ];
          matched = no_left.matched;
        })
        | inr has_left ↦ inr (record {
          from = has_left.from;
          upto = omega (arith, has_left.upto);
          before = has_left.before;
          typed = has_left.typed;
          low = has_left.low;
          last = λ j a b typed. elim (lt_or_ge j s.l) [
            | inl seen ↦ has_left.last j a seen typed
            | inr new ↦ absent j new b typed
          ];
          matched = has_left.matched;
        })
      ];
    }

    -- The round compares at `m`, the last of the type in [l, true_m].
    module _ (t m : ℕ) (hi : t < s.end) (m_from : s.l ≤ m) (m_upto : m ≤ t)
        (typed_m : Typed stabs type m)
        (absent : (j : ℕ) → m < j → j < t + 1 → ¬ Typed stabs type j) where
      -- What stands before `m` is at most `addr`, if `m` is.
      below_m :
          (stabs m).n_value ≤ addr
          → (j : ℕ) → left ≤ j
          → j < t + 1
          → Typed stabs type j
          → (stabs j).n_value ≤ addr
      below_m low j a b typed = elim (lt_or_ge j m) [
        | inl before ↦
            let in_order : _ = ok.sorted j m a before (omega (arith, inv.end_upto)) typed typed_m in
            omega arith
        | inr from ↦ elim (lt_or_ge m j) [
          | inl after ↦ absurd (absent j after b typed)
          | inr same ↦ let eq : j ≡ m = omega arith in rw eq low
        ]
      ]

      pub left_at-Inv :
          (l' addr' : ℕ)
          → (stabs m).n_value ≤ addr
          → m ≤ l'
          → l' ≤ t + 1
          → (addr' ≡ addr) ⊎ (addr' ≡ addr + 1)
          → Inv (record s { region_left = m; l = l'; any_matches = true; addr = addr' })
      left_at-Inv l' addr' low lo up searched = record {
        l_from = omega (arith, inv.l_from);
        range = omega arith;
        end_upto = inv.end_upto;
        region = inv.region;
        searched = searched;
        below = λ j a b typed. below_m low j a (omega arith) typed;
        above = inv.above;
        end_typed = inv.end_typed;
        lefts = inr (record {
          from = omega (arith, inv.l_from);
          upto = lo;
          before = omega arith;
          typed = typed_m;
          low = low;
          last = λ j a b. absent j a (omega arith);
          matched = refl;
        });
      }

      pub end_at-Inv :
          addr < (stabs m).n_value → Inv (record s { region_end = m; end = m; any_matches = true })
      end_at-Inv high = record {
        l_from = inv.l_from;
        range = m_from;
        end_upto = omega (arith, inv.end_upto);
        region = refl;
        searched = inv.searched;
        below = inv.below;
        above = λ j a b typed. elim (lt_or_ge m j) [
          | inl after ↦
              let in_order : _ = ok.sorted m j (omega (arith, inv.l_from)) after b typed_m typed in
              omega arith
          | inr same ↦ let eq : j ≡ m = omega arith in rw eq high
        ];
        end_typed = inr typed_m;
        lefts = elim inv.lefts [
          | inl no_left ↦ inl (record {
            start = no_left.start;
            nothing = no_left.nothing;
            matched = inl (refl, omega (arith, inv.end_upto));
          })
          | inr has_left ↦ inr (record {
            from = has_left.from;
            upto = has_left.upto;
            before = elim (lt_or_ge s.region_left m) [
              | inl less ↦ less
              | inr same ↦
                  let eq : s.region_left ≡ m = omega (arith, has_left.upto) in
                  let low : (stabs m).n_value ≤ addr = rw (← eq) has_left.low in
                  absurd (omega arith)
            ];
            typed = has_left.typed;
            low = has_left.low;
            last = has_left.last;
            matched = refl;
          })
        ];
      }
