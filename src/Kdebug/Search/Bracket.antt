-- ===== src/Kdebug/Search/Bracket.antt =====
-- What stab_binsearch leaves, on stabs of the type in increasing order.
use mit6_828_lab.Base.{
  ℕ, zero, suc, ◌+◌, ◌-◌, ◌*◌, ◌/◌, ◌%◌, ◌^◌, ◌≤◌, ◌<◌, ◌≡◌, ◌≢◌, ◌⊎◌, inl, inr, refl, ◌∙◌, true,
  false, Option, some, arith, ltb, leb, ◌==◌, Bool-cases, lt_or_ge,
}
use mit6_828_lab.Kdebug.Search.{
  Stab, Search, earliest, compare_at, search_round, search_loop, rightmost, finish_search,
  stab_binsearch,
}
use mit6_828_lab.Kdebug.Search.Earliest.{Typed, Earliest, earliest-Earliest}
use mit6_828_lab.Kdebug.Search.Invariant.{IsSearchable, Inv, skip-Inv, left_at-Inv, end_at-Inv}
use Prim.Native.Nat.{min}
use mit6_828_lab.Kdebug.Search.Ends.{search_loop_ends}

module _ (stabs : ℕ → Stab) (type left end addr : ℕ)
    (ok : IsSearchable stabs type left end addr) where
  compare_at-Inv :
      (s : Search) (m : ℕ)
      → Inv stabs type left end addr s
      → s.l < s.end
      → s.l ≤ m
      → m ≤ (s.l + s.end - 1) / 2
      → Typed stabs type m
      → ((j : ℕ) → m < j → j < (s.l + s.end - 1) / 2 + 1 → ¬ Typed stabs type j)
      → Inv stabs type left end addr (compare_at stabs m s)
  unfolding compare_at
  compare_at-Inv s m inv going from upto typed absent =
      let t : ℕ = (s.l + s.end - 1) / 2 in
      let inside : t < s.end = omega arith in
      elim (Bool-cases (ltb (stabs m).n_value s.addr)) [
        | inl less ↦
            let low : (stabs m).n_value ≤ addr = ground (arith, inv.searched) in
            rw less (
              left_at-Inv stabs type left end addr ok s inv going t m inside from upto typed absent
                (t + 1) s.addr low (omega arith) (omega arith) inv.searched)
        | inr no_less ↦ elim (Bool-cases (ltb s.addr (stabs m).n_value)) [
          | inl more ↦
              let high : addr < (stabs m).n_value = ground (arith, inv.searched) in
              rw (no_less, more)
                (end_at-Inv stabs type left end addr ok s inv going t m inside from upto typed
                  absent high)
          | inr no_more ↦
              let same : (stabs m).n_value ≡ s.addr = ground arith in
              let other : (stabs m).n_value ≢ addr + 1 =
                ok.apart m (omega (arith, inv.l_from)) (omega (arith, inv.end_upto)) typed in
              let exact : s.addr ≡ addr = ground (arith, inv.searched) in
              let next : ((s.addr + 1) % 2 ^ 32 ≡ addr) ⊎ ((s.addr + 1) % 2 ^ 32 ≡ addr + 1) =
                inr (omega (arith, ok.small)) in
              rw (no_less, no_more)
                (left_at-Inv stabs type left end addr ok s inv going t m inside from upto typed
                  absent m ((s.addr + 1) % 2 ^ 32) (omega arith) (omega arith) (omega arith) next)
        ]
      ]

  search_round-Inv :
      (s : Search)
      → Inv stabs type left end addr s
      → s.l < s.end
      → Inv stabs type left end addr (search_round stabs type s)
  unfolding search_round
  search_round-Inv s inv going =
      let t : ℕ = (s.l + s.end - 1) / 2 in
      let m1 : ℕ = earliest stabs type s.l (t + 1) in
      let found : Earliest stabs type s.l (t + 1) m1 = earliest-Earliest stabs type s.l (t + 1) in
      elim (Bool-cases (leb m1 s.l)) [
        | inl nothing ↦ rw nothing (
            skip-Inv stabs type left end addr ok s inv going t (omega arith) (omega arith)
              (λ j a b. found.none_above j (ground arith) a b))
        | inr something ↦
            let above : s.l < m1 = ground arith in
            rw something (
              compare_at-Inv s (m1 - 1) inv going (omega arith) (omega (arith, found.inside))
                (found.typed above) (λ j a b. found.none_above j (omega arith) (omega arith) b))
      ]

  search_loop-Inv :
      (fuel : ℕ) (s s' : Search)
      → Inv stabs type left end addr s
      → search_loop stabs fuel type s ≡ some s'
      → Inv stabs type left end addr s' × (s'.l ≡ s'.end)
  unfolding search_loop
  search_loop-Inv zero s s' inv e = absurd (ground arith)
  search_loop-Inv (suc fuel) s s' inv e = elim (Bool-cases (ltb s.l s.end)) [
    | inl going ↦
        search_loop-Inv fuel (search_round stabs type s) s' (search_round-Inv s inv (ground arith))
          (rw going at e)
    | inr done ↦
        let same : s ≡ s' = ground arith in
        let here : s.l ≡ s.end = ground (arith, inv.range) in rw (← same) (inv, here)
  ]

  start-Inv : Inv stabs type left end addr (record {
    l = left;
    end = end;
    region_left = left;
    region_end = end;
    any_matches = false;
    addr = addr;
  })
  start-Inv = record {
    l_from = omega arith;
    range = ok.ordered;
    end_upto = omega arith;
    region = refl;
    searched = inl refl;
    below = λ j a b typed. absurd (omega arith);
    above = λ j a b typed. absurd (omega arith);
    end_typed = inl refl;
    lefts =
        inl (record {
          start = refl;
          nothing = λ j a b typed. omega arith;
          matched = inr (refl, refl);
        });
  }

  -- With no stab of the type behind `from` the last loop goes down to it.
  rightmost-from :
      (from e : ℕ)
      → from < e
      → ((j : ℕ) → from < j → j < e → ¬ Typed stabs type j)
      → rightmost stabs type from e ≡ from + 1
  unfolding rightmost
  rightmost-from from zero h absent = absurd (omega arith)
  rightmost-from from (suc l) h absent = elim (Bool-cases (leb l from)) [
    | inl low ↦ rw low (ground arith)
    | inr high ↦ elim (Bool-cases ((stabs l).n_type == type)) [
      | inl same ↦ absurd (absent l (ground arith) (omega arith) (ground arith))
      | inr other ↦
          rw (high, other)
            (rightmost-from from l (ground arith) (λ j a b. absent j a (omega arith)))
    ]
  ]

  rightmost-low : (from e : ℕ) → e ≤ from → rightmost stabs type from e ≡ e
  unfolding rightmost
  rightmost-low from zero h = refl
  rightmost-low from (suc l) h = let low : leb l from ≡ true = ground arith in rw low refl

  -- The region is [m, e): `m` is the last stab of the type whose value is at most `addr`, and `e` the next one.
  pub record Brackets (m e : ℕ) : Type 0 where
    pub from : left ≤ m
    pub nonempty : m < e
    pub upto : e ≤ end
    pub typed : Typed stabs type m
    pub low : (stabs m).n_value ≤ addr
    pub inside : (j : ℕ) → m < j → j < e → ¬ Typed stabs type j
    pub above : (j : ℕ) → e ≤ j → j < end → Typed stabs type j → addr < (stabs j).n_value
    pub next : (e ≡ end) ⊎ Typed stabs type e

  -- `e` is the first stab of the type, and every one lies above `addr`.
  pub record Above (e : ℕ) : Type 0 where
    pub from : left ≤ e
    pub upto : e < end
    pub typed : Typed stabs type e
    pub first : (j : ℕ) → left ≤ j → j < e → ¬ Typed stabs type j
    pub above : (j : ℕ) → e ≤ j → j < end → Typed stabs type j → addr < (stabs j).n_value

  abbrev pub Outcome : Option (ℕ × ℕ) → Type 0
  Outcome r =
      ((m : ℕ) × (e : ℕ) × (r ≡ some (m + 1, e)) × Brackets m e)
      ⊎ (((r ≡ some (left + 1, left)) × ((j : ℕ) → left ≤ j → j < end → ¬ Typed stabs type j))
          ⊎ ((e : ℕ) × (r ≡ some (min e (left + 1), e)) × Above e))

  finish-Outcome :
      (s : Search)
      → Inv stabs type left end addr s
      → s.l ≡ s.end
      → Outcome (some (finish_search stabs type s))
  unfolding finish_search Outcome
  finish-Outcome s inv done = elim inv.lefts [
    | inr has_left ↦
        let all : (j : ℕ) → s.region_left < j → j < s.end → ¬ Typed stabs type j =
          λ j a b. has_left.last j a (omega arith) in
        let pos : _ = rightmost-from s.region_left s.end has_left.before all in
        inl (
          s.region_left,
          s.end,
          rw (has_left.matched, inv.region, pos) refl,
          record {
            from = has_left.from;
            nonempty = has_left.before;
            upto = inv.end_upto;
            typed = has_left.typed;
            low = has_left.low;
            inside = all;
            above = inv.above;
            next = inv.end_typed;
          },
        )
    | inl no_left ↦ elim no_left.matched [
      | inr bare ↦ inr (
          inl
            (rw (bare.0, no_left.start) refl, λ j a b. no_left.nothing j a (omega (arith, bare.1))))
      | inl some_above ↦
          let e : ℕ = s.end in
          let none_below : (j : ℕ) → left ≤ j → j < e → ¬ Typed stabs type j =
            λ j a b. no_left.nothing j a (omega arith) in
          let pos : rightmost stabs type left e ≡ min e (left + 1) = elim (lt_or_ge left e) [
            | inl room ↦
                rightmost-from left e room (λ j a b. none_below j (omega arith) b) ∙ omega arith
            | inr tight ↦ rightmost-low left e tight ∙ omega arith
          ] in
          inr (
            inr (
              e,
              rw (some_above.0, no_left.start, inv.region, pos) refl,
              record {
                from = omega (arith, inv.l_from);
                upto = some_above.1;
                typed = elim inv.end_typed [
                  | inl at_end ↦ absurd (omega arith)
                  | inr typed ↦ typed
                ];
                first = none_below;
                above = inv.above;
              },
            ))
    ]
  ]

  -- stab_binsearch ends, for stabs of the type in [left, end) that stand in the order of their values and of which none has
  -- the value `addr + 1`. If one has a value of at most `addr`, `*region_left` becomes the last such stab and
  -- `*region_right` the index before the next stab of the type (or stays). If there is none of the type at all, `*region_right`
  -- becomes `*region_left - 1`. If all lie above `addr`, `*region_right` becomes the index before the first of them, and
  -- `*region_left` the smaller of that and its old value, so that the region does not look empty. (The indices returned are one
  -- more than `*region_left` and `*region_right`.)
  pub stab_binsearch-Outcome : Outcome (stab_binsearch stabs left end type addr)
  unfolding stab_binsearch
  stab_binsearch-Outcome =
      let start : Search = record {
        l = left;
        end = end;
        region_left = left;
        region_end = end;
        any_matches = false;
        addr = addr;
      } in
      let (s, returned) = search_loop_ends stabs type start in
      let (inv, done) = search_loop-Inv (2 * (end - left) + 2) start s start-Inv returned in
      rw (stab_binsearch, returned) (finish-Outcome s inv done)
