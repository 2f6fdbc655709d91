-- ===== src/Kdebug/Search/Earliest.antt =====
-- The inner loop of stab_binsearch: the last stab of a type in a range.
use mit6_828_lab.Base.{ℕ, zero, suc, ◌-◌, ◌≤◌, ◌<◌, ◌≡◌, inl, inr, arith, ltb, ◌==◌, Bool-cases}
use mit6_828_lab.Kdebug.Search.{Stab, earliest}

module _ (stabs : ℕ → Stab) (type : ℕ) where
  abbrev pub Typed : ℕ → Type 0
  Typed i = (stabs i).n_type ≡ type

  -- What the inner loop finds: nothing of the type in [l, top), or the last of it.
  pub record Earliest (l top m1 : ℕ) : Type 0 where
    pub none_above : (j : ℕ) → m1 ≤ j → l ≤ j → j < top → ¬ Typed j
    pub inside : m1 ≤ top
    pub typed : l < m1 → Typed (m1 - 1)

  pub earliest-Earliest : (l top : ℕ) → Earliest l top (earliest stabs type l top)
  unfolding earliest
  earliest-Earliest l zero = record {
    none_above = λ j a b c. absurd (omega arith);
    inside = omega arith;
    typed = λ h. absurd (omega arith);
  }
  earliest-Earliest l (suc m) = elim (Bool-cases (ltb m l)) [
    | inl below ↦ rw below (record {
      none_above = λ j a b c. absurd (ground arith);
      inside = omega arith;
      typed = λ h. absurd (ground arith);
    })
    | inr above ↦ elim (Bool-cases ((stabs m).n_type == type)) [
      | inl same ↦
          rw (above, same)
            (record {
              none_above = λ j a b c. absurd (ground arith);
              inside = omega arith;
              typed = λ h. ground arith;
            })
      | inr other ↦
          rw (above, other)
            (let rest : Earliest l m (earliest stabs type l m) = earliest-Earliest l m in
              record {
                none_above = λ j a b c t. elim (Bool-cases (j == m)) [
                  | inl here ↦ absurd (ground arith)
                  | inr before ↦ rest.none_above j a b (ground arith) t
                ];
                inside = omega (arith, rest.inside);
                typed = rest.typed;
              })
    ]
  ]
