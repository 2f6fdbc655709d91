-- ===== src/Pmap/Alloc/Order/Partition.antt =====
-- The low pages come first, each part in its order.
use mathlib.Core.Path.{subst}
use mit6_828_lab.Base.{
  ℕ, zero, suc, ◌+◌, ◌≤◌, ◌<◌, ◌≡◌, refl, sym, ap, ◌∙◌, inl, inr, Bool, Option, none, some, List,
  [], ◌∷◌, ◌++◌, ◌==◌, leb, if◌then◌else◌, arith, length, Bool-cases,
}
use mit6_828_lab.Mmu.Macros.{pdx}
use mit6_828_lab.Pmap.Kernel.{page2pa}
use mit6_828_lab.Pmap.Alloc.Order.{tail_pages, append, Split, move_page, move_pages}
use mit6_828_lab.Pmap.Alloc.Order.Segment.{
  count, Leads, Seg, Seg-longer, Leads-tail_pages, Seg-tail_pages, tail_link_other, tail_ref,
}

abbrev pub is_high : ℕ → ℕ → Bool
is_high limit pp = leb limit (pdx (page2pa pp))

-- The pages below the limit, and those that are not.
abbrev pub low_pages : ℕ → List ℕ → List ℕ
low_pages limit [] = []
low_pages limit (x ∷ xs) = if is_high limit x then low_pages limit xs else x ∷ low_pages limit xs

abbrev pub high_pages : ℕ → List ℕ → List ℕ
high_pages limit [] = []
high_pages limit (x ∷ xs) = if is_high limit x then x ∷ high_pages limit xs else high_pages limit xs

pub count-append : (i : ℕ) (xs ys : List ℕ) → count i (xs ++ ys) ≡ count i xs + count i ys
count-append i [] ys = omega arith
count-append i (x ∷ xs) ys = rw (count-append i xs ys) (omega arith)

count-snoc :
    (i z : ℕ) (xs : List ℕ) → count i (xs ++ z ∷ []) ≡ count i xs + (if z == i then 1 else 0)
count-snoc i z xs = count-append i xs (z ∷ []) ∙ omega arith

snoc-append : (xs ys : List ℕ) (z : ℕ) → (xs ++ z ∷ []) ++ ys ≡ xs ++ z ∷ ys
snoc-append [] ys z = refl
snoc-append (x ∷ xs) ys z = ap (λ l. x ∷ l) (snoc-append xs ys z)

append-nil : (xs : List ℕ) → xs ++ [] ≡ xs
append-nil [] = refl
append-nil (x ∷ xs) = ap (λ l. x ∷ l) (append-nil xs)

-- In the middle of the loop: the low and the high pages passed, and the rest of the list from `p` on.
pub record State (s : Split) (p : Option ℕ) (low high rest : List ℕ) : Type 0 where
  pub low_seg : Seg s.pages s.low low
  pub high_seg : Seg s.pages s.high high
  pub leads : Leads s.pages p rest none
  pub once : (i : ℕ) → count i low + count i high + count i rest ≤ 1

abbrev low_moved : ℕ → Split → Split
low_moved x s = record s { low = append s.low x; pages = tail_pages s.low (some x) s.pages }

abbrev high_moved : ℕ → Split → Split
high_moved x s = record s { high = append s.high x; pages = tail_pages s.high (some x) s.pages }

module _ (s : Split) (p : Option ℕ) (low high rest : List ℕ) (x : ℕ)
    (st : State s p low high (x ∷ rest)) where
  -- `x` is in neither part.
  fresh : (count x low ≡ 0) × (count x high ≡ 0)
  fresh =
      let here : count x low + count x high + (1 + count x rest) ≤ 1 = ground (arith, st.once x) in
      (omega arith, omega arith)

  low_moved-State :
      State (low_moved x s) (((low_moved x s).pages x).pp_link) (low ++ x ∷ []) high rest
  low_moved-State = record {
    low_seg = Seg-longer s.pages s.low low x st.low_seg (λ i. omega (arith, st.once i));
    high_seg =
        Seg-tail_pages s.pages s.low low high s.high (some x) st.low_seg
          (λ i. omega (arith, st.once i)) st.high_seg;
    leads =
        subst (λ q. Leads (tail_pages s.low (some x) s.pages) q rest none)
          (sym (tail_link_other s.pages s.low low (some x) x st.low_seg fresh.0))
          (Leads-tail_pages s.pages s.low low rest (s.pages x).pp_link (some x) none st.low_seg
            (λ i. omega (arith, st.once i)) st.leads.1);
    once = λ i. omega (arith, st.once i, count-snoc i x low);
  }

  high_moved-State :
      State (high_moved x s) (((high_moved x s).pages x).pp_link) low (high ++ x ∷ []) rest
  high_moved-State = record {
    low_seg =
        Seg-tail_pages s.pages s.high high low s.low (some x) st.high_seg
          (λ i. omega (arith, st.once i)) st.low_seg;
    high_seg = Seg-longer s.pages s.high high x st.high_seg (λ i. omega (arith, st.once i));
    leads =
        subst (λ q. Leads (tail_pages s.high (some x) s.pages) q rest none)
          (sym (tail_link_other s.pages s.high high (some x) x st.high_seg fresh.1))
          (Leads-tail_pages s.pages s.high high rest (s.pages x).pp_link (some x) none st.high_seg
            (λ i. omega (arith, st.once i)) st.leads.1);
    once = λ i. omega (arith, st.once i, count-snoc i x high);
  }

pub record Moved (limit fuel : ℕ) (p : Option ℕ) (s : Split) (low high : List ℕ) : Type 0 where
  pub result : Split
  pub runs : move_pages fuel limit p s ≡ some result
  pub low_seg : Seg result.pages result.low low
  pub high_seg : Seg result.pages result.high high
  pub once : (i : ℕ) → count i low + count i high ≤ 1
  pub same_ref : (i : ℕ) → (result.pages i).pp_ref ≡ (s.pages i).pp_ref
  pub same_link :
      (i : ℕ) → count i low + count i high ≡ 0 → (result.pages i).pp_link ≡ (s.pages i).pp_link

pub move_pages-Moved :
    (limit fuel : ℕ) (p : Option ℕ) (rest low high : List ℕ) (s : Split)
    → State s p low high rest
    → length rest < fuel
    → Moved limit fuel p s (low ++ low_pages limit rest) (high ++ high_pages limit rest)
unfolding move_pages move_page
move_pages-Moved limit zero p rest low high s st enough = absurd (omega arith)
move_pages-Moved limit (suc n) p [] low high s st enough =
    rw (append-nil low, append-nil high)
      (record {
        result = s;
        runs = rw st.leads refl;
        low_seg = st.low_seg;
        high_seg = st.high_seg;
        once = λ i. omega (arith, st.once i);
        same_ref = λ i. refl;
        same_link = λ i out. refl;
      })
move_pages-Moved limit (suc n) p (x ∷ rest) low high s st enough =
    elim (Bool-cases (is_high limit x)) [
      | inl up ↦
          let s' = high_moved x s in
          let more =
            move_pages-Moved limit n ((s'.pages x).pp_link) rest low (high ++ x ∷ []) s'
              (high_moved-State s p low high rest x st) (omega arith) in
          let run : move_pages (suc n) limit p s ≡ some more.result =
            rw (st.leads.0, move_pages, move_page, up) more.runs in
          rw (up, ← snoc-append high (high_pages limit rest) x)
            (record {
              result = more.result;
              runs = run;
              low_seg = more.low_seg;
              high_seg = more.high_seg;
              once = more.once;
              same_ref = λ i. more.same_ref i ∙ tail_ref s.pages s.high (some x) i;
              same_link = λ i out.
                  more.same_link i out
                  ∙ tail_link_other s.pages s.high high (some x) i st.high_seg (
                      omega (
                        arith,
                        out,
                        count-append i (high ++ x ∷ []) (high_pages limit rest),
                        count-append i high (x ∷ []),
                      ));
            })
      | inr down ↦
          let s' = low_moved x s in
          let more =
            move_pages-Moved limit n ((s'.pages x).pp_link) rest (low ++ x ∷ []) high s'
              (low_moved-State s p low high rest x st) (omega arith) in
          let run : move_pages (suc n) limit p s ≡ some more.result =
            rw (st.leads.0, move_pages, move_page, down) more.runs in
          rw (down, ← snoc-append low (low_pages limit rest) x)
            (record {
              result = more.result;
              runs = run;
              low_seg = more.low_seg;
              high_seg = more.high_seg;
              once = more.once;
              same_ref = λ i. more.same_ref i ∙ tail_ref s.pages s.low (some x) i;
              same_link = λ i out.
                  more.same_link i out
                  ∙ tail_link_other s.pages s.low low (some x) i st.low_seg (
                      omega (
                        arith,
                        out,
                        count-append i (low ++ x ∷ []) (low_pages limit rest),
                        count-append i low (x ∷ []),
                      ));
            })
    ]
