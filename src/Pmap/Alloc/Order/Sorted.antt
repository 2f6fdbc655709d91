-- ===== src/Pmap/Alloc/Order/Sorted.antt =====
-- The list that the sorting leaves is a pool again.
use mit6_828_lab.Base.{
  ℕ, suc, ◌+◌, ◌≤◌, ◌<◌, ◌≡◌, refl, sym, ap, ◌∙◌, inl, inr, false, Option, none, List, [], ◌∷◌,
  ◌++◌, ◌==◌, ==_refl, ==_iff, arith, length, Bool-cases, has,
}
use mit6_828_lab.Pmap.Kernel.{PageInfo, Kernel, ok}
use mit6_828_lab.Pmap.Alloc.Pool.{FreeFrom, IsPool}
use mit6_828_lab.Pmap.Alloc.Decref.{ref}
use mit6_828_lab.Pmap.Alloc.Order.{tail_pages, tail_first, Split, join, low_first}
use mit6_828_lab.Pmap.Alloc.Order.Segment.{
  count, Leads, Leads-append, Seg, Seg-close, Leads-tail_pages, Seg-tail_pages, tail_link_other,
  tail_ref,
}
use mit6_828_lab.Pmap.Alloc.Order.Partition.{
  is_high, low_pages, high_pages, count-append, State, move_pages-Moved,
}

module _ (t : Split) (s : Kernel) (low high : List ℕ) (low_seg : Seg t.pages t.low low)
    (high_seg : Seg t.pages t.high high) (once : (i : ℕ) → count i low + count i high ≤ 1) where
  ended_low : Seg (tail_pages t.high none t.pages) t.low low
  ended_low =
      Seg-tail_pages t.pages t.high high low t.low none high_seg (λ i. omega (arith, once i))
        low_seg

  join-Leads : Leads (join t s).pages (join t s).page_free_list (low ++ high) none
  join-Leads =
      let first_high = Seg-close t.pages t.high high none high_seg (λ i. omega (arith, once i)) in
      let pp2 = tail_first t.high none in
      Leads-append (join t s).pages (join t s).page_free_list low high pp2 none
        (Seg-close (tail_pages t.high none t.pages) t.low low pp2 ended_low
          (λ i. omega (arith, once i)))
        (Leads-tail_pages (tail_pages t.high none t.pages) t.low low high pp2 pp2 none ended_low
          (λ i. omega (arith, once i)) first_high)

  ref-join : (i : ℕ) → ref (join t s) i ≡ (t.pages i).pp_ref
  ref-join i =
      tail_ref (tail_pages t.high none t.pages) t.low (tail_first t.high none) i
      ∙ tail_ref t.pages t.high none i

  link-join :
      (i : ℕ) → count i low + count i high ≡ 0 → ((join t s).pages i).pp_link ≡ (t.pages i).pp_link
  link-join i out =
      tail_link_other (tail_pages t.high none t.pages) t.low low (tail_first t.high none) i
        ended_low (omega (arith, out))
      ∙ tail_link_other t.pages t.high high none i high_seg (omega (arith, out))

count-has : (i : ℕ) (xs : List ℕ) → has i xs ≡ false → count i xs ≡ 0
count-has i [] out = refl
count-has i (x ∷ xs) out =
    let rest : count i xs ≡ 0 = count-has i xs (ground (arith, out)) in ground (arith, out, rest)

has-count : (i : ℕ) (xs : List ℕ) → count i xs ≡ 0 → has i xs ≡ false
has-count i [] out = refl
has-count i (x ∷ xs) out =
    let rest : has i xs ≡ false = has-count i xs (ground (arith, out)) in ground (arith, out, rest)

FreeFrom-Leads :
    (pages : ℕ → PageInfo) (n : ℕ) (p : Option ℕ) (xs : List ℕ)
    → FreeFrom pages n p xs
    → Leads pages p xs none × ((i : ℕ) → count i xs ≤ 1)
FreeFrom-Leads pages n p [] c = (c, λ i. omega arith)
FreeFrom-Leads pages n p (x ∷ xs) c =
    let (l, once) = FreeFrom-Leads pages n (pages x).pp_link xs c.4 in
    let out = count-has x xs c.3 in
    (
      (c.0, l),
      λ i. elim (Bool-cases (x == i)) [
        | inl here ↦
            let both : count x xs ≡ count i xs = ap (λ j. count j xs) ((==_iff x i).0 here) in
            rw here (omega (arith, both, out))
        | inr away ↦ rw away (omega (arith, once i))
      ],
    )

-- A page on the list is one of the machine, and unreferenced.
pub FreeFrom-member :
    (pages : ℕ → PageInfo) (n : ℕ) (p : Option ℕ) (xs : List ℕ) (i : ℕ)
    → FreeFrom pages n p xs
    → 1 ≤ count i xs
    → (i < n) × ((pages i).pp_ref ≡ 0)
FreeFrom-member pages n p [] i c on = absurd (omega arith)
FreeFrom-member pages n p (x ∷ xs) i c on = elim (Bool-cases (x == i)) [
  | inl here ↦ let at : x ≡ i = (==_iff x i).0 here in rw (← at) (c.1, c.2)
  | inr away ↦ FreeFrom-member pages n (pages x).pp_link xs i c.4 (ground arith)
]

Leads-FreeFrom :
    (pages : ℕ → PageInfo) (n : ℕ) (p : Option ℕ) (xs : List ℕ)
    → Leads pages p xs none
    → ((i : ℕ) → count i xs ≤ 1)
    → ((i : ℕ) → 1 ≤ count i xs → (i < n) × ((pages i).pp_ref ≡ 0))
    → FreeFrom pages n p xs
Leads-FreeFrom pages n p [] l once good = l
Leads-FreeFrom pages n p (x ∷ xs) l once good =
    let here = good x (rw (==_refl x) (omega arith)) in
    let out : count x xs ≡ 0 = ground (arith, once x) in
    (
      l.0,
      here.0,
      here.1,
      has-count x xs out,
      Leads-FreeFrom pages n (pages x).pp_link xs l.1 (λ i. ground (arith, once i))
          (λ i on. good i (ground arith)),
    )

pub count-parts :
    (limit i : ℕ) (xs : List ℕ)
    → count i (low_pages limit xs) + count i (high_pages limit xs) ≡ count i xs
count-parts limit i [] = refl
count-parts limit i (x ∷ xs) = elim (Bool-cases (is_high limit x)) [
  | inl up ↦ rw up (omega (arith, count-parts limit i xs))
  | inr down ↦ rw down (omega (arith, count-parts limit i xs))
]

abbrev start : Kernel → Split
start s = record {
  pages = s.pages;
  low = record { first = none; tail = none };
  high = record { first = none; tail = none };
}

-- The move of the low pages to the front of the list returns on every pool. The pool is then the low pages, in their order,
-- and after them the others, in theirs. No reference count, no link of a page off the list and no memory changes, nor what boot_alloc keeps.
pub low_first-IsPool :
    (fuel limit : ℕ) (xs : List ℕ) (s : Kernel)
    → IsPool s xs
    → length xs < fuel
    → (s' : Kernel) × (low_first fuel limit s ≡ ok tt s')
      × IsPool s' (low_pages limit xs ++ high_pages limit xs)
      × ((i : ℕ) → ref s' i ≡ ref s i)
      × ((i : ℕ) → has i xs ≡ false → (s'.pages i).pp_link ≡ (s.pages i).pp_link)
      × (s'.mem ≡ s.mem)
      × (s'.npages ≡ s.npages)
      × (s'.nextfree ≡ s.nextfree)
unfolding low_first
low_first-IsPool fuel limit xs s pool enough =
    let low = low_pages limit xs in
    let high = high_pages limit xs in
    let (leads, single) = FreeFrom-Leads s.pages s.npages s.page_free_list xs pool.chain in
    let st : State (start s) s.page_free_list [] [] xs = record {
      low_seg = refl;
      high_seg = refl;
      leads = leads;
      once = λ i. omega (arith, single i);
    } in
    let m = move_pages-Moved limit fuel s.page_free_list xs [] [] (start s) st enough in
    let s' = join m.result s in
    let refs : (i : ℕ) → ref s' i ≡ ref s i =
      λ i. ref-join m.result s low high m.low_seg m.high_seg m.once i ∙ m.same_ref i in
    let links : (i : ℕ) → has i xs ≡ false → (s'.pages i).pp_link ≡ (s.pages i).pp_link = λ i out.
      let none_there : count i low + count i high ≡ 0 =
        count-parts limit i xs ∙ count-has i xs out in
      link-join m.result s low high m.low_seg m.high_seg m.once i none_there
      ∙ m.same_link i none_there in
    let members : (i : ℕ) → count i (low ++ high) ≡ count i xs =
      λ i. count-append i low high ∙ count-parts limit i xs in
    let good : (i : ℕ) → 1 ≤ count i (low ++ high) → (i < s.npages) × ((s'.pages i).pp_ref ≡ 0) =
      λ i on.
        let (lt, zero_ref) =
          FreeFrom-member s.pages s.npages s.page_free_list xs i pool.chain
            (omega (arith, on, members i)) in
        (lt, refs i ∙ zero_ref) in
    (
      s',
      rw (low_first, m.runs) refl,
      record {
        chain =
            Leads-FreeFrom s'.pages s.npages s'.page_free_list (low ++ high)
              (join-Leads m.result s low high m.low_seg m.high_seg m.once)
              (λ i. omega (arith, members i, single i)) good;
        used_unlinked = λ i out.
            let off : has i xs ≡ false =
              has-count i xs (sym (members i) ∙ count-has i (low ++ high) out) in
            links i off ∙ pool.used_unlinked i off;
        small = pool.small;
      },
      refs,
      links,
      refl,
      refl,
      refl,
    )

length-insert : (xs ys : List ℕ) (z : ℕ) → length (xs ++ z ∷ ys) ≡ suc (length (xs ++ ys))
length-insert [] ys z = refl
length-insert (x ∷ xs) ys z = ap suc (length-insert xs ys z)

pub length-parts :
    (limit : ℕ) (xs : List ℕ) → length (low_pages limit xs ++ high_pages limit xs) ≡ length xs
length-parts limit [] = refl
length-parts limit (x ∷ xs) = elim (Bool-cases (is_high limit x)) [
  | inl up ↦
      rw up (
        length-insert (low_pages limit xs) (high_pages limit xs) x ∙ ap suc (length-parts limit xs))
  | inr down ↦ rw down (ap suc (length-parts limit xs))
]
