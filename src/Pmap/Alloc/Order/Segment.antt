-- ===== src/Pmap/Alloc/Order/Segment.antt =====
-- Pieces of a linked list: what a write at the tail does to them.
use mathlib.Core.Path.{subst}
use mit6_828_lab.Base.{
  ℕ, ◌+◌, ◌≤◌, ◌≡◌, refl, sym, ap, inl, inr, true, false, Option, none, some, List, [], ◌∷◌, ◌++◌,
  ◌==◌, ==_refl, ==_iff, Bool-cases, if◌then◌else◌, arith, Option-cases,
}
use mit6_828_lab.Pmap.Kernel.{PageInfo, set_page, with_link}
use mit6_828_lab.Pmap.Alloc.Order.{Chain, tail_pages, tail_first, append}

abbrev pub count : ℕ → List ℕ → ℕ
count i [] = 0
count i (x ∷ xs) = (if x == i then 1 else 0) + count i xs

count_other : (t i : ℕ) (xs : List ℕ) → 1 ≤ count t xs → count i xs ≡ 0 → (t == i) ≡ false
count_other t i xs n out = elim (Bool-cases (t == i)) [
  | inl same ↦
      let both : count t xs ≡ count i xs = ap (λ j. count j xs) ((==_iff t i).0 same) in
      absurd (omega (arith, both, n, out))
  | inr other ↦ other
]

-- From `p` the links lead through the list and then to `v`.
abbrev pub Leads : (ℕ → PageInfo) → Option ℕ → List ℕ → Option ℕ → Type 0
Leads pages p [] v = p ≡ v
Leads pages p (x ∷ xs) v = (p ≡ some x) × Leads pages (pages x).pp_link xs v

-- From page `x` the links lead through the list, whose last page is the tail.
abbrev pub SegFrom : (ℕ → PageInfo) → ℕ → Option ℕ → List ℕ → Type 0
SegFrom pages x tail [] = tail ≡ some x
SegFrom pages x tail (y ∷ ys) = ((pages x).pp_link ≡ some y) × SegFrom pages y tail ys

abbrev pub Seg : (ℕ → PageInfo) → Chain → List ℕ → Type 0
Seg pages c [] = c.tail ≡ none
Seg pages c (x ∷ xs) = (c.first ≡ some x) × SegFrom pages x c.tail xs

pub Leads-set_page :
    (pages : ℕ → PageInfo) (p : Option ℕ) (xs : List ℕ) (v : Option ℕ) (t : ℕ) (w : PageInfo)
    → count t xs ≡ 0
    → Leads pages p xs v
    → Leads (set_page t w pages) p xs v
Leads-set_page pages p [] v t w out l = l
Leads-set_page pages p (x ∷ xs) v t w out l =
    let other : (t == x) ≡ false = ground arith in
    rw other (l.0, Leads-set_page pages (pages x).pp_link xs v t w (ground arith) l.1)

pub Leads-append :
    (pages : ℕ → PageInfo) (p : Option ℕ) (xs ys : List ℕ) (q r : Option ℕ)
    → Leads pages p xs q
    → Leads pages q ys r
    → Leads pages p (xs ++ ys) r
Leads-append pages p [] ys q r l m = rw l m
Leads-append pages p (x ∷ xs) ys q r l m =
    (l.0, Leads-append pages (pages x).pp_link xs ys q r l.1 m)

SegFrom-set_page :
    (pages : ℕ → PageInfo) (x : ℕ) (tail : Option ℕ) (xs : List ℕ) (t : ℕ) (w : PageInfo)
    → count t (x ∷ xs) ≡ 0
    → SegFrom pages x tail xs
    → SegFrom (set_page t w pages) x tail xs
SegFrom-set_page pages x tail [] t w out g = g
SegFrom-set_page pages x tail (y ∷ ys) t w out g =
    let other : (t == x) ≡ false = ground arith in
    rw other (g.0, SegFrom-set_page pages y tail ys t w (ground arith) g.1)

-- The tail is a page of the piece.
SegFrom-tail :
    (pages : ℕ → PageInfo) (x : ℕ) (tail : Option ℕ) (xs : List ℕ)
    → SegFrom pages x tail xs
    → (t : ℕ) × (tail ≡ some t) × (1 ≤ count t (x ∷ xs))
SegFrom-tail pages x tail [] g = (x, g, rw (==_refl x) (omega arith))
SegFrom-tail pages x tail (y ∷ ys) g =
    let (t, e, c) = SegFrom-tail pages y tail ys g.1 in (t, e, ground arith)

-- Writing `v` at the tail makes the piece lead to `v`.
SegFrom-close :
    (pages : ℕ → PageInfo) (x t : ℕ) (v : Option ℕ) (xs : List ℕ)
    → SegFrom pages x (some t) xs
    → ((i : ℕ) → count i (x ∷ xs) ≤ 1)
    → Leads (set_page t (with_link v (pages t)) pages) (some x) (x ∷ xs) v
SegFrom-close pages x t v [] g once =
    let here : (t == x) ≡ true = ground (arith, g) in (refl, rw here refl)
SegFrom-close pages x t v (y ∷ ys) g once =
    let (u, e, c) = SegFrom-tail pages y (some t) ys g.1 in
    let other : (t == x) ≡ false = ground (arith, once x, e, c) in
    let rest = SegFrom-close pages y t v ys g.1 (λ i. ground (arith, once i)) in
    (refl, rw (other, g.0) rest)

-- Writing a page there makes it one page longer.
SegFrom-longer :
    (pages : ℕ → PageInfo) (x t z : ℕ) (xs : List ℕ)
    → SegFrom pages x (some t) xs
    → ((i : ℕ) → count i (x ∷ xs) ≤ 1)
    → SegFrom (set_page t (with_link (some z) (pages t)) pages) x (some z) (xs ++ z ∷ [])
SegFrom-longer pages x t z [] g once =
    let here : (t == x) ≡ true = ground (arith, g) in (rw here refl, refl)
SegFrom-longer pages x t z (y ∷ ys) g once =
    let (u, e, c) = SegFrom-tail pages y (some t) ys g.1 in
    let other : (t == x) ≡ false = ground (arith, once x, e, c) in
    (rw other g.0, SegFrom-longer pages y t z ys g.1 (λ i. ground (arith, once i)))

module _ (pages : ℕ → PageInfo) (c : Chain) where
  -- `*tp = pp; tp = &pp->pp_link` makes the chain one page longer.
  pub Seg-longer :
      (xs : List ℕ) (z : ℕ)
      → Seg pages c xs
      → ((i : ℕ) → count i xs ≤ 1)
      → Seg (tail_pages c (some z) pages) (append c z) (xs ++ z ∷ [])
  Seg-longer [] z g once = (rw g refl, refl)
  Seg-longer (x ∷ xs) z g once =
      let (t, e, n) = SegFrom-tail pages x c.tail xs g.1 in
      rw e (g.0, SegFrom-longer pages x t z xs (rw (← e) g.1) once)

  pub Seg-close :
      (xs : List ℕ) (v : Option ℕ)
      → Seg pages c xs
      → ((i : ℕ) → count i xs ≤ 1)
      → Leads (tail_pages c v pages) (tail_first c v) xs v
  Seg-close [] v g once = rw g refl
  Seg-close (x ∷ xs) v g once =
      let (t, e, n) = SegFrom-tail pages x c.tail xs g.1 in
      subst
        (λ tl.
          Leads (tail_pages (record { first = c.first; tail = tl }) v pages)
            (tail_first (record { first = c.first; tail = tl }) v) (x ∷ xs) v)
        (sym e) (rw g.0 (SegFrom-close pages x t v xs (rw (← e) g.1) once))

  -- What a write at the tail leaves alone: a list that has no page with the chain, and every count of references.
  pub Leads-tail_pages :
      (xs ys : List ℕ) (p v w : Option ℕ)
      → Seg pages c xs
      → ((i : ℕ) → count i xs + count i ys ≤ 1)
      → Leads pages p ys w
      → Leads (tail_pages c v pages) p ys w
  Leads-tail_pages [] ys p v w g apart l = rw g l
  Leads-tail_pages (x ∷ xs) ys p v w g apart l =
      let (t, e, n) = SegFrom-tail pages x c.tail xs g.1 in
      rw e (Leads-set_page pages p ys w t _ (omega (arith, apart t)) l)

  pub Seg-tail_pages :
      (xs ys : List ℕ) (d : Chain) (v : Option ℕ)
      → Seg pages c xs
      → ((i : ℕ) → count i xs + count i ys ≤ 1)
      → Seg pages d ys
      → Seg (tail_pages c v pages) d ys
  Seg-tail_pages xs [] d v g apart h = h
  Seg-tail_pages [] (y ∷ ys) d v g apart h = rw g h
  Seg-tail_pages (x ∷ xs) (y ∷ ys) d v g apart h =
      let (t, e, n) = SegFrom-tail pages x c.tail xs g.1 in
      rw e (h.0, SegFrom-set_page pages y d.tail ys t _ (omega (arith, apart t)) h.1)

  pub tail_link_other :
      (xs : List ℕ) (v : Option ℕ) (i : ℕ)
      → Seg pages c xs
      → count i xs ≡ 0
      → (tail_pages c v pages i).pp_link ≡ (pages i).pp_link
  tail_link_other [] v i g out = rw g refl
  tail_link_other (x ∷ xs) v i g out =
      let (t, e, n) = SegFrom-tail pages x c.tail xs g.1 in
      rw (e, count_other t i (x ∷ xs) n out) refl

  pub tail_ref : (v : Option ℕ) (i : ℕ) → (tail_pages c v pages i).pp_ref ≡ (pages i).pp_ref
  tail_ref v i = elim (Option-cases c.tail) [
    | inl at_variable ↦ rw at_variable refl
    | inr (t, e) ↦ rw e (ground arith)
  ]
