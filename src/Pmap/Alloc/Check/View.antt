-- ===== src/Pmap/Alloc/Check/View.antt =====
-- Three pages that check_page_alloc takes and gives back: their links and the head of the free list, where nothing else changes.
use mit6_828_lab.Base.{
  ℕ, ◌^◌, ◌≤◌, ◌<◌, ◌≡◌, ◌≢◌, refl, ◌∙◌, Option, none, some, ◌==◌, ==_refl, if◌then◌else◌, arith,
}
use mit6_828_lab.Pmap.Kernel.{Kernel, ok, zeroed, kva_of}
use mit6_828_lab.Pmap.Alloc.{page_alloc, page_free}
use mit6_828_lab.Pmap.Alloc.Pool.{taken, take_page_lem, freed, page_free-eq-freed}
use mit6_828_lab.Pmap.Alloc.Decref.{ref}

abbrev pub link : Kernel → ℕ → Option ℕ
link s i = (s.pages i).pp_link

-- Three different unreferenced pages of the machine.
pub record ThreePages (s : Kernel) (x y z : ℕ) : Type 0 where
  pub different : (x ≢ y) × (x ≢ z) × (y ≢ z)
  pub in_range : (x < s.npages) × (y < s.npages) × (z < s.npages)
  pub unreferenced : (ref s x ≡ 0) × (ref s y ≡ 0) × (ref s z ≡ 0)
  pub small : s.npages ≤ 2 ^ 16

pub record View (s s' : Kernel) (x y z : ℕ) (lx ly lz head : Option ℕ) (m : ℕ → ℕ) : Type 0 where
  pub link_x : link s' x ≡ lx
  pub link_y : link s' y ≡ ly
  pub link_z : link s' z ≡ lz
  pub link_other : (i : ℕ) → i ≢ x → i ≢ y → i ≢ z → link s' i ≡ link s i
  pub same_ref : (i : ℕ) → ref s' i ≡ ref s i
  pub same_npages : s'.npages ≡ s.npages
  pub free_list : s'.page_free_list ≡ head
  pub mem : s'.mem ≡ m

pub turn-ThreePages : (s : Kernel) (x y z : ℕ) → ThreePages s x y z → ThreePages s y z x
turn-ThreePages s x y z t = record {
  different = (t.different.2, λ e. t.different.0 (omega arith), λ e. t.different.1 (omega arith));
  in_range = (t.in_range.1, t.in_range.2, t.in_range.0);
  unreferenced = (t.unreferenced.1, t.unreferenced.2, t.unreferenced.0);
  small = t.small;
}

pub turn :
    (s s' : Kernel) (x y z : ℕ) (lx ly lz head : Option ℕ) (m : ℕ → ℕ)
    → View s s' x y z lx ly lz head m
    → View s s' y z x ly lz lx head m
turn s s' x y z lx ly lz head m v = record {
  link_x = v.link_y;
  link_y = v.link_z;
  link_z = v.link_x;
  link_other = λ i a b c. v.link_other i c a b;
  same_ref = v.same_ref;
  same_npages = v.same_npages;
  free_list = v.free_list;
  mem = v.mem;
}

pub flip-ThreePages : (s : Kernel) (x y z : ℕ) → ThreePages s x y z → ThreePages s z y x
flip-ThreePages s x y z t = record {
  different = (
    λ e. t.different.2 (omega arith),
    λ e. t.different.1 (omega arith),
    λ e. t.different.0 (omega arith),
  );
  in_range = (t.in_range.2, t.in_range.1, t.in_range.0);
  unreferenced = (t.unreferenced.2, t.unreferenced.1, t.unreferenced.0);
  small = t.small;
}

pub flip :
    (s s' : Kernel) (x y z : ℕ) (lx ly lz head : Option ℕ) (m : ℕ → ℕ)
    → View s s' x y z lx ly lz head m
    → View s s' z y x lz ly lx head m
flip s s' x y z lx ly lz head m v = record {
  link_x = v.link_z;
  link_y = v.link_y;
  link_z = v.link_x;
  link_other = λ i a b c. v.link_other i c b a;
  same_ref = v.same_ref;
  same_npages = v.same_npages;
  free_list = v.free_list;
  mem = v.mem;
}

module _ (s s' : Kernel) (x y z : ℕ) (lx ly lz head : Option ℕ) (m : ℕ → ℕ)
    (three : ThreePages s x y z) where
  View-taken :
      (flags : ℕ)
      → View s s' x y z lx ly lz (some x) m
      → View s
          (taken flags x s')
          x
          y
          z
          none
          ly
          lz
          lx
          (if flags == 0 then m else zeroed (kva_of x) m)
  View-taken flags v = record {
    link_x = rw (link, ==_refl x);
    link_y = ground (arith, three.different, v.link_y);
    link_z = ground (arith, three.different, v.link_z);
    link_other = λ i a b c. ground (arith, v.link_other i a b c);
    same_ref = λ i. ground (arith, v.same_ref i, v.same_ref x);
    same_npages = v.same_npages;
    free_list = v.link_x;
    mem = rw v.mem refl;
  }

  -- page_alloc gives the head, and the next page is what it was linked to.
  pub take_x :
      (flags : ℕ)
      → View s s' x y z lx ly lz (some x) m
      → (s'' : Kernel) × (page_alloc flags s' ≡ ok (some x) s'')
        × View s s'' x y z none ly lz lx (if flags == 0 then m else zeroed (kva_of x) m)
  unfolding page_alloc
  take_x flags v = (
    taken flags x s',
    rw v.free_list (
        take_page_lem flags x s' (rw v.same_npages three.in_range.0)
          (rw v.same_npages three.small)),
    View-taken flags v,
  )

  View-freed : View s s' x y z none ly lz head m → View s (freed x s') x y z head ly lz (some x) m
  View-freed v = record {
    link_x = rw (link, ==_refl x) v.free_list;
    link_y = ground (arith, three.different, v.link_y);
    link_z = ground (arith, three.different, v.link_z);
    link_other = λ i a b c. ground (arith, v.link_other i a b c);
    same_ref = λ i. ground (arith, v.same_ref i, v.same_ref x);
    same_npages = v.same_npages;
    free_list = refl;
    mem = v.mem;
  }

  pub free_x :
      View s s' x y z none ly lz head m
      → (s'' : Kernel) × (page_free x s' ≡ ok tt s'') × View s s'' x y z head ly lz (some x) m
  free_x v = (
    freed x s',
    page_free-eq-freed x s' (v.same_ref x ∙ three.unreferenced.0) v.link_x,
    View-freed v,
  )
