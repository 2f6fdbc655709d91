-- ===== src/Pmap/Alloc/Check/Steps.antt =====
-- The parts of check_page_alloc, one by one.
use mit6_828_lab.Base.{
  ℕ, zero, suc, ◌+◌, ◌-◌, ◌*◌, ◌/◌, ◌%◌, ◌^◌, ◌≤◌, ◌<◌, ◌≡◌, refl, ◌∙◌, true, false, Option, none,
  some, List, [], ◌∷◌, ◌==◌, ==_refl, ◌&&◌, ltb, leb, if◌then◌else◌, arith, length,
}
use mit6_828_lab.Mmu.Macros.{pgsize}
use mit6_828_lab.Pmap.Kernel.{Kernel, ok, ◌>>=◌, ◌>>◌, zeroed, kva_of, page2kva, page2kva_lem}
use mit6_828_lab.Pmap.Alloc.{page_alloc}
use mit6_828_lab.Pmap.Alloc.Pool.{FreeFrom}
use mit6_828_lab.Pmap.Alloc.Decref.{ref}
use mit6_828_lab.Pmap.Alloc.Check.{
  count_free, alloc_page, alloc_fails, alloc_three, free_three, in_memory, assert_zeros, test_flags,
}
use mit6_828_lab.Pmap.Alloc.Check.View.{
  link, ThreePages, View, turn-ThreePages, turn, take_x, free_x,
}

pub count_free-length :
    (fuel : ℕ) (p : Option ℕ) (xs : List ℕ) (n nfree : ℕ) (s : Kernel)
    → FreeFrom s.pages n p xs
    → length xs < fuel
    → count_free fuel p nfree s ≡ ok (nfree + length xs) s
unfolding count_free
count_free-length zero p xs n nfree s c enough = absurd (omega arith)
count_free-length (suc f) p [] n nfree s c enough =
    let none_left : nfree + 0 ≡ nfree = omega arith in rw (c, none_left) refl
count_free-length (suc f) p (x ∷ xs) n nfree s c enough =
    let sum : nfree + suc (length xs) ≡ nfree + 1 + length xs = omega arith in
    rw (c.0, sum) (count_free-length f (s.pages x).pp_link xs n (nfree + 1) s c.4 (omega arith))

pub FreeFrom-same :
    (s s' : Kernel) (n n' : ℕ) (p : Option ℕ) (xs : List ℕ)
    → n' ≡ n
    → ((i : ℕ) → link s' i ≡ link s i)
    → ((i : ℕ) → ref s' i ≡ ref s i)
    → FreeFrom s.pages n p xs
    → FreeFrom s'.pages n' p xs
FreeFrom-same s s' n n' p [] same links refs c = c
FreeFrom-same s s' n n' p (x ∷ xs) same links refs c = (
  c.0,
  rw same c.1,
  refs x ∙ c.2,
  c.3,
  rw (links x) (FreeFrom-same s s' n n' (link s x) xs same links refs c.4),
)

pub alloc_fails-empty : (s : Kernel) → s.page_free_list ≡ none → alloc_fails s ≡ ok tt s
unfolding alloc_fails page_alloc
alloc_fails-empty s empty = rw empty refl

pub in_memory_lem :
    (s : Kernel) (x : ℕ) → x < s.npages → s.npages ≤ 2 ^ 16 → in_memory x s ≡ ok tt s
in_memory_lem s x lt small =
    let pa : x * 2 ^ 12 % 2 ^ 32 ≡ x * 4096 = omega arith in
    let top : s.npages * 4096 % 2 ^ 32 ≡ s.npages * 4096 = omega arith in
    rw (pa, top) (ground arith)

zero_byte : (r : ℕ) → r < 4 → (0 / 2 ^ (8 * r) % 2 ^ 8 == 0) ≡ true
zero_byte zero h = refl
zero_byte (suc zero) h = refl
zero_byte (suc (suc zero)) h = refl
zero_byte (suc (suc (suc zero))) h = refl
zero_byte (suc (suc (suc (suc r)))) h = absurd (omega arith)

pub assert_zeros_lem :
    (n c i : ℕ) (s : Kernel)
    → i + n ≤ 4096
    → ((a : ℕ) → c ≤ a → a < c + 4096 → s.mem a ≡ 0)
    → assert_zeros n c i s ≡ ok tt s
unfolding assert_zeros
assert_zeros_lem zero c i s fits zeros = refl
assert_zeros_lem (suc n) c i s fits zeros =
    let word : s.mem (c + (i - i % 4)) ≡ 0 = zeros (c + (i - i % 4)) (omega arith) (omega arith) in
    rw (◌>>◌, ◌>>=◌, word, zero_byte (i % 4) (omega arith))
      (assert_zeros_lem n c (i + 1) s (omega arith) zeros)

alloc_page-some :
    (flags x : ℕ) (s s' : Kernel)
    → page_alloc flags s ≡ ok (some x) s'
    → alloc_page flags s ≡ ok x s'
unfolding alloc_page
alloc_page-some flags x s s' run = rw (◌>>=◌, run) refl

pub alloc_three_lem :
    (s s' : Kernel) (x y z : ℕ) (h : Option ℕ) (m : ℕ → ℕ)
    → ThreePages s x y z
    → View s s' x y z (some y) (some z) h (some x) m
    → (s'' : Kernel) × (alloc_three s' ≡ ok (x, (y, z)) s'') × View s s'' x y z none none none h m
unfolding alloc_three
alloc_three_lem s s' x y z h m three v =
    let three1 = turn-ThreePages s x y z three in
    let three2 = turn-ThreePages s y z x three1 in
    let (s1, run1, v1) = take_x s s' x y z (some y) (some z) h none m three 0 v in
    let (s2, run2, v2) =
      take_x s s1 y z x (some z) h none none m three1 0
        (turn s s1 x y z none (some z) h (some y) m v1) in
    let (s3, run3, v3) =
      take_x s s2 z x y h none none none m three2 0 (turn s s2 y z x none h none (some z) m v2) in
    let ne1 : (y == x) ≡ false = ground (arith, three.different) in
    let ne2 : (z == y) ≡ false = ground (arith, three.different) in
    let ne3 : (z == x) ≡ false = ground (arith, three.different) in
    (
      s3,
      rw
          (
            alloc_page-some 0 x s' s1 run1,
            ◌>>=◌,
            alloc_page-some 0 y s1 s2 run2,
            alloc_page-some 0 z s2 s3 run3,
            ne1,
            ne2,
            ne3,
          )
          refl,
      turn s s3 z x y none none none h m v3,
    )

pub free_three_lem :
    (s s' : Kernel) (x y z : ℕ) (h : Option ℕ) (m : ℕ → ℕ)
    → ThreePages s x y z
    → View s s' x y z none none none h m
    → (s'' : Kernel) × (free_three x y z s' ≡ ok tt s'')
      × View s s'' x y z h (some x) (some y) (some z) m
unfolding free_three
free_three_lem s s' x y z h m three v =
    let three1 = turn-ThreePages s x y z three in
    let three2 = turn-ThreePages s y z x three1 in
    let (s1, run1, v1) = free_x s s' x y z none none none h m three v in
    let (s2, run2, v2) =
      free_x s s1 y z x none none h (some x) m three1 (turn s s1 x y z h none none (some x) m v1) in
    let (s3, run3, v3) =
      free_x s s2 z x y none h (some x) (some y) m three2
        (turn s s2 y z x (some x) none h (some y) m v2) in
    (s3, rw (run1, ◌>>=◌, run2, run3) refl, turn s s3 z x y (some y) h (some x) (some z) m v3)

-- The memory behind the test of the flags.
abbrev pub tested : ℕ → (ℕ → ℕ) → ℕ → ℕ
tested x m =
    zeroed (kva_of x)
      (λ a. if leb (kva_of x) a && ltb a (kva_of x + pgsize) then 0x0101_0101 else m a)

abbrev filled : ℕ → Kernel → Kernel
filled x s = record s {
  mem = λ a. if leb (kva_of x) a && ltb a (kva_of x + pgsize) then 0x0101_0101 else s.mem a;
}

View-filled :
    (s s' : Kernel) (x y z : ℕ) (ly lz : Option ℕ) (m : ℕ → ℕ)
    → View s s' x y z none ly lz none m
    → View s (filled x s') x y z none ly lz none (filled x (record s' { mem = m })).mem
View-filled s s' x y z ly lz m v = record {
  link_x = v.link_x;
  link_y = v.link_y;
  link_z = v.link_z;
  link_other = v.link_other;
  same_ref = v.same_ref;
  same_npages = v.same_npages;
  free_list = v.free_list;
  mem = rw v.mem refl;
}

pub test_flags_lem :
    (s s' : Kernel) (x y z : ℕ) (ly lz : Option ℕ) (m : ℕ → ℕ)
    → ThreePages s x y z
    → View s s' x y z none ly lz none m
    → (s'' : Kernel) × (test_flags x s' ≡ ok tt s'') × View s s'' x y z none ly lz none (tested x m)
unfolding test_flags
test_flags_lem s s' x y z ly lz m three v =
    let address : (t : Kernel) → t.npages ≡ s.npages → page2kva x t ≡ ok (kva_of x) t =
      λ t same. page2kva_lem x t (rw same three.in_range.0) (rw same three.small) in
    let v0 = View-filled s s' x y z ly lz m v in
    let (s1, run1, v1) =
      free_x s (filled x s') x y z none ly lz none (filled x (record s' { mem = m })).mem three
        v0 in
    let (s2, run2, v2) =
      take_x s s1 x y z none ly lz none (filled x (record s' { mem = m })).mem three 1 v1 in
    let zeros : assert_zeros 4096 (kva_of x) 0 s2 ≡ ok tt s2 =
      assert_zeros_lem 4096 (kva_of x) 0 s2 (omega arith) (λ a lo hi. rw v2.mem (ground arith)) in
    (
      s2,
      rw
          (
            address s' v.same_npages,
            ◌>>=◌,
            run1,
            alloc_page-some 1 x s1 s2 run2,
            ==_refl x,
            address s2 v2.same_npages,
          )
          zeros,
      v2,
    )
