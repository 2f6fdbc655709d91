-- ===== src/Mmu/Laws.antt =====
-- The address macros take an address apart and put it together again; rounding stays close.
use mit6_828_lab.Base.{ℕ, ◌+◌, ◌-◌, ◌*◌, ◌/◌, ◌%◌, ◌^◌, ◌≤◌, ◌<◌, ◌≡◌, arith}
use native.Mathlib.Nat.{mod-lt, div-add-mod', mul-mod_left}
use mit6_828_lab.Base.Bits.{bit_or_disjoint}
use mit6_828_lab.Mmu.Macros.{pdx, ptx, pgoff, pgaddr, rounddown, roundup}

-- PGADDR is the sum of its shifted fields, when they are in range.
pub pgaddr-sum : (d t o : ℕ) → t < 1024 → o < 4096 → pgaddr d t o ≡ d * 2 ^ 22 + t * 2 ^ 12 + o
unfolding pgaddr
pgaddr-sum d t o ht ho =
    let fields : d * 2 ^ 22 + t * 2 ^ 12 ≡ (d * 2 ^ 10 + t) * 2 ^ 12 = omega arith in
    rw (bit_or_disjoint 22 d (t * 2 ^ 12) (omega arith), fields)
      (bit_or_disjoint 12 (d * 2 ^ 10 + t) o ho)

rounddown_lem :
    (a n : ℕ) → 0 < n → (rounddown a n ≤ a) × (a < rounddown a n + n) × (rounddown a n % n ≡ 0)
rounddown_lem a n hn = (omega arith, omega (arith, mod-lt a hn), multiple)
  where
    multiple : (a - a % n) % n ≡ 0
    multiple =
        let whole : a - a % n ≡ a / n * n = omega (arith, div-add-mod' a n) in
        rw whole (mul-mod_left (a / n) n)

-- PDX, PTX and PGOFF give back the fields that PGADDR was built from, and PGADDR gives back every
-- linear address that they take apart.
pub pgaddr_fields :
    (d t o la : ℕ)
    → d < 1024
    → t < 1024
    → o < 4096
    → la < 2 ^ 32
    → (pdx (pgaddr d t o) ≡ d)
      × (ptx (pgaddr d t o) ≡ t)
      × (pgoff (pgaddr d t o) ≡ o)
      × (pgaddr (pdx la) (ptx la) (pgoff la) ≡ la)
pgaddr_fields d t o la hd ht ho hla = omega (
  arith,
  pgaddr-sum d t o ht ho,
  pgaddr-sum (pdx la) (ptx la) (pgoff la) (omega arith) (omega arith),
)

-- ROUNDUP gives the next multiple of `n` and ROUNDDOWN the one before, as long as ROUNDUP's sum
-- fits 32 bits.
pub round_bounds :
    (a n : ℕ)
    → 0 < n
    → a + n ≤ 2 ^ 32
    → (rounddown a n ≤ a)
      × (a < rounddown a n + n)
      × (rounddown a n % n ≡ 0)
      × (a ≤ roundup a n)
      × (roundup a n < a + n)
      × (roundup a n % n ≡ 0)
round_bounds a n hn fits =
    let sum : (a + n + 2 ^ 32 - 1) % 2 ^ 32 ≡ a + n - 1 = omega arith in
    let below : _ = rounddown_lem a n hn in
    let above : _ = rounddown_lem (a + n - 1) n hn in
    (below.0, below.1, below.2, rw sum (omega arith), rw sum (omega arith), rw sum above.2)
