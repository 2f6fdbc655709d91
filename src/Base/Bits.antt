-- ===== src/Base/Bits.antt =====
-- `|` and `&` of C at variables. The native operations mean a recursion on binary digits on fuel;
-- here each gets one equation for its lowest digit, and from those come shifts and bit tests.
use Prim.Native.Nat.{ℕ, zero, suc, ◌+◌, ◌*◌, ◌/◌, ◌%◌, ◌^◌, ◌≤◌, ◌<◌, min, max, bit_and, bit_or}
use Prim.Native.Nat.{digits, bit_and-bitwise, bit_or-bitwise}
use mathlib.Core.Path.{◌≡◌, refl, sym, ap, ◌∙◌}
use mathlib.Core.Logic.{◌⊎◌, inl, inr}
use native.Mathlib.Nat.{pow-suc, div-div-eq-div-mul, div-one}
use native.Mathlib.Omega.{arith}

le_cases : (a n : ℕ) → a ≤ suc n → (a ≤ n) ⊎ (a ≡ suc n)
le_cases a n h = grind arith

module _ (z : ℕ → ℕ) (f : ℕ → ℕ → ℕ) where
  -- One more unit of fuel than needed changes nothing ...
  digits-suc : (n a b : ℕ) → a ≤ n → digits z f (suc n) a b ≡ digits z f n a b
  digits-suc zero zero b h = refl
  digits-suc zero (suc a) b h = absurd (omega arith)
  digits-suc (suc n) zero b h = refl
  digits-suc (suc n) (suc a) b h = rw (digits-suc n (suc a / 2) (b / 2) (omega arith))

  -- ... so any enough fuel computes what the number itself as fuel does.
  digits_enough : (n a b : ℕ) → a ≤ n → digits z f n a b ≡ digits z f a a b
  digits_enough zero zero b h = refl
  digits_enough zero (suc a) b h = absurd (omega arith)
  digits_enough (suc n) a b h = elim (le_cases a n h) [
    | inl le ↦ digits-suc n a b le ∙ digits_enough n a b le
    | inr eq ↦ rw eq
  ]

  digits_lowest :
      (a b : ℕ)
      → digits z f (suc a) (suc a) b
        ≡ digits z f (suc a / 2) (suc a / 2) (b / 2) * 2 + f (suc a % 2) (b % 2)
  digits_lowest a b = rw (← digits_enough a (suc a / 2) (b / 2) (omega arith))

-- The lowest digit of `a | b` and the rest.
pub bit_or_lowest : (a b : ℕ) → bit_or a b ≡ bit_or (a / 2) (b / 2) * 2 + max (a % 2) (b % 2)
bit_or_lowest zero b = simp bit_or-bitwise (omega arith)
bit_or_lowest (suc a) b = simp bit_or-bitwise (digits_lowest (λ y. y) max a b)

pub bit_and_lowest : (a b : ℕ) → bit_and a b ≡ bit_and (a / 2) (b / 2) * 2 + min (a % 2) (b % 2)
bit_and_lowest zero b = simp bit_and-bitwise (omega arith)
bit_and_lowest (suc a) b = simp bit_and-bitwise (digits_lowest (λ y. 0) min a b)

zero_laws_upto : (n a : ℕ) → a ≤ n → (bit_or a 0 ≡ a) × (bit_and a 0 ≡ 0)
zero_laws_upto n zero h = (refl, refl)
zero_laws_upto zero (suc a) h = absurd (omega arith)
zero_laws_upto (suc n) (suc a) h =
    let half : (bit_or (suc a / 2) 0 ≡ suc a / 2) × (bit_and (suc a / 2) 0 ≡ 0) =
      zero_laws_upto n (suc a / 2) (omega arith) in
    (omega (arith, half, bit_or_lowest (suc a) 0), omega (arith, half, bit_and_lowest (suc a) 0))

pub bit_or-zero : (a : ℕ) → bit_or a 0 ≡ a
bit_or-zero a = (zero_laws_upto a a (omega arith)).0

pub bit_and-zero : (a : ℕ) → bit_and a 0 ≡ 0
bit_and-zero a = (zero_laws_upto a a (omega arith)).1

-- The test of the lowest bit.
pub bit_and-one : (a : ℕ) → bit_and a 1 ≡ a % 2
bit_and-one a = omega (arith, bit_and_lowest a 1, bit_and-zero (a / 2))

pub bit_or-parity : (a b : ℕ) → bit_or a b % 2 ≡ max (a % 2) (b % 2)
bit_or-parity a b = omega (arith, bit_or_lowest a b)

bit_or-half : (a b : ℕ) → bit_or a b / 2 ≡ bit_or (a / 2) (b / 2)
bit_or-half a b = omega (arith, bit_or_lowest a b)

div-pow-suc : (a k : ℕ) → a / 2 ^ suc k ≡ a / 2 / 2 ^ k
div-pow-suc a k =
    let twice : 2 ^ suc k ≡ 2 * 2 ^ k = omega (arith, pow-suc 2 k) in
    rw twice (sym (div-div-eq-div-mul a 2 (2 ^ k)))

-- `(a | b) >> k` is `(a >> k) | (b >> k)`.
pub bit_or-shift : (k a b : ℕ) → bit_or a b / 2 ^ k ≡ bit_or (a / 2 ^ k) (b / 2 ^ k)
bit_or-shift zero a b = rw (div-one (bit_or a b), div-one a, div-one b)
bit_or-shift (suc k) a b =
    rw (div-pow-suc (bit_or a b) k, div-pow-suc a k, div-pow-suc b k, bit_or-half a b)
      (bit_or-shift k (a / 2) (b / 2))

-- `(q << k) | r` is a sum where `r` has at most `k` bits.
pub bit_or_disjoint : (k q r : ℕ) → r < 2 ^ k → bit_or (q * 2 ^ k) r ≡ q * 2 ^ k + r
bit_or_disjoint zero q r h =
    let none_left : r ≡ 0 = omega arith in rw (none_left, bit_or-zero (q * 2 ^ 0)) (omega arith)
bit_or_disjoint (suc k) q r h =
    let twice : q * 2 ^ suc k ≡ q * 2 ^ k * 2 =
      omega (arith, ap (λ (t : ℕ). q * t) (pow-suc 2 k)) in
    let fits : r / 2 < 2 ^ k = omega (arith, pow-suc 2 k) in
    rw twice (
      omega (
        arith,
        bit_or_lowest (q * 2 ^ k * 2) r,
        bit_or_disjoint k q (r / 2) fits,
        ap (λ (t : ℕ). bit_or t (r / 2)) (half_of_twice (q * 2 ^ k)),
      ))
  where
    half_of_twice : (n : ℕ) → n * 2 / 2 ≡ n
    half_of_twice n = omega arith
