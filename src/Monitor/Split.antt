-- ===== src/Monitor/Split.antt =====
-- runcmd always ends.
use mit6_828_lab.Base.{
  ℕ, zero, suc, ◌+◌, ◌≤◌, ◌<◌, ◌≡◌, ◌≢◌, inl, inr, false, ◌==◌, if◌then◌else◌, Bool-cases, List, [],
  ◌∷◌, arith, length,
}
use mit6_828_lab.Monitor.{
  is_white, gobble, scan, Arguments, arguments, too_many, out_of_fuel, first_argument, split_fuel,
  split,
}

pub gobble-length : (s : List ℕ) → length (gobble s) ≤ length s
unfolding gobble
gobble-length [] = omega arith
gobble-length (c ∷ s) = elim (Bool-cases (is_white c)) [
  | inl white ↦ rw white (omega (arith, gobble-length s))
  | inr word ↦ rw word (omega arith)
]

-- What is left begins with no white space.
abbrev pub Starts : List ℕ → Type 0
Starts [] = Unit {0}
Starts (c ∷ s) = is_white c ≡ false

pub gobble-Starts : (s : List ℕ) → Starts (gobble s)
unfolding gobble
gobble-Starts [] = tt
gobble-Starts (c ∷ s) = elim (Bool-cases (is_white c)) [
  | inl white ↦ rw white (gobble-Starts s)
  | inr word ↦ rw word word
]

scan-length : (s : List ℕ) → length (scan s).1 ≤ length s
unfolding scan
scan-length [] = omega arith
scan-length (c ∷ s) = elim (Bool-cases (is_white c)) [
  | inl white ↦ rw white (omega arith)
  | inr word ↦ rw word (omega (arith, scan-length s))
]

pub scan-shorter : (c : ℕ) (s : List ℕ) → is_white c ≡ false → length (scan (c ∷ s)).1 ≤ length s
unfolding scan
scan-shorter c s word = rw word (scan-length s)

Ends-first : (word : List ℕ) (a : Arguments) → a ≢ out_of_fuel → first_argument word a ≢ out_of_fuel
Ends-first word (arguments words) h = ground arith
Ends-first word too_many h = ground arith
Ends-first word out_of_fuel h = h

-- One round, behind the white space.
abbrev pub round : ℕ → ℕ → List ℕ → Arguments
round fuel argc [] = arguments []
round fuel argc (c ∷ s) =
    if argc == 15
    then too_many
    else first_argument (scan (c ∷ s)).0 (split_fuel fuel (argc + 1) (scan (c ∷ s)).1)

round_ends :
    (fuel argc : ℕ) (g : List ℕ)
    → Starts g
    → length g ≤ fuel
    → ((s : List ℕ) → length s < fuel → split_fuel fuel (argc + 1) s ≢ out_of_fuel)
    → round fuel argc g ≢ out_of_fuel
round_ends fuel argc [] starts h ends = ground arith
round_ends fuel argc (c ∷ s) starts h ends = elim (Bool-cases (argc == 15)) [
  | inl full ↦ rw full (ground arith)
  | inr room ↦ rw room (
      Ends-first (scan (c ∷ s)).0 (split_fuel fuel (argc + 1) (scan (c ∷ s)).1)
        (ends (scan (c ∷ s)).1 (omega (arith, scan-shorter c s starts))))
]

split_fuel_ends :
    (fuel argc : ℕ) (buf : List ℕ) → length buf < fuel → split_fuel fuel argc buf ≢ out_of_fuel
unfolding split_fuel
split_fuel_ends zero argc buf h = absurd (omega arith)
split_fuel_ends (suc fuel) argc buf h =
    round_ends fuel argc (gobble buf) (gobble-Starts buf) (omega (arith, gobble-length buf))
      (λ s le. split_fuel_ends fuel (argc + 1) s le)

-- The splitting of a command line never runs out of the fuel that its length gives it.
pub split_ends : (buf : List ℕ) → split buf ≢ out_of_fuel
unfolding split
split_ends buf = split_fuel_ends (length buf + 1) 0 buf (omega arith)
