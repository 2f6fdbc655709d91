-- ===== src/Monitor/Words.antt =====
-- The splitting of runcmd finds the words of the line.
use mathlib.Core.Path.{subst}
use mit6_828_lab.Base.{
  ℕ, zero, suc, ◌+◌, ◌≤◌, ◌<◌, ◌≡◌, refl, ap, ◌∙◌, inl, inr, Bool, true, false, not, ◌==◌, leb,
  if◌then◌else◌, Bool-cases, List, [], ◌∷◌, arith, length,
}
use mit6_828_lab.Monitor.{
  is_white, gobble, scan, Arguments, arguments, too_many, first_argument, split_fuel, split,
}
use mit6_828_lab.Monitor.Split.{Starts, gobble-Starts, gobble-length, scan-shorter, round}

-- The text begins with a character of a word.
abbrev pub begins_word : List ℕ → Bool
begins_word [] = false
begins_word (c ∷ s) = not (is_white c)

-- A character in front of a text with the words `ws`, which goes on with a word or not.
abbrev pub extend : ℕ → Bool → List (List ℕ) → List (List ℕ)
extend c true (w ∷ ws) = (c ∷ w) ∷ ws
extend c true [] = (c ∷ []) ∷ []
extend c false ws = (c ∷ []) ∷ ws

-- The words of a text: its longest runs of characters other than white space, in order.
unfoldable pub words : List ℕ → List (List ℕ)
words [] = []
words (c ∷ s) = if is_white c then words s else extend c (begins_word s) (words s)

words-white : (c : ℕ) (s : List ℕ) → is_white c ≡ true → words (c ∷ s) ≡ words s
unfolding words
words-white c s white = rw white refl

words-char :
    (c : ℕ) (s : List ℕ) → is_white c ≡ false → words (c ∷ s) ≡ extend c (begins_word s) (words s)
unfolding words
words-char c s word = rw word refl

words-gobble : (s : List ℕ) → words (gobble s) ≡ words s
unfolding gobble
words-gobble [] = refl
words-gobble (c ∷ s) = elim (Bool-cases (is_white c)) [
  | inl white ↦ rw (words-white c s white, white) (words-gobble s)
  | inr word ↦ rw (words-char c s word, word) (words-char c s word)
]

scan-white : (c : ℕ) (s : List ℕ) → is_white c ≡ true → scan (c ∷ s) ≡ ([], c ∷ s)
unfolding scan
scan-white c s white = rw white refl

scan-char : (c : ℕ) (s : List ℕ) → is_white c ≡ false → scan (c ∷ s) ≡ (c ∷ (scan s).0, (scan s).1)
unfolding scan
scan-char c s word = rw word refl

words-scan_last :
    (c : ℕ) → is_white c ≡ false → words (c ∷ []) ≡ (scan (c ∷ [])).0 ∷ words (scan (c ∷ [])).1
unfolding words scan
words-scan_last c word = rw word refl

words-scan :
    (c : ℕ) (s : List ℕ)
    → is_white c ≡ false
    → words (c ∷ s) ≡ (scan (c ∷ s)).0 ∷ words (scan (c ∷ s)).1
words-scan c [] word = words-scan_last c word
words-scan c (d ∷ t) word = elim (Bool-cases (is_white d)) [
  | inl white ↦
      rw (words-char c (d ∷ t) word, scan-char c (d ∷ t) word, scan-white d t white, white) refl
  | inr more ↦
      rw (words-char c (d ∷ t) word, scan-char c (d ∷ t) word, words-scan d t more, more) refl
]

-- What the splitting comes to, with `argc` words before those of the text.
abbrev outcome : ℕ → List (List ℕ) → Arguments
outcome argc ws = if leb (argc + length ws) 15 then arguments ws else too_many

first_argument-outcome :
    (argc : ℕ) (w : List ℕ) (ws : List (List ℕ))
    → first_argument w (outcome (argc + 1) ws) ≡ outcome argc (w ∷ ws)
first_argument-outcome argc w ws =
    let same : argc + length (w ∷ ws) ≡ argc + 1 + length ws = omega arith in
    elim (Bool-cases (leb (argc + 1 + length ws) 15)) [
      | inl fits ↦ rw (same, fits) refl
      | inr over ↦ rw (same, over) refl
    ]

round-words :
    (fuel argc : ℕ) (g : List ℕ)
    → Starts g
    → length g ≤ fuel
    → argc ≤ 15
    → ((s : List ℕ)
        → length s < fuel
        → argc + 1 ≤ 15
        → split_fuel fuel (argc + 1) s ≡ outcome (argc + 1) (words s))
    → round fuel argc g ≡ outcome argc (words g)
unfolding words
round-words fuel argc [] starts h room next = ground arith
round-words fuel argc (c ∷ s) starts h room next = elim (Bool-cases (argc == 15)) [
  | inl full ↦
      let over : leb (argc + length ((scan (c ∷ s)).0 ∷ words (scan (c ∷ s)).1)) 15 ≡ false =
        ground arith in
      rw (full, words-scan c s starts, over) refl
  | inr more ↦
      rw
        (
          more,
          words-scan c s starts,
          next (scan (c ∷ s)).1 (omega (arith, scan-shorter c s starts)) (ground arith),
        )
        (first_argument-outcome argc (scan (c ∷ s)).0 (words (scan (c ∷ s)).1))
]

split_fuel-words :
    (fuel argc : ℕ) (buf : List ℕ)
    → length buf < fuel
    → argc ≤ 15
    → split_fuel fuel argc buf ≡ outcome argc (words buf)
unfolding split_fuel
split_fuel-words zero argc buf h room = absurd (omega arith)
split_fuel-words (suc fuel) argc buf h room =
    round-words fuel argc (gobble buf) (gobble-Starts buf) (omega (arith, gobble-length buf)) room
      (λ s lt room'. split_fuel-words fuel (argc + 1) s lt room')
    ∙ ap (λ ws. outcome argc ws) (words-gobble buf)

-- runcmd splits a line into its words, the longest runs of characters other than white space, in order; with more than 15 of
-- them it gives up, as the last place of argv is for NULL.
pub split-words :
    (buf : List ℕ)
    → split buf ≡ (if leb (length (words buf)) 15 then arguments (words buf) else too_many)
unfolding split
split-words buf =
    let count : 0 + length (words buf) ≡ length (words buf) = omega arith in
    subst
      (λ n.
        split_fuel (length buf + 1) 0 buf ≡ (if leb n 15 then arguments (words buf) else too_many))
      count (split_fuel-words (length buf + 1) 0 buf (omega arith) (omega arith))
