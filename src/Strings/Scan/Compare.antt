-- ===== src/Strings/Scan/Compare.antt =====
-- What strcmp, strchr, strfind and strlen find in strings of bytes that end at the first 0.
use mathlib.Core.Option
use mit6_828_lab.Base.{
  ℕ, suc, ◌≡◌, ◌≢◌, ◌↔◌, refl, sym, ap, ◌∙◌, inl, inr, Bool, true, false, ◌==◌, ◌&&◌, not, none,
  some, List, [], ◌∷◌, ◌++◌, arith, length, Bool-cases,
}
use mit6_828_lab.Base.Int.{pos, sub_ℕ}
use mit6_828_lab.Strings.Scan.{strlen, strcmp, strchr, strfind}

-- None of the bytes is `c`.
abbrev pub lacks : ℕ → List ℕ → Bool
lacks c [] = true
lacks c (x ∷ xs) = not (x == c) && lacks c xs

-- strlen gives the number of bytes before the first 0.
pub strlen-length :
    (text rest : List ℕ) → lacks 0 text ≡ true → strlen (text ++ 0 ∷ rest) ≡ some (length text)
unfolding strlen
strlen-length [] rest h = refl
strlen-length (x ∷ text) rest h =
    let other : (x == 0) ≡ false = ground arith in
    rw other (ap (Option.map suc) (strlen-length text rest (ground arith)))

sub-zero : (a b : ℕ) → sub_ℕ a b ≡ pos 0 → a ≡ b
sub-zero a b h = ground arith

strcmp-same :
    (p r r' : List ℕ) → lacks 0 p ≡ true → strcmp (p ++ 0 ∷ r) (p ++ 0 ∷ r') ≡ some (pos 0)
unfolding strcmp
strcmp-same [] r r' h = refl
strcmp-same (a ∷ p) r r' h =
    let other : (a == 0) ≡ false = ground arith in
    let same : (a == a) ≡ true = ground arith in
    rw (other, same) (strcmp-same p r r' (ground arith))

strcmp-first : (a b : ℕ) (p q : List ℕ) → a ≢ b → strcmp (a ∷ p) (b ∷ q) ≢ some (pos 0)
unfolding strcmp
strcmp-first a b p q h = ground arith

strcmp-equal :
    (p q r r' : List ℕ)
    → lacks 0 p ≡ true
    → lacks 0 q ≡ true
    → strcmp (p ++ 0 ∷ r) (q ++ 0 ∷ r') ≡ some (pos 0)
    → p ≡ q
unfolding strcmp
strcmp-equal [] [] r r' hp hq e = refl
strcmp-equal [] (b ∷ q) r r' hp hq e = absurd (strcmp-first 0 b r (q ++ 0 ∷ r') (ground arith) e)
strcmp-equal (a ∷ p) [] r r' hp hq e = absurd (strcmp-first a 0 (p ++ 0 ∷ r) r' (ground arith) e)
strcmp-equal (a ∷ p) (b ∷ q) r r' hp hq e = elim (Bool-cases (a == b)) [
  | inl same ↦
      let other : (a == 0) ≡ false = ground arith in
      let tails : p ≡ q =
        strcmp-equal p q r r' (ground arith) (ground arith) (rw (other, same) at e) in
      let heads : a ≡ b = ground arith in rw (heads, tails) refl
  | inr differ ↦ absurd (strcmp-first a b (p ++ 0 ∷ r) (q ++ 0 ∷ r') (ground arith) e)
]

-- strcmp of two strings is 0 exactly if they have the same bytes before their first 0.
pub strcmp-zero :
    (p q r r' : List ℕ)
    → lacks 0 p ≡ true
    → lacks 0 q ≡ true
    → (strcmp (p ++ 0 ∷ r) (q ++ 0 ∷ r') ≡ some (pos 0)) ↔ (p ≡ q)
strcmp-zero p q r r' hp hq = (
  strcmp-equal p q r r' hp hq,
  λ e. ap (λ t. strcmp (p ++ 0 ∷ r) (t ++ 0 ∷ r')) (sym e) ∙ strcmp-same p r r' hp,
)

-- strchr and strfind pass over bytes that are neither 0 nor `c`. At `c` both return the pointer to it; at the end of the
-- string strchr returns NULL and strfind the pointer to the 0.
pub strchr-strfind :
    (xs rest : List ℕ) (c : ℕ)
    → lacks 0 xs ≡ true
    → lacks c xs ≡ true
    → c ≢ 0
    → (strchr (xs ++ c ∷ rest) c ≡ some (some (c ∷ rest)))
      × (strfind (xs ++ c ∷ rest) c ≡ some (c ∷ rest))
      × (strchr (xs ++ 0 ∷ rest) c ≡ some none)
      × (strfind (xs ++ 0 ∷ rest) c ≡ some (0 ∷ rest))
unfolding strchr strfind
strchr-strfind [] rest c h0 hc ne =
    let found : (c == c) ≡ true = ground arith in
    let more : (c == 0) ≡ false = ground arith in
    (rw (more, found) refl, rw (more, found) refl, refl, refl)
strchr-strfind (x ∷ xs) rest c h0 hc ne =
    let other : (x == c) ≡ false = ground arith in
    let more : (x == 0) ≡ false = ground arith in
    rw (more, other) (strchr-strfind xs rest c (ground arith) (ground arith) ne)
