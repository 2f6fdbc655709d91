-- ===== src/Printf/Format/Conversions.antt =====
-- What vprintfmt of lib/printfmt.c prints for plain text and for its conversions.
use mathlib.Core.List.{append-nil}
use mathlib.Core.Path.{subst}
use mit6_828_lab.Base.{
  ℕ, ◌+◌, ◌-◌, ◌^◌, ◌≤◌, ◌<◌, ◌≡◌, refl, ap, ◌∙◌, inl, inr, Bool, true, false, none, some, List, [],
  ◌∷◌, ◌++◌, arith, ltb, leb, ◌==◌, ◌&&◌, ◌||◌, not, if◌then◌else◌, Bool-cases, length, replicate,
  take, map,
}
use mit6_828_lab.Base.Int.{pos, signed}
use mit6_828_lab.Printf.Number.{printnum}
use mit6_828_lab.Printf.Number.Text.{IsNumeral, printnum-value}
use mit6_828_lab.Printf.Format.{
  Arg, word, str, Spec, no_spec, go, stop, parse_step, switch, conversion, parse_spec, literal,
  convert, signed_text, visible, prefix, vprintfmt,
}
use mit6_828_lab.Printf.Format.Rounds.{parse_spec-next, vprintfmt-cons, prefix-nil, prefix-prefix}

abbrev pub no_percent : List ℕ → Bool
no_percent [] = true
no_percent (c ∷ cs) = not (c == b'%') && no_percent cs

-- Text without a '%' is printed as it is, before what the rest of the format prints.
pub vprintfmt-plain :
    (xs fmt : List ℕ) (ap' : List Arg)
    → no_percent xs ≡ true
    → vprintfmt (xs ++ fmt) ap' ≡ prefix xs (vprintfmt fmt ap')
vprintfmt-plain [] fmt ap' h = prefix-nil (vprintfmt fmt ap')
vprintfmt-plain (x ∷ xs) fmt ap' h =
    let plain : (x == b'%') ≡ false = ground arith in
    let rest : _ = vprintfmt-plain xs fmt ap' (ground arith) in
    vprintfmt-cons x (xs ++ fmt) ap'
    ∙ rw (plain, rest) (prefix-prefix (x ∷ []) xs (vprintfmt fmt ap'))

-- Without a width there is no padding.
unpadded :
    (num base padc : ℕ)
    → 2 ≤ base
    → base ≤ 16
    → num < 2 ^ 64
    → (text : List ℕ) × (printnum num base 0 padc ≡ text) × IsNumeral base num text
unpadded num base padc lo hi h =
    let (text, made, value) = printnum-value num base 0 padc lo hi h in
    let none_left : 0 - length text ≡ 0 = omega arith in (text, made ∙ rw none_left, value)

vprintfmt-d :
    (w : ℕ) (fmt : List ℕ) (ap' : List Arg)
    → vprintfmt (b'%' ∷ b'd' ∷ fmt) (word w ∷ ap')
      ≡ prefix (signed_text no_spec (signed 32 w)) (vprintfmt fmt ap')
unfolding parse_spec convert
vprintfmt-d w fmt ap' = rw vprintfmt-cons

-- "%d" prints the signed decimal text of its argument: a minus sign if the word is negative, and one
-- decimal digit or more, which read back as the magnitude; then the rest of the format is printed with the other arguments.
pub vprintfmt-decimal :
    (w : ℕ) (fmt : List ℕ) (ap' : List Arg)
    → w < 2 ^ 32
    → (text : List ℕ) × (vprintfmt (b'%' ∷ b'd' ∷ fmt) (word w ∷ ap')
        ≡ prefix (if ltb w (2 ^ 31) then text else b'-' ∷ text) (vprintfmt fmt ap'))
      × IsNumeral 10 (if ltb w (2 ^ 31) then w else 2 ^ 32 - w) text
vprintfmt-decimal w fmt ap' h = elim (Bool-cases (ltb w (2 ^ 31))) [
  | inl positive ↦
      let (text, made, value) = unpadded w 10 32 (omega arith) (omega arith) (omega arith) in
      (text, vprintfmt-d w fmt ap' ∙ rw (positive, made), rw positive value)
  | inr negative ↦
      let magnitude : 2 ^ 32 - w - 1 + 1 ≡ 2 ^ 32 - w = ground arith in
      let (text, made, value) =
        unpadded (2 ^ 32 - w - 1 + 1) 10 32 (omega arith) (omega arith) (omega arith) in
      (
        text,
        vprintfmt-d w fmt ap' ∙ rw (negative, made),
        rw negative (subst (λ (n : ℕ). IsNumeral 10 n text) magnitude value),
      )
]

map-visible : (s : List ℕ) → map (visible false) s ≡ s
map-visible [] = refl
map-visible (c ∷ s) = ap (λ t. c ∷ t) (map-visible s)

no_room : (n : ℕ) → replicate {A = ℕ} (0 - n) 32 ≡ []
no_room n = let zero_room : 0 - n ≡ 0 = omega arith in rw zero_room

-- "%s" prints a string's bytes, and "%.*s" the first `n` of them (`n` as an int that is not negative).
pub vprintfmt-string :
    (s fmt : List ℕ) (n : ℕ) (ap' : List Arg)
    → n < 2 ^ 31
    → (vprintfmt (b'%' ∷ b's' ∷ fmt) (str s ∷ ap') ≡ prefix s (vprintfmt fmt ap'))
      × (vprintfmt (b'%' ∷ b'.' ∷ b'*' ∷ b's' ∷ fmt) (word n ∷ str s ∷ ap')
          ≡ prefix (take n s) (vprintfmt fmt ap'))
unfolding parse_spec convert
vprintfmt-string s fmt n ap' h =
    let is_pos : ltb n (2 ^ 31) ≡ true = ground arith in
    (
      vprintfmt-cons b'%' (b's' ∷ fmt) (str s ∷ ap')
          ∙ rw (no_room (length s), map-visible s, append-nil s),
      vprintfmt-cons b'%' (b'.' ∷ b'*' ∷ b's' ∷ fmt) (word n ∷ str s ∷ ap')
          ∙ rw (is_pos, no_room (length (take n s)), map-visible (take n s), append-nil (take n s)),
    )

abbrev is_flag : ℕ → Bool
is_flag c =
    (leb b'0' c && leb c b'9')
    || (c == b'*')
    || (c == b'-')
    || (c == b'.')
    || (c == b'#')
    || (c == b'l')

abbrev is_conversion : ℕ → Bool
is_conversion c =
    (c == b'c')
    || (c == b'e')
    || (c == b's')
    || (c == b'd')
    || (c == b'u')
    || (c == b'o')
    || (c == b'p')
    || (c == b'x')
    || (c == b'%')

-- The characters that mean something behind a '%'.
abbrev pub is_special : ℕ → Bool
is_special c = is_flag c || is_conversion c

parse_step-stop :
    (c : ℕ) (ap' : List Arg) → is_flag c ≡ false → parse_step none c no_spec ap' ≡ stop no_spec
unfolding parse_step switch
parse_step-stop c ap' h = ground arith

convert-literal :
    (c : ℕ) (ap' : List Arg) → is_conversion c ≡ false → convert c no_spec ap' ≡ literal
unfolding convert
convert-literal c ap' h = ground arith

-- An unknown conversion character prints the '%', and then it and what follows it as plain text
-- would be.
pub vprintfmt-unknown :
    (c : ℕ) (fmt : List ℕ) (ap' : List Arg)
    → is_special c ≡ false
    → vprintfmt (b'%' ∷ c ∷ fmt) ap' ≡ prefix (b'%' ∷ []) (prefix (c ∷ []) (vprintfmt fmt ap'))
vprintfmt-unknown c fmt ap' h =
    let stops : _ = parse_step-stop c ap' (ground arith) in
    let unknown : _ = convert-literal c ap' (ground arith) in
    let plain : _ = vprintfmt-plain (c ∷ []) fmt ap' (ground arith) in
    vprintfmt-cons b'%' (c ∷ fmt) ap'
    ∙ rw (parse_spec-next none c fmt no_spec ap', stops, unknown, plain)

abbrev minus_width : ℕ → Spec
minus_width n = record no_spec { padc = b'-'; width = pos n }

digit_step :
    (n : ℕ) (sp : Spec) (ap' : List Arg)
    → 1 ≤ n
    → n ≤ 9
    → parse_step none (n + 48) sp ap' ≡ go (some n) sp ap'
unfolding parse_step
digit_step n sp ap' lo hi =
    let width : n + 48 - 48 ≡ n = omega arith in
    ground (arith, ap (λ (t : ℕ). go (some t) sp ap') width)

parse-minus_width :
    (n : ℕ) (fmt : List ℕ) (ap' : List Arg)
    → 1 ≤ n
    → n ≤ 9
    → parse_spec none (b'-' ∷ (n + 48) ∷ b'd' ∷ fmt) no_spec ap'
      ≡ conversion b'd' fmt (minus_width n) ap'
unfolding parse_step
parse-minus_width n fmt ap' lo hi =
    parse_spec-next none b'-' ((n + 48) ∷ b'd' ∷ fmt) no_spec ap'
    ∙ parse_spec-next none (n + 48) (b'd' ∷ fmt) (record no_spec { padc = b'-' }) ap'
    ∙ rw (digit_step n (record no_spec { padc = b'-' }) ap' lo hi)
        (parse_spec-next (some n) b'd' fmt (record no_spec { padc = b'-' }) ap')

-- "%-Nd" of a number that is not negative pads on the left, with minus signs, although the flag is described as padding on the right.
pub vprintfmt-minus_flag :
    (w n : ℕ) (fmt : List ℕ) (ap' : List Arg)
    → w < 2 ^ 31
    → 1 ≤ n
    → n ≤ 9
    → (text : List ℕ) × (vprintfmt (b'%' ∷ b'-' ∷ (n + 48) ∷ b'd' ∷ fmt) (word w ∷ ap')
        ≡ prefix (replicate (n - length text) b'-' ++ text) (vprintfmt fmt ap'))
      × IsNumeral 10 w text
unfolding convert
vprintfmt-minus_flag w n fmt ap' h lo hi =
    let (text, made, value) =
      printnum-value w 10 n b'-' (omega arith) (omega arith) (omega arith) in
    let is_pos : ltb w (2 ^ 31) ≡ true = ground arith in
    (
      text,
      vprintfmt-cons b'%' (b'-' ∷ (n + 48) ∷ b'd' ∷ fmt) (word w ∷ ap')
          ∙ rw (parse-minus_width n fmt (word w ∷ ap') lo hi, convert, is_pos, made),
      value,
    )
