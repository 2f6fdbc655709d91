-- ===== src/Printf/Format/Rounds.antt =====
-- vprintfmt of lib/printfmt.c, round by round: its loop has enough fuel and ends.
use mathlib.Core.List.{append_assoc}
use mit6_828_lab.Base.{
  ℕ, zero, suc, ◌+◌, ◌≤◌, ◌<◌, ◌≡◌, ◌≢◌, refl, sym, ap, ◌∙◌, inl, inr, Option, none, List, [], ◌∷◌,
  ◌++◌, arith, ◌==◌, if◌then◌else◌, Bool-cases, length,
}
use mit6_828_lab.Printf.Format.{
  Arg, Spec, no_spec, Step, go, stop, no_arg, parse_step, Parsed, conversion, arg_fault, parse_spec,
  close_number, Converted, prints, literal, bad_arg, convert, Output, printed, fault, out_of_fuel,
  prefix, vprintfmt_fuel, vprintfmt,
}

-- What is left behind an escape sequence is no longer than what stood behind its '%'.
abbrev Shorter : ℕ → Parsed → Type 0
Shorter n (conversion c rest sp ap) = length rest ≤ n
Shorter n arg_fault = Unit {0}

Shorter-suc : (n : ℕ) (p : Parsed) → Shorter n p → Shorter (suc n) p
Shorter-suc n (conversion c rest sp ap) h = omega arith
Shorter-suc n arg_fault h = tt

-- One round of parse_spec, as a function of its step.
abbrev pub next : ℕ → List ℕ → List Arg → Step → Parsed
next c cs ap (go number sp ap') = parse_spec number cs sp ap'
next c cs ap (stop sp) = conversion c cs sp ap
next c cs ap no_arg = arg_fault

pub parse_spec-next :
    (number : Option ℕ) (c : ℕ) (cs : List ℕ) (sp : Spec) (ap : List Arg)
    → parse_spec number (c ∷ cs) sp ap ≡ next c cs ap (parse_step number c sp ap)
unfolding parse_spec
parse_spec-next number c cs sp ap = ground arith

next-Shorter :
    (c : ℕ) (cs : List ℕ) (ap : List Arg) (step : Step)
    → ((number : Option ℕ) (sp : Spec) (ap' : List Arg)
        → Shorter (length cs) (parse_spec number cs sp ap'))
    → Shorter (suc (length cs)) (next c cs ap step)
next-Shorter c cs ap (go number sp ap') ih =
    Shorter-suc (length cs) (parse_spec number cs sp ap') (ih number sp ap')
next-Shorter c cs ap (stop sp) ih = omega arith
next-Shorter c cs ap no_arg ih = tt

parse_spec-nil :
    (number : Option ℕ) (sp : Spec) (ap : List Arg)
    → parse_spec number [] sp ap ≡ conversion 0 [] (close_number number sp) ap
unfolding parse_spec
parse_spec-nil number sp ap = refl

parse_spec-Shorter :
    (cs : List ℕ) (number : Option ℕ) (sp : Spec) (ap : List Arg)
    → Shorter (length cs) (parse_spec number cs sp ap)
parse_spec-Shorter [] number sp ap = rw parse_spec-nil (omega arith)
parse_spec-Shorter (c ∷ cs) number sp ap =
    rw parse_spec-next
      (next-Shorter c cs ap (parse_step number c sp ap) (λ n s a. parse_spec-Shorter cs n s a))

-- What one escape sequence prints and then the rest, by a function for the rest.
abbrev pub converted :
    (List ℕ → List Arg → Output) → List ℕ → List ℕ → List Arg → Converted → Output
converted k cs rest ap' bad_arg = fault
converted k cs rest ap' (prints text ap'') = prefix text (k rest ap'')
converted k cs rest ap' literal = prefix (b'%' ∷ []) (k cs ap')

abbrev pub escaped : (List ℕ → List Arg → Output) → List ℕ → Parsed → Output
escaped k cs arg_fault = fault
escaped k cs (conversion c rest sp ap') = converted k cs rest ap' (convert c sp ap')

-- One round of the loop.
abbrev pub round : (List ℕ → List Arg → Output) → ℕ → List ℕ → List Arg → Output
round k c cs ap =
    if c == b'%' then escaped k cs (parse_spec none cs no_spec ap) else prefix (c ∷ []) (k cs ap)

vprintfmt_fuel-round :
    (fuel : ℕ) (c : ℕ) (cs : List ℕ) (ap : List Arg)
    → vprintfmt_fuel (suc fuel) (c ∷ cs) ap ≡ round (vprintfmt_fuel fuel) c cs ap
unfolding vprintfmt_fuel
vprintfmt_fuel-round fuel c cs ap = ground arith

-- Two continuations that agree on shorter formats make the same round.
abbrev Agree : ℕ → (List ℕ → List Arg → Output) → (List ℕ → List Arg → Output) → Type 0
Agree n k l = (cs : List ℕ) (ap : List Arg) → length cs ≤ n → k cs ap ≡ l cs ap

module _ (k l : List ℕ → List Arg → Output) (cs : List ℕ) (agree : Agree (length cs) k l) where
  converted_agree :
      (rest : List ℕ) (ap' : List Arg) (made : Converted)
      → length rest ≤ length cs
      → converted k cs rest ap' made ≡ converted l cs rest ap' made
  converted_agree rest ap' bad_arg h = refl
  converted_agree rest ap' (prints text ap'') h = rw (agree rest ap'' h)
  converted_agree rest ap' literal h = rw (agree cs ap' (omega arith))

  escaped_agree : (p : Parsed) → Shorter (length cs) p → escaped k cs p ≡ escaped l cs p
  escaped_agree arg_fault h = refl
  escaped_agree (conversion c rest sp ap') h = converted_agree rest ap' (convert c sp ap') h

  round_agree : (c : ℕ) (ap' : List Arg) → round k c cs ap' ≡ round l c cs ap'
  round_agree c ap' = rw (
    escaped_agree (parse_spec none cs no_spec ap') (parse_spec-Shorter cs none no_spec ap'),
    agree cs ap' (omega arith),
  )

-- More fuel than the format is long changes nothing.
enough_fuel :
    (fuel fuel' : ℕ) (fmt : List ℕ) (ap' : List Arg)
    → length fmt < fuel
    → length fmt < fuel'
    → vprintfmt_fuel fuel fmt ap' ≡ vprintfmt_fuel fuel' fmt ap'
enough_fuel zero fuel' fmt ap' h h' = absurd (omega arith)
enough_fuel (suc fuel) zero fmt ap' h h' = absurd (omega arith)
enough_fuel (suc fuel) (suc fuel') [] ap' h h' = unfold vprintfmt_fuel in refl
enough_fuel (suc fuel) (suc fuel') (c ∷ cs) ap' h h' =
    rw (vprintfmt_fuel-round fuel c cs ap', vprintfmt_fuel-round fuel' c cs ap')
      (round_agree (vprintfmt_fuel fuel) (vprintfmt_fuel fuel') cs
        (λ ds a le. enough_fuel fuel fuel' ds a (omega arith) (omega arith)) c ap')

-- vprintfmt of a non-empty format is one round followed by vprintfmt.
pub vprintfmt-cons :
    (c : ℕ) (cs : List ℕ) (ap' : List Arg) → vprintfmt (c ∷ cs) ap' ≡ round vprintfmt c cs ap'
unfolding vprintfmt
vprintfmt-cons c cs ap' =
    enough_fuel (suc (length cs) + 1) (suc (suc (length cs))) (c ∷ cs) ap' (omega arith)
      (omega arith)
    ∙ vprintfmt_fuel-round (suc (length cs)) c cs ap'
    ∙ round_agree (vprintfmt_fuel (suc (length cs))) vprintfmt cs
        (λ ds a le. enough_fuel (suc (length cs)) (length ds + 1) ds a (omega arith) (omega arith))
        c ap'

pub vprintfmt-nil : (ap' : List Arg) → vprintfmt [] ap' ≡ printed []
unfolding vprintfmt vprintfmt_fuel
vprintfmt-nil ap' = refl

pub prefix-nil : (o : Output) → o ≡ prefix [] o
prefix-nil (printed ys) = refl
prefix-nil fault = refl
prefix-nil out_of_fuel = refl

pub prefix-prefix : (xs ys : List ℕ) (o : Output) → prefix xs (prefix ys o) ≡ prefix (xs ++ ys) o
prefix-prefix xs ys (printed zs) = ap printed (sym (append_assoc xs ys zs))
prefix-prefix xs ys fault = refl
prefix-prefix xs ys out_of_fuel = refl

abbrev Ends : Output → Type 0
Ends (printed xs) = Unit {0}
Ends fault = Unit {0}
Ends out_of_fuel = ⊥

Ends-prefix : (xs : List ℕ) (o : Output) → Ends o → Ends (prefix xs o)
Ends-prefix xs (printed ys) h = tt
Ends-prefix xs fault h = tt
Ends-prefix xs out_of_fuel h = h

module _ (cs : List ℕ)
    (ends : (ds : List ℕ) (ap' : List Arg) → length ds ≤ length cs → Ends (vprintfmt ds ap')) where
  converted-Ends :
      (rest : List ℕ) (ap' : List Arg) (made : Converted)
      → length rest ≤ length cs
      → Ends (converted vprintfmt cs rest ap' made)
  converted-Ends rest ap' bad_arg h = tt
  converted-Ends rest ap' (prints text ap'') h =
      Ends-prefix text (vprintfmt rest ap'') (ends rest ap'' h)
  converted-Ends rest ap' literal h =
      Ends-prefix (b'%' ∷ []) (vprintfmt cs ap') (ends cs ap' (omega arith))

  escaped-Ends : (p : Parsed) → Shorter (length cs) p → Ends (escaped vprintfmt cs p)
  escaped-Ends arg_fault h = tt
  escaped-Ends (conversion c rest sp ap') h = converted-Ends rest ap' (convert c sp ap') h

  round-Ends : (c : ℕ) (ap' : List Arg) → Ends (round vprintfmt c cs ap')
  round-Ends c ap' = elim (Bool-cases (c == b'%')) [
    | inl escape ↦
        rw escape
          (escaped-Ends (parse_spec none cs no_spec ap') (parse_spec-Shorter cs none no_spec ap'))
    | inr plain ↦ rw plain (Ends-prefix (c ∷ []) (vprintfmt cs ap') (ends cs ap' (omega arith)))
  ]

vprintfmt-Ends : (n : ℕ) (fmt : List ℕ) (ap' : List Arg) → length fmt ≤ n → Ends (vprintfmt fmt ap')
vprintfmt-Ends n [] ap' h = rw vprintfmt-nil tt
vprintfmt-Ends zero (c ∷ cs) ap' h = absurd (omega arith)
vprintfmt-Ends (suc n) (c ∷ cs) ap' h =
    rw vprintfmt-cons (round-Ends cs (λ ds a le. vprintfmt-Ends n ds a (omega arith)) c ap')

-- vprintfmt ends on every format and every argument list: the loop never runs out of the fuel that
-- the format's length gives it.
pub vprintfmt_ends : (fmt : List ℕ) (ap' : List Arg) → vprintfmt fmt ap' ≢ out_of_fuel
vprintfmt_ends fmt ap' e = rw e at (vprintfmt-Ends (length fmt) fmt ap' (omega arith))
