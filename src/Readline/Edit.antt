-- ===== src/Readline/Edit.antt =====
-- The line as a stack of characters, latest first: what readline puts into its buffer.
use mit6_828_lab.Base.{
  ℕ, zero, suc, ◌+◌, ◌-◌, ◌%◌, ◌≤◌, ◌<◌, ◌≡◌, refl, ap, ◌∙◌, inl, inr, Bool, true, false, ◌==◌, ltb,
  leb, ◌&&◌, ◌||◌, not, ◌++◌, if◌then◌else◌, Bool-cases, List, [], ◌∷◌, map, arith, length,
}
use native.Mathlib.Numerals.{add-one}
use mit6_828_lab.Base.Int.{ℤ, pos}
use mit6_828_lab.Readline.{
  Line, line, cputchar, set_char, erase, append, edit, ends_line, readline_loop, readline,
}

-- A backspace removes the latest character. The first character may be a DEL: it is above ' '. Others join up to 1023.
pub typed : ℕ → List ℕ → List ℕ
typed c [] = if leb 32 c then c % 256 ∷ [] else []
typed c (x ∷ xs) =
    if (c == 8) || (c == 127)
    then xs
    else (if leb 32 c && ltb (length (x ∷ xs)) 1023 then c % 256 ∷ x ∷ xs else x ∷ xs)

pub typed_all : List ℕ → List ℕ → List ℕ
typed_all [] kept = kept
typed_all (c ∷ cs) kept = typed_all cs (typed c kept)

-- The first `i` bytes of the buffer, latest first.
pub latest_first : (ℕ → ℕ) → ℕ → List ℕ
latest_first buf zero = []
latest_first buf (suc i) = buf i ∷ latest_first buf i

latest_first-write :
    (buf : ℕ → ℕ) (w x i : ℕ)
    → i ≤ w
    → latest_first (λ j. if w == j then x else buf j) i ≡ latest_first buf i
unfolding latest_first
latest_first-write buf w x zero h = refl
latest_first-write buf w x (suc i) h =
    let other : (w == i) ≡ false = ground arith in
    rw other (ap (λ t. buf i ∷ t) (latest_first-write buf w x i (omega arith)))

length-latest_first : (buf : ℕ → ℕ) (i : ℕ) → length (latest_first buf i) ≡ i
unfolding latest_first
length-latest_first buf zero = refl
length-latest_first buf (suc i) = ap suc (length-latest_first buf i)

-- The line holds what is kept and has room for the 0.
abbrev Holds : List ℕ → Line → Type 0
Holds kept l = (latest_first l.buf l.i ≡ kept) × (l.i ≤ 1023)

latest_first-append :
    (buf : ℕ → ℕ) (i x : ℕ)
    → latest_first (λ j. if i == j then x else buf j) (i + 1) ≡ x ∷ latest_first buf i
unfolding latest_first
latest_first-append buf i x =
    let same : (i == i) ≡ true = ground arith in
    rw (add-one, same, latest_first-write buf i x i (omega arith)) refl

append-Holds :
    (echoing : Bool) (c : ℕ) (l : Line)
    → l.i < 1023
    → Holds (c % 256 ∷ latest_first l.buf l.i) (append echoing c l)
append-Holds true c l h = (latest_first-append l.buf l.i (c % 256), omega arith)
append-Holds false c l h = (latest_first-append l.buf l.i (c % 256), omega arith)

erase-Holds :
    (echoing : Bool) (i : ℕ) (buf : ℕ → ℕ) (echo : List ℕ)
    → suc i ≤ 1023
    → Holds (latest_first buf i) (erase echoing (record { i = suc i; buf = buf; echo = echo }))
erase-Holds true i buf echo h =
    let less : suc i - 1 ≡ i = omega arith in (rw less refl, omega arith)
erase-Holds false i buf echo h =
    let less : suc i - 1 ≡ i = omega arith in (rw less refl, omega arith)

edit-Holds :
    (echoing : Bool) (c i : ℕ) (buf : ℕ → ℕ) (echo : List ℕ)
    → i ≤ 1023
    → Holds
        (typed c (latest_first buf i))
        (edit echoing c (record { i = i; buf = buf; echo = echo }))
unfolding edit latest_first typed
edit-Holds echoing c zero buf echo h = elim (Bool-cases (leb 32 c)) [
  | inl visible ↦
      let first : (((c == 8) || (c == 127)) && false) ≡ false = ground arith in
      rw (visible, first)
        (append-Holds echoing c (record { i = 0; buf = buf; echo = echo }) (omega arith))
  | inr control ↦
      let first : (((c == 8) || (c == 127)) && false) ≡ false = ground arith in
      rw (control, first) (refl, omega arith)
]
edit-Holds echoing c (suc i) buf echo h =
    let some_typed : ltb 0 (suc i) ≡ true = ground arith in
    elim (Bool-cases ((c == 8) || (c == 127))) [
      | inl back ↦ rw (back, some_typed) (erase-Holds echoing i buf echo h)
      | inr other ↦
          let size : length (latest_first buf i) ≡ i = length-latest_first buf i in
          elim (Bool-cases (leb 32 c && ltb (suc i) 1023)) [
            | inl fits ↦
                rw (other, size, fits)
                  (append-Holds echoing c (record { i = suc i; buf = buf; echo = echo })
                    (ground arith))
            | inr drops ↦ rw (other, size, drops) (refl, h)
          ]
    ]

-- The characters before the end of the line, as getchar returns them.
abbrev pub before_end : List ℕ → Bool
before_end [] = true
before_end (c ∷ cs) = not (ends_line c) && before_end cs

closed_line :
    (l : Line)
    → (latest_first (set_char 0 l).buf l.i ≡ latest_first l.buf l.i) × ((set_char 0 l).buf l.i ≡ 0)
closed_line l =
    let same : (l.i == l.i) ≡ true = ground arith in
    (latest_first-write l.buf l.i 0 l.i (omega arith), rw same refl)

readline_loop-Holds :
    (echoing : Bool) (cs : List ℕ) (more : List ℤ) (end : ℕ) (l : Line)
    → before_end cs ≡ true
    → ends_line end ≡ true
    → l.i ≤ 1023
    → (l' : Line) × (readline_loop echoing (map pos cs ++ pos end ∷ more) l ≡ line l')
      × (latest_first l'.buf l'.i ≡ typed_all cs (latest_first l.buf l.i))
      × (l'.i ≤ 1023)
      × (l'.buf l'.i ≡ 0)
unfolding readline_loop typed_all
readline_loop-Holds true [] more end l h e room =
    let (kept, closed) = closed_line l in
    (set_char 0 (cputchar true 10 l), rw e refl, kept, room, closed)
readline_loop-Holds false [] more end l h e room =
    let (kept, closed) = closed_line l in
    (set_char 0 (cputchar false 10 l), rw e refl, kept, room, closed)
readline_loop-Holds echoing (c ∷ cs) more end l h e room =
    let goes_on : ends_line c ≡ false = ground arith in
    let (held, fits) = edit-Holds echoing c l.i l.buf l.echo room in
    let (l', returned, kept, small, closed) =
      readline_loop-Holds echoing cs more end (edit echoing c l) (ground arith) e fits in
    (l', rw goes_on returned, kept ∙ ap (typed_all cs) held, small, closed)

-- A line of characters up to a newline or a carriage return: readline returns with the buffer holding, in order, the
-- characters that are left after every backspace has removed the one before it, at most 1023 of them and none that is
-- below ' ', and a 0 behind them.
pub readline-typed :
    (echoing : Bool) (cs : List ℕ) (more : List ℤ) (end : ℕ) (stack : ℕ → ℕ)
    → before_end cs ≡ true
    → ends_line end ≡ true
    → (l : Line) × (readline echoing (map pos cs ++ pos end ∷ more) stack ≡ line l)
      × (latest_first l.buf l.i ≡ typed_all cs [])
      × (l.i ≤ 1023)
      × (l.buf l.i ≡ 0)
unfolding readline latest_first
readline-typed echoing cs more end stack h e =
    readline_loop-Holds echoing cs more end (record { i = 0; buf = stack; echo = [] }) h e
      (omega arith)
