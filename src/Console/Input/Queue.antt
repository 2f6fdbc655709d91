-- ===== src/Console/Input/Queue.antt =====
-- The input buffer as a queue of at most 511 characters, and what happens at 512.
use mit6_828_lab.Base.{
  ℕ, zero, suc, ◌+◌, ◌-◌, ◌%◌, ◌<◌, ◌≡◌, refl, sym, ap, ◌∙◌, inl, inr, Bool, true, false, List, [],
  ◌∷◌, ◌++◌, arith, ◌==◌, if◌then◌else◌, Bool-cases, ℕ-cases, length, length-append,
}
use mathlib.Core.List.{append_assoc, append-nil}
use mit6_828_lab.Console.Input.{Cons, consbufsize, next_pos, put, cons_intr, take_char, cons_getc}

pub record IsValid (s : Cons) : Type 0 where
  pub rpos_in : s.rpos < consbufsize
  pub wpos_in : s.wpos < consbufsize

-- The number of characters between the two positions.
abbrev pub unread : Cons → ℕ
unread s = (s.wpos + consbufsize - s.rpos) % consbufsize

-- The `n` bytes from position `p` on, going round.
abbrev pub window : (ℕ → ℕ) → ℕ → ℕ → List ℕ
window buf p zero = []
window buf p (suc n) = buf p ∷ window buf (next_pos p) n

abbrev pub contents : Cons → List ℕ
contents s = window s.buf s.rpos (unread s)

-- The bytes that cons_intr keeps of what it is given.
abbrev pub kept : List ℕ → List ℕ
kept [] = []
kept (c ∷ cs) = if c == 0 then kept cs else c % 256 ∷ kept cs

length-window : (buf : ℕ → ℕ) (p n : ℕ) → length (window buf p n) ≡ n
length-window buf p zero = refl
length-window buf p (suc n) = ap suc (length-window buf (next_pos p) n)

unread-contents : (s : Cons) (xs : List ℕ) → contents s ≡ xs → unread s ≡ length xs
unread-contents s xs e = rw (← e) (sym (length-window s.buf s.rpos (unread s)))

-- A byte written just behind a window extends it.
window-put :
    (n p w x : ℕ) (buf : ℕ → ℕ)
    → p < consbufsize
    → n < consbufsize
    → w ≡ (p + n) % consbufsize
    → window (λ i. if w == i then x else buf i) p (suc n) ≡ window buf p n ++ x ∷ []
window-put zero p w x buf hp hn e = ground arith
window-put (suc n) p w x buf hp hn e =
    let rest : _ = window-put n (next_pos p) w x buf (ground arith) (omega arith) (ground arith) in
    let other : (w == p) ≡ false = ground arith in rw other (ap (λ xs. buf p ∷ xs) rest)

unread-put :
    (s : Cons) (x : ℕ) → IsValid s → unread s + 1 < consbufsize → unread (put x s) ≡ suc (unread s)
unfolding put
unread-put s x v room = ground arith

pub put-IsValid : (s : Cons) (x : ℕ) → IsValid s → IsValid (put x s)
unfolding put
put-IsValid s x v = ground arith

put-contents :
    (s : Cons) (x : ℕ)
    → IsValid s
    → unread s + 1 < consbufsize
    → contents (put x s) ≡ contents s ++ x % 256 ∷ []
put-contents s x v room = rw (unread-put s x v room) (
    unfold put in
    window-put (unread s) s.rpos s.wpos (x % 256) s.buf v.rpos_in (omega arith) (omega (arith, v)))

cons_intr-nil : (s : Cons) → cons_intr [] s ≡ s
unfolding cons_intr
cons_intr-nil s = refl

cons_intr-skip :
    (c : ℕ) (cs : List ℕ) (s : Cons) → (c == 0) ≡ true → cons_intr (c ∷ cs) s ≡ cons_intr cs s
unfolding cons_intr
cons_intr-skip c cs s e = rw e

cons_intr-keep :
    (c : ℕ) (cs : List ℕ) (s : Cons)
    → (c == 0) ≡ false
    → cons_intr (c ∷ cs) s ≡ cons_intr cs (put c s)
unfolding cons_intr
cons_intr-keep c cs s e = rw e

-- As long as fewer than 512 characters are waiting, cons_intr appends to the queue every byte that is not 0,
-- in order, and keeps the positions in range.
pub cons_intr-contents :
    (cs : List ℕ) (s : Cons)
    → IsValid s
    → unread s + length (kept cs) < consbufsize
    → (contents (cons_intr cs s) ≡ contents s ++ kept cs) × IsValid (cons_intr cs s)
cons_intr-contents [] s v room = rw cons_intr-nil (rw append-nil, v)
cons_intr-contents (c ∷ cs) s v room = elim (Bool-cases (c == 0)) [
  | inl none_given ↦
      rw (cons_intr-skip c cs s none_given, none_given)
        (cons_intr-contents cs s v (rw none_given at room))
  | inr given ↦
      let space : unread s + suc (length (kept cs)) < consbufsize = rw given at room in
      let step : contents (put c s) ≡ contents s ++ c % 256 ∷ [] =
        put-contents s c v (omega arith) in
      let grown : unread (put c s) ≡ suc (unread s) = unread-put s c v (omega arith) in
      let rest : _ = cons_intr-contents cs (put c s) (put-IsValid s c v) (rw grown (omega arith)) in
      rw (cons_intr-keep c cs s given, given) (rest.0 ∙ rw (step, append_assoc), rest.1)
]

abbrev pub first_or_zero : List ℕ → ℕ
first_or_zero [] = 0
first_or_zero (x ∷ xs) = x

abbrev pub rest : List ℕ → List ℕ
rest [] = []
rest (x ∷ xs) = xs

take_char-some :
    (s : Cons) (n : ℕ)
    → IsValid s
    → unread s ≡ suc n
    → ((s.rpos == s.wpos) ≡ false) × (unread (record s { rpos = next_pos s.rpos }) ≡ n)
take_char-some s n v e = (ground arith, ground arith)

-- cons_getc's read takes the first character of the queue, or gives 0 and changes nothing if none waits.
pub take_char-contents :
    (s : Cons)
    → IsValid s
    → ((take_char s).0 ≡ first_or_zero (contents s))
      × (contents (take_char s).1 ≡ rest (contents s))
      × IsValid (take_char s).1
unfolding take_char
take_char-contents s v = elim (ℕ-cases (unread s)) [
  | inl none_waits ↦
      let same : (s.rpos == s.wpos) ≡ true = ground arith in rw (same, none_waits) (refl, refl, v)
  | inr (n, e) ↦
      let some_wait : _ = take_char-some s n v e in
      rw (some_wait.0, e) (refl, rw some_wait.1, ground arith)
]

-- The characters that the serial port gives: none if there is no port.
abbrev pub polled : Bool → List ℕ → List ℕ
polled serial_exists serial = if serial_exists then kept serial else []

-- cons_getc, polling included: as long as the polled characters fit the queue, it returns the first of
-- the characters that waited and those polled from the serial port (if there is one) and then the
-- keyboard, or 0 if there is none, and leaves the others waiting.
pub cons_getc-contents :
    (serial_exists : Bool) (serial kbd : List ℕ) (s : Cons)
    → IsValid s
    → unread s + length (polled serial_exists serial) + length (kept kbd) < consbufsize
    → let all = (contents s ++ polled serial_exists serial) ++ kept kbd in
      ((cons_getc serial_exists serial kbd s).0 ≡ first_or_zero all)
      × (contents (cons_getc serial_exists serial kbd s).1 ≡ rest all)
      × IsValid (cons_getc serial_exists serial kbd s).1
unfolding cons_getc
cons_getc-contents true serial kbd s v room =
    let t : Cons = cons_intr serial s in
    let first : _ = cons_intr-contents serial s v (omega arith) in
    let waiting : unread t ≡ unread s + length (kept serial) =
      unread-contents t (contents s ++ kept serial) first.0 ∙ rw (length-append, length-window) in
    let second : _ = cons_intr-contents kbd t first.1 (rw waiting room) in
    let all : contents (cons_intr kbd t) ≡ (contents s ++ kept serial) ++ kept kbd =
      second.0 ∙ rw first.0 in
    rw (← all) (take_char-contents (cons_intr kbd t) second.1)
cons_getc-contents false serial kbd s v room =
    let polls : _ = cons_intr-contents kbd s v (omega arith) in
    let all : contents (cons_intr kbd s) ≡ (contents s ++ []) ++ kept kbd =
      polls.0 ∙ rw append-nil in
    rw (← all) (take_char-contents (cons_intr kbd s) polls.1)

wpos-put :
    (c : ℕ) (s : Cons)
    → IsValid s
    → ((put c s).wpos ≡ (s.wpos + 1) % consbufsize) × ((put c s).rpos ≡ s.rpos)
unfolding put
wpos-put c s v = ground arith

wpos-cons_intr :
    (cs : List ℕ) (s : Cons)
    → IsValid s
    → ((cons_intr cs s).wpos ≡ (s.wpos + length (kept cs)) % consbufsize)
      × ((cons_intr cs s).rpos ≡ s.rpos)
wpos-cons_intr [] s v = rw cons_intr-nil (omega (arith, v), refl)
wpos-cons_intr (c ∷ cs) s v = elim (Bool-cases (c == 0)) [
  | inl none_given ↦ rw (cons_intr-skip c cs s none_given, none_given) (wpos-cons_intr cs s v)
  | inr given ↦
      let at : _ = wpos-put c s v in
      let step : _ = wpos-cons_intr cs (put c s) (put-IsValid s c v) in
      rw (cons_intr-keep c cs s given, given) (step.0 ∙ omega (arith, at.0), step.1 ∙ at.1)
]

-- The buffer has no test for being full: when 512 bytes other than 0 arrive at an empty queue, all of them
-- are lost, and the next read gives 0.
pub cons_intr_overrun :
    (cs : List ℕ) (s : Cons)
    → IsValid s
    → contents s ≡ []
    → length (kept cs) ≡ 512
    → (contents (cons_intr cs s) ≡ []) × ((take_char (cons_intr cs s)).0 ≡ 0)
unfolding take_char
cons_intr_overrun cs s v empty many =
    let none_waits : unread s ≡ 0 = unread-contents s [] empty in
    let ends : _ = wpos-cons_intr cs s v in
    let around : (cons_intr cs s).wpos ≡ (cons_intr cs s).rpos =
      omega (arith, ends, many, none_waits, v) in
    let lost : unread (cons_intr cs s) ≡ 0 = omega arith in
    let same : ((cons_intr cs s).rpos == (cons_intr cs s).wpos) ≡ true = ground arith in
    (rw lost, rw same)
