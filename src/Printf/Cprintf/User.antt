-- ===== src/Printf/Cprintf/User.antt =====
-- vcprintf of lib/printf.c: a buffer of 256 bytes, sent by sys_cputs when 255 are in it and at the end.
use mit6_828_lab.Base.{
  ℕ, zero, suc, ◌+◌, ◌%◌, ◌≤◌, ◌<◌, ◌≡◌, refl, sym, ap, ◌∙◌, inl, inr, false, List, [], ◌∷◌, ◌++◌,
  map, arith, ◌==◌, if◌then◌else◌, Bool-cases, length,
}
use native.Mathlib.Numerals.{add-one}
use mathlib.Core.List.{append_assoc, append-nil}
use mit6_828_lab.Printf.Format.{Arg, printed, fault, out_of_fuel, vprintfmt}

-- `sent` are the texts given to sys_cputs, in order.
pub record Printbuf : Type 0 where
  pub idx : ℕ
  pub cnt : ℕ
  pub buf : ℕ → ℕ
  pub sent : List (List ℕ)

-- The `n` bytes from index `i` on.
pub bytes_from : (ℕ → ℕ) → ℕ → ℕ → List ℕ
bytes_from buf i zero = []
bytes_from buf i (suc n) = buf i ∷ bytes_from buf (i + 1) n

abbrev pub sys_cputs : Printbuf → Printbuf
sys_cputs b = record b { sent = b.sent ++ bytes_from b.buf 0 b.idx ∷ [] }

abbrev add_char : ℕ → Printbuf → Printbuf
add_char ch b = record b { buf = λ i. if b.idx == i then ch % 256 else b.buf i; idx = b.idx + 1 }

abbrev flush : Printbuf → Printbuf
flush b = record (sys_cputs b) { idx = 0 }

pub putch : ℕ → Printbuf → Printbuf
putch ch b =
    let b' = add_char ch b in
    let b'' = if b'.idx == 255 then flush b' else b' in record b'' { cnt = b''.cnt + 1 }

pub put_text : List ℕ → Printbuf → Printbuf
put_text [] b = b
put_text (ch ∷ text) b = put_text text (putch ch b)

pub data Returned : Type 0 where
  returned : (cnt : ℕ) (sent : List (List ℕ)) → Returned
  bad_format : Returned

pub vcprintf : List ℕ → List Arg → (stack : ℕ → ℕ) → Returned
vcprintf fmt ap stack = elim (vprintfmt fmt ap) [
  | printed text ↦
      let b = sys_cputs (put_text text (record { idx = 0; cnt = 0; buf = stack; sent = [] })) in
      returned b.cnt b.sent
  | fault ↦ bad_format
  | out_of_fuel ↦ bad_format
]

-- `ap` is what va_start finds.
pub cprintf : List ℕ → List Arg → (stack : ℕ → ℕ) → Returned
cprintf fmt ap stack = vcprintf fmt ap stack

abbrev pub concat : List (List ℕ) → List ℕ
concat [] = []
concat (xs ∷ xss) = xs ++ concat xss

-- What has been handed over so far, sent or not.
abbrev pending : Printbuf → List ℕ
pending b = concat b.sent ++ bytes_from b.buf 0 b.idx

concat-snoc : (xss : List (List ℕ)) (xs : List ℕ) → concat (xss ++ xs ∷ []) ≡ concat xss ++ xs
concat-snoc [] xs = append-nil xs
concat-snoc (ys ∷ xss) xs =
    ap (λ t. ys ++ t) (concat-snoc xss xs) ∙ sym (append_assoc ys (concat xss) xs)

bytes_from-write :
    (n i w x : ℕ) (buf : ℕ → ℕ)
    → w ≡ i + n
    → bytes_from (λ j. if w == j then x else buf j) i (suc n) ≡ bytes_from buf i n ++ x ∷ []
unfolding bytes_from
bytes_from-write zero i w x buf e = ground arith
bytes_from-write (suc n) i w x buf e =
    let other : (w == i) ≡ false = ground arith in
    rw other (ap (λ t. buf i ∷ t) (bytes_from-write n (i + 1) w x buf (omega arith)))

add_char-bytes :
    (ch : ℕ) (b : Printbuf)
    → bytes_from (add_char ch b).buf 0 (b.idx + 1) ≡ bytes_from b.buf 0 b.idx ++ ch % 256 ∷ []
add_char-bytes ch b = rw add-one (bytes_from-write b.idx 0 b.idx (ch % 256) b.buf (omega arith))

pending-add_char : (ch : ℕ) (b : Printbuf) → pending (add_char ch b) ≡ pending b ++ ch % 256 ∷ []
pending-add_char ch b =
    rw (add_char-bytes ch b)
      (sym (append_assoc (concat b.sent) (bytes_from b.buf 0 b.idx) (ch % 256 ∷ [])))

pending-flush : (b : Printbuf) → pending (flush b) ≡ pending b
unfolding bytes_from
pending-flush b = rw (concat-snoc b.sent (bytes_from b.buf 0 b.idx)) (append-nil _)

-- Every text sent fits the buffer.
abbrev pub Fits : List (List ℕ) → Type 0
Fits [] = Unit {0}
Fits (xs ∷ xss) = (length xs ≤ 255) × Fits xss

Fits-snoc : (xss : List (List ℕ)) (xs : List ℕ) → Fits xss → length xs ≤ 255 → Fits (xss ++ xs ∷ [])
Fits-snoc [] xs f h = (h, tt)
Fits-snoc (ys ∷ xss) xs f h = (f.0, Fits-snoc xss xs f.1 h)

length-bytes_from : (buf : ℕ → ℕ) (i n : ℕ) → length (bytes_from buf i n) ≡ n
unfolding bytes_from
length-bytes_from buf i zero = refl
length-bytes_from buf i (suc n) = ap suc (length-bytes_from buf (i + 1) n)

record IsValid (b : Printbuf) : Type 0 where
  room : b.idx < 255
  fits : Fits b.sent

-- One character more is handed over and counted, and the buffer is never full between calls.
putch-pending :
    (ch : ℕ) (b : Printbuf)
    → IsValid b
    → (pending (putch ch b) ≡ pending b ++ ch % 256 ∷ [])
      × IsValid (putch ch b)
      × ((putch ch b).cnt ≡ b.cnt + 1)
unfolding putch
putch-pending ch b v = elim (Bool-cases (b.idx + 1 == 255)) [
  | inl full ↦
      let size : length (bytes_from (add_char ch b).buf 0 (b.idx + 1)) ≤ 255 =
        omega (arith, v.room, length-bytes_from (add_char ch b).buf 0 (b.idx + 1)) in
      rw full (
        pending-flush (add_char ch b) ∙ pending-add_char ch b,
        record {
          room = omega arith;
          fits = Fits-snoc b.sent (bytes_from (add_char ch b).buf 0 (b.idx + 1)) v.fits size;
        },
        refl,
      )
  | inr open_space ↦
      rw open_space
        (pending-add_char ch b, record { room = ground (arith, v.room); fits = v.fits }, refl)
]

put_text-pending :
    (text : List ℕ) (b : Printbuf)
    → IsValid b
    → (pending (put_text text b) ≡ pending b ++ map (λ c. c % 256) text)
      × IsValid (put_text text b)
      × ((put_text text b).cnt ≡ b.cnt + length text)
unfolding put_text
put_text-pending [] b v = (sym (append-nil _), v, omega arith)
put_text-pending (ch ∷ text) b v =
    let one : _ = putch-pending ch b v in
    let rest : _ = put_text-pending text (putch ch b) one.1 in
    (
      rest.0 ∙ rw one.0 (append_assoc (pending b) (ch % 256 ∷ []) (map (λ c. c % 256) text)),
      rest.1,
      omega (arith, one.2, rest.2),
    )

-- The user library's vcprintf returns the number of characters printed, and what it gives to sys_cputs, call by call, is
-- the text's bytes, in order and with nothing missing, in pieces of at most 255 bytes.
pub vcprintf-sent :
    (fmt : List ℕ) (ap' : List Arg) (text : List ℕ) (stack : ℕ → ℕ)
    → vprintfmt fmt ap' ≡ printed text
    → (sent : List (List ℕ)) × (vcprintf fmt ap' stack ≡ returned (length text) sent)
      × (concat sent ≡ map (λ c. c % 256) text)
      × Fits sent
unfolding vcprintf bytes_from
vcprintf-sent fmt ap' text stack e =
    let start : Printbuf = record { idx = 0; cnt = 0; buf = stack; sent = [] } in
    let (all, v, count) = put_text-pending text start (record { room = omega arith; fits = tt }) in
    let b : Printbuf = put_text text start in
    let size : length (bytes_from b.buf 0 b.idx) ≤ 255 =
      omega (arith, v.room, length-bytes_from b.buf 0 b.idx) in
    (
      (sys_cputs b).sent,
      rw (e, vcprintf, count) (ap (λ n. returned n (sys_cputs b).sent) (omega arith)),
      concat-snoc b.sent (bytes_from b.buf 0 b.idx) ∙ all,
      Fits-snoc b.sent (bytes_from b.buf 0 b.idx) v.fits size,
    )
