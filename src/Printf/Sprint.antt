-- ===== src/Printf/Sprint.antt =====
-- sprintputch, vsnprintf and snprintf of lib/printfmt.c. `mem` is the memory in bytes; an `int n` below 1 of any sign is 0.
use mit6_828_lab.Base.{
  ℕ, zero, suc, ◌+◌, ◌-◌, ◌%◌, ◌≤◌, ◌<◌, ◌≡◌, ◌≢◌, ◌⊎◌, refl, ap, ◌∙◌, inl, inr, true, false, List,
  [], ◌∷◌, arith, ltb, ◌==◌, ◌||◌, if◌then◌else◌, Bool-cases, length, get_or,
}
use Prim.Native.Nat.{min}
use mit6_828_lab.Printf.Format.{Arg, printed, fault, out_of_fuel, vprintfmt}

pub record Sprintbuf : Type 0 where
  pub buf : ℕ
  pub ebuf : ℕ
  pub cnt : ℕ
  pub mem : ℕ → ℕ

pub sprintputch : ℕ → Sprintbuf → Sprintbuf
sprintputch ch b =
    if ltb b.buf b.ebuf
    then record b {
      cnt = b.cnt + 1;
      mem = λ a. if b.buf == a then ch % 256 else b.mem a;
      buf = b.buf + 1;
    }
    else record b { cnt = b.cnt + 1 }

-- The calls that vprintfmt makes.
pub sprint_text : List ℕ → Sprintbuf → Sprintbuf
sprint_text [] b = b
sprint_text (ch ∷ text) b = sprint_text text (sprintputch ch b)

-- -E_INVAL; a format whose arguments do not fit; or the count and the memory.
pub data Sprinted : Type 0 where
  e_inval : Sprinted
  bad_format : Sprinted
  returns : (cnt : ℕ) (mem : ℕ → ℕ) → Sprinted

abbrev pub terminated : Sprintbuf → Sprinted
terminated b = returns b.cnt (λ a. if b.buf == a then 0 else b.mem a)

pub vsnprintf : (buf n : ℕ) → List ℕ → List Arg → (ℕ → ℕ) → Sprinted
vsnprintf buf n fmt ap mem = if (buf == 0) || ltb n 1 then e_inval else elim (vprintfmt fmt ap) [
  | printed text ↦
      terminated (sprint_text text (record { buf = buf; ebuf = buf + n - 1; cnt = 0; mem = mem }))
  | fault ↦ bad_format
  | out_of_fuel ↦ bad_format
]

-- `ap` is what va_start finds.
pub snprintf : (buf n : ℕ) → List ℕ → List Arg → (ℕ → ℕ) → Sprinted
snprintf buf n fmt ap mem = vsnprintf buf n fmt ap mem

-- Where the loop over a text stands: the count is the whole length, the characters that fit are stored in order from the
-- start, and all else is as it was.
pub record Stored (text : List ℕ) (b b' : Sprintbuf) : Type 0 where
  pub count : b'.cnt ≡ b.cnt + length text
  pub end : b'.buf ≡ b.buf + min (length text) (b.ebuf - b.buf)
  pub same_ebuf : b'.ebuf ≡ b.ebuf
  pub stored :
      (i : ℕ) → i < min (length text) (b.ebuf - b.buf) → b'.mem (b.buf + i) ≡ get_or text i 0 % 256
  pub elsewhere : (a : ℕ) → (a < b.buf) ⊎ (b'.buf ≤ a) → b'.mem a ≡ b.mem a

Stored-full :
    (ch : ℕ) (text : List ℕ) (b b' : Sprintbuf)
    → ltb b.buf b.ebuf ≡ false
    → Stored text (record b { cnt = b.cnt + 1 }) b'
    → Stored (ch ∷ text) b b'
Stored-full ch text b b' full rest =
    let past : b.ebuf ≤ b.buf = ground arith in
    record {
      count = omega (arith, rest.count);
      end = omega (arith, rest.end);
      same_ebuf = rest.same_ebuf;
      stored = λ i h. absurd (omega (arith, h));
      elsewhere = rest.elsewhere;
    }

-- The buffer after one more character is stored.
abbrev with_char : ℕ → Sprintbuf → Sprintbuf
with_char ch b = record b {
  cnt = b.cnt + 1;
  mem = λ a. if b.buf == a then ch % 256 else b.mem a;
  buf = b.buf + 1;
}

Stored-cons :
    (ch : ℕ) (text : List ℕ) (b b' : Sprintbuf)
    → ltb b.buf b.ebuf ≡ true
    → Stored text (with_char ch b) b'
    → (i : ℕ) → i < min (length (ch ∷ text)) (b.ebuf - b.buf)
    → b'.mem (b.buf + i) ≡ get_or (ch ∷ text) i 0 % 256
Stored-cons ch text b b' room rest zero h =
    let same : (b.buf == b.buf + 0) ≡ true = ground arith in
    rest.elsewhere (b.buf + 0) (inl (omega arith)) ∙ rw same refl
Stored-cons ch text b b' room rest (suc i) h =
    let shift : b.buf + suc i ≡ b.buf + 1 + i = omega arith in
    rw shift (rest.stored i (omega (arith, h)))

elsewhere-cons :
    (ch : ℕ) (text : List ℕ) (b b' : Sprintbuf)
    → ltb b.buf b.ebuf ≡ true
    → Stored text (with_char ch b) b'
    → (a : ℕ) → (a < b.buf) ⊎ (b'.buf ≤ a)
    → b'.mem a ≡ b.mem a
elsewhere-cons ch text b b' room rest a (inl h) =
    let other : (b.buf == a) ≡ false = ground arith in
    rest.elsewhere a (inl (omega arith)) ∙ rw other refl
elsewhere-cons ch text b b' room rest a (inr h) =
    let other : (b.buf == a) ≡ false = ground (arith, rest.end) in
    rest.elsewhere a (inr h) ∙ rw other refl

Stored-room :
    (ch : ℕ) (text : List ℕ) (b b' : Sprintbuf)
    → ltb b.buf b.ebuf ≡ true
    → Stored text (with_char ch b) b'
    → Stored (ch ∷ text) b b'
Stored-room ch text b b' room rest =
    let open_space : b.buf < b.ebuf = ground arith in
    record {
      count = omega (arith, rest.count);
      end = omega (arith, rest.end);
      same_ebuf = rest.same_ebuf;
      stored = Stored-cons ch text b b' room rest;
      elsewhere = elsewhere-cons ch text b b' room rest;
    }

sprint_text-Stored : (text : List ℕ) (b : Sprintbuf) → Stored text b (sprint_text text b)
unfolding sprint_text sprintputch
sprint_text-Stored [] b = record {
  count = omega arith;
  end = omega arith;
  same_ebuf = refl;
  stored = λ i h. absurd (omega arith);
  elsewhere = λ a h. refl;
}
sprint_text-Stored (ch ∷ text) b = elim (Bool-cases (ltb b.buf b.ebuf)) [
  | inl room ↦ rw room (Stored-room ch text b _ room (sprint_text-Stored text (with_char ch b)))
  | inr full ↦
      rw full
        (Stored-full ch text b _ full (sprint_text-Stored text (record b { cnt = b.cnt + 1 })))
]

-- What vsnprintf leaves for a text: the first `n - 1` characters that fit, a terminating zero, and nothing changed outside
-- of these.
pub record Formatted (text : List ℕ) (buf n : ℕ) (mem mem' : ℕ → ℕ) : Type 0 where
  pub stored : (i : ℕ) → i < min (length text) (n - 1) → mem' (buf + i) ≡ get_or text i 0 % 256
  pub closed : mem' (buf + min (length text) (n - 1)) ≡ 0
  pub elsewhere : (a : ℕ) → (a < buf) ⊎ (buf + n ≤ a) → mem' a ≡ mem a

Formatted-terminated :
    (text : List ℕ) (buf n : ℕ) (mem : ℕ → ℕ) (b : Sprintbuf)
    → 1 ≤ n
    → Stored text (record { buf = buf; ebuf = buf + n - 1; cnt = 0; mem = mem }) b
    → Formatted text buf n mem (λ a. if b.buf == a then 0 else b.mem a)
Formatted-terminated text buf n mem b h s =
    let at_end : b.buf ≡ buf + min (length text) (n - 1) = omega (arith, s.end) in
    record {
      stored = λ i hi.
          let other : (b.buf == buf + i) ≡ false = ground arith in
          rw other (s.stored i (omega arith));
      closed =
          let same : (b.buf == buf + min (length text) (n - 1)) ≡ true = ground arith in
          rw same refl;
      elsewhere = λ a ha.
          let other : (b.buf == a) ≡ false = ground arith in
          rw other (s.elsewhere a (ground arith));
    }

-- When the format prints a text and the buffer is not null and has a size of at least 1, vsnprintf returns the whole
-- text's length; the buffer then holds the text's first n - 1 characters (all, when they are fewer) and a zero byte, and
-- no byte outside the n bytes of the buffer is changed.
pub vsnprintf-Formatted :
    (buf n : ℕ) (fmt : List ℕ) (ap' : List Arg) (mem : ℕ → ℕ) (text : List ℕ)
    → buf ≢ 0
    → 1 ≤ n
    → vprintfmt fmt ap' ≡ printed text
    → (mem' : ℕ → ℕ) × (vsnprintf buf n fmt ap' mem ≡ returns (length text) mem')
      × Formatted text buf n mem mem'
unfolding vsnprintf
vsnprintf-Formatted buf n fmt ap' mem text h0 h1 e =
    let b : Sprintbuf =
      sprint_text text (record { buf = buf; ebuf = buf + n - 1; cnt = 0; mem = mem }) in
    let s : _ =
      sprint_text-Stored text (record { buf = buf; ebuf = buf + n - 1; cnt = 0; mem = mem }) in
    let valid : ((buf == 0) || ltb n 1) ≡ false = ground arith in
    (
      (λ a. if b.buf == a then 0 else b.mem a),
      rw (valid, e, vsnprintf)
          (ap (λ c. returns c (λ a. if b.buf == a then 0 else b.mem a)) (omega (arith, s.count))),
      Formatted-terminated text buf n mem b h1 s,
    )
