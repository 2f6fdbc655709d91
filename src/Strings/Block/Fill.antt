-- ===== src/Strings/Block/Fill.antt =====
-- memset fills its area.
use mit6_828_lab.Base.{
  ℕ, zero, suc, ◌+◌, ◌-◌, ◌*◌, ◌/◌, ◌%◌, ◌^◌, ◌<◌, ◌≡◌, refl, ◌∙◌, inl, inr, Bool, true, false,
  ◌==◌, ltb, leb, ◌&&◌, if◌then◌else◌, Bool-cases, arith, all_below, all_below_sound,
}
use mit6_828_lab.Strings.Block.{store_block, stos, four_times, memset}

abbrev pub filled : (d n b : ℕ) → (ℕ → ℕ) → ℕ → ℕ
filled d n b mem a = if leb d a && ltb a (d + n) then b else mem a

-- Every byte of the value is `b`.
abbrev Repeats : (w value b : ℕ) → Type 0
Repeats w value b = (k : ℕ) → k < w → value / 256 ^ k % 256 ≡ b

filled-next :
    (w m d value b : ℕ) (mem : ℕ → ℕ) (a : ℕ)
    → Repeats w value b
    → filled (d + w) m b (store_block w d value mem) a ≡ filled d (w + m) b mem a
filled-next w m d value b mem a h = elim (Bool-cases (leb d a && ltb a (d + w))) [
  | inl first ↦
      let later : (leb (d + w) a && ltb a (d + w + m)) ≡ false = ground arith in
      let goal : (leb d a && ltb a (d + (w + m))) ≡ true = ground arith in
      rw (later, first, goal) (h (a - d) (ground arith))
  | inr other ↦ rw other (ground arith)
]

stos-filled :
    (w count d value b : ℕ) (mem : ℕ → ℕ) (a : ℕ)
    → Repeats w value b
    → stos w count d value mem a ≡ filled d (count * w) b mem a
unfolding stos
stos-filled w zero d value b mem a h = ground arith
stos-filled w (suc count) d value b mem a h =
    let size : suc count * w ≡ w + count * w = grind arith in
    rw size (
      stos-filled w count (d + w) value b (store_block w d value mem) a h
      ∙ filled-next w (count * w) d value b mem a h)

repeats_test : ℕ → Bool
unfolding four_times
repeats_test c = all_below 4 (λ k. four_times c / 256 ^ k % 256 == c)

repeats_all : all_below 256 repeats_test ≡ true
unfolding repeats_test four_times
repeats_all = refl

four_times-Repeats : (c : ℕ) → c < 256 → Repeats 4 (four_times c) c
unfolding repeats_test
four_times-Repeats c hc k hk =
    let all : repeats_test c ≡ true = all_below_sound 256 repeats_test c repeats_all hc in
    let one : _ = all_below_sound 4 (λ k. four_times c / 256 ^ k % 256 == c) k all hk in
    ground arith

byte-Repeats : (c : ℕ) → Repeats 1 c (c % 256)
byte-Repeats c k h = let first : k ≡ 0 = omega arith in rw first (omega arith)

-- memset sets the `n` bytes from `v` on to the low byte of `c` and changes no other, in words or in bytes.
pub memset-filled :
    (v c n : ℕ) (mem : ℕ → ℕ) (a : ℕ) → memset v c n mem a ≡ filled v n (c % 256) mem a
unfolding memset
memset-filled v c zero mem a = ground arith
memset-filled v c (suc m) mem a =
    let more : (suc m == 0) ≡ false = ground arith in
    elim (Bool-cases ((v % 4 == 0) && (suc m % 4 == 0))) [
      | inl words ↦
          let size : suc m / 4 * 4 ≡ suc m = ground arith in
          rw (more, words)
            (stos-filled 4 (suc m / 4) v (four_times (c % 256)) (c % 256) mem a
                (four_times-Repeats (c % 256) (omega arith))
              ∙ rw size refl)
      | inr bytes ↦
          let size : suc m * 1 ≡ suc m = omega arith in
          rw (more, bytes)
            (stos-filled 1 (suc m) v c (c % 256) mem a (byte-Repeats c) ∙ rw size refl)
    ]
