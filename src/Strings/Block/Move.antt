-- ===== src/Strings/Block/Move.antt =====
-- memmove copies, overlap included, and memset fills.
use mit6_828_lab.Base.{
  ℕ, zero, suc, ◌+◌, ◌-◌, ◌*◌, ◌/◌, ◌%◌, ◌^◌, ◌≤◌, ◌<◌, ◌≡◌, ◌⊎◌, refl, ◌∙◌, inl, inr, true, false,
  ltb, leb, ◌&&◌, if◌then◌else◌, Bool-cases, arith,
}
use mit6_828_lab.Strings.Block.{
  move_block, movs_up, movs_down, aligned, move_down, move_up, memmove,
}

-- The bytes from `s` on stand at the `n` addresses from `d` on; the others are as in `mem`.
abbrev pub copied : (d s n : ℕ) → (ℕ → ℕ) → ℕ → ℕ
copied d s n mem a = if leb d a && ltb a (d + n) then mem (s + (a - d)) else mem a

-- Lowest block first, where the target does not stand above the source's start within it.
copied-up :
    (w m d s : ℕ) (mem : ℕ → ℕ) (a : ℕ)
    → (d ≤ s) ⊎ (s + (w + m) ≤ d)
    → copied (d + w) (s + w) m (move_block w d s mem) a ≡ copied d s (w + m) mem a
copied-up w m d s mem a h = elim (Bool-cases (leb (d + w) a && ltb a (d + w + m))) [
  | inl inside ↦
      let source : s + w + (a - (d + w)) ≡ s + (a - d) = ground arith in
      let kept : (leb d (s + (a - d)) && ltb (s + (a - d)) (d + w)) ≡ false = ground arith in
      let goal : (leb d a && ltb a (d + (w + m))) ≡ true = ground arith in
      rw (inside, goal, source, kept) refl
  | inr outside ↦ ground arith
]

movs_up-copied :
    (w count d s : ℕ) (mem : ℕ → ℕ) (a : ℕ)
    → (d ≤ s) ⊎ (s + count * w ≤ d)
    → movs_up w count d s mem a ≡ copied d s (count * w) mem a
unfolding movs_up
movs_up-copied w zero d s mem a h = ground arith
movs_up-copied w (suc count) d s mem a h =
    let size : suc count * w ≡ w + count * w = grind arith in
    let apart : (d + w ≤ s + w) ⊎ (s + w + count * w ≤ d + w) = ground arith in
    rw size (
      movs_up-copied w count (d + w) (s + w) (move_block w d s mem) a apart
      ∙ copied-up w (count * w) d s mem a (rw size at h))

-- Highest block first, where the source stands below the target.
copied-down :
    (w m d s : ℕ) (mem : ℕ → ℕ) (a : ℕ)
    → s ≤ d
    → copied d s m (move_block w (d + m) (s + m) mem) a ≡ copied d s (w + m) mem a
copied-down w m d s mem a h = elim (Bool-cases (leb d a && ltb a (d + m))) [
  | inl inside ↦
      let kept : (leb (d + m) (s + (a - d)) && ltb (s + (a - d)) (d + m + w)) ≡ false =
        ground arith in
      let goal : (leb d a && ltb a (d + (w + m))) ≡ true = ground arith in
      rw (inside, goal, kept) refl
  | inr outside ↦ elim (Bool-cases (leb (d + m) a && ltb a (d + m + w))) [
    | inl top ↦
        let source : s + m + (a - (d + m)) ≡ s + (a - d) = ground arith in
        let goal : (leb d a && ltb a (d + (w + m))) ≡ true = ground arith in
        rw (outside, top, goal, source) refl
    | inr other ↦
        let goal : (leb d a && ltb a (d + (w + m))) ≡ false = ground arith in
        rw (outside, other, goal) refl
  ]
]

movs_down-copied :
    (w count d s top_d top_s : ℕ) (mem : ℕ → ℕ) (a : ℕ)
    → s ≤ d
    → top_d ≡ d + count * w - w
    → top_s ≡ s + count * w - w
    → movs_down w count top_d top_s mem a ≡ copied d s (count * w) mem a
unfolding movs_down
movs_down-copied w zero d s top_d top_s mem a h ed es = ground arith
movs_down-copied w (suc count) d s top_d top_s mem a h ed es =
    let size : suc count * w ≡ w + count * w = grind arith in
    let at_d : top_d ≡ d + count * w = omega arith in
    let at_s : top_s ≡ s + count * w = omega arith in
    rw (size, at_d, at_s)
      (movs_down-copied w count d s (d + count * w - w) (s + count * w - w)
          (move_block w (d + count * w) (s + count * w) mem) a h refl refl
        ∙ copied-down w (count * w) d s mem a h)

move_up-copied :
    (d s n : ℕ) (mem : ℕ → ℕ) (a : ℕ)
    → (d ≤ s) ⊎ (s + n ≤ d)
    → move_up d s n mem a ≡ copied d s n mem a
unfolding move_up
move_up-copied d s n mem a h = elim (Bool-cases (aligned s d n)) [
  | inl words ↦
      let size : n / 4 * 4 ≡ n = ground arith in
      rw words (movs_up-copied 4 (n / 4) d s mem a (rw size h) ∙ rw size refl)
  | inr bytes ↦
      let size : n * 1 ≡ n = omega arith in
      rw bytes (movs_up-copied 1 n d s mem a (rw size h) ∙ rw size refl)
]

move_down-copied :
    (d s n : ℕ) (mem : ℕ → ℕ) (a : ℕ)
    → s ≤ d
    → move_down (d + n) (s + n) n mem a ≡ copied d s n mem a
unfolding move_down
move_down-copied d s n mem a h = elim (Bool-cases (aligned (s + n) (d + n) n)) [
  | inl words ↦
      let size : n / 4 * 4 ≡ n = ground arith in
      rw words (
        movs_down-copied 4 (n / 4) d s (d + n - 4) (s + n - 4) mem a h (rw size refl) (rw size refl)
        ∙ rw size refl)
  | inr bytes ↦
      let size : n * 1 ≡ n = omega arith in
      rw bytes (
        movs_down-copied 1 n d s (d + n - 1) (s + n - 1) mem a h (rw size refl) (rw size refl)
        ∙ rw size refl)
]

-- memmove puts at the `n` bytes from `dst` on what stood at the `n` bytes from `src` on, and changes no other byte, also where
-- the two areas overlap and whichever way and in whatever units it copies. (Neither area reaches the end of the address
-- space.)
pub memmove-copied :
    (dst src n : ℕ) (mem : ℕ → ℕ) (a : ℕ)
    → dst + n < 2 ^ 32
    → src + n < 2 ^ 32
    → memmove dst src n mem a ≡ copied dst src n mem a
unfolding memmove
memmove-copied dst src n mem a hd hs =
    let end_s : (src + n) % 2 ^ 32 ≡ src + n = omega arith in
    let end_d : (dst + n) % 2 ^ 32 ≡ dst + n = omega arith in
    elim (Bool-cases (ltb src dst && ltb dst (src + n))) [
      | inl overlap ↦ rw (end_s, end_d, overlap) (move_down-copied dst src n mem a (ground arith))
      | inr apart ↦ rw (end_s, apart) (move_up-copied dst src n mem a (ground arith))
    ]
