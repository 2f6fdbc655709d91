-- ===== src/Console/Screen/Bounds.antt =====
-- cons_putc stays inside the frame buffer.
use mit6_828_lab.Base.{
  ℕ, ◌+◌, ◌%◌, ◌^◌, false, ◌≤◌, ◌<◌, ◌≡◌, refl, ◌∙◌, arith, ◌==◌, ltb, if◌then◌else◌, inl, inr,
  Bool-cases, true, ◌&&◌, all_below, all_below_sound,
}
use mit6_828_lab.Console.Screen.{
  Screen, crt_cols, crt_size, with_attribute, write_char, scroll, move_cursor, cga_putc_plain,
  put_space, cga_putc, serial_putc, lpt_putc,
}

-- The position is on the screen, and nothing behind the screen's cells differs.
pub record Inside (s s' : Screen) : Type 0 where
  pub on_screen : s'.crt_pos < crt_size
  pub untouched : (i : ℕ) → crt_size ≤ i → s'.crt_buf i ≡ s.crt_buf i

write_char_bounds :
    (c : ℕ) (s : Screen)
    → s.crt_pos < crt_size
    → ((write_char c s).crt_pos < crt_size + crt_cols)
      × ((i : ℕ) → crt_size ≤ i → (write_char c s).crt_buf i ≡ s.crt_buf i)
unfolding write_char
write_char_bounds c s h = (ground arith, λ i hi. ground arith)

scroll_bounds :
    (s : Screen)
    → s.crt_pos < crt_size + crt_cols
    → ((scroll s).crt_pos < crt_size)
      × ((i : ℕ) → crt_size ≤ i → (scroll s).crt_buf i ≡ s.crt_buf i)
unfolding scroll
scroll_bounds s h = (ground arith, λ i hi. ground arith)

finish : (c : ℕ) (s : Screen) → s.crt_pos < crt_size → Inside s (cga_putc_plain c s)
unfolding cga_putc_plain move_cursor
finish c s h =
    let w : _ = write_char_bounds (with_attribute c) s h in
    let z : _ = scroll_bounds (write_char (with_attribute c) s) w.0 in
    record { on_screen = z.0; untouched = λ i hi. z.1 i hi ∙ w.1 i hi }

put_space-Inside : (s t : Screen) → Inside t s → Inside t (put_space s)
unfolding put_space serial_putc lpt_putc
put_space-Inside s t v =
    let w : _ = finish 32 (lpt_putc 32 (serial_putc 32 s)) v.on_screen in
    record { on_screen = w.on_screen; untouched = λ i hi. w.untouched i hi ∙ v.untouched i hi }

five_spaces :
    (s : Screen)
    → s.crt_pos < crt_size
    → Inside s (put_space (put_space (put_space (put_space (put_space s)))))
five_spaces s h = put_space-Inside _ s (
    put_space-Inside _ s (
      put_space-Inside _ s (
        put_space-Inside _ s
          (put_space-Inside s s (record { on_screen = h; untouched = λ i hi. refl })))))

-- cga_putc keeps the position on the screen and writes to no cell behind it, for every character, tabs
-- and the scrolling included.
pub cga_putc-Inside : (c : ℕ) (s : Screen) → s.crt_pos < crt_size → Inside s (cga_putc c s)
unfolding cga_putc move_cursor
cga_putc-Inside c s h = elim (Bool-cases (with_attribute c % 256 == 9)) [
  | inl tab ↦
      let v : _ = five_spaces s h in
      let z : _ =
        scroll_bounds (put_space (put_space (put_space (put_space (put_space s)))))
          (omega (arith, v.on_screen)) in
      rw tab (record { on_screen = z.0; untouched = λ i hi. z.1 i hi ∙ v.untouched i hi })
  | inr plain ↦ rw plain (finish c s h)
]

attribute_table :
    all_below 256
      (λ c. (with_attribute c % 256 == c) && (with_attribute c % 2 ^ 16 == with_attribute c))
    ≡ true
unfolding with_attribute
attribute_table = refl

attribute_lem :
    (c : ℕ)
    → c < 256
    → (with_attribute c % 256 ≡ c) × (with_attribute c % 2 ^ 16 ≡ with_attribute c)
attribute_lem c h =
    let here : _ =
      all_below_sound 256
        (λ c. (with_attribute c % 256 == c) && (with_attribute c % 2 ^ 16 == with_attribute c)) c
        attribute_table h in
    ground arith

write_char-printable :
    (c : ℕ) (s : Screen)
    → 32 ≤ c
    → c < 256
    → s.crt_pos < crt_size
    → write_char (with_attribute c) s ≡ record s {
      crt_pos = s.crt_pos + 1;
      crt_buf = λ j. if s.crt_pos == j then with_attribute c else s.crt_buf j;
    }
unfolding write_char
write_char-printable c s lo hi on =
    let low : _ = attribute_lem c hi in
    let up : (s.crt_pos + 1) % 2 ^ 16 ≡ s.crt_pos + 1 = omega arith in
    rw (low.0, low.1, up) (ground arith)

-- A printable character at a position before the last cell stands there afterwards, in white on black; the
-- position moves on by one, and no other cell changes. At the last cell every row also moves up by one: the
-- character then ends the last row but one, and the last row is blank.
pub cga_putc-printable :
    (c : ℕ) (s : Screen)
    → 32 ≤ c
    → c < 256
    → s.crt_pos < crt_size
    → (i : ℕ) → i < crt_size
    → (cga_putc c s).crt_buf i ≡ (
        if ltb s.crt_pos 1999
        then (if s.crt_pos == i then with_attribute c else s.crt_buf i)
        else (if i == 1919
            then with_attribute c
            else (if ltb i 1920 then s.crt_buf (i + 80) else 0x0720)))
unfolding cga_putc cga_putc_plain move_cursor scroll
cga_putc-printable c s lo hi on i in_range =
    let low : _ = attribute_lem c hi in
    let no_tab : (c == 9) ≡ false = ground arith in
    rw (low.0, no_tab, write_char-printable c s lo hi on) (ground arith)
