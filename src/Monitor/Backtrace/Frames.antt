-- ===== src/Monitor/Backtrace/Frames.antt =====
-- A backtrace prints the chain of frames.
use mit6_828_lab.Base.{
  ℕ, zero, suc, ◌+◌, ◌-◌, ◌%◌, ◌^◌, ◌<◌, ◌≡◌, ◌≢◌, ◌⊎◌, refl, inl, inr, Bool, true, false, ◌==◌,
  List, [], ◌∷◌, ◌++◌, length, arith,
}
use mit6_828_lab.Kdebug.Info.{Eipdebuginfo, Debuginfo, failed, found}
use mit6_828_lab.Monitor.Backtrace.{
  Line, heading, frame, failed_line, no_line, place, Backtrace, finished, goes_on, prepend,
  print_frame, print_frames, mon_backtrace,
}

module _ (mem : ℕ → ℕ) (info : ℕ → Debuginfo) where
  -- From `ebp` the saved frame pointers lead through the list and then to 0.
  abbrev pub Chain : ℕ → List ℕ → Type 0
  Chain ebp [] = ebp ≡ 0
  Chain ebp (f ∷ fs) = (ebp ≡ f) × (f ≢ 0) × Chain (mem f) fs

  -- `ebp[i]`, read at its address, and the address that the function of a frame returns to.
  abbrev pub at : ℕ → ℕ → ℕ
  at f offset = mem ((f + offset) % 2 ^ 32)

  abbrev pub return_address : ℕ → ℕ
  return_address f = at f 4

  -- debuginfo_eip comes back for a frame.
  abbrev pub Answers : ℕ → Type 0
  Answers f =
      (i : Eipdebuginfo) × ((info (return_address f) ≡ failed i)
        ⊎ ((b : Bool) × (info (return_address f) ≡ found b i)))

  abbrev pub AllAnswer : List ℕ → Type 0
  AllAnswer [] = Unit {0}
  AllAnswer (f ∷ fs) = Answers f × AllAnswer fs

  -- The line of the frame at `f` with the return address and the five words above it.
  abbrev pub words_of : ℕ → Line
  words_of f = frame f (at f 4) (at f 8) (at f 12) (at f 16) (at f 20) (at f 24)

  -- The line with the place in the program, the distance of the return address from the function's start last.
  abbrev pub place_of : ℕ → Eipdebuginfo → Line
  place_of f i =
      place i.eip_file i.eip_line i.eip_fn_namelen i.eip_fn_name
        ((return_address f + 2 ^ 32 - i.eip_fn_addr) % 2 ^ 32)

  -- What is printed about the place of a frame, by debuginfo_eip's answer.
  abbrev pub ShowsPlace : ℕ → List Line → Type 0
  ShowsPlace f ls =
      ((i : Eipdebuginfo) × (info (return_address f) ≡ failed i) × (ls ≡ failed_line ∷ []))
      ⊎ (((i : Eipdebuginfo) × (info (return_address f) ≡ found true i) × (ls ≡ place_of f i ∷ []))
          ⊎ ((i : Eipdebuginfo) × (info (return_address f) ≡ found false i)
              × (ls ≡ no_line ∷ place_of f i ∷ [])))

  -- The lines of a chain: for each frame the one with its words, and those about its place.
  abbrev pub Shows : List ℕ → List Line → Type 0
  Shows [] ls = ls ≡ []
  Shows (f ∷ fs) ls =
      (about : List Line) × (more : List Line) × (ls ≡ words_of f ∷ (about ++ more))
      × ShowsPlace f about
      × Shows fs more

  -- One frame's lines.
  print_frame-Shows :
      (f : ℕ)
      → Answers f
      → (about : List Line) × ((rest : Backtrace)
          → print_frame mem info f rest ≡ prepend (words_of f ∷ about) rest)
        × ShowsPlace f about
  unfolding print_frame
  print_frame-Shows f (i, inl bad) =
      (failed_line ∷ [], λ rest. rw (print_frame, bad) refl, inl (i, bad, refl))
  print_frame-Shows f (i, inr (true, good)) =
      (place_of f i ∷ [], λ rest. rw (print_frame, good) refl, inr (inl (i, good, refl)))
  print_frame-Shows f (i, inr (false, good)) =
      (no_line ∷ place_of f i ∷ [], λ rest. rw (print_frame, good) refl, inr (inr (i, good, refl)))

  print_frames-Shows :
      (fuel ebp : ℕ) (fs : List ℕ)
      → Chain ebp fs
      → AllAnswer fs
      → length fs < fuel
      → (ls : List Line) × (print_frames mem info fuel ebp ≡ finished ls) × Shows fs ls
  unfolding print_frames
  print_frames-Shows zero ebp fs chain answers enough = absurd (omega arith)
  print_frames-Shows (suc n) ebp [] chain answers enough = ([], rw chain refl, refl)
  print_frames-Shows (suc n) ebp (f ∷ fs) chain answers enough =
      let (more, run, shows) = print_frames-Shows n (mem f) fs chain.2 answers.1 (omega arith) in
      let proper : (f == 0) ≡ false = ground (arith, chain.1) in
      let (about, printed, placed) = print_frame-Shows f answers.0 in
      (
        words_of f ∷ (about ++ more),
        rw (chain.0, proper, run) (printed (finished more)),
        (about, more, refl, placed, shows),
      )

  -- mon_backtrace on a chain of frames that ends with 0, where debuginfo_eip answers for each, comes to its end in as many
  -- rounds as there are frames and one more. It prints the heading and then, from the first frame on, the address of the frame
  -- with its return address and the five words above (ebp[1] to ebp[6]), and the place that debuginfo_eip found for the return
  -- address, after its message if it found no line there, or that it failed.
  pub mon_backtrace-Shows :
      (fuel ebp : ℕ) (fs : List ℕ)
      → Chain ebp fs
      → AllAnswer fs
      → length fs < fuel
      → (ls : List Line) × (mon_backtrace mem info fuel ebp ≡ finished (heading ∷ ls)) × Shows fs ls
  unfolding mon_backtrace
  mon_backtrace-Shows fuel ebp fs chain answers enough =
      let (ls, run, shows) = print_frames-Shows fuel ebp fs chain answers enough in
      (ls, rw run refl, shows)

  print_frames-goes_on :
      (fuel ebp : ℕ)
      → ebp ≢ 0
      → mem ebp ≡ ebp
      → Answers ebp
      → print_frames mem info fuel ebp ≡ goes_on
  unfolding print_frames
  print_frames-goes_on zero ebp nonzero loop answers = refl
  print_frames-goes_on (suc n) ebp nonzero loop answers =
      let rest = print_frames-goes_on n ebp nonzero loop answers in
      let proper : (ebp == 0) ≡ false = ground arith in
      let (about, printed, placed) = print_frame-Shows ebp answers in
      rw (loop, proper, rest) (printed goes_on)

  -- A frame that points to itself is printed for ever: whatever the fuel, the backtrace goes on.
  pub mon_backtrace-goes_on :
      (fuel ebp : ℕ)
      → ebp ≢ 0
      → mem ebp ≡ ebp
      → Answers ebp
      → mon_backtrace mem info fuel ebp ≡ goes_on
  unfolding mon_backtrace
  mon_backtrace-goes_on fuel ebp nonzero loop answers =
      rw (print_frames-goes_on fuel ebp nonzero loop answers) refl
