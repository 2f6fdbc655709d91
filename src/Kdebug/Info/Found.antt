-- ===== src/Kdebug/Info/Found.antt =====
-- debuginfo_eip finds the function that an address lies in.
use mit6_828_lab.Base.{
  ℕ, zero, suc, ◌+◌, ◌-◌, ◌%◌, ◌^◌, ◌≤◌, ◌<◌, ◌≡◌, ◌⊎◌, inl, inr, refl, Bool, true, false, some,
  List, [], ◌∷◌, ◌==◌, ltb, leb, ◌||◌, length, drop, get_or, arith, Bool-cases, lt_or_ge,
}
use mit6_828_lab.Strings.Scan.{strfind}
use mit6_828_lab.Kdebug.Search.{stab_binsearch}
use mit6_828_lab.Kdebug.Search.Earliest.{Typed}
use mit6_828_lab.Kdebug.Search.Invariant.{IsSearchable}
use mit6_828_lab.Kdebug.Search.Bracket.{stab_binsearch-Outcome}
use mit6_828_lab.Kdebug.Search.Range.{stab_binsearch_bounds}
use mit6_828_lab.Kdebug.Info.{
  n_fun, n_sline, n_so, Tables, unknown, Eipdebuginfo, found, no_info, name_text, name_at,
  with_line, finish_info, find_line, use_function, find_function, bad_strings, debuginfo_table,
}

last-cons :
    (x y : ℕ) (s : List ℕ)
    → get_or (x ∷ y ∷ s) (length (x ∷ y ∷ s) - 1) 0 ≡ get_or (y ∷ s) (length (y ∷ s) - 1) 0
last-cons x y s =
    let one : suc (suc (length s)) - 1 ≡ suc (suc (length s) - 1) = omega arith in rw one refl

-- A string table whose last byte is 0 ends every name that starts inside it.
strfind_ends :
    (s : List ℕ) (c n : ℕ)
    → n < length s
    → get_or s (length s - 1) 0 ≡ 0
    → (rest : List ℕ) × (strfind (drop n s) c ≡ some rest)
unfolding strfind
strfind_ends [] c n h e = absurd (omega arith)
strfind_ends (x ∷ []) c (suc n) h e = absurd (omega arith)
strfind_ends (x ∷ []) c zero h e =
    let stop : (x == 0) ≡ true = ground arith in (x ∷ [], rw stop refl)
strfind_ends (x ∷ y ∷ s) c (suc n) h e =
    strfind_ends (y ∷ s) c n (omega arith) (rw (← last-cons x y s) e)
strfind_ends (x ∷ y ∷ s) c zero h e = elim (Bool-cases ((x == 0) || (x == c))) [
  | inl stop ↦ (x ∷ y ∷ s, rw stop refl)
  | inr go ↦ rw go (strfind_ends (y ∷ s) c zero (omega arith) (rw (← last-cons x y s) e))
]

-- The last stab of `type` before `end` that stands at or below `addr`.
pub record Last (t : Tables) (type left end addr i : ℕ) : Type 0 where
  pub from : left ≤ i
  pub upto : i < end
  pub typed : Typed t.stabs type i
  pub low : (t.stabs i).n_value ≤ addr
  pub later : (j : ℕ) → i < j → j < end → Typed t.stabs type j → addr < (t.stabs j).n_value

-- The search finds it.
Last-found :
    (t : Tables) (type left end addr i : ℕ)
    → IsSearchable t.stabs type left end addr
    → Last t type left end addr i
    → (e : ℕ) × (stab_binsearch t.stabs left end type addr ≡ some (i + 1, e))
      × (i < e)
      × (e ≤ end)
      × ((e ≡ end) ⊎ Typed t.stabs type e)
Last-found t type left end addr i ok last =
    elim (stab_binsearch-Outcome t.stabs type left end addr ok) [
      | inl (m, e, returned, b) ↦
          let same : m ≡ i = elim (lt_or_ge m i) [
            | inl before ↦ elim (lt_or_ge i e) [
              | inl inside ↦ absurd (b.inside i before inside last.typed)
              | inr past ↦ absurd (
                  let high : _ = b.above i past last.upto last.typed in
                  let low : _ = last.low in omega arith)
            ]
            | inr from ↦ elim (lt_or_ge i m) [
              | inl after ↦ absurd (
                  let high : _ = last.later m after (omega (arith, b.nonempty, b.upto)) b.typed in
                  let low : _ = b.low in omega arith)
              | inr upto ↦ omega arith
            ]
          ] in
          (e, rw (← same) returned, rw (← same) b.nonempty, b.upto, b.next)
      | inr (inl (returned, absent)) ↦ absurd (absent i last.from last.upto last.typed)
      | inr (inr (e, returned, a)) ↦ absurd (elim (lt_or_ge i e) [
        | inl before ↦ a.first i last.from before last.typed
        | inr from ↦
            let high : _ = a.above i from last.upto last.typed in
            let low : _ = last.low in omega arith
      ])
    ]

-- A name that the bounds check lets through can be searched.
name_ends :
    (t : Tables) (i c : ℕ)
    → bad_strings t.stabstr ≡ false
    → (rest : List ℕ) × (strfind (name_text t (name_at t i)) c ≡ some rest)
name_ends t i c good = elim (Bool-cases (ltb (t.stabs i).n_strx (length t.stabstr))) [
  | inl inside ↦
      let closed : get_or t.stabstr (length t.stabstr - 1) 0 ≡ 0 = ground arith in
      rw inside (strfind_ends t.stabstr c (t.stabs i).n_strx (ground arith) closed)
  | inr outside ↦ rw outside (strfind_ends (name_text t unknown) c 0 (omega arith) refl)
]

-- With a name that can be searched and a nonempty range that does not start at 0 the rest succeeds.
find_line-found :
    (t : Tables) (lfile lfun endfun left end addr : ℕ) (info : Eipdebuginfo) (rest : List ℕ)
    → strfind (name_text t info.eip_fn_name) b':' ≡ some rest
    → 1 ≤ left
    → left ≤ end
    → (line_found : Bool) × (info' : Eipdebuginfo) × (find_line t lfile lfun endfun left end addr
          info
        ≡ found line_found info')
      × (info'.eip_fn_addr ≡ info.eip_fn_addr)
      × (info'.eip_fn_name ≡ info.eip_fn_name)
      × (info'.eip_fn_namelen ≡ length (name_text t info.eip_fn_name) - length rest)
unfolding find_line finish_info
find_line-found t lfile lfun endfun left end addr info rest named pos range =
    let (lline, endline, searched, from, upto, lo, hi) =
      stab_binsearch_bounds t.stabs n_sline left end addr range in
    let some_line : (lline == 0) ≡ false = ground arith in
    let named_info : Eipdebuginfo = record info {
      eip_fn_namelen = length (name_text t info.eip_fn_name) - length rest;
    } in
    (
      leb lline endline,
      with_line t lfile lfun endfun lline endline named_info,
      rw (find_line, named, searched, some_line) refl,
      refl,
      refl,
      refl,
    )

-- The function of the file that an address lies in: `f` is the last source file stab at or below the address and not the
-- first stab of all, `g` the last function stab at or below it, with no file stab between. The stabs of each of the two types
-- stand in the order of their values, none of them has the value addr + 1 (the search would take it for a match), addr + 1 is a
-- 32-bit number, and the string table is not empty and ends in a 0. Then debuginfo_eip succeeds, with the function's address
-- and its name (if the name is inside the strings), whose length is that up to the first colon or the end.
pub debuginfo_table-function :
    (t : Tables) (addr f g : ℕ)
    → bad_strings t.stabstr ≡ false
    → IsSearchable t.stabs n_so 0 t.count addr
    → IsSearchable t.stabs n_fun 0 t.count addr
    → Last t n_so 0 t.count addr f
    → Last t n_fun 0 t.count addr g
    → 1 ≤ f
    → f < g
    → ((j : ℕ) → f < j → j ≤ g → ¬ Typed t.stabs n_so j)
    → (line_found : Bool) × (info : Eipdebuginfo) × (rest : List ℕ) × (debuginfo_table t addr
        ≡ found line_found info)
      × (info.eip_fn_addr ≡ (t.stabs g).n_value)
      × (info.eip_fn_name ≡ name_at t g)
      × (strfind (name_text t (name_at t g)) b':' ≡ some rest)
      × (info.eip_fn_namelen ≡ length (name_text t (name_at t g)) - length rest)
unfolding debuginfo_table find_function use_function
debuginfo_table-function t addr f g good so_ok fun_ok last_f last_g pos order between =
    let (endfile, file, f_in, upto, next) = Last-found t n_so 0 t.count addr f so_ok last_f in
    let g_in : g < endfile = elim (lt_or_ge g endfile) [
      | inl inside ↦ inside
      | inr past ↦ elim next [
        | inl at_end ↦ absurd (omega (arith, last_g.upto))
        | inr typed ↦ absurd (between endfile f_in past typed)
      ]
    ] in
    let in_file : IsSearchable t.stabs n_fun f endfile addr = record {
      ordered = omega arith;
      sorted = λ i j a b c. fun_ok.sorted i j (omega arith) b (omega arith);
      apart = λ j a b. fun_ok.apart j (omega arith) (omega arith);
      small = fun_ok.small;
    } in
    let last_in_file : Last t n_fun f endfile addr g = record {
      from = omega arith;
      upto = g_in;
      typed = last_g.typed;
      low = last_g.low;
      later = λ j a b. last_g.later j a (omega arith);
    } in
    let (endfun, function, g_before, endfun_upto, next_fun) =
      Last-found t n_fun f endfile addr g in_file last_in_file in
    let (rest, named) = name_ends t g b':' good in
    let info : Eipdebuginfo = record (no_info addr) {
      eip_fn_name = name_at t g;
      eip_fn_addr = (t.stabs g).n_value;
    } in
    let (line_found, info', done, at_fun, name, len) =
      find_line-found t f (g + 1) endfun g endfun ((addr + 2 ^ 32 - (t.stabs g).n_value) % 2 ^ 32)
        info rest named (omega arith) (omega arith) in
    let not_first : (f + 1 == 1) ≡ false = ground arith in
    let not_zero : (f + 1 == 0) ≡ false = ground arith in
    let f_back : f + 1 - 1 ≡ f = omega arith in
    let g_back : g + 1 - 1 ≡ g = omega arith in
    let g_some : (g + 1 == 0) ≡ false = ground arith in
    let g_found : leb (g + 1) endfun ≡ true = ground arith in
    (
      line_found,
      info',
      rest,
      rw
          (
            debuginfo_table, good, file, find_function, not_first, not_zero, f_back, function,
            g_some, g_found, g_back, f_back,
          )
          done,
      at_fun,
      name,
      named,
      len,
    )
