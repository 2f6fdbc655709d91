-- ===== src/Printf/Format.antt =====
-- vprintfmt of lib/printfmt.c: the format as the list of its bytes before the terminating 0, the arguments as a
-- list of values in the order of `va_arg`. An argument of another type than asked for is `fault`.
pub mod Rounds
pub mod Conversions
use mit6_828_lab.Base.{
  ℕ, zero, suc, ◌+◌, ◌-◌, ◌*◌, ◌%◌, ◌^◌, ◌≡◌, Bool, true, false, Option, none, some, List, [], ◌∷◌,
  ◌++◌, map, ltb, leb, ◌==◌, not, ◌&&◌, ◌||◌, if◌then◌else◌, length, take, replicate,
}
use mit6_828_lab.Base.Int.{ℤ, pos, negsuc, pos_part, is_neg, sub_ℕ, signed}
use mit6_828_lab.Printf.Number.{printnum}

-- A word of 32 bits (int, unsigned, long, pointer), one of 64 bits, a string, and a null pointer to one.
pub data Arg : Type 0 where
  word : ℕ → Arg
  quad : ℕ → Arg
  str : List ℕ → Arg
  null : Arg

-- What an escape sequence has set up so far.
pub record Spec : Type 0 where
  pub padc : ℕ
  pub width : ℤ
  pub precision : ℤ
  pub lflag : ℕ
  pub altflag : Bool

abbrev pub no_spec : Spec
no_spec = record { padc = 32; width = negsuc 0; precision = negsuc 0; lflag = 0; altflag = false }

-- The label process_precision.
abbrev pub process_precision : Spec → Spec
process_precision sp =
    if is_neg sp.width then record sp { width = sp.precision; precision = negsuc 0 } else sp

abbrev pub is_digit : ℕ → Bool
is_digit c = leb b'0' c && leb c b'9'

-- One round of the switch below the label reswitch: on with another character, or the conversion.
-- `number` is the value of the digits of a width field that is being read.
pub data Step : Type 0 where
  go : (number : Option ℕ) (sp : Spec) (ap : List Arg) → Step
  stop : Spec → Step
  no_arg : Step

-- `case '*'`
abbrev pub star : Spec → List Arg → Step
star sp [] = no_arg
star sp (word w ∷ ap) = go none (process_precision (record sp { precision = signed 32 w })) ap
star sp (a ∷ ap) = no_arg

pub switch : ℕ → Spec → List Arg → Step
switch c sp ap =
    if leb b'1' c && leb c b'9'
    then go (some (c - b'0')) sp ap
    else (if c == b'*'
        then star sp ap
        else (if c == b'-'
            then go none (record sp { padc = b'-' }) ap
            else (if c == b'0'
                then go none (record sp { padc = b'0' }) ap
                else (if c == b'.'
                    then go none (if is_neg sp.width then record sp { width = pos 0 } else sp) ap
                    else (if c == b'#'
                        then go none (record sp { altflag = true }) ap
                        else (if c == b'l'
                            then go none (record sp { lflag = sp.lflag + 1 }) ap
                            else stop sp))))))

-- The end of the loop over a width field.
abbrev pub close_number : Option ℕ → Spec → Spec
close_number none sp = sp
close_number (some n) sp = process_precision (record sp { precision = pos n })

pub parse_step : Option ℕ → ℕ → Spec → List Arg → Step
unfolding switch
parse_step none c sp ap = switch c sp ap
parse_step (some n) c sp ap =
    if is_digit c
    then go (some (n * 10 + c - b'0')) sp ap
    else switch c (close_number (some n) sp) ap

-- An escape sequence up to its conversion character, which is 0 at the end of the format.
pub data Parsed : Type 0 where
  conversion : (c : ℕ) (rest : List ℕ) (sp : Spec) (ap : List Arg) → Parsed
  arg_fault : Parsed

pub parse_spec : Option ℕ → List ℕ → Spec → List Arg → Parsed
unfolding parse_step
parse_spec number [] sp ap = conversion 0 [] (close_number number sp) ap
parse_spec number (c ∷ cs) sp ap = elim (parse_step number c sp ap) [
  | go number' sp' ap' ↦ parse_spec number' cs sp' ap'
  | stop sp' ↦ conversion c cs sp' ap
  | no_arg ↦ arg_fault
]

-- What a conversion prints, and the arguments left; `literal` is the default case.
pub data Converted : Type 0 where
  prints : List ℕ → List Arg → Converted
  literal : Converted
  bad_arg : Converted

-- getuint and getint, as bit patterns: 64 bits with `ll`, 32 bits otherwise.
abbrev pub getuint : ℕ → List Arg → Option (ℕ × List Arg)
getuint lflag [] = none
getuint lflag (word w ∷ ap) = if leb 2 lflag then none else some (w, ap)
getuint lflag (quad w ∷ ap) = if leb 2 lflag then some (w, ap) else none
getuint lflag (a ∷ ap) = none

abbrev pub getint : ℕ → List Arg → Option (ℤ × List Arg)
getint lflag ap = elim (getuint lflag ap) [
  | none ↦ none
  | some (w, ap') ↦ some (signed (if leb 2 lflag then 64 else 32) w, ap')
]

abbrev pub print_unsigned : (base : ℕ) → Spec → List Arg → Converted
print_unsigned base sp ap = elim (getuint sp.lflag ap) [
  | none ↦ bad_arg
  | some (num, ap') ↦ prints (printnum num base (pos_part sp.width) sp.padc) ap'
]

-- The magnitude is printed behind the sign, padded on its own.
abbrev pub signed_text : Spec → ℤ → List ℕ
signed_text sp (pos n) = printnum n 10 (pos_part sp.width) sp.padc
signed_text sp (negsuc n) = b'-' ∷ printnum (n + 1) 10 (pos_part sp.width) sp.padc

abbrev pub print_signed : Spec → List Arg → Converted
print_signed sp ap = elim (getint sp.lflag ap) [
  | none ↦ bad_arg
  | some (num, ap') ↦ prints (signed_text sp num) ap'
]

-- "(null)"
abbrev pub null_text : List ℕ
null_text = 40 ∷ 110 ∷ 117 ∷ 108 ∷ 108 ∷ 41 ∷ []

-- The characters of a string that are printed: all, or as many as the precision.
abbrev pub shown : ℤ → List ℕ → List ℕ
shown (pos n) p = take n p
shown (negsuc n) p = p

abbrev pub visible : Bool → ℕ → ℕ
visible altflag ch = if altflag && (ltb ch 32 || ltb 126 ch) then 63 else ch

-- `case 's'`: padding on the left unless padc is '-', the characters, and spaces up to the width.
pub print_string : Spec → List ℕ → List ℕ
print_string sp p =
    let room = pos_part sp.width - length (shown sp.precision p) in
    let chars = map (visible sp.altflag) (shown sp.precision p) in
    if ltb 0 (pos_part sp.width) && not (sp.padc == b'-')
    then replicate room sp.padc ++ chars
    else chars ++ replicate room 32

-- error_string, by the code's number; `none` is a null entry or a code out of range.
pub error_string : ℕ → Option (List ℕ)
error_string err =
    if err == 1
    then some (
        117 ∷ 110 ∷ 115 ∷ 112 ∷ 101 ∷ 99 ∷ 105 ∷ 102 ∷ 105 ∷ 101 ∷ 100 ∷ 32 ∷ 101 ∷ 114 ∷ 114 ∷ 111
        ∷ 114 ∷ [])
    else (if err == 2
        then some (
            98 ∷ 97 ∷ 100 ∷ 32 ∷ 101 ∷ 110 ∷ 118 ∷ 105 ∷ 114 ∷ 111 ∷ 110 ∷ 109 ∷ 101 ∷ 110 ∷ 116
            ∷ [])
        else (if err == 3
            then some (
                105 ∷ 110 ∷ 118 ∷ 97 ∷ 108 ∷ 105 ∷ 100 ∷ 32 ∷ 112 ∷ 97 ∷ 114 ∷ 97 ∷ 109 ∷ 101 ∷ 116
                ∷ 101 ∷ 114 ∷ [])
            else (if err == 4
                then some
                    (111 ∷ 117 ∷ 116 ∷ 32 ∷ 111 ∷ 102 ∷ 32 ∷ 109 ∷ 101 ∷ 109 ∷ 111 ∷ 114 ∷ 121 ∷ [])
                else (if err == 5
                    then some (
                        111 ∷ 117 ∷ 116 ∷ 32 ∷ 111 ∷ 102 ∷ 32 ∷ 101 ∷ 110 ∷ 118 ∷ 105 ∷ 114 ∷ 111
                        ∷ 110 ∷ 109 ∷ 101 ∷ 110 ∷ 116 ∷ 115 ∷ [])
                    else (if err == 6
                        then some (
                            115 ∷ 101 ∷ 103 ∷ 109 ∷ 101 ∷ 110 ∷ 116 ∷ 97 ∷ 116 ∷ 105 ∷ 111 ∷ 110
                            ∷ 32 ∷ 102 ∷ 97 ∷ 117 ∷ 108 ∷ 116 ∷ [])
                        else none)))))

-- |err|; -2 ^ 31 has no int of its magnitude and is an index out of range.
abbrev pub magnitude : ℤ → ℕ
magnitude (pos n) = n
magnitude (negsuc n) = n + 1

-- "error %d", or "%s" with the error's text.
pub print_error : ℕ → List ℕ
unfolding error_string print_string
print_error err = elim (error_string err) [
  | none ↦ (101 ∷ 114 ∷ 114 ∷ 111 ∷ 114 ∷ 32 ∷ []) ++ signed_text no_spec (pos err)
  | some p ↦ print_string no_spec p
]

abbrev pub print_error_arg : List Arg → Converted
print_error_arg (word w ∷ ap) =
    if w == 2 ^ 31 then bad_arg else prints (print_error (magnitude (signed 32 w))) ap
print_error_arg ap = bad_arg

abbrev pub print_string_arg : Spec → List Arg → Converted
print_string_arg sp (str p ∷ ap) = prints (print_string sp p) ap
print_string_arg sp (null ∷ ap) = prints (print_string sp null_text) ap
print_string_arg sp ap = bad_arg

abbrev pub print_char_arg : List Arg → Converted
print_char_arg (word w ∷ ap) = prints (w ∷ []) ap
print_char_arg ap = bad_arg

abbrev pub print_pointer_arg : Spec → List Arg → Converted
print_pointer_arg sp (word w ∷ ap) =
    prints (48 ∷ 120 ∷ printnum w 16 (pos_part sp.width) sp.padc) ap
print_pointer_arg sp ap = bad_arg

pub convert : (c : ℕ) → Spec → List Arg → Converted
unfolding print_error print_string
convert c sp ap =
    if c == b'c'
    then print_char_arg ap
    else (if c == b'e'
        then print_error_arg ap
        else (if c == b's'
            then print_string_arg sp ap
            else (if c == b'd'
                then print_signed sp ap
                else (if c == b'u'
                    then print_unsigned 10 sp ap
                    else (if c == b'o'
                        then print_unsigned 8 sp ap
                        else (if c == b'p'
                            then print_pointer_arg sp ap
                            else (if c == b'x'
                                then print_unsigned 16 sp ap
                                else (if c == b'%' then prints (b'%' ∷ []) ap else literal))))))))

-- The characters printed, or a fault at an argument, or no fuel left.
pub data Output : Type 0 where
  printed : List ℕ → Output
  fault : Output
  out_of_fuel : Output

abbrev pub prefix : List ℕ → Output → Output
prefix xs (printed ys) = printed (xs ++ ys)
prefix xs fault = fault
prefix xs out_of_fuel = out_of_fuel

-- Each round of the loop takes a character that is no '%', or an escape sequence. The default case goes back to the
-- character after the '%'. Every round gets shorter, so the length of the format is fuel enough.
unfoldable pub vprintfmt_fuel : ℕ → List ℕ → List Arg → Output
vprintfmt_fuel zero fmt ap = out_of_fuel
vprintfmt_fuel (suc fuel) [] ap = printed []
vprintfmt_fuel (suc fuel) (c ∷ cs) ap = elim (c == b'%') [
  | false ↦ prefix (c ∷ []) (vprintfmt_fuel fuel cs ap)
  | true ↦ elim (parse_spec none cs no_spec ap) [
    | arg_fault ↦ fault
    | conversion conv rest sp ap' ↦ elim (convert conv sp ap') [
      | bad_arg ↦ fault
      | prints text ap'' ↦ prefix text (vprintfmt_fuel fuel rest ap'')
      | literal ↦ prefix (b'%' ∷ []) (vprintfmt_fuel fuel cs ap')
    ]
  ]
]

unfoldable pub vprintfmt : List ℕ → List Arg → Output
vprintfmt fmt ap = vprintfmt_fuel (length fmt + 1) fmt ap
