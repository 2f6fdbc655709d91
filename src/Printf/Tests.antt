-- ===== src/Printf/Tests.antt =====
-- The theorems about lib/printfmt.c, lib/printf.c and kern/printf.c at small inputs.
use mit6_828_lab.Base.{
  ℕ, ◌^◌, ◌-◌, ◌%◌, ◌≡◌, ◌≢◌, refl, List, [], ◌∷◌, ◌++◌, arith, ltb, if◌then◌else◌, length,
  replicate, map,
}
use mit6_828_lab.Printf.Number.{printnum}
use mit6_828_lab.Printf.Number.Text.{IsNumeral, printnum-value}
use mit6_828_lab.Printf.Format.{word, out_of_fuel, prefix, vprintfmt_fuel, vprintfmt}
use mit6_828_lab.Printf.Format.Rounds.{vprintfmt_ends}
use mit6_828_lab.Printf.Format.Conversions.{vprintfmt-decimal}
use mit6_828_lab.Printf.Sprint.{vsnprintf, returns, Formatted, vsnprintf-Formatted}
use mit6_828_lab.Printf.Cprintf.User

printnum-value_example :
    (text : List ℕ) × (printnum 1234 10 6 32 ≡ replicate (6 - length text) 32 ++ text)
    × IsNumeral 10 1234 text
printnum-value_example = printnum-value 1234 10 6 32 (omega arith) (omega arith) (omega arith)

vprintfmt_ends_example : vprintfmt (b'%' ∷ b'd' ∷ []) [] ≢ out_of_fuel
vprintfmt_ends_example = vprintfmt_ends (b'%' ∷ b'd' ∷ []) []

-- The word of -7.
vprintfmt-decimal_example :
    (text : List ℕ) × (vprintfmt (b'%' ∷ b'd' ∷ b'!' ∷ []) (word 0xffff_fff9 ∷ [])
      ≡ prefix (if ltb 0xffff_fff9 (2 ^ 31) then text else b'-' ∷ text) (vprintfmt (b'!' ∷ []) []))
    × IsNumeral 10 (if ltb 0xffff_fff9 (2 ^ 31) then 0xffff_fff9 else 2 ^ 32 - 0xffff_fff9) text
vprintfmt-decimal_example = vprintfmt-decimal 0xffff_fff9 (b'!' ∷ []) [] (omega arith)

-- Four bytes of room for "hello".
vsnprintf-Formatted_example :
    (mem' : ℕ → ℕ) × (vsnprintf 0x1000 4 (b'h' ∷ b'e' ∷ b'l' ∷ b'l' ∷ b'o' ∷ []) [] (λ a. 7)
      ≡ returns 5 mem')
    × Formatted (b'h' ∷ b'e' ∷ b'l' ∷ b'l' ∷ b'o' ∷ []) 0x1000 4 (λ a. 7) mem'
unfolding vprintfmt vprintfmt_fuel
vsnprintf-Formatted_example =
    vsnprintf-Formatted 0x1000 4 (b'h' ∷ b'e' ∷ b'l' ∷ b'l' ∷ b'o' ∷ []) [] (λ a. 7)
      (b'h' ∷ b'e' ∷ b'l' ∷ b'l' ∷ b'o' ∷ []) (omega arith) (omega arith) refl

vcprintf-sent_example :
    (sent : List (List ℕ)) × (User.vcprintf (b'h' ∷ b'i' ∷ []) [] (λ i. 0) ≡ User.returned 2 sent)
    × (User.concat sent ≡ map (λ c. c % 256) (b'h' ∷ b'i' ∷ []))
    × User.Fits sent
unfolding vprintfmt vprintfmt_fuel
vcprintf-sent_example = User.vcprintf-sent (b'h' ∷ b'i' ∷ []) [] (b'h' ∷ b'i' ∷ []) (λ i. 0) refl
