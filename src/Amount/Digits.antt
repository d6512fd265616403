-- ===== src/Amount/Digits.antt =====
-- src/utils.ts: what `toStroops` and `fromStroops` use of strings and big integers. A string is the
-- list of its code units: 48 to 57 are the digits, 46 is the point and 45 the minus sign.
use stream_fi_sdk.Base.{
  ℕ, zero, suc, ◌+◌, ◌-◌, ◌*◌, ◌/◌, ◌%◌, ◌^◌, ◌≤◌, ◌<◌, ◌≡◌, refl, ◌∙◌, ap, Bool, true, ◌&&◌, List,
  [], ◌∷◌, ◌++◌, ltb, leb, if◌then◌else◌, if_cases, length, replicate, All, arith,
}
use native.Mathlib.Nat.{pow-suc}

abbrev pub Text : Type 0
Text = List ℕ

abbrev pub is_digit : ℕ → Bool
is_digit c = leb 48 c && leb c 57

abbrev pub IsDecimal : Text → Type 0
IsDecimal t = All (λ c. is_digit c ≡ true) t

-- `BigInt(text)` of digits, from the value of the digits before; of no digits it is 0.
abbrev pub horner : ℕ → Text → ℕ
horner n [] = n
horner n (c ∷ cs) = horner (10 * n + (c - 48)) cs

unfoldable pub big_int : Text → ℕ
big_int t = horner 0 t

-- `n.toString()`, the last digit first; a number has fewer digits than it is large.
pub print_from : ℕ → ℕ → Text → Text
print_from zero n rest = rest
print_from (suc fuel) n rest =
    let more = print_from fuel (n / 10) ((48 + n % 10) ∷ rest) in
    if ltb n 10 then (48 + n) ∷ rest else more

unfoldable pub to_string : ℕ → Text
unfolding print_from
to_string n = print_from (suc n) n []

-- `text.padStart(size, '0')`
abbrev pub pad_start : Text → ℕ → Text
pad_start t size = replicate (size - length t) 48 ++ t

pub horner-append : (n : ℕ) (s t : Text) → horner n (s ++ t) ≡ horner (horner n s) t
horner-append n [] t = refl
horner-append n (c ∷ s) t = horner-append (10 * n + (c - 48)) s t

pub horner-zeros : (k : ℕ) → horner 0 (replicate k 48) ≡ 0
horner-zeros zero = refl
horner-zeros (suc k) = horner-zeros k

horner-print_from :
    (fuel n : ℕ) (rest : Text) → n < fuel → horner 0 (print_from fuel n rest) ≡ horner n rest
unfolding print_from
horner-print_from zero n rest h = absurd (omega arith)
horner-print_from (suc fuel) n rest h =
    if_cases (λ t. horner 0 t ≡ horner n rest) (ltb n 10)
      (λ l. ap (λ m. horner m rest) (omega arith))
      (λ g.
        horner-print_from fuel (n / 10) ((48 + n % 10) ∷ rest) (ground arith)
        ∙ ap (λ m. horner m rest) (omega arith))

-- The text of a number reads as the number.
pub big_int-to_string : (n : ℕ) → big_int (to_string n) ≡ n
unfolding big_int to_string
big_int-to_string n = horner-print_from (suc n) n [] (omega arith)

print_from-IsDecimal :
    (fuel n : ℕ) (rest : Text) → IsDecimal rest → IsDecimal (print_from fuel n rest)
unfolding print_from
print_from-IsDecimal zero n rest h = h
print_from-IsDecimal (suc fuel) n rest h =
    if_cases IsDecimal (ltb n 10) (λ l. (ground arith, h))
      (λ g. print_from-IsDecimal fuel (n / 10) _ (ground arith, h))

pub to_string-IsDecimal : (n : ℕ) → IsDecimal (to_string n)
unfolding to_string
to_string-IsDecimal n = print_from-IsDecimal (suc n) n [] tt

length-print_from :
    (fuel n d : ℕ) (rest : Text)
    → n < 10 ^ suc d
    → length (print_from fuel n rest) ≤ suc d + length rest
unfolding print_from
length-print_from zero n d rest h = omega arith
length-print_from (suc fuel) n zero rest h =
    if_cases (λ t. length t ≤ 1 + length rest) (ltb n 10) {x = (48 + n) ∷ rest} (λ l. omega arith)
      (λ g. absurd (ground arith))
length-print_from (suc fuel) n (suc d) rest h =
    if_cases (λ t. length t ≤ suc (suc d) + length rest) (ltb n 10) {x = (48 + n) ∷ rest}
      (λ l. omega arith)
      (λ g. omega (
        arith,
        length-print_from fuel (n / 10) d ((48 + n % 10) ∷ rest)
            (omega (arith, pow-suc 10 (suc d))),
      ))

-- A number below a power of ten has at most that many digits.
pub length-to_string : (n d : ℕ) → n < 10 ^ suc d → length (to_string n) ≤ suc d
unfolding to_string
length-to_string n d h = omega (arith, length-print_from (suc n) n d [] h)

length-print_from-ge : (fuel n : ℕ) (rest : Text) → length rest ≤ length (print_from fuel n rest)
unfolding print_from
length-print_from-ge zero n rest = omega arith
length-print_from-ge (suc fuel) n rest =
    if_cases (λ t. length rest ≤ length t) (ltb n 10) {x = (48 + n) ∷ rest} (λ l. omega arith)
      (λ g. omega (arith, length-print_from-ge fuel (n / 10) ((48 + n % 10) ∷ rest)))

pub to_string_nonempty : (n : ℕ) → 0 < length (to_string n)
unfolding to_string print_from
to_string_nonempty n =
    if_cases (λ t. 0 < length t) (ltb n 10) {x = (48 + n) ∷ []} (λ l. omega arith)
      (λ g. omega (arith, length-print_from-ge n (n / 10) ((48 + n % 10) ∷ [])))
