-- ===== src/Errors/Found.antt =====
-- src/errors.ts: which texts the pattern of a contract error finds, and which code.
use stream_fi_sdk.Base.{
  ◌*◌, ◌/◌, ◌%◌, ◌^◌, ltb, true, ℕ, ◌≡◌, ◌<◌, length, refl, sym, ap, ◌∙◌, Bool, false, none, some,
  [], ◌∷◌, ◌++◌, append_assoc, append-nil, ◌==◌, if◌then◌else◌, Bool-cases, All, inl, inr, arith,
}
use stream_fi_sdk.Amount.Digits.{
  big_int, Text, IsDecimal, to_string, to_string_nonempty, big_int-to_string, to_string-IsDecimal,
}
use stream_fi_sdk.Texts.{codes, is_space}
use stream_fi_sdk.Errors.{
  number, double_at, exact_limit, digits_to_bracket, nonempty, after_spaces, strip_prefix,
  then_spaces, or_else, exec, number_of, text, error, Code, code_of_value,
}

digits_to_bracket-IsDecimal :
    (done digits rest : Text)
    → IsDecimal digits
    → digits_to_bracket done (digits ++ 41 ∷ rest) ≡ some (done ++ digits)
digits_to_bracket-IsDecimal done [] rest h = ap some (sym (append-nil done))
digits_to_bracket-IsDecimal done (d ∷ digits) rest h =
    let here = h.0 in
    rw here (
      digits_to_bracket-IsDecimal (done ++ d ∷ []) digits rest h.1
      ∙ ap some (append_assoc done (d ∷ []) digits))

after_spaces-All :
    (spaces : Text) (t : Text)
    → All (λ c. is_space c ≡ true) spaces
    → after_spaces (spaces ++ 35 ∷ t) ≡ nonempty (digits_to_bracket [] t)
after_spaces-All [] t h = refl
after_spaces-All (c ∷ spaces) t h = rw (h.0) (after_spaces-All spaces t h.1)

exec_step :
    (c : ℕ) (t : Text)
    → strip_prefix (codes "Error(Contract,") (c ∷ t) ≡ none
    → exec (c ∷ t) ≡ exec t
unfolding exec
exec_step c t e = ap (λ o. or_else (then_spaces o) (exec t)) e

-- A difference within the text itself, whatever follows it.
abbrev pub diverges : Text → Text → Bool
diverges [] t = false
diverges (p ∷ ps) [] = false
diverges (p ∷ ps) (c ∷ cs) = let later = diverges ps cs in if p == c then later else true

-- The pattern begins nowhere in the text.
abbrev pub Passed : Text → Type 0
Passed [] = Unit
Passed (c ∷ cs) = (diverges (codes "Error(Contract,") (c ∷ cs) ≡ true) × Passed cs

strip_prefix-diverges : (p s t : Text) → diverges p s ≡ true → strip_prefix p (s ++ t) ≡ none
strip_prefix-diverges [] s t h = cc
strip_prefix-diverges (p ∷ ps) [] t h = cc
strip_prefix-diverges (p ∷ ps) (c ∷ cs) t h = elim (Bool-cases (p == c)) [
  | inl e ↦ rw e (strip_prefix-diverges ps cs t (rw e at h))
  | inr n ↦ rw n
]

exec-Passed : (before t : Text) → Passed before → exec (before ++ t) ≡ exec t
exec-Passed [] t h = refl
exec-Passed (c ∷ before) t h =
    exec_step c (before ++ t) (strip_prefix-diverges (codes "Error(Contract,") (c ∷ before) t h.0)
    ∙ exec-Passed before t h.1

nonempty-some : (t : Text) → 0 < length t → nonempty (some t) ≡ some t
nonempty-some [] h = absurd (omega arith)
nonempty-some (c ∷ t) h = refl

-- What the host writes for a code, with any spaces after the comma, and what follows it.
abbrev pub host_error : Text → ℕ → Text → Text
host_error spaces code rest =
    codes "Error(Contract," ++ (spaces ++ 35 ∷ (to_string code ++ 41 ∷ rest))

exec-host_error :
    (spaces rest : Text) (code : ℕ)
    → All (λ c. is_space c ≡ true) spaces
    → exec (host_error spaces code rest) ≡ some (to_string code)
unfolding exec
exec-host_error spaces rest code h =
    let digits = digits_to_bracket-IsDecimal [] (to_string code) rest (to_string-IsDecimal code) in
    let found =
      after_spaces-All spaces (to_string code ++ 41 ∷ rest) h
      ∙ ap nonempty digits
      ∙ nonempty-some (to_string code) (to_string_nonempty code) in
    ap
      (λ o.
        or_else o (exec (codes "rror(Contract," ++ (spaces ++ 35 ∷ (to_string code ++ 41 ∷ rest)))))
      found

-- A code that a double holds exactly is read as it is.
number_exact : (digits : Text) → big_int digits < exact_limit → number digits ≡ big_int digits
unfolding number double_at
number_exact digits h =
    let n : ℕ = big_int digits in
    let whole : n / 1 ≡ n = omega arith in
    let below : ltb n (exact_limit * 1) ≡ true = ground arith in
    let even : ltb (2 * (n % 1)) 1 ≡ true = ground arith in
    let unit : n / 1 * 1 ≡ n = omega arith in rw (below, even) unit

-- A message in which the host reports a code below 2^53 gives this code, as a string or as the message
-- of an error that has no code of its own, whatever stands before the report, if no report begins
-- there, and whatever follows it.
pub code_of_value-host_error :
    (before spaces rest : Text) (code : ℕ)
    → code < 2 ^ 53
    → Passed before
    → All (λ c. is_space c ≡ true) spaces
    → (code_of_value (text (before ++ host_error spaces code rest)) ≡ some code)
      × (code_of_value (error Code.absent (before ++ host_error spaces code rest)) ≡ some code)
unfolding code_of_value
code_of_value-host_error before spaces rest code l p h =
    let read : big_int (to_string code) ≡ code = big_int-to_string code in
    let found =
      ap number_of
        (exec-Passed before (host_error spaces code rest) p ∙ exec-host_error spaces rest code h)
      ∙ ap some (number_exact (to_string code) (omega (arith, read)) ∙ read) in
    (found, found)
