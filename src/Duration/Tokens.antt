-- ===== src/Duration/Tokens.antt =====
-- src/utils.ts: how `parseDuration` reads a number and its unit, and what trimming leaves.
use stream_fi_sdk.Base.{
  ℕ, suc, ◌+◌, ◌*◌, ◌<◌, ◌≡◌, refl, ◌∙◌, ap, Bool, true, false, not, ◌&&◌, some, [], ◌∷◌, ◌++◌,
  length, length-append, filter, arith, append_assoc, append-nil,
}
use stream_fi_sdk.Amount.Digits.{Text, IsDecimal, is_digit, big_int}
use stream_fi_sdk.Duration.{
  unit_seconds, is_space, trim_start, trim_end, is_empty, match_digits, Totals, count, exec_from,
}

-- A letter of the pattern, and how many seconds it stands for.
pub record IsUnit (unit seconds : ℕ) : Type 0 where
  pub means : unit_seconds unit ≡ some seconds
  pub no_space : is_space unit ≡ false
  pub no_digit : is_digit unit ≡ false

pub digit_no_space : (c : ℕ) → is_digit c ≡ true → is_space c ≡ false
unfolding is_space
digit_no_space c h = ground arith

pub is_empty_append : (t : Text) (c : ℕ) → is_empty (t ++ c ∷ []) ≡ false
is_empty_append [] c = refl
is_empty_append (b ∷ t) c = refl

pub is_empty_nonempty : (t : Text) → 0 < length t → is_empty t ≡ false
is_empty_nonempty [] h = absurd (omega arith)
is_empty_nonempty (c ∷ t) h = refl

pub match_digits_lem :
    (digits w : Text) (unit seconds : ℕ) (rest : Text)
    → IsUnit unit seconds
    → IsDecimal w
    → 0 < length digits + length w
    → match_digits digits (w ++ unit ∷ rest)
      ≡ some (record {
        seconds = big_int (digits ++ w) * seconds;
        size = length digits + length w + 1;
        rest = rest;
      })
match_digits_lem digits [] unit seconds rest u h l =
    let z : length digits + 0 ≡ length digits = omega arith in
    rw
      (
        u.no_digit,
        is_empty_nonempty digits (omega arith),
        u.no_space,
        u.means,
        append-nil digits,
        z,
      )
      refl
match_digits_lem digits (c ∷ w) unit seconds rest u h l =
    let size : length (digits ++ c ∷ []) + length w ≡ length digits + suc (length w) =
      omega (arith, length-append digits (c ∷ [])) in
    rw (h.0) (
      match_digits_lem (digits ++ c ∷ []) w unit seconds rest u h.1 (omega (arith, size))
      ∙ rw (append_assoc digits (c ∷ []) w, size) refl)

-- A round of the loop at a number and its unit.
pub exec_from_token :
    (fuel : ℕ) (w : Text) (unit seconds : ℕ) (rest : Text) (totals : Totals)
    → IsUnit unit seconds
    → IsDecimal w
    → 0 < length w
    → exec_from (suc fuel) (w ++ unit ∷ rest) totals
      ≡ exec_from fuel rest (
          count totals
            (some (record { seconds = big_int w * seconds; size = length w + 1; rest = rest })))
exec_from_token fuel [] unit seconds rest totals u h l = absurd (omega arith)
exec_from_token fuel (c ∷ w) unit seconds rest totals u h l =
    let e : 0 + suc (length w) ≡ suc (length w) = omega arith in
    rw (match_digits_lem [] (c ∷ w) unit seconds rest u h (omega arith), e) refl

pub filter_decimal :
    (w t : Text)
    → IsDecimal w
    → filter (λ c. not (is_space c)) (w ++ t) ≡ w ++ filter (λ c. not (is_space c)) t
filter_decimal [] t h = refl
filter_decimal (c ∷ w) t h = rw (digit_no_space c h.0) (ap (λ s. c ∷ s) (filter_decimal w t h.1))

pub trim_start_decimal : (w t : Text) → IsDecimal w → 0 < length w → trim_start (w ++ t) ≡ w ++ t
trim_start_decimal [] t h l = absurd (omega arith)
trim_start_decimal (c ∷ w) t h l = rw (digit_no_space c h.0) refl

pub and_false : (b : Bool) → (b && false) ≡ false
and_false true = refl
and_false false = refl

pub trim_end_last : (t : Text) (c : ℕ) → is_space c ≡ false → trim_end (t ++ c ∷ []) ≡ t ++ c ∷ []
trim_end_last [] c h = rw h refl
trim_end_last (b ∷ t) c h =
    rw (trim_end_last t c h, is_empty_append t c, and_false (is_space b)) refl
