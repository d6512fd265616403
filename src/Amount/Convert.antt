-- ===== src/Amount/Convert.antt =====
-- src/utils.ts: `toStroops` undoes `fromStroops` and rounds to the nearest unit.
use stream_fi_sdk.Base.{
  ℕ, zero, suc, ◌+◌, ◌-◌, ◌*◌, ◌/◌, ◌%◌, ◌^◌, ◌≤◌, ◌<◌, ◌≡◌, refl, sym, ◌∙◌, ap, true, none, some,
  [], ◌∷◌, ◌++◌, leb, if_cases, length, get_elem?, take, replicate, All-append, arith, append_assoc,
  length-append, length-replicate, length-take, take_all, subst,
}
use stream_fi_sdk.Amount.Digits.{
  Text, IsDecimal, is_digit, big_int, horner-append, to_string, pad_start, length-to_string,
  to_string_nonempty, big_int-to_string, to_string-IsDecimal,
}
use stream_fi_sdk.Amount.{
  frac_padded, rounded_frac, trim_from, pow10, to_stroops, from_stroops, pos, negsuc,
}
use stream_fi_sdk.Amount.Trim.{
  trim_from-le, take-trim_from, take-IsDecimal, zeros-IsDecimal, replicate-suc, whole_part_lem,
  frac_part_lem, has_format_lem, is_bare_lem, pow10_lem, big_int-pad_start,
}
use native.Mathlib.Nat.{pow-zero, pow-suc, mod-lt, div-add-mod'}

pub to_stroops_lem :
    (double_power : ℕ → ℕ) (w f : Text) (d : ℕ)
    → IsDecimal w
    → IsDecimal f
    → 0 < length w + length f
    → to_stroops double_power (w ++ 46 ∷ f) d
      ≡ some (big_int w * pow10 double_power d + rounded_frac (frac_padded f (d + 1)) d)
unfolding to_stroops
to_stroops_lem double_power w f d hw hf n =
    rw (has_format_lem w f hw hf, is_bare_lem w f n, whole_part_lem w f hw, frac_part_lem w f hw)
      refl

pub length-pad_start : (r e : ℕ) → r < 10 ^ suc e → length (pad_start (to_string r) (suc e)) ≡ suc e
length-pad_start r e h = omega (
  arith,
  length-append (replicate {A = ℕ} (suc e - length (to_string r)) 48) (to_string r),
  length-replicate {A = ℕ} (suc e - length (to_string r)) 48,
  length-to_string r e h,
)

-- Padding the trimmed fraction gives the fraction back, and a zero.
frac_padded-trim :
    (t : Text) (d : ℕ)
    → length t ≡ d
    → frac_padded (take (trim_from t (length t)) t) (d + 1) ≡ t ++ 48 ∷ []
frac_padded-trim t d h =
    let e : ℕ = trim_from t (length t) in
    let below : e ≤ length t = trim_from-le t (length t) in
    let size : length (take e t) ≡ e = omega (arith, length-take e t, below) in
    if_cases (λ p. p ≡ t ++ 48 ∷ []) (leb (d + 1) (length (take e t))) (λ l. absurd (ground arith))
      (λ l.
        let k : d + 1 - length (take e t) ≡ suc (length t - e) = omega arith in
        ap (λ n. take e t ++ replicate n 48) k
        ∙ ap (λ z. take e t ++ z) (replicate-suc (length t - e))
        ∙ sym (append_assoc (take e t) (replicate (length t - e) 48) (48 ∷ []))
        ∙ ap (λ z. z ++ 48 ∷ [])
            (take-trim_from t (length t) ∙ take_all (length t) t (omega arith)))

get_elem?-append_last : (t : Text) (c : ℕ) → get_elem? (t ++ c ∷ []) (length t) ≡ some c
get_elem?-append_last [] c = refl
get_elem?-append_last (b ∷ t) c = get_elem?-append_last t c

rounded_frac-exact : (t : Text) (d : ℕ) → length t ≡ d → rounded_frac (t ++ 48 ∷ []) d ≡ big_int t
unfolding big_int
rounded_frac-exact t d h =
    let last : get_elem? (t ++ 48 ∷ []) d ≡ some 48 =
      ap (get_elem? (t ++ 48 ∷ [])) (sym h) ∙ get_elem?-append_last t 48 in
    rw last (ap (λ n. n / 10) (horner-append 0 t (48 ∷ [])) ∙ omega arith)

fraction :
    (r d : ℕ)
    → r < 10 ^ d
    → (let t = pad_start (to_string r) d in
        rounded_frac (frac_padded (take (trim_from t (length t)) t) (d + 1)) d)
      ≡ r
unfolding to_string big_int
fraction r zero h = at_zero r (omega (arith, pow-zero 10))
  where
    at_zero :
        (r : ℕ)
        → r ≡ 0
        → (let t = pad_start (to_string r) 0 in
            rounded_frac (frac_padded (take (trim_from t (length t)) t) 1) 0)
          ≡ r
    at_zero r e =
        subst
          (λ r.
            rounded_frac
              (frac_padded
                (take (trim_from (pad_start (to_string r) 0) (length (pad_start (to_string r) 0)))
                  (pad_start (to_string r) 0))
                1)
              0
            ≡ r)
          (sym e) refl
fraction r (suc e) h =
    let t : Text = pad_start (to_string r) (suc e) in
    let size : length t ≡ suc e = length-pad_start r e h in
    ap (λ p. rounded_frac p (suc e)) (frac_padded-trim t (suc e) size)
    ∙ rounded_frac-exact t (suc e) size
    ∙ big_int-pad_start (to_string r) (suc e)
    ∙ big_int-to_string r

pub power_pos : (d : ℕ) → 0 < 10 ^ d
power_pos zero = omega (arith, pow-zero 10)
power_pos (suc d) = omega (arith, pow-suc 10 d, power_pos d)

pub pad_start-IsDecimal : (r d : ℕ) → IsDecimal (pad_start (to_string r) d)
pad_start-IsDecimal r d =
    All-append (λ c. is_digit c ≡ true) (replicate (d - length (to_string r)) 48) (to_string r)
      (zeros-IsDecimal (d - length (to_string r))) (to_string-IsDecimal r)

frac_IsDecimal : (r d end : ℕ) → IsDecimal (take end (pad_start (to_string r) d))
frac_IsDecimal r d end = take-IsDecimal end _ (pad_start-IsDecimal r d)

-- The text of an amount that is not negative reads as the amount, whatever the decimals up to 19.
pub to_stroops-from_stroops :
    (double_power : ℕ → ℕ) (n d : ℕ)
    → d < 20
    → to_stroops double_power (from_stroops double_power (pos n) d) d ≡ some n
unfolding from_stroops
to_stroops-from_stroops double_power n d h =
    let factor : ℕ = pow10 double_power d in
    let is_power : factor ≡ 10 ^ d = pow10_lem double_power d h in
    let positive : 0 < factor = omega (arith, is_power, power_pos d) in
    let rem : ℕ = n % factor in
    let small : rem < 10 ^ d = omega (arith, mod-lt n positive, is_power) in
    let t : Text = pad_start (to_string rem) d in
    to_stroops_lem double_power (to_string (n / factor)) (take (trim_from t (length t)) t) d
      (to_string-IsDecimal (n / factor)) (frac_IsDecimal rem d (trim_from t (length t)))
      (omega (arith, to_string_nonempty (n / factor)))
    ∙ ap some (
        ap
          (λ w. w * factor + rounded_frac (frac_padded (take (trim_from t (length t)) t) (d + 1)) d)
          (big_int-to_string (n / factor))
        ∙ ap (λ r. n / factor * factor + r) (fraction rem d small)
        ∙ div-add-mod' n factor)

-- No amount below zero comes back: `toStroops` refuses the sign.
pub to_stroops_negative :
    (double_power : ℕ → ℕ) (n d : ℕ)
    → to_stroops double_power (from_stroops double_power (negsuc n) d) d ≡ none
unfolding to_stroops from_stroops
to_stroops_negative double_power n d = refl
