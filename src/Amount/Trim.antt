-- ===== src/Amount/Trim.antt =====
-- src/utils.ts: laws of the fraction that `fromStroops` pads and trims.
use stream_fi_sdk.Base.{
  ℕ, zero, suc, ◌+◌, ◌-◌, ◌^◌, ◌≤◌, ◌<◌, ◌≡◌, refl, sym, ◌∙◌, ap, true, false, Option, none, some,
  List, [], ◌∷◌, ◌++◌, ◌==◌, if_cases, length, get_elem?, take, replicate, arith, append_assoc,
  append-nil, ==_iff,
}
use stream_fi_sdk.Amount.Digits.{
  Text, IsDecimal, is_digit, big_int, horner, horner-append, horner-zeros, pad_start,
}
use stream_fi_sdk.Amount.{
  has_format, all_digits, is_bare, whole_part, frac_part, is_zero_at, trim_from, powers, pow10,
}

pub trim_from-le : (t : Text) (end : ℕ) → trim_from t end ≤ end
trim_from-le t zero = omega arith
trim_from-le t (suc zero) = omega arith
trim_from-le t (suc (suc end)) =
    if_cases (λ e. e ≤ suc (suc end)) (is_zero_at t (suc end))
      (λ h. omega (arith, trim_from-le t (suc end))) (λ h. omega arith)

pub replicate-suc : (k : ℕ) → replicate {A = ℕ} (suc k) 48 ≡ replicate k 48 ++ 48 ∷ []
replicate-suc zero = refl
replicate-suc (suc k) = ap (λ t. 48 ∷ t) (replicate-suc k)

take_zero_at : (t : Text) (i : ℕ) → is_zero_at t i ≡ true → take (suc i) t ≡ take i t ++ 48 ∷ []
take_zero_at [] i h = cc
take_zero_at (c ∷ t) zero h = ap (λ d. d ∷ []) ((==_iff c 48).0 h)
take_zero_at (c ∷ t) (suc i) h = ap (λ s. c ∷ s) (take_zero_at t i h)

-- The zeros that the loop steps over are the end of the text.
pub take-trim_from :
    (t : Text) (end : ℕ)
    → take (trim_from t end) t ++ replicate (end - trim_from t end) 48 ≡ take end t
take-trim_from t zero = refl
take-trim_from t (suc zero) = append-nil (take 1 t)
take-trim_from t (suc (suc end)) =
    if_cases (λ e. take e t ++ replicate (suc (suc end) - e) 48 ≡ take (suc (suc end)) t)
      (is_zero_at t (suc end))
      (λ h. over h (trim_from t (suc end)) (trim_from-le t (suc end)) (take-trim_from t (suc end)))
      (λ h.
        let z : suc (suc end) - suc (suc end) ≡ 0 = omega arith in
        rw z (append-nil (take (suc (suc end)) t)))
  where
    over :
        is_zero_at t (suc end) ≡ true
        → (e : ℕ) → e ≤ suc end
        → take e t ++ replicate (suc end - e) 48 ≡ take (suc end) t
        → take e t ++ replicate (suc (suc end) - e) 48 ≡ take (suc (suc end)) t
    over h e l p =
        let q : suc (suc end) - e ≡ suc (suc end - e) = omega (arith, l) in
        ap (λ k. take e t ++ replicate k 48) q
        ∙ ap (λ z. take e t ++ z) (replicate-suc (suc end - e))
        ∙ sym (append_assoc (take e t) (replicate (suc end - e) 48) (48 ∷ []))
        ∙ ap (λ z. z ++ 48 ∷ []) p
        ∙ sym (take_zero_at t (suc end) h)

pub take-IsDecimal : (n : ℕ) (t : Text) → IsDecimal t → IsDecimal (take n t)
take-IsDecimal zero t h = tt
take-IsDecimal (suc n) [] h = tt
take-IsDecimal (suc n) (c ∷ t) h = (h.0, take-IsDecimal n t h.1)

pub zeros-IsDecimal : (k : ℕ) → IsDecimal (replicate k 48)
zeros-IsDecimal zero = tt
zeros-IsDecimal (suc k) = (refl, zeros-IsDecimal k)

-- Digits, a point and digits are parsed as such.
not_point : (c : ℕ) → is_digit c ≡ true → (c == 46) ≡ false
not_point c h = ground arith

pub whole_part_lem : (w f : Text) → IsDecimal w → whole_part (w ++ 46 ∷ f) ≡ w
whole_part_lem [] f h = refl
whole_part_lem (c ∷ w) f h = rw (not_point c h.0) (ap (λ t. c ∷ t) (whole_part_lem w f h.1))

pub frac_part_lem : (w f : Text) → IsDecimal w → frac_part (w ++ 46 ∷ f) ≡ f
frac_part_lem [] f h = refl
frac_part_lem (c ∷ w) f h = rw (not_point c h.0) (frac_part_lem w f h.1)

all_digits_lem : (f : Text) → IsDecimal f → all_digits f ≡ true
all_digits_lem [] h = refl
all_digits_lem (c ∷ f) h = rw (h.0) (all_digits_lem f h.1)

pub has_format_lem : (w f : Text) → IsDecimal w → IsDecimal f → has_format (w ++ 46 ∷ f) ≡ true
has_format_lem [] f h k = all_digits_lem f k
has_format_lem (c ∷ w) f h k = rw (h.0) (has_format_lem w f h.1 k)

pub is_bare_lem : (w f : Text) → 0 < length w + length f → is_bare (w ++ 46 ∷ f) ≡ false
is_bare_lem [] [] h = absurd (omega arith)
is_bare_lem [] (c ∷ f) h = refl
is_bare_lem (c ∷ []) f h = refl
is_bare_lem (c ∷ d ∷ w) f h = refl

IsPowers : ℕ → List ℕ → Type 0
IsPowers i [] = Unit
IsPowers i (p ∷ ps) = (p ≡ 10 ^ i) × IsPowers (suc i) ps

entry : ℕ → Option ℕ → ℕ
entry past none = past
entry past (some p) = p

get_power :
    (ps : List ℕ) (past i d : ℕ)
    → IsPowers i ps
    → d < length ps
    → entry past (get_elem? ps d) ≡ 10 ^ (i + d)
unfolding IsPowers entry
get_power [] past i d h l = absurd (omega arith)
get_power (p ∷ ps) past i zero h l = h.0 ∙ ap (λ k. 10 ^ k) (omega arith)
get_power (p ∷ ps) past i (suc d) h l =
    get_power ps past (suc i) d h.1 (omega arith) ∙ ap (λ k. 10 ^ k) (omega arith)

-- The table holds the powers of ten.
pub pow10_lem : (double_power : ℕ → ℕ) (d : ℕ) → d < 20 → pow10 double_power d ≡ 10 ^ d
unfolding pow10 IsPowers entry
pow10_lem double_power d h =
    let table : IsPowers 0 powers = (
      refl,
      (
        refl,
        (
          refl,
          (
            refl,
            (
              refl,
              (
                refl,
                (
                  refl,
                  (
                    refl,
                    (
                      refl,
                      (
                        refl,
                        (
                          refl,
                          (
                            refl,
                            (refl, (refl, (refl, (refl, (refl, (refl, (refl, (refl, tt)))))))),
                          ),
                        ),
                      ),
                    ),
                  ),
                ),
              ),
            ),
          ),
        ),
      ),
    ) in
    get_power powers (double_power d) 0 d table h ∙ ap (λ k. 10 ^ k) (omega arith)

pub big_int-pad_start : (t : Text) (k : ℕ) → big_int (pad_start t k) ≡ big_int t
unfolding big_int
big_int-pad_start t k =
    horner-append 0 (replicate (k - length t) 48) t
    ∙ ap (λ n. horner n t) (horner-zeros (k - length t))
