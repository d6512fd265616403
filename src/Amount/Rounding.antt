-- ===== src/Amount/Rounding.antt =====
-- src/utils.ts: how `toStroops` and `calculateRate` round.
use stream_fi_sdk.Base.{
  ℕ, zero, suc, ◌+◌, ◌-◌, ◌*◌, ◌/◌, ◌%◌, ◌^◌, ◌≤◌, ◌<◌, ◌≡◌, refl, sym, ◌∙◌, ap, true, false, some,
  [], ◌∷◌, ◌++◌, leb, if◌then◌else◌, if_cases, length, get_elem?, take, drop, replicate, All-append,
  arith, length-append, length-replicate, length-take, length-drop, take-append-drop,
}
use stream_fi_sdk.Amount.Digits.{
  Text, IsDecimal, is_digit, big_int, horner, horner-append, horner-zeros,
}
use stream_fi_sdk.Amount.{frac_padded, rounded_frac, rounds_up, to_stroops, calculate_rate}
use stream_fi_sdk.Amount.Trim.{take-IsDecimal, zeros-IsDecimal, pow10_lem}
use stream_fi_sdk.Amount.Convert.{to_stroops_lem, power_pos}
use native.Mathlib.Nat.{
  pow-zero, pow-suc, mul_assoc, add-mul, mul-one, div-add-mod', mod-lt, mul-le-mul_right,
  mul-lt-mul_of_pos_right,
}

power_add : (a b : ℕ) → 10 ^ (a + b) ≡ 10 ^ a * 10 ^ b
power_add a zero =
    ap (λ k. 10 ^ k) (omega arith)
    ∙ sym (mul-one (10 ^ a))
    ∙ ap (λ p. 10 ^ a * p) (sym (pow-zero 10))
power_add a (suc b) =
    let e : 10 ^ (a + suc b) ≡ 10 ^ suc (a + b) = ap (λ k. 10 ^ k) (omega arith) in
    e
    ∙ pow-suc 10 (a + b)
    ∙ ap (λ p. p * 10) (power_add a b)
    ∙ mul_assoc (10 ^ a) (10 ^ b) 10
    ∙ ap (λ p. 10 ^ a * p) (sym (pow-suc 10 b))

pub horner_value : (n : ℕ) (t : Text) → horner n t ≡ n * 10 ^ length t + horner 0 t
horner_value n [] = omega (arith, pow-zero 10, mul-one n)
horner_value n (c ∷ t) =
    let p : ℕ = 10 ^ length t in
    horner_value (10 * n + (c - 48)) t
    ∙ (let q : (10 * n + (c - 48)) * p ≡ n * (p * 10) + (c - 48) * p = grind arith in
        omega
          (arith, q, horner_value (10 * 0 + (c - 48)) t, ap (λ k. n * k) (pow-suc 10 (length t))))

horner-lt : (t : Text) → IsDecimal t → horner 0 t < 10 ^ length t
horner-lt [] h = omega (arith, pow-zero 10)
horner-lt (c ∷ t) h =
    let p : ℕ = 10 ^ length t in
    let d : c - 48 ≤ 9 = ground (arith, h.0) in
    let m : (c - 48) * p ≤ 9 * p = grind (arith, d) in
    omega (arith, m, horner_value (10 * 0 + (c - 48)) t, horner-lt t h.1, pow-suc 10 (length t))

-- The character past the decimals is the last digit of what is read.
last_digit :
    (t : Text) (n d : ℕ)
    → IsDecimal t
    → length t ≡ suc d
    → rounds_up (get_elem? t d) ≡ leb 5 (horner n t % 10)
last_digit [] n d h l = absurd (omega arith)
last_digit (c ∷ []) n zero h l =
    ap (leb 5) (let small : c - 48 ≤ 9 = ground (arith, h.0) in omega (arith, small))
last_digit (c ∷ []) n (suc d) h l = absurd (omega arith)
last_digit (c ∷ b ∷ t) n zero h l = absurd (omega arith)
last_digit (c ∷ b ∷ t) n (suc d) h l = last_digit (b ∷ t) (10 * n + (c - 48)) d h.1 (omega arith)

-- The digits past one more than the decimals do not change the rounding.
half_up :
    (p : ℕ)
    → (10 * (if leb 5 (p % 10) then p / 10 + 1 else p / 10) ≤ p + 5)
      × (p + 5 < 10 * (if leb 5 (p % 10) then p / 10 + 1 else p / 10) + 10)
half_up p = ground arith

length-frac_padded : (f : Text) (k : ℕ) → length (frac_padded f k) ≡ k
length-frac_padded f k =
    if_cases (λ t. length t ≡ k) (leb k (length f)) (λ l. ground (arith, length-take k f))
      (λ l. ground (
        arith,
        length-append f (replicate (k - length f) 48),
        length-replicate {A = ℕ} (k - length f) 48,
      ))

frac_padded-IsDecimal : (f : Text) (k : ℕ) → IsDecimal f → IsDecimal (frac_padded f k)
frac_padded-IsDecimal f k h =
    if_cases IsDecimal (leb k (length f)) (λ l. take-IsDecimal k f h)
      (λ l.
        All-append (λ c. is_digit c ≡ true) f (replicate (k - length f) 48) h
          (zeros-IsDecimal (k - length f)))

drop-IsDecimal : (n : ℕ) (t : Text) → IsDecimal t → IsDecimal (drop n t)
drop-IsDecimal zero t h = h
drop-IsDecimal (suc n) [] h = tt
drop-IsDecimal (suc n) (c ∷ t) h = drop-IsDecimal n t h.1

-- What is read is the fraction to `k` digits, cut below.
Cut : Text → ℕ → ℕ → Type 0
Cut f k p =
    (p * 10 ^ length f ≤ horner 0 f * 10 ^ k) × (horner 0 f * 10 ^ k < (p + 1) * 10 ^ length f)

Cut-take : (f : Text) (k : ℕ) → IsDecimal f → k ≤ length f → Cut f k (horner 0 (take k f))
unfolding Cut
Cut-take f k h l =
    let p : ℕ = horner 0 (take k f) in
    let rest : Text = drop k f in
    let a : ℕ = 10 ^ length rest in
    let b : ℕ = 10 ^ k in
    let split : horner 0 f ≡ p * a + horner 0 rest =
      sym (ap (horner 0) (take-append-drop k f))
      ∙ horner-append 0 (take k f) rest
      ∙ horner_value p rest in
    let size : 10 ^ length f ≡ a * b =
      ap (λ n. 10 ^ n) (omega (arith, length-drop k f, l)) ∙ power_add (length rest) k in
    let small : horner 0 rest < a = horner-lt rest (drop-IsDecimal k f h) in
    let low : p * (a * b) ≤ horner 0 f * b =
      rw (sym (mul_assoc p a b)) (mul-le-mul_right b (omega (arith, split))) in
    let high : horner 0 f * b < (p + 1) * (a * b) =
      rw (sym (mul_assoc (p + 1) a b))
        (mul-lt-mul_of_pos_right (omega (arith, split, small, add-mul p 1 a)) (power_pos k)) in
    rw size (low, high)

Cut-pad : (f : Text) (k : ℕ) → length f ≤ k → Cut f k (horner 0 (f ++ replicate (k - length f) 48))
unfolding Cut
Cut-pad f k l =
    let u : ℕ = horner 0 f in
    let a : ℕ = 10 ^ (k - length f) in
    let b : ℕ = 10 ^ length f in
    let zeros : Text = replicate (k - length f) 48 in
    let read : horner 0 (f ++ zeros) ≡ u * a =
      horner-append 0 f zeros
      ∙ horner_value u zeros
      ∙ omega (
        arith,
        horner-zeros (k - length f),
        ap (λ n. u * 10 ^ n) (length-replicate {A = ℕ} (k - length f) 48),
      ) in
    let size : 10 ^ k ≡ a * b =
      ap (λ n. 10 ^ n) (omega (arith, l)) ∙ power_add (k - length f) (length f) in
    let same : (u * a) * b ≡ u * 10 ^ k = mul_assoc u a b ∙ ap (λ n. u * n) (sym size) in
    rw read (omega (arith, same), omega (arith, same, add-mul (u * a) 1 b, power_pos (length f)))

Cut-padded : (f : Text) (k : ℕ) → IsDecimal f → Cut f k (big_int (frac_padded f k))
unfolding big_int
Cut-padded f k h =
    if_cases (λ t. Cut f k (horner 0 t)) (leb k (length f)) (λ l. Cut-take f k h (ground arith))
      (λ l. Cut-pad f k (ground arith))

-- `r` is the whole number nearest to `n / e`, the larger one of two that are as near.
unfoldable pub IsNearest : ℕ → ℕ → ℕ → Type 0
IsNearest n e r = (2 * (r * e) ≤ 2 * n + e) × (2 * n < 2 * (r * e) + e)

mul_ten : (u b : ℕ) → u * (b * 10) ≡ 10 * (u * b)
mul_ten u b = grind arith

rounded_frac_lem :
    (f : Text) (d : ℕ)
    → IsDecimal f
    → IsNearest (big_int f * 10 ^ d) (10 ^ length f) (rounded_frac (frac_padded f (d + 1)) d)
unfolding big_int IsNearest Cut
rounded_frac_lem f d h =
    let t : Text = frac_padded f (d + 1) in
    let p : ℕ = horner 0 t in
    let u : ℕ = horner 0 f in
    let a : ℕ = 10 ^ length f in
    let b : ℕ = 10 ^ d in
    let r : ℕ = if leb 5 (p % 10) then p / 10 + 1 else p / 10 in
    let digit : rounds_up (get_elem? t d) ≡ leb 5 (p % 10) =
      last_digit t 0 d (frac_padded-IsDecimal f (d + 1) h)
        (omega (arith, length-frac_padded f (d + 1))) in
    let cut : Cut f (d + 1) p = Cut-padded f (d + 1) h in
    let power : u * 10 ^ (d + 1) ≡ 10 * (u * b) = ap (λ n. u * n) (power_add d 1) ∙ mul_ten u b in
    let over : 10 * (r * a) ≤ p * a + 5 * a =
      rw (sym (mul_assoc 10 r a), sym (add-mul p 5 a)) (mul-le-mul_right a (half_up p).0) in
    let under : p * a + a ≤ 10 * (r * a) + 5 * a =
      let le : (p + 1) * a ≤ (10 * r + 5) * a = mul-le-mul_right a (omega (arith, (half_up p).1)) in
      omega (arith, le, add-mul p 1 a, add-mul (10 * r) 5 a, mul_assoc 10 r a) in
    rw digit (omega (arith, over, cut.0, power), omega (arith, under, cut.1, power, add-mul p 1 a))

mul_swap : (w a b u : ℕ) → (w * a + u) * b ≡ w * b * a + u * b
mul_swap w a b u = grind arith

-- `toStroops` of digits, a point and digits, with one digit at least, for fewer than twenty decimals, is
-- the amount that they write in units, rounded to the nearest unit and up when it lies halfway.
pub to_stroops-IsNearest :
    (double_power : ℕ → ℕ) (w f : Text) (d : ℕ)
    → IsDecimal w
    → IsDecimal f
    → 0 < length w + length f
    → d < 20
    → (r : ℕ) × (to_stroops double_power (w ++ 46 ∷ f) d ≡ some r)
      × IsNearest (big_int (w ++ f) * 10 ^ d) (10 ^ length f) r
unfolding IsNearest
to_stroops-IsNearest double_power w f d hw hf n h =
    let a : ℕ = 10 ^ length f in
    let b : ℕ = 10 ^ d in
    let r : ℕ = rounded_frac (frac_padded f (d + 1)) d in
    let value : big_int (w ++ f) ≡ big_int w * a + big_int f =
      unfold big_int in horner-append 0 w f ∙ horner_value (horner 0 w) f in
    let near : IsNearest (big_int f * b) a r = rounded_frac_lem f d hf in
    let left : big_int (w ++ f) * b ≡ big_int w * b * a + big_int f * b =
      ap (λ k. k * b) value ∙ mul_swap (big_int w) a b (big_int f) in
    let right : (big_int w * b + r) * a ≡ big_int w * b * a + r * a = add-mul (big_int w * b) r a in
    (
      big_int w * b + r,
      to_stroops_lem double_power w f d hw hf n
          ∙ ap (λ p. some (big_int w * p + r)) (pow10_lem double_power d h),
      (omega (arith, near.0, left, right), omega (arith, near.1, left, right)),
    )

-- `calculateRate` over a positive number of seconds, of an amount that reads as a number of units, is
-- the nearest number of units per second, the larger one halfway.
pub calculate_rate-IsNearest :
    (double_power : ℕ → ℕ) (amount : Text) (secs d stroops : ℕ)
    → 0 < secs
    → to_stroops double_power amount d ≡ some stroops
    → (r : ℕ) × (calculate_rate double_power amount secs d ≡ some r) × IsNearest stroops secs r
unfolding IsNearest calculate_rate
calculate_rate-IsNearest double_power amount secs d stroops h e =
    let q : ℕ = stroops / secs in
    let m : ℕ = stroops - q * secs in
    let r : ℕ = if leb secs (m * 2) then q + 1 else q in
    let whole : q * secs + stroops % secs ≡ stroops = div-add-mod' stroops secs in
    let small : stroops % secs < secs = mod-lt stroops h in
    let step : (q + 1) * secs ≡ q * secs + secs = omega (arith, add-mul q 1 secs) in
    let no : leb secs 0 ≡ false = ground arith in
    (
      r,
      rw (no, e) refl,
      if_cases (λ r. (2 * (r * secs) ≤ 2 * stroops + secs) × (2 * stroops < 2 * (r * secs) + secs))
          (leb secs (m * 2))
          (λ l.
            let big : secs ≤ m * 2 = ground arith in
            (omega (arith, whole, small, step, big), omega (arith, whole, small, step, big)))
          (λ l.
            let less : m * 2 < secs = ground arith in
            (omega (arith, whole, small, less), omega (arith, whole, small, less))),
    )
