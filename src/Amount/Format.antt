-- ===== src/Amount/Format.antt =====
-- src/utils.ts: `formatTokenAmount` shows the nearest amount that its decimals can show.
use stream_fi_sdk.Base.{
  ℕ, suc, ◌+◌, ◌*◌, ◌/◌, ◌%◌, ◌^◌, ◌≤◌, ◌<◌, ◌≡◌, refl, sym, ◌∙◌, ap, false, some, ◌∷◌, ◌++◌, leb,
  ◌==◌, if◌then◌else◌, if_cases, length, arith, Bool-cases, inl, inr,
}
use stream_fi_sdk.Amount.Digits.{
  Text, IsDecimal, to_string_nonempty, to_string-IsDecimal, big_int, horner, horner-append,
  to_string, pad_start, big_int-to_string,
}
use stream_fi_sdk.Amount.{ℤ, magnitude, sign, format_token_amount}
use stream_fi_sdk.Amount.Trim.{pow10_lem, big_int-pad_start}
use stream_fi_sdk.Amount.Convert.{pad_start-IsDecimal, power_pos, length-pad_start}
use stream_fi_sdk.Amount.Rounding.{IsNearest, horner_value}
use native.Mathlib.Decide.{dec_le}
use native.Mathlib.Nat.{mul_comm, add-mul, div-add-mod', mod-lt, mul-le-mul_right}

-- Half of the divisor is added before the division, which cuts.
add_half-IsNearest : (n e : ℕ) → 0 < e → IsNearest n e ((n + e / 2) / e)
unfolding IsNearest
add_half-IsNearest n e h =
    let q : ℕ = (n + e / 2) / e in
    let whole : q * e + (n + e / 2) % e ≡ n + e / 2 = div-add-mod' (n + e / 2) e in
    let small : (n + e / 2) % e < e = mod-lt (n + e / 2) h in
    (omega (arith, whole), omega (arith, whole, small))

IsNearest-whole : (w n e r f : ℕ) → IsNearest n e r → IsNearest (w * e * f + n) e (w * f + r)
unfolding IsNearest
IsNearest-whole w n e r f h =
    let p : (w * f + r) * e ≡ w * e * f + r * e = swap in
    (omega (arith, h.0, p), omega (arith, h.1, p))
  where
    swap : (w * f + r) * e ≡ w * e * f + r * e
    swap = grind arith

scaled-le : (r f e : ℕ) → r < e → (r * f + e / 2) / e ≤ f
scaled-le r f e h =
    let q : ℕ = (r * f + e / 2) / e in
    let whole : q * e + (r * f + e / 2) % e ≡ r * f + e / 2 = div-add-mod' (r * f + e / 2) e in
    let below : r * f + f ≤ e * f =
      let l : (r + 1) * f ≤ e * f = mul-le-mul_right f (omega (arith, h)) in
      omega (arith, l, add-mul r 1 f) in
    elim (dec_le q f) [
      | yes l ↦ l
      | no n ↦
          let l : (f + 1) * e ≤ q * e = mul-le-mul_right e (omega (arith, n)) in
          absurd (omega (arith, l, add-mul f 1 e, whole, below, mul_comm e f))
    ]

carried :
    (whole scaled factor : ℕ)
    → scaled ≤ factor
    → (whole + (if leb factor scaled then 1 else 0)) * factor
        + (if leb factor scaled then 0 else scaled)
      ≡ whole * factor + scaled
carried whole scaled factor h = elim (Bool-cases (leb factor scaled)) [
  | inl l ↦
      rw l (let e : scaled ≡ factor = ground arith in omega (arith, add-mul whole 1 factor, e))
  | inr l ↦ rw l (let z : whole + 0 ≡ whole = omega arith in ap (λ w. w * factor + scaled) z)
]

-- The whole number that digits write, less the point among them.
shown_value :
    (w c e : ℕ)
    → c < 10 ^ suc e
    → big_int (to_string w ++ pad_start (to_string c) (suc e)) ≡ w * 10 ^ suc e + c
unfolding big_int
shown_value w c e h =
    horner-append 0 (to_string w) (pad_start (to_string c) (suc e))
    ∙ horner_value (horner 0 (to_string w)) (pad_start (to_string c) (suc e))
    ∙ shown (unfold big_int in big_int-to_string w) (length-pad_start c e h)
        (big_int-pad_start (to_string c) (suc e) ∙ big_int-to_string c)
  where
    shown : {v l r : ℕ} → v ≡ w → l ≡ suc e → r ≡ c → v * 10 ^ l + r ≡ w * 10 ^ suc e + c
    shown p q s = rw (p, q, s) refl

-- With one decimal to show at least, and fewer than twenty decimals to show and in the amount, the
-- text is the sign, one digit or more, a point and as many digits as are to be shown, which are
-- together the amount rounded to the nearest number that can be shown.
pub format_token_amount-IsNearest :
    (double_power : ℕ → ℕ) (amount : ℤ) (d e : ℕ)
    → d < 20
    → suc e < 20
    → (w : Text) × (f : Text) × (format_token_amount double_power amount d (some (suc e))
        ≡ sign amount ++ (w ++ 46 ∷ f))
      × (0 < length w)
      × IsDecimal w
      × (length f ≡ suc e)
      × IsDecimal f
      × IsNearest (magnitude amount * 10 ^ suc e) (10 ^ d) (big_int (w ++ f))
unfolding format_token_amount
format_token_amount-IsNearest double_power amount d e hd he =
    let factor : ℕ = 10 ^ d in
    let display : ℕ = 10 ^ suc e in
    let whole : ℕ = magnitude amount / factor in
    let rem : ℕ = magnitude amount % factor in
    let scaled : ℕ = (rem * display + factor / 2) / factor in
    let capped : ℕ = if leb display scaled then 0 else scaled in
    let carry : ℕ = if leb display scaled then 1 else 0 in
    let shows : (suc e == 0) ≡ false = ground arith in
    let positive : 0 < factor = power_pos d in
    let fits : capped < display =
      if_cases (λ c. c < display) (leb display scaled) (λ l. power_pos (suc e))
        (λ l. ground arith) in
    let value : big_int (to_string (whole + carry) ++ pad_start (to_string capped) (suc e))
        ≡ whole * display + scaled =
      shown_value (whole + carry) capped e fits
      ∙ carried whole scaled display
          (scaled-le rem display factor (mod-lt (magnitude amount) positive)) in
    let total : whole * factor * display + rem * display ≡ magnitude amount * display =
      sym (add-mul (whole * factor) rem display)
      ∙ ap (λ n. n * display) (div-add-mod' (magnitude amount) factor) in
    (
      to_string (whole + carry),
      pad_start (to_string capped) (suc e),
      rw (pow10_lem double_power d hd, pow10_lem double_power (suc e) he, shows) refl,
      to_string_nonempty (whole + carry),
      to_string-IsDecimal (whole + carry),
      length-pad_start capped e fits,
      pad_start-IsDecimal capped (suc e),
      rw (value, sym total)
          (IsNearest-whole whole (rem * display) factor scaled display
            (add_half-IsNearest (rem * display) factor positive)),
    )
