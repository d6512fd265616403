-- ===== src/Signature/Encoded.antt =====
-- src/signer.ts: a signature that is encoded by the rules of DER comes out with its two numbers.
use stream_fi_sdk.Base.{
  ℕ, zero, suc, ◌+◌, ◌-◌, ◌*◌, ◌^◌, ◌≤◌, ◌<◌, true, false, ◌&&◌, Option, none, some, List, [], ◌∷◌,
  ◌++◌, ltb, ◌==◌, if_cases, length, get_elem?, take, drop, replicate, length-append,
  length-replicate, length-drop, drop-drop, ◌≡◌, refl, sym, ◌∙◌, ap, arith, Bool-cases, inl, inr,
  append-nil,
}
use native.Mathlib.Nat.{pow-zero, pow-suc, mul-one, pow-le-pow_right, mul-le-mul_right}
use stream_fi_sdk.Amount.{pos}
use stream_fi_sdk.Signature.{
  read_der_length, read_der_integer, trim_value, der_integer_to_fixed_width, der_to_raw_signature,
}

-- The number that bytes write, the largest first.
abbrev pub value_from : ℕ → List ℕ → ℕ
value_from n [] = n
value_from n (b ∷ bs) = value_from (n * 256 + b) bs

unfoldable pub value : List ℕ → ℕ
value bs = value_from 0 bs

-- An `INTEGER` of fewer than 128 bytes, and a signature of two.
abbrev pub der_integer : List ℕ → List ℕ
der_integer v = 2 ∷ length v ∷ v

unfoldable pub der_signature : List ℕ → List ℕ → List ℕ
der_signature r s = 48 ∷ length (der_integer r ++ der_integer s) ∷ (der_integer r ++ der_integer s)

head : List ℕ → Option ℕ
head [] = none
head (b ∷ bs) = some b

get_elem?-head : (buf : List ℕ) (n : ℕ) → get_elem? buf n ≡ head (drop n buf)
unfolding head
get_elem?-head [] zero = refl
get_elem?-head [] (suc n) = refl
get_elem?-head (b ∷ bs) zero = refl
get_elem?-head (b ∷ bs) (suc n) = get_elem?-head bs n

take-append : (v rest : List ℕ) → take (length v) (v ++ rest) ≡ v
take-append [] rest = refl
take-append (b ∷ v) rest = ap (λ t. b ∷ t) (take-append v rest)

drop-append : (v rest : List ℕ) → drop (length v) (v ++ rest) ≡ rest
drop-append [] rest = refl
drop-append (b ∷ v) rest = drop-append v rest

-- An encoded integer that stands at an offset.
read_der_integer_lem :
    (buf : List ℕ) (offset : ℕ) (v rest : List ℕ)
    → drop offset buf ≡ der_integer v ++ rest
    → 0 < length v
    → length v < 128
    → read_der_integer buf (pos offset) ≡ some (v, pos (offset + 2 + length v))
unfolding read_der_integer read_der_length head
read_der_integer_lem buf offset v rest h l s =
    let tag : get_elem? buf offset ≡ some 2 = get_elem?-head buf offset ∙ ap head h in
    let after : drop (offset + 1) buf ≡ length v ∷ (v ++ rest) =
      sym (drop-drop 1 offset buf) ∙ ap (drop 1) h in
    let size : get_elem? buf (offset + 1) ≡ some (length v) =
      get_elem?-head buf (offset + 1) ∙ ap head after in
    let two : offset + 1 + 1 ≡ offset + 2 = omega arith in
    let body : drop (offset + 2) buf ≡ v ++ rest = sym (drop-drop 2 offset buf) ∙ ap (drop 2) h in
    let short : ltb (length v) 128 ≡ true = ground arith in
    let some_bytes : (length v == 0) ≡ false = ground arith in
    let fits : ltb (length buf) (offset + 2 + length v) ≡ false =
      let n : length buf - (offset + 2) ≡ length v + length rest =
        sym (length-drop (offset + 2) buf) ∙ ap length body ∙ length-append v rest in
      ground arith in
    let cut : offset + 2 + length v - (offset + 2) ≡ length v = omega arith in
    rw (tag, size, short, two, some_bytes, fits, cut, body, take-append v rest) refl

value_from_lem : (n : ℕ) (bs : List ℕ) → value_from n bs ≡ n * 256 ^ length bs + value_from 0 bs
value_from_lem n [] = omega (arith, pow-zero 256, mul-one n)
value_from_lem n (b ∷ bs) =
    let p : ℕ = 256 ^ length bs in
    value_from_lem (n * 256 + b) bs
    ∙ (let q : (n * 256 + b) * p ≡ n * (p * 256) + b * p = grind arith in
        omega
          (arith, q, value_from_lem (0 * 256 + b) bs, ap (λ k. n * k) (pow-suc 256 (length bs))))

value-append : (xs ys : List ℕ) (n : ℕ) → value_from n (xs ++ ys) ≡ value_from (value_from n xs) ys
value-append [] ys n = refl
value-append (x ∷ xs) ys n = value-append xs ys (n * 256 + x)

value-zeros : (k : ℕ) → value_from 0 (replicate k 0) ≡ 0
value-zeros zero = refl
value-zeros (suc k) = value-zeros k

-- A value below 256 to the power of the width is at most that long once it is stripped.
trim_value_lem :
    (v : List ℕ) (width : ℕ)
    → value_from 0 v < 256 ^ width
    → (length (trim_value v width) ≤ width) × (value_from 0 (trim_value v width) ≡ value_from 0 v)
trim_value_lem [] width h = (omega arith, refl)
trim_value_lem (b ∷ bs) width h =
    let b0 : 0 * 256 + b ≡ b = omega arith in
    if_cases (λ t. (length t ≤ width) × (value_from 0 t ≡ value_from (0 * 256 + b) bs))
      (ltb width (length (b ∷ bs)) && (b == 0))
      (λ e.
        let z : b ≡ 0 = ground arith in
        let same : value_from (0 * 256 + b) bs ≡ value_from 0 bs =
          ap (λ k. value_from k bs) (b0 ∙ z) in
        let (l, v) = trim_value_lem bs width (omega (arith, same, h)) in (l, v ∙ sym same))
      (λ e. (within e, refl))
  where
    within : (ltb width (length (b ∷ bs)) && (b == 0)) ≡ false → length (b ∷ bs) ≤ width
    within e = elim (Bool-cases (ltb width (length (b ∷ bs)))) [
      | inr short ↦ ground arith
      | inl long ↦
          let some_value : 1 ≤ b = ground arith in
          let large : 256 ^ width ≤ 256 ^ length bs =
            pow-le-pow_right (omega arith) (ground arith) in
          let times : 1 * 256 ^ length bs ≤ b * 256 ^ length bs =
            mul-le-mul_right (256 ^ length bs) some_value in
          absurd (omega (arith, h, large, times, value_from_lem (0 * 256 + b) bs))
    ]

fixed_width_lem :
    (v : List ℕ) (width : ℕ)
    → value_from 0 v < 256 ^ width
    → (f : List ℕ) × (der_integer_to_fixed_width v width ≡ some f)
      × (length f ≡ width)
      × (value_from 0 f ≡ value_from 0 v)
unfolding der_integer_to_fixed_width
fixed_width_lem v width h =
    let (l, same) = trim_value_lem v width h in
    let t : List ℕ = trim_value v width in
    let fits : ltb width (length t) ≡ false = ground arith in
    (
      replicate (width - length t) 0 ++ t,
      rw fits refl,
      omega (
        arith,
        length-append (replicate {A = ℕ} (width - length t) 0) t,
        length-replicate {A = ℕ} (width - length t) 0,
        l,
      ),
      value-append (replicate (width - length t) 0) t 0
          ∙ ap (λ k. value_from k t) (value-zeros (width - length t))
          ∙ same,
    )

-- Two numbers of at most 256 bits, each written in bytes and encoded in a signature of fewer than 128
-- bytes of content: the raw signature has 64 bytes, of which the first half writes the first
-- number and the second half the second one.
pub der_to_raw_signature-der_signature :
    (r s : List ℕ)
    → 0 < length r
    → 0 < length s
    → length r + length s < 124
    → value r < 256 ^ 32
    → value s < 256 ^ 32
    → (raw : List ℕ) × (der_to_raw_signature (der_signature r s) ≡ some raw)
      × (length raw ≡ 64)
      × (value (take 32 raw) ≡ value r)
      × (value (drop 32 raw) ≡ value s)
unfolding der_to_raw_signature der_signature value read_der_length
der_to_raw_signature-der_signature r s lr ls short hr hs =
    let body : List ℕ = der_integer r ++ der_integer s in
    let der : List ℕ = 48 ∷ length body ∷ body in
    let (f, ef, nf, vf) = fixed_width_lem r 32 hr in
    let (g, eg, ng, vg) = fixed_width_lem s 32 hs in
    let size : length body ≡ length r + length s + 4 =
      omega (arith, length-append r (der_integer s)) in
    let long_enough : ltb (length der) 8 ≡ false = ground arith in
    let one_byte : ltb (length body) 128 ≡ true = ground arith in
    let first : read_der_integer der (pos 2) ≡ some (r, pos (4 + length r)) =
      read_der_integer_lem der 2 r (der_integer s) refl lr (omega (arith, short)) in
    let rest : drop (4 + length r) der ≡ der_integer s ++ [] =
      sym (drop-drop (length r) 4 der)
      ∙ drop-append r (der_integer s)
      ∙ sym (append-nil (der_integer s)) in
    let second : read_der_integer der (pos (4 + length r))
        ≡ some (s, pos (4 + length r + 2 + length s)) =
      read_der_integer_lem der (4 + length r) s [] rest ls (omega (arith, short)) in
    (
      f ++ g,
      rw (long_enough, one_byte, first, second, ef, eg) refl,
      omega (arith, length-append f g, nf, ng),
      ap (value_from 0) (ap (λ n. take n (f ++ g)) (sym nf) ∙ take-append f g) ∙ vf,
      ap (value_from 0) (ap (λ n. drop n (f ++ g)) (sym nf) ∙ drop-append f g) ∙ vg,
    )
