-- ===== src/Signature.antt =====
-- src/signer.ts: `derToRawSignature`, which turns the DER form of an ECDSA signature into its 64 bytes.
-- Bytes are numbers below 256, offsets may be negative where the source's are, and an error is `none`.
pub mod Encoded
use stream_fi_sdk.Base.{
  ℕ, zero, suc, ◌+◌, ◌-◌, ◌*◌, ◌%◌, ◌^◌, Bool, true, false, not, ◌&&◌, ◌||◌, Option, none, some,
  List, [], ◌∷◌, ◌++◌, ltb, leb, ◌==◌, if◌then◌else◌, length, get_elem?, take, drop, replicate,
}
use stream_fi_sdk.Amount.{ℤ, pos, negsuc}

-- The signed number that 32 bits stand for.
abbrev pub int32 : ℕ → ℤ
int32 m = if ltb m (2 ^ 31) then pos m else negsuc (2 ^ 32 - 1 - m)

-- `next + length`
abbrev pub add_length : ℕ → ℤ → ℤ
add_length next (pos l) = pos (next + l)
add_length next (negsuc n) = if ltb n next then pos (next - (n + 1)) else negsuc (n - next)

abbrev pub exceeds : ℤ → ℕ → Bool
exceeds (pos e) size = ltb size e
exceeds (negsuc n) size = false

-- `buf.slice(next, end)`, where a negative end counts from the end of the buffer.
abbrev pub slice : List ℕ → ℕ → ℤ → List ℕ
slice buf next (pos e) = take (e - next) (drop next buf)
slice buf next (negsuc n) = take (length buf - (n + 1) - next) (drop next buf)

-- The bytes of a long length, each shifted in; the first number is what was read before.
abbrev pub long_length : List ℕ → ℕ → ℕ → ℕ → Option ℕ
long_length buf m offset zero = some m
long_length buf m offset (suc count) = elim (get_elem? buf offset) [
  | none ↦ none
  | some b ↦ long_length buf ((m * 256 + b) % 2 ^ 32) (offset + 1) count
]

abbrev pub read_long : List ℕ → ℕ → ℕ → Option (ℤ × ℕ)
read_long buf offset count =
    if (count == 0) || ltb 4 count then none else elim (long_length buf 0 (offset + 1) count) [
      | none ↦ none
      | some m ↦ some (int32 m, offset + 1 + count)
    ]

-- The length and the offset after it.
abbrev pub read_first : List ℕ → ℕ → Option ℕ → Option (ℤ × ℕ)
read_first buf offset none = none
read_first buf offset (some first) =
    if ltb first 128 then some (pos first, offset + 1) else read_long buf offset (first - 128)

unfoldable pub read_der_length : List ℕ → ℕ → Option (ℤ × ℕ)
read_der_length buf offset = read_first buf offset (get_elem? buf offset)

abbrev pub is_zero : ℤ → Bool
is_zero (pos n) = n == 0
is_zero (negsuc n) = false

abbrev pub take_integer : List ℕ → Option (ℤ × ℕ) → Option (List ℕ × ℤ)
take_integer buf none = none
take_integer buf (some (size, next)) =
    if is_zero size || exceeds (add_length next size) (length buf)
    then none
    else some (slice buf next (add_length next size), add_length next size)

abbrev pub has_tag : Option ℕ → Bool
has_tag none = false
has_tag (some tag) = tag == 2

-- The value of an integer and the offset after it; there is no byte at a negative offset.
unfoldable pub read_der_integer : List ℕ → ℤ → Option (List ℕ × ℤ)
read_der_integer buf (negsuc n) = none
read_der_integer buf (pos offset) =
    if has_tag (get_elem? buf offset)
    then take_integer buf (read_der_length buf (offset + 1))
    else none

-- The loop that strips leading zeros from a value that is too long.
abbrev pub trim_value : List ℕ → ℕ → List ℕ
trim_value [] width = []
trim_value (b ∷ bs) width =
    let rest = trim_value bs width in
    if ltb width (length (b ∷ bs)) && (b == 0) then rest else b ∷ bs

unfoldable pub der_integer_to_fixed_width : List ℕ → ℕ → Option (List ℕ)
der_integer_to_fixed_width value width =
    let trimmed = trim_value value width in
    if ltb width (length trimmed)
    then none
    else some (replicate (width - length trimmed) 0 ++ trimmed)

abbrev pub join : Option (List ℕ) → Option (List ℕ) → Option (List ℕ)
join (some r) (some s) = some (r ++ s)
join none s = none
join (some r) none = none

abbrev pub raw_of : Option (List ℕ × ℤ) → Option (List ℕ × ℤ) → Option (List ℕ)
raw_of (some (r, next)) (some (s, end)) =
    join (der_integer_to_fixed_width r 32) (der_integer_to_fixed_width s 32)
raw_of none s = none
raw_of (some r) none = none

abbrev pub read_second : List ℕ → Option (List ℕ × ℤ) → Option (List ℕ × ℤ)
read_second der none = none
read_second der (some (r, next)) = read_der_integer der next

abbrev pub read_both : List ℕ → Option (ℤ × ℕ) → Option (List ℕ)
read_both der none = none
read_both der (some (size, start)) =
    let r = read_der_integer der (pos start) in raw_of r (read_second der r)

abbrev pub is_sequence : Option ℕ → Bool
is_sequence none = false
is_sequence (some tag) = tag == 48

unfoldable pub der_to_raw_signature : List ℕ → Option (List ℕ)
der_to_raw_signature der =
    if ltb (length der) 8 || not (is_sequence (get_elem? der 0))
    then none
    else read_both der (read_der_length der 1)
