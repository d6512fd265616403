-- ===== src/Tests/Signatures.antt =====
-- Runs of the model of src/signer.ts.
use stream_fi_sdk.Base.{
  ℕ, ◌<◌, ◌^◌, some, List, [], ◌∷◌, ◌≡◌, refl, length, take, drop, replicate, arith,
}
use stream_fi_sdk.Signature.{
  der_to_raw_signature, read_der_length, read_der_integer, der_integer_to_fixed_width,
}
use stream_fi_sdk.Signature.Encoded.{value, der_signature, der_to_raw_signature-der_signature}

abbrev two_hundred : List ℕ
two_hundred = 0 ∷ 200 ∷ []

abbrev seven : List ℕ
seven = 7 ∷ []

values_small : (value two_hundred < 256 ^ 32) × (value seven < 256 ^ 32)
unfolding value
values_small = (omega arith, omega arith)

der_to_raw_signature-der_signature_example :
    (raw : List ℕ) × (der_to_raw_signature (der_signature two_hundred seven) ≡ some raw)
    × (length raw ≡ 64)
    × (value (take 32 raw) ≡ value two_hundred)
    × (value (drop 32 raw) ≡ value seven)
der_to_raw_signature-der_signature_example =
    der_to_raw_signature-der_signature two_hundred seven (omega arith) (omega arith) (omega arith)
      values_small.0 values_small.1

-- A length of four bytes that is negative as a number of 32 bits: the same bytes are read twice as
-- an integer without bytes.
negative_length :
    der_to_raw_signature (48 ∷ 6 ∷ 2 ∷ 132 ∷ 255 ∷ 255 ∷ 255 ∷ 250 ∷ []) ≡ some (replicate 64 0)
unfolding der_to_raw_signature read_der_length read_der_integer der_integer_to_fixed_width
negative_length = refl
