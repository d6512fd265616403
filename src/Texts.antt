-- ===== src/Texts.antt =====
-- Strings as src/dashboard/transaction-history.ts and src/builder.ts read them: their code units,
-- equality, `trim`, `includes` and the test for an integer.
use Prim.Native.Char.{code}
use stream_fi_sdk.Base.{
  ℕ, ◌≡◌, ◌↔◌, refl, Bool, true, false, ◌&&◌, ◌||◌, [], ◌∷◌, String, Option, none, some, leb, ◌==◌,
  Eq, if◌then◌else◌, arith,
}
use stream_fi_sdk.Amount.{all_digits}
use stream_fi_sdk.Amount.Digits.{Text}

abbrev pub codes : String → Text
codes String.[] = []
codes (String.◌∷◌ c s) = code c ∷ codes s

abbrev pub same_text : Text → Text → Bool
same_text [] [] = true
same_text [] (d ∷ ds) = false
same_text (c ∷ cs) [] = false
same_text (c ∷ cs) (d ∷ ds) = c == d && same_text cs ds

pub same_text_iff : (s t : Text) → (same_text s t ≡ true) ↔ (s ≡ t)
same_text_iff [] [] = (λ _. refl, λ _. refl)
same_text_iff [] (d ∷ ds) = (λ h. cc, λ h. cc)
same_text_iff (c ∷ cs) [] = (λ h. cc, λ h. cc)
same_text_iff (c ∷ cs) (d ∷ ds) =
    (λ h. ground (arith, (same_text_iff cs ds).0), λ h. ground (arith, (same_text_iff cs ds).1))

instance abbrev pub text_eq : Eq Text
text_eq = record { beq = same_text; beq_iff = same_text_iff }

-- The white space and line terminators of the language.
abbrev pub is_space : ℕ → Bool
is_space c =
    leb 9 c && leb c 13
    || c == 32
    || c == 160
    || c == 5760
    || leb 8192 c && leb c 8202
    || c == 8232
    || c == 8233
    || c == 8239
    || c == 8287
    || c == 12288
    || c == 65279

unfoldable pub trim_start : Text → Text
trim_start [] = []
trim_start (c ∷ cs) = let rest = trim_start cs in if is_space c then rest else c ∷ cs

abbrev pub keep_unless_last : ℕ → Text → Text
keep_unless_last c [] = if is_space c then [] else c ∷ []
keep_unless_last c (d ∷ ds) = c ∷ d ∷ ds

unfoldable pub trim_end : Text → Text
trim_end [] = []
trim_end (c ∷ cs) = keep_unless_last c (trim_end cs)

unfoldable pub trim : Text → Text
unfolding trim_start trim_end
trim t = trim_end (trim_start t)

abbrev pub starts_with : Text → Text → Bool
starts_with [] t = true
starts_with (c ∷ cs) [] = false
starts_with (c ∷ cs) (d ∷ ds) = c == d && starts_with cs ds

-- `t.includes(search)`
unfoldable pub includes : Text → Text → Bool
includes [] search = starts_with search []
includes (c ∷ cs) search = starts_with search (c ∷ cs) || includes cs search

-- The digits and whether a minus stands before them, if the text is `/^-?\d+$/`.
abbrev pub digits_of : Bool → Text → Option (Bool × Text)
digits_of negative [] = none
digits_of negative (c ∷ cs) = if all_digits (c ∷ cs) then some (negative, c ∷ cs) else none

abbrev pub integer_of : Text → Option (Bool × Text)
integer_of [] = none
integer_of (c ∷ cs) = if c == 45 then digits_of true cs else digits_of false (c ∷ cs)
