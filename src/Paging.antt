-- ===== src/Paging.antt =====
-- src/constants.ts: `clampListLimit` and `clampOffset`. An argument is a number or not finite;
-- `Math.trunc` leaves the whole part, with its sign.
use stream_fi_sdk.Base.{ℕ, ◌≤◌, ◌<◌, ◌≡◌, min, if◌then◌else◌, arith, ◌^◌, leb}

-- The truncated number: minus one and below is `negative`.
pub data Truncated : Type 0 where
  not_finite negative : Truncated
  whole : ℕ → Truncated

abbrev pub default_list_limit : ℕ
default_list_limit = 20

abbrev pub max_list_limit : ℕ
max_list_limit = 100

unfoldable pub clamp_list_limit : Truncated → ℕ
clamp_list_limit not_finite = default_list_limit
clamp_list_limit negative = default_list_limit
clamp_list_limit (whole n) = if leb n 0 then default_list_limit else min n max_list_limit

unfoldable pub clamp_offset : Truncated → ℕ
clamp_offset not_finite = 0
clamp_offset negative = 0
clamp_offset (whole n) = min n 4294967295

-- Any limit becomes one from 1 to 100 and any offset one that fits 32 bits; a value that is already in
-- its range stays as it is.
pub clamps :
    (t : Truncated) (n : ℕ)
    → 0 < n
    → n ≤ max_list_limit
    → (0 < clamp_list_limit t)
      × (clamp_list_limit t ≤ max_list_limit)
      × (clamp_list_limit (whole n) ≡ n)
      × (clamp_offset t < 2 ^ 32)
      × (clamp_offset (whole n) ≡ n)
unfolding clamp_list_limit clamp_offset
clamps not_finite n p u = (omega arith, omega arith, ground arith, omega arith, omega arith)
clamps negative n p u = (omega arith, omega arith, ground arith, omega arith, omega arith)
clamps (whole m) n p u = (ground arith, ground arith, ground arith, omega arith, omega arith)
