-- ===== src/Concurrency/Adaptive.antt =====
-- src/map-with-concurrency.ts: the limit of `mapWithAdaptiveConcurrency`. An option that is left out or
-- is no finite number is `none`.
use stream_fi_sdk.Base.{
  ℕ, ◌+◌, ◌/◌, ◌≤◌, min, max, ◌≡◌, ◌∙◌, Option, none, some, List, [], ◌∷◌, ltb, if◌then◌else◌,
  if_cases, length, All, arith,
}

pub record AdaptiveConcurrencyOptions : Type 0 where
  pub initial : Option ℕ
  pub min : Option ℕ
  pub max : Option ℕ
  pub target_latency_ms : Option ℕ

abbrev pub finite_or : Option ℕ → ℕ → ℕ
finite_or none fallback = fallback
finite_or (some value) fallback = value

abbrev pub least : AdaptiveConcurrencyOptions → ℕ
least o = max 1 (finite_or o.min 1)

abbrev pub most : AdaptiveConcurrencyOptions → ℕ
most o = max (least o) (finite_or o.max 8)

unfoldable pub start_limit : AdaptiveConcurrencyOptions → ℕ
start_limit o = min (most o) (max (least o) (finite_or o.initial 2))

-- After a call that took so long.
unfoldable pub next_limit : AdaptiveConcurrencyOptions → ℕ → ℕ → ℕ
next_limit o elapsed limit =
    if ltb (finite_or o.target_latency_ms 1000) elapsed
    then max (least o) (limit / 2)
    else min (most o) (limit + 1)

-- The limit after the calls, from their times.
unfoldable pub limit_after : AdaptiveConcurrencyOptions → ℕ → List ℕ → ℕ
limit_after o limit [] = limit
limit_after o limit (elapsed ∷ times) = limit_after o (next_limit o elapsed limit) times

limit_after-bounds :
    (o : AdaptiveConcurrencyOptions) (times : List ℕ) (limit : ℕ)
    → least o ≤ limit
    → limit ≤ most o
    → (least o ≤ limit_after o limit times) × (limit_after o limit times ≤ most o)
unfolding limit_after
limit_after-bounds o [] limit l h = (l, h)
limit_after-bounds o (t ∷ times) limit l h =
    limit_after-bounds o times (next_limit o t limit)
      (unfold next_limit in
        if_cases (λ n. least o ≤ n) (ltb (finite_or o.target_latency_ms 1000) t) (λ e. omega arith)
          (λ e. omega (arith, l)))
      (unfold next_limit in
        if_cases (λ n. n ≤ most o) (ltb (finite_or o.target_latency_ms 1000) t)
          (λ e. omega (arith, h)) (λ e. omega arith))

-- The limit stays between the least and the most that the options allow, and is positive.
pub limit_after_lem :
    (o : AdaptiveConcurrencyOptions) (times : List ℕ)
    → (1 ≤ limit_after o (start_limit o) times)
      × (least o ≤ limit_after o (start_limit o) times)
      × (limit_after o (start_limit o) times ≤ most o)
unfolding start_limit
limit_after_lem o times =
    let (low, high) = limit_after-bounds o times (start_limit o) (omega arith) (omega arith) in
    (omega (arith, low), low, high)

-- Calls in time raise the limit by one each, up to the most.
pub limit_after_fast :
    (o : AdaptiveConcurrencyOptions) (times : List ℕ) (limit : ℕ)
    → limit ≤ most o
    → All (λ t. t ≤ finite_or o.target_latency_ms 1000) times
    → limit_after o limit times ≡ min (most o) (limit + length times)
unfolding limit_after
limit_after_fast o [] limit h f = omega (arith, h)
limit_after_fast o (t ∷ times) limit h f =
    let up : next_limit o t limit ≡ min (most o) (limit + 1) =
      unfold next_limit in ground (arith, f.0) in
    limit_after_fast o times (next_limit o t limit) (omega (arith, up)) f.1 ∙ omega (arith, up)
