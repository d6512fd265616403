-- ===== src/Confirmation.antt =====
-- src/soroban.ts: `pollForConfirmation`. The answers of each round are an argument: whether the signal
-- was aborted before and after the wait, and the status that the server gives, if it gives one.
use stream_fi_sdk.Base.{
  ℕ, zero, suc, ◌+◌, ◌<◌, ◌≡◌, refl, ◌∙◌, subst, Bool, false, if◌then◌else◌, arith,
}

pub data Status : Type 0 where
  succeeded failed pending : Status
  unanswered : Status

pub record Round : Type 0 where
  pub aborted_before : Bool
  pub aborted_after : Bool
  pub status : Status

pub data Outcome : Type 0 where
  success failure aborted : Outcome
  poll_error timeout : ℕ → Outcome

-- The status of attempt `i`, counted from 0.
abbrev pub on_status : ℕ → Outcome → Status → Outcome
on_status i rest succeeded = success
on_status i rest failed = failure
on_status i rest pending = rest
on_status i rest unanswered = poll_error (i + 1)

abbrev pub on_round : ℕ → Outcome → Round → Outcome
on_round i rest r =
    if r.aborted_before
    then aborted
    else if r.aborted_after
    then aborted
    else on_status i rest r.status

-- The attempts that are left come first.
unfoldable pub poll_from : (ℕ → Round) → ℕ → ℕ → ℕ → Outcome
poll_from rounds zero i max_attempts = timeout max_attempts
poll_from rounds (suc left) i max_attempts =
    let rest = poll_from rounds left (i + 1) max_attempts in on_round i rest (rounds i)

unfoldable pub poll_for_confirmation : (ℕ → Round) → ℕ → Outcome
poll_for_confirmation rounds max_attempts = poll_from rounds max_attempts 0 max_attempts

-- A round that leaves the transaction open.
pub record IsPending (r : Round) : Type 0 where
  pub waits_before : r.aborted_before ≡ false
  pub waits_after : r.aborted_after ≡ false
  pub undecided : r.status ≡ pending

on_round_pending : (i : ℕ) (rest : Outcome) (r : Round) → IsPending r → on_round i rest r ≡ rest
on_round_pending i rest r v = rw (v.waits_before, v.waits_after, v.undecided) refl

poll_from_first :
    (rounds : ℕ → Round) (k left i max_attempts : ℕ)
    → k < left
    → ((j : ℕ) → j < k → IsPending (rounds (i + j)))
    → (o : Outcome) → ((rest : Outcome) → on_round (i + k) rest (rounds (i + k)) ≡ o)
    → poll_from rounds left i max_attempts ≡ o
unfolding poll_from
poll_from_first rounds k zero i max_attempts h p o d = absurd (omega arith)
poll_from_first rounds zero (suc left) i max_attempts h p o d =
    let here : i + 0 ≡ i = omega arith in
    subst (λ n. on_round n (poll_from rounds left (i + 1) max_attempts) (rounds n) ≡ o) here
      (d (poll_from rounds left (i + 1) max_attempts))
poll_from_first rounds (suc k) (suc left) i max_attempts h p o d =
    let here : i + 0 ≡ i = omega arith in
    let undecided : IsPending (rounds i) =
      subst (λ n. IsPending (rounds n)) here (p 0 (omega arith)) in
    let next : (j : ℕ) → i + suc j ≡ i + 1 + j = λ j. omega arith in
    on_round_pending i (poll_from rounds left (i + 1) max_attempts) (rounds i) undecided
    ∙ poll_from_first rounds k left (i + 1) max_attempts (omega (arith, h))
        (λ j l. subst (λ n. IsPending (rounds n)) (next j) (p (suc j) (omega (arith, l)))) o
        (λ rest. subst (λ n. on_round n rest (rounds n) ≡ o) (next k) (d rest))

-- The first round among the attempts that does not leave the transaction open decides the outcome.
pub poll_for_confirmation_lem :
    (rounds : ℕ → Round) (k max_attempts : ℕ)
    → k < max_attempts
    → ((j : ℕ) → j < k → IsPending (rounds j))
    → (o : Outcome) → ((rest : Outcome) → on_round k rest (rounds k) ≡ o)
    → poll_for_confirmation rounds max_attempts ≡ o
unfolding poll_for_confirmation
poll_for_confirmation_lem rounds k max_attempts h p o d =
    let from_zero : (j : ℕ) → j ≡ 0 + j = λ j. omega arith in
    poll_from_first rounds k max_attempts 0 max_attempts h
      (λ j l. subst (λ n. IsPending (rounds n)) (from_zero j) (p j l)) o
      (λ rest. subst (λ n. on_round n rest (rounds n) ≡ o) (from_zero k) (d rest))
