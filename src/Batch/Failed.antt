-- ===== src/Batch/Failed.antt =====
-- src/batch-tx.ts: `BatchPartiallySubmittedError`, which `submitBatch` throws, and the operations it
-- offers for another try.
use stream_fi_sdk.Base.{
  ℕ, ◌≡◌, refl, ap, ◌∙◌, ◌⊎◌, inl, inr, Bool, true, false, Option, none, some, List, [], ◌∷◌, ◌++◌,
  map, filter, ◌==◌, if◌then◌else◌, get_elem?, Bool-cases,
}
use stream_fi_sdk.Circuit.Record.{get_or}
use stream_fi_sdk.Batch.Submit.{
  Status, failed, skipped, error, Built, Outcome, Answers, Options, BatchResult, rounds, start,
  summary,
}
use stream_fi_sdk.Batch.Submit.Laws.{Shape, Successes, Skips, all_good, broken, rounds-Shape}

abbrev pub is_skipped : Status → Bool
is_skipped skipped = true
is_skipped _ = false

abbrev pub is_failed : Status → Bool
is_failed failed = true
is_failed error = true
is_failed _ = false

-- `firstFailureIndex` is -1 for none.
pub record BatchPartiallySubmittedError : Type 0 where
  pub first_failure_index : Option ℕ
  pub skipped_indices : List ℕ
  pub result : BatchResult
  pub built_transactions : List Built

abbrev pub new : BatchResult → Option (List Built) → BatchPartiallySubmittedError
new result built = record {
  first_failure_index = result.first_failure_index;
  skipped_indices = map (λ o. o.index) (filter (λ o. is_skipped o.status) result.outcomes);
  result = result;
  built_transactions = get_or built [];
}

unfoldable pub failed_indices : List Outcome → List ℕ
failed_indices outcomes = map (λ o. o.index) (filter (λ o. is_failed o.status) outcomes)

abbrev pub contains : ℕ → List ℕ → Bool
contains i [] = false
contains i (j ∷ js) = let rest = contains i js in if j == i then true else rest

abbrev pub add_operation {ℓ} : {T : Type ℓ} → Option T → Option (List T) → Option (List T)
add_operation none rest = none
add_operation (some op) none = none
add_operation (some op) (some ops) = some (op ∷ ops)

-- `none` is the `RangeError` for an index that has no operation.
unfoldable pub operations_of {ℓ} : {T : Type ℓ} → List Built → List T → Option (List T)
operations_of [] originals = some []
operations_of (tx ∷ txs) originals =
    add_operation (get_elem? originals tx.index) (operations_of txs originals)

unfoldable pub get_failed_operations {ℓ} :
    {T : Type ℓ} → BatchPartiallySubmittedError → List T → Option (List T)
get_failed_operations e originals =
    let failed_set = failed_indices e.result.outcomes in
    operations_of (filter (λ tx. contains tx.index failed_set) e.built_transactions) originals

failed_indices-append :
    (xs ys : List Outcome) → failed_indices (xs ++ ys) ≡ failed_indices xs ++ failed_indices ys
unfolding failed_indices
failed_indices-append [] ys = refl
failed_indices-append (x ∷ xs) ys = elim (Bool-cases (is_failed x.status)) [
  | inl h ↦ rw (h, failed_indices-append xs ys) refl
  | inr h ↦ rw (h, failed_indices-append xs ys) refl
]

failed_indices-Successes : (os : List Outcome) → Successes os → failed_indices os ≡ []
unfolding failed_indices
failed_indices-Successes [] h = refl
failed_indices-Successes (x ∷ os) h = rw h.0 (failed_indices-Successes os h.1)

failed_indices-Skips : (i : ℕ) (os : List Outcome) → Skips i os → failed_indices os ≡ []
unfolding failed_indices
failed_indices-Skips i [] h = refl
failed_indices-Skips i (x ∷ os) h = rw h.0.0 (failed_indices-Skips i os h.1)

failed_indices-one :
    (x : Outcome) (rest : List Outcome)
    → failed_indices rest ≡ []
    → (failed_indices (x ∷ rest) ≡ []) ⊎ (failed_indices (x ∷ rest) ≡ x.index ∷ [])
unfolding failed_indices
failed_indices-one x rest h = elim (Bool-cases (is_failed x.status)) [
  | inl f ↦ inr (rw (f, h) refl)
  | inr f ↦ inl (rw f h)
]

-- At most the first failure is among the failed.
abbrev pub OnlyFirst : Option ℕ → List ℕ → Type 0
OnlyFirst first is = (is ≡ []) ⊎ ((i : ℕ) × (first ≡ some i) × (is ≡ i ∷ []))

failed_indices-Shape :
    (os : List Outcome) (first : Option ℕ) → Shape os first → OnlyFirst first (failed_indices os)
failed_indices-Shape os none (all_good good) = inl (failed_indices-Successes os good)
failed_indices-Shape os (some i) (broken good bad rest e g b k s) =
    let before = failed_indices-Successes good g in
    let split : failed_indices os ≡ failed_indices (bad ∷ rest) =
      rw (e, failed_indices-append good (bad ∷ rest), before) refl in
    elim (failed_indices-one bad rest (failed_indices-Skips i rest s)) [
      | inl z ↦ inl (split ∙ z)
      | inr o ↦ inr (i, refl, split ∙ o ∙ ap (λ j. j ∷ []) k)
    ]

-- Of the outcomes of one submission, at most one counts as failed for `getFailedOperations`, and it is
-- that of the first failure: what was skipped because of it does not count.
pub failed_indices_lem :
    (o : Options) (txs : List (Built × Answers))
    → let r = summary (rounds o txs start) in
      OnlyFirst r.first_failure_index (failed_indices r.outcomes)
failed_indices_lem o txs =
    failed_indices-Shape (rounds o txs start).outcomes (rounds o txs start).first_failure
      (rounds-Shape o txs start refl tt)
