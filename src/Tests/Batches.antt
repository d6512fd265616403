-- ===== src/Tests/Batches.antt =====
-- src/batch-tx.ts at small inputs.
use stream_fi_sdk.Base.{
  ℕ, ◌+◌, ◌*◌, ◌<◌, ◌≡◌, refl, true, false, none, some, String, List, [], ◌∷◌, All, length, map,
  ◌==◌, if◌then◌else◌, arith,
}
use stream_fi_sdk.Batch.Chunk.{
  built, chunk_batch_operations, flat, Fits, chunk_batch_operations_lem,
}
use stream_fi_sdk.Batch.Submit.{
  Built, Answers, Options, BatchResult, returned, accepted, refused, not_found, on_chain_success,
  built_of, is_none, summary, round, attempt_one, submit_one, on_signed, on_sent, poll_from,
  on_status, rounds, start, submit_batch,
}
use stream_fi_sdk.Batch.Failed.{new, failed_indices, operations_of, get_failed_operations}
use stream_fi_sdk.Batch.Submit.Laws.{Shape, Ends, submit_batch_lem}

abbrev options : Options
options = record {
  max_poll_attempts = 3;
  has_sign = true;
  dry_run = false;
  throw_on_error = false;
  throw_on_partial = true;
}

abbrev tx : ℕ → Built
tx n = record { index = n; method = "withdraw"; xdr = "x"; prepared = true }

-- The second poll finds the transaction.
abbrev succeeds : Answers
succeeds = record {
  aborted = false;
  sign = λ x. returned x;
  send = λ x. returned (accepted "h");
  poll_aborted = λ n. false;
  poll = λ n. if n == 0 then returned not_found else returned on_chain_success;
}

abbrev is_refused : Answers
is_refused = record succeeds { send = λ x. returned (refused none) }

abbrev three : List (Built × Answers)
three = (tx 0, succeeds) ∷ (tx 1, is_refused) ∷ (tx 2, succeeds) ∷ []

chunk_batch_operations_lem_example :
    (chunks : List (List ℕ)) × (chunk_batch_operations (1 ∷ 2 ∷ 3 ∷ []) 2 ≡ built chunks)
    × (flat chunks ≡ 1 ∷ 2 ∷ 3 ∷ [])
    × All (Fits 2) chunks
    × (length chunks * 2 < 3 + 2)
chunk_batch_operations_lem_example = chunk_batch_operations_lem (1 ∷ 2 ∷ 3 ∷ []) 2 (omega arith)

submit_batch_lem_example :
    (r : BatchResult) × Ends options (built_of three) (submit_batch "rpc" options three) r
    × (map (λ x. x.index) r.outcomes ≡ 0 ∷ 1 ∷ 2 ∷ [])
    × Shape r.outcomes r.first_failure_index
    × (r.all_succeeded ≡ is_none r.first_failure_index)
    × (r.success_count + r.failure_count ≡ length r.outcomes)
submit_batch_lem_example = submit_batch_lem "rpc" options three (λ q. cc q)

-- The second operation is the one to try again.
second_failed :
    get_failed_operations {T = String}
      (new (summary (rounds options three start)) (some (built_of three)))
      ("a" ∷ "b" ∷ "c" ∷ [])
    ≡ some ("b" ∷ [])
unfolding rounds round attempt_one submit_one on_signed on_sent poll_from on_status
    get_failed_operations failed_indices operations_of
second_failed = refl
