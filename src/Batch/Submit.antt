-- ===== src/Batch/Submit.antt =====
-- src/batch-tx.ts: `submitBatch`. The network, the signer and the abort signal are the `Answers` that
-- each transaction meets; what they answer is not the program's.
pub mod Laws
use stream_fi_sdk.Base.{
  ℕ, zero, suc, ◌+◌, ◌-◌, String, Bool, true, false, not, ◌&&◌, ◌||◌, Option, none, some, List, [],
  ◌∷◌, ◌++◌, filter, length, ◌===◌, if◌then◌else◌, string_eq,
}

-- The status and its text: the messages of the source, by what they say.
pub data Status : Type 0 where
  success failed skipped error : Status

pub data Reason : Type 0 where
  skipped_because : ℕ → Reason
  was_aborted : Reason
  sign_failed submit_failed poll_failed : String → Reason
  rejected : Option String → Reason
  aborted_during_polling : Reason
  failed_on_chain : String → Reason
  timed_out : ℕ → String → Reason

pub data TxHash : Type 0 where
  tx_hash : String → TxHash
  dry_run_hash : ℕ → TxHash

-- One built transaction, and its outcome.
pub record Built : Type 0 where
  pub index : ℕ
  pub method : String
  pub xdr : String
  pub prepared : Bool

pub record Outcome : Type 0 where
  pub index : ℕ
  pub method : String
  pub status : Status
  pub hash : Option TxHash
  pub reason : Option Reason
  pub dry_run : Bool

-- A call of `onProgress`.
pub record Progress : Type 0 where
  pub index : ℕ
  pub method : String
  pub status : Status

pub data Reply (A : Type 0) : Type 0 where
  returned : A → Reply A
  threw : String → Reply A

pub data Sent : Type 0 where
  refused : Option String → Sent
  accepted : String → Sent

pub data ChainStatus : Type 0 where
  on_chain_success on_chain_failed not_found : ChainStatus

-- What one transaction meets: whether the signal is aborted when its turn comes, the signed text,
-- the reply to its submission, and at each poll the signal and the reply.
pub record Answers : Type 0 where
  pub aborted : Bool
  pub sign : String → Reply String
  pub send : String → Reply Sent
  pub poll_aborted : ℕ → Bool
  pub poll : ℕ → Reply ChainStatus

pub record Options : Type 0 where
  pub max_poll_attempts : ℕ
  pub has_sign : Bool
  pub dry_run : Bool
  pub throw_on_error : Bool
  pub throw_on_partial : Bool

-- The variables of the loop; `firstFailureIndex` is -1 for none.
pub record Submission : Type 0 where
  pub outcomes : List Outcome
  pub first_failure : Option ℕ
  pub progress : List Progress

abbrev pub outcome : Built → Status → Option TxHash → Option Reason → Outcome
outcome b status hash reason = record {
  index = b.index;
  method = b.method;
  status = status;
  hash = hash;
  reason = reason;
  dry_run = false;
}

abbrev pub report : Outcome → Progress
report o = record { index = o.index; method = o.method; status = o.status }

abbrev pub push_outcome : Submission → Outcome → Submission
push_outcome s o = record s {
  outcomes = s.outcomes ++ o ∷ [];
  progress = s.progress ++ report o ∷ [];
}

-- An outcome that ends the batch: the rest is skipped.
abbrev pub fail_with : Submission → Built → Status → Reason → Submission
fail_with s b status reason = record (push_outcome s (outcome b status none (some reason))) {
  first_failure = some b.index;
}

-- What is done on the reply to one poll; `again` is what the later polls do.
unfoldable pub on_status : Reply ChainStatus → String → Built → Submission → Submission → Submission
on_status (threw msg) hash b s again = fail_with s b error (poll_failed msg)
on_status (returned on_chain_success) hash b s again =
    push_outcome s (outcome b success (some (tx_hash hash)) none)
on_status (returned on_chain_failed) hash b s again = fail_with s b failed (failed_on_chain hash)
on_status (returned not_found) hash b s again = again

-- The polls of one transaction, `left` more, the next one number `attempt`.
unfoldable pub poll_from : ℕ → ℕ → ℕ → Answers → String → Built → Submission → Submission
unfolding on_status
poll_from max zero attempt a hash b s = fail_with s b error (timed_out max hash)
poll_from max (suc left) attempt a hash b s =
    let again = poll_from max left (attempt + 1) a hash b s in
    if a.poll_aborted attempt
    then fail_with s b error aborted_during_polling
    else on_status (a.poll attempt) hash b s again

unfoldable pub on_sent : Reply Sent → ℕ → Answers → Built → Submission → Submission
unfolding poll_from
on_sent (threw msg) max a b s = fail_with s b error (submit_failed msg)
on_sent (returned (refused result)) max a b s = fail_with s b failed (rejected result)
on_sent (returned (accepted hash)) max a b s = poll_from max max 0 a hash b s

unfoldable pub on_signed : Reply String → ℕ → Answers → Built → Submission → Submission
unfolding on_sent
on_signed (threw msg) max a b s = fail_with s b error (sign_failed msg)
on_signed (returned xdr) max a b s = on_sent (a.send xdr) max a b s

-- The signature, where there is a signer, and the submission of one transaction.
unfoldable pub submit_one : Options → Answers → Built → Submission → Submission
unfolding on_signed
submit_one o a b s =
    on_signed (if o.has_sign then a.sign b.xdr else returned b.xdr) o.max_poll_attempts a b s

-- One round of the loop where nothing has failed yet.
unfoldable pub attempt_one : Options → Answers → Built → Submission → Submission
unfolding submit_one
attempt_one o a b s =
    if a.aborted
    then fail_with s b skipped was_aborted
    else if o.dry_run
    then record s {
      outcomes =
          s.outcomes
          ++ record (outcome b success (some (dry_run_hash b.index)) none) { dry_run = true } ∷ [];
    }
    else submit_one o a b s

unfoldable pub round : Options → Option ℕ → Answers → Built → Submission → Submission
unfolding attempt_one
round o (some i) a b s = push_outcome s (outcome b skipped none (some (skipped_because i)))
round o none a b s = attempt_one o a b s

unfoldable pub rounds : Options → List (Built × Answers) → Submission → Submission
rounds o [] s = s
rounds o ((b, a) ∷ rest) s = rounds o rest (round o s.first_failure a b s)

abbrev pub is_success : Status → Bool
is_success success = true
is_success _ = false

pub record BatchResult : Type 0 where
  pub all_succeeded : Bool
  pub first_failure_index : Option ℕ
  pub outcomes : List Outcome
  pub success_count : ℕ
  pub failure_count : ℕ

-- How the call ends: with a result, or by throwing.
pub data Submitted : Type 0 where
  build_error : Submitted
  partially_submitted : BatchResult → List Built → Submitted
  result : BatchResult → Submitted

abbrev pub is_none {ℓ} : {A : Type ℓ} → Option A → Bool
is_none none = true
is_none (some a) = false

abbrev pub built_of : List (Built × Answers) → List Built
built_of [] = []
built_of (p ∷ ps) = p.0 ∷ built_of ps

abbrev pub start : Submission
start = record { outcomes = []; first_failure = none; progress = [] }

abbrev pub summary : Submission → BatchResult
summary s =
    let success_count = length (filter (λ o. is_success o.status) s.outcomes) in
    record {
      all_succeeded = is_none s.first_failure;
      first_failure_index = s.first_failure;
      outcomes = s.outcomes;
      success_count = success_count;
      failure_count = length s.outcomes - success_count;
    }

unfoldable pub submit_batch : String → Options → List (Built × Answers) → Submitted
unfolding rounds
submit_batch rpc_url o txs =
    let r = summary (rounds o txs start) in
    if rpc_url === ""
    then build_error
    else if (o.throw_on_error || o.throw_on_partial) && not r.all_succeeded
    then partially_submitted r (built_of txs)
    else result r
