-- ===== src/Batch/Submit/Laws.antt =====
-- src/batch-tx.ts: what `submitBatch` reports, whatever the network answers.
use stream_fi_sdk.Base.{
  ℕ, zero, suc, ◌+◌, ◌≤◌, ◌≡◌, refl, sym, ap, ◌∙◌, ◌≢◌, ◌⊎◌, inl, inr, String, Bool, true, not,
  ◌&&◌, ◌||◌, Option, none, some, List, [], ◌∷◌, ◌++◌, map, append_assoc, append-nil, map-append,
  filter, length, All, All-append, if◌then◌else◌, arith, ===_iff, Bool-cases, string_eq,
}
use stream_fi_sdk.Batch.Submit.{
  Status, success, failed, skipped, error, Reason, skipped_because, tx_hash, dry_run_hash, Built,
  Outcome, Progress, Reply, returned, threw, Sent, refused, accepted, ChainStatus, on_chain_success,
  on_chain_failed, not_found, Answers, Options, Submission, outcome, report, push_outcome,
  fail_with, poll_from, on_status, on_sent, on_signed, submit_one, attempt_one, round, rounds,
  is_success, is_none, built_of, start, summary, BatchResult, Submitted, partially_submitted,
  result, submit_batch,
}

-- The calls of `onProgress` for one outcome.
abbrev pub reports : Outcome → List Progress
reports o = if o.dry_run then [] else report o ∷ []

-- One transaction was given one outcome, and the first failure is known afterwards.
record Adds (b : Built) (s s' : Submission) : Type 0 where
  one : Outcome
  appended : s'.outcomes ≡ s.outcomes ++ one ∷ []
  reported : s'.progress ≡ s.progress ++ reports one
  index : one.index ≡ b.index
  method : one.method ≡ b.method
  verdict :
      ((one.status ≡ success) × (s'.first_failure ≡ s.first_failure))
      ⊎ ((one.status ≢ success) × (s'.first_failure ≡ some b.index))

fail_with-Adds :
    (s : Submission) (b : Built) (status : Status) (reason : Reason)
    → status ≢ success
    → Adds b s (fail_with s b status reason)
fail_with-Adds s b status reason h = record {
  one = outcome b status none (some reason);
  appended = refl;
  reported = refl;
  index = refl;
  method = refl;
  verdict = inr (h, refl);
}

on_status-Adds :
    (r : Reply ChainStatus) (hash : String) (b : Built) (s again : Submission)
    → Adds b s again
    → Adds b s (on_status r hash b s again)
unfolding on_status
on_status-Adds (threw msg) hash b s again h = fail_with-Adds s b error _ (λ e. cc)
on_status-Adds (returned on_chain_success) hash b s again h = record {
  one = outcome b success (some (tx_hash hash)) none;
  appended = refl;
  reported = refl;
  index = refl;
  method = refl;
  verdict = inl (refl, refl);
}
on_status-Adds (returned on_chain_failed) hash b s again h = fail_with-Adds s b failed _ (λ e. cc)
on_status-Adds (returned not_found) hash b s again h = h

poll_from-Adds :
    (max left attempt : ℕ) (a : Answers) (hash : String) (b : Built) (s : Submission)
    → Adds b s (poll_from max left attempt a hash b s)
unfolding poll_from
poll_from-Adds max zero attempt a hash b s = fail_with-Adds s b error _ (λ e. cc)
poll_from-Adds max (suc left) attempt a hash b s = elim (Bool-cases (a.poll_aborted attempt)) [
  | inl gone ↦ rw gone (fail_with-Adds s b error _ (λ e. cc))
  | inr on ↦ rw on (
      on_status-Adds (a.poll attempt) hash b s _ (poll_from-Adds max left (attempt + 1) a hash b s))
]

on_sent-Adds :
    (r : Reply Sent) (max : ℕ) (a : Answers) (b : Built) (s : Submission)
    → Adds b s (on_sent r max a b s)
unfolding on_sent
on_sent-Adds (threw msg) max a b s = fail_with-Adds s b error _ (λ e. cc)
on_sent-Adds (returned (refused x)) max a b s = fail_with-Adds s b failed _ (λ e. cc)
on_sent-Adds (returned (accepted hash)) max a b s = poll_from-Adds max max 0 a hash b s

on_signed-Adds :
    (r : Reply String) (max : ℕ) (a : Answers) (b : Built) (s : Submission)
    → Adds b s (on_signed r max a b s)
unfolding on_signed
on_signed-Adds (threw msg) max a b s = fail_with-Adds s b error _ (λ e. cc)
on_signed-Adds (returned xdr) max a b s = on_sent-Adds (a.send xdr) max a b s

attempt_one-Adds :
    (o : Options) (a : Answers) (b : Built) (s : Submission) → Adds b s (attempt_one o a b s)
unfolding attempt_one submit_one
attempt_one-Adds o a b s = elim (Bool-cases a.aborted) [
  | inl gone ↦ simp gone (fail_with-Adds s b skipped _ (λ e. cc))
  | inr on ↦ elim (Bool-cases o.dry_run) [
    | inl dry ↦
        simp (on, dry)
          (record {
            one = record (outcome b success (some (dry_run_hash b.index)) none) { dry_run = true };
            appended = refl;
            reported = sym (append-nil s.progress);
            index = refl;
            method = refl;
            verdict = inl (refl, refl);
          })
    | inr real ↦ simp (on, real) (on_signed-Adds _ o.max_poll_attempts a b s)
  ]
]

-- The outcomes of a run that has not failed yet and what the rest of it adds: successes, then the
-- first failure, then nothing but skipped transactions.
abbrev pub Successes : List Outcome → Type 0
Successes = All (λ o. o.status ≡ success)

abbrev pub Skips : ℕ → List Outcome → Type 0
Skips i = All (λ o. (o.status ≡ skipped) × (o.reason ≡ some (skipped_because i)))

pub data Shape : List Outcome → Option ℕ → Type 0 where
  all_good : {os : List Outcome} → Successes os → Shape os none
  broken :
      {os : List Outcome} (good : List Outcome) (bad : Outcome) (rest : List Outcome) {i : ℕ}
      → os ≡ good ++ bad ∷ rest
      → Successes good
      → bad.status ≢ success
      → bad.index ≡ i
      → Skips i rest
      → Shape os (some i)

module _ (o : Options) (a : Answers) (b : Built) (s : Submission) where
  rounds_broken :
      (i : ℕ) (txs : List (Built × Answers))
      → s.first_failure ≡ some i
      → rounds o ((b, a) ∷ txs) s
        ≡ rounds o txs (push_outcome s (outcome b skipped none (some (skipped_because i))))
  unfolding rounds round
  rounds_broken i txs h = ap (λ f. rounds o txs (round o f a b s)) h

  rounds_good :
      (txs : List (Built × Answers))
      → s.first_failure ≡ none
      → rounds o ((b, a) ∷ txs) s ≡ rounds o txs (attempt_one o a b s)
  unfolding rounds round
  rounds_good txs h = ap (λ f. rounds o txs (round o f a b s)) h

rounds-skipped :
    (o : Options) (i : ℕ) (txs : List (Built × Answers)) (s : Submission)
    → s.first_failure ≡ some i
    → (rest : List Outcome) × ((rounds o txs s).outcomes ≡ s.outcomes ++ rest)
      × ((rounds o txs s).first_failure ≡ some i)
      × Skips i rest
unfolding rounds
rounds-skipped o i [] s h = ([], sym (append-nil _), h, tt)
rounds-skipped o i ((b, a) ∷ txs) s h =
    let one = outcome b skipped none (some (skipped_because i)) in
    let (rest, e, f, k) = rounds-skipped o i txs (push_outcome s one) h in
    rw (rounds_broken o a b s i txs h)
      (one ∷ rest, e ∙ append_assoc s.outcomes (one ∷ []) rest, f, ((refl, refl), k))

pub rounds-Shape :
    (o : Options) (txs : List (Built × Answers)) (s : Submission)
    → s.first_failure ≡ none
    → Successes s.outcomes
    → Shape (rounds o txs s).outcomes (rounds o txs s).first_failure
unfolding rounds
rounds-Shape o [] s h k = simp h (all_good k)
rounds-Shape o ((b, a) ∷ txs) s h k =
    let d = attempt_one-Adds o a b s in
    let s' = attempt_one o a b s in
    rw (rounds_good o a b s txs h) (elim d.verdict [
      | inl (good, same) ↦ rounds-Shape o txs s' (same ∙ h) (
          rw d.appended
            (All-append (λ (x : Outcome). x.status ≡ success) s.outcomes _ k (good, tt)))
      | inr (bad, first) ↦
          let (rest, e, f, skips) = rounds-skipped o b.index txs s' first in
          rw f (
            broken s.outcomes d.one rest
              (e ∙ ap (λ x. x ++ rest) d.appended ∙ append_assoc s.outcomes (d.one ∷ []) rest) k bad
              d.index skips)
    ])

-- What the rounds have written for the transactions so far.
abbrev indices : List Outcome → List ℕ
indices = map (λ x. x.index)

abbrev pub all_reports : List Outcome → List Progress
all_reports [] = []
all_reports (o ∷ os) = reports o ++ all_reports os

all_reports-append :
    (xs ys : List Outcome) → all_reports (xs ++ ys) ≡ all_reports xs ++ all_reports ys
all_reports-append [] ys = refl
all_reports-append (x ∷ xs) ys =
    rw (all_reports-append xs ys) (sym (append_assoc (reports x) (all_reports xs) (all_reports ys)))

-- Each round writes one outcome, of its own transaction, and reports it.
record Logs (b : Built) (s s' : Submission) : Type 0 where
  one : Outcome
  appended : s'.outcomes ≡ s.outcomes ++ one ∷ []
  reported : s'.progress ≡ s.progress ++ reports one
  index : one.index ≡ b.index

round-Logs :
    (o : Options) (first : Option ℕ) (a : Answers) (b : Built) (s : Submission)
    → Logs b s (round o first a b s)
unfolding round
round-Logs o (some i) a b s = record {
  one = outcome b skipped none (some (skipped_because i));
  appended = refl;
  reported = refl;
  index = refl;
}
round-Logs o none a b s =
    let d = attempt_one-Adds o a b s in
    record { one = d.one; appended = d.appended; reported = d.reported; index = d.index }

rounds-logged :
    (o : Options) (txs : List (Built × Answers)) (s : Submission)
    → s.progress ≡ all_reports s.outcomes
    → (indices (rounds o txs s).outcomes ≡ indices s.outcomes ++ map (λ b. b.index) (built_of txs))
      × ((rounds o txs s).progress ≡ all_reports (rounds o txs s).outcomes)
unfolding rounds
rounds-logged o [] s h = (sym (append-nil _), h)
rounds-logged o ((b, a) ∷ txs) s h =
    let s' = round o s.first_failure a b s in
    let d = round-Logs o s.first_failure a b s in
    let now : s'.progress ≡ all_reports s'.outcomes =
      d.reported ∙ rw (d.appended, all_reports-append, append-nil, h) refl in
    let (e, f) = rounds-logged o txs s' now in
    (
      e ∙ rw (d.appended, map-append, d.index) (append_assoc (indices s.outcomes) (b.index ∷ []) _),
      f,
    )

abbrev final : Options → List (Built × Answers) → Submission
final o txs = rounds o txs start

length-filter-le : (p : Outcome → Bool) (os : List Outcome) → length (filter p os) ≤ length os
length-filter-le p [] = omega arith
length-filter-le p (x ∷ os) = ground (arith, length-filter-le p os)

-- How the call with an endpoint ends: it throws exactly if it was asked to and something failed.
abbrev pub Ends : Options → List Built → Submitted → BatchResult → Type 0
Ends o bs r x =
    if (o.throw_on_error || o.throw_on_partial) && not x.all_succeeded
    then r ≡ partially_submitted x bs
    else r ≡ result x

submit_batch-Ends :
    (rpc_url : String) (o : Options) (txs : List (Built × Answers))
    → rpc_url ≢ ""
    → Ends o (built_of txs) (submit_batch rpc_url o txs) (summary (final o txs))
unfolding submit_batch
submit_batch-Ends rpc_url o txs h = ground (arith, ===_iff rpc_url "")

-- However the network, the signer and the abort signal answer, a call with an endpoint reports one
-- outcome for each transaction, in order. Either all are successes and no failure is known, or they
-- are successes, then one that is not, whose index is the first failure's, then only transactions
-- skipped because of it. The counts add up, and the call throws this result instead of returning it
-- exactly if it was asked to and there is a failure.
pub submit_batch_lem :
    (rpc_url : String) (o : Options) (txs : List (Built × Answers))
    → rpc_url ≢ ""
    → (r : BatchResult) × Ends o (built_of txs) (submit_batch rpc_url o txs) r
      × (map (λ x. x.index) r.outcomes ≡ map (λ b. b.index) (built_of txs))
      × Shape r.outcomes r.first_failure_index
      × (r.all_succeeded ≡ is_none r.first_failure_index)
      × (r.success_count + r.failure_count ≡ length r.outcomes)
submit_batch_lem rpc_url o txs h = (
  summary (final o txs),
  submit_batch-Ends rpc_url o txs h,
  (rounds-logged o txs start refl).0,
  rounds-Shape o txs start refl tt,
  refl,
  omega (arith, length-filter-le (λ x. is_success x.status) (final o txs).outcomes),
)

-- `onProgress` is called once for each outcome, in order, but never for an outcome of a dry run.
pub rounds-reports :
    (o : Options) (txs : List (Built × Answers))
    → (rounds o txs start).progress ≡ all_reports (rounds o txs start).outcomes
rounds-reports o txs = (rounds-logged o txs start refl).1
