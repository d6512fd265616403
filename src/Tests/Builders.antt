-- ===== src/Tests/Builders.antt =====
-- Runs of the model of src/builder.ts.
use stream_fi_sdk.Texts.{codes}
use stream_fi_sdk.Amount.Digits.{to_string}
use stream_fi_sdk.Builder.Config.{
  Environment, Setter, Given, Built, Issue, build, call_setters, no_fields,
}
use stream_fi_sdk.Builder.Config.Sound.{BuildsWell, build-IsPayload}
use stream_fi_sdk.Base.{ℕ, ◌<◌, ◌≡◌, refl, true, false, ltb, some, List, [], ◌∷◌, ◌++◌, arith}
use stream_fi_sdk.Builder.{
  backing_off, Job, Ending, new, find, submits, resumes, timer_ends, answers, cleans_up, Happening,
  reset, run,
}
use stream_fi_sdk.Builder.Limits.{IsBounded}
use stream_fi_sdk.Builder.Bounded.{run-IsBounded}
use stream_fi_sdk.Builder.Stranded.{reset-strands}

abbrev two_calls : List Happening
two_calls =
    submits 1 2 100 false true ∷ submits 2 0 100 false true ∷ resumes 1 ∷ answers 1 false ∷ []

new-IsBounded : IsBounded (new 1 5)
unfolding new
new-IsBounded = record {
  counted = refl;
  within = omega arith;
  busy = λ n. absurd (n refl);
  room = omega arith;
  tries = tt;
  ready = tt;
}

two_calls-IsBounded : IsBounded (run (new 1 5) two_calls)
two_calls-IsBounded = run-IsBounded (new 1 5) two_calls new-IsBounded

run-IsBounded_example : IsBounded (run (new 1 5) two_calls)
run-IsBounded_example = run-IsBounded (new 1 5) two_calls new-IsBounded

-- The timer fires, the second attempt succeeds, and the second call is let in.
second_let_in :
    (run (new 1 5) (two_calls ++ timer_ends 1 ∷ answers 1 true ∷ [])).settled
    ≡ (1, Ending.returned) ∷ []
unfolding run new
second_let_in = refl

abbrev waiting_call : Job
waiting_call = record {
  id = 1;
  attempt = 1;
  calls = 1;
  max_retries = 2;
  base_retry_delay = 100;
  aborted = false;
  phase = backing_off;
}

first_waits : find 1 (run (new 1 5) two_calls).active ≡ some waiting_call
unfolding run new
first_waits = refl

-- With one place, the second call never gets it.
reset-strands_example :
    (find 1
        (run (reset (run (new 1 5) two_calls)) (timer_ends 1 ∷ cleans_up ∷ resumes 2 ∷ [])).active
      ≡ some waiting_call)
    × (0
        < (run
            (reset (run (new 1 5) two_calls))
            (timer_ends 1 ∷ cleans_up ∷ resumes 2 ∷ [])).running)
reset-strands_example =
    reset-strands (run (new 1 5) two_calls) 1 waiting_call
      (timer_ends 1 ∷ cleans_up ∷ resumes 2 ∷ []) two_calls-IsBounded first_waits refl
      (tt, (tt, (tt, tt)))

-- A check of addresses that takes any text, and numbers that are whole.
abbrev whole_numbers : Environment
whole_numbers = record {
  Number = ℕ;
  is_positive = λ n. ltb 0 n;
  number_of = λ t. 0;
  string_of = λ n. to_string n;
  is_valid_contract = λ t. true;
  is_valid_address = λ t. true;
}

abbrev some_setters : List (Setter whole_numbers)
some_setters =
    Setter.token (codes "C1")
    ∷ Setter.sender (codes "  ")
    ∷ Setter.amount (Given.text (codes " 007 "))
    ∷ Setter.recipient (codes "G2")
    ∷ []

sender_missing :
    build whole_numbers false (call_setters whole_numbers no_fields some_setters)
    ≡ Built.invalid (Issue.sender_required ∷ [])
unfolding build call_setters no_fields
sender_missing = refl

build-IsPayload_example :
    BuildsWell whole_numbers
      (call_setters whole_numbers no_fields (Setter.sender (codes "G1") ∷ some_setters))
build-IsPayload_example = build-IsPayload whole_numbers (Setter.sender (codes "G1") ∷ some_setters)
