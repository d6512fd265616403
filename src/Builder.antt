-- ===== src/Builder.antt =====
-- src/builder.ts: `StreamBuilder.submit` and what `cleanup`, `destroy` and `reset` do to the submissions that
-- run. A call of `submit` is a number, which also stands for the payload that it builds. The callers that
-- wait for the semaphore are kept with it.
pub mod Limits
pub mod Bounded
pub mod Config
pub mod Stranded
use stream_fi_sdk.Base.{
  ℕ, zero, suc, ◌+◌, ◌-◌, ◌*◌, ◌^◌, Bool, true, false, not, Option, none, some, List, [], ◌∷◌, ◌++◌,
  ltb, leb, ◌==◌, if◌then◌else◌, length,
}

-- Where a call stands: let in and about to go on, waiting for `submitFn`, or waiting for a timer.
pub data Phase : Type 0 where
  let_in trying backing_off : Phase

-- `calls` counts the calls of `submitFn`, which the code does not count itself.
pub record Job : Type 0 where
  pub id : ℕ
  pub attempt : ℕ
  pub calls : ℕ
  pub max_retries : ℕ
  pub base_retry_delay : ℕ
  pub aborted : Bool
  pub phase : Phase

-- How a call ends.
pub data Ending : Type 0 where
  returned builder_destroyed queue_full invalid operation_aborted out_of_retries : Ending

pub record Submissions : Type 0 where
  pub pending_queue : List ℕ
  pub active_timers : List (ℕ × ℕ)
  pub is_destroyed : Bool
  pub max_queue_size : ℕ
  pub running : ℕ
  pub max : ℕ
  pub waiting : List Job
  pub active : List Job
  pub settled : List (ℕ × Ending)

unfoldable pub new : ℕ → ℕ → Submissions
new concurrency max_queue_size = record {
  pending_queue = [];
  active_timers = [];
  is_destroyed = false;
  max_queue_size = max_queue_size;
  running = 0;
  max = concurrency;
  waiting = [];
  active = [];
  settled = [];
}

abbrev pub find : ℕ → List Job → Option Job
find id [] = none
find id (j ∷ js) = let rest = find id js in if j.id == id then some j else rest

abbrev pub without_job : ℕ → List Job → List Job
without_job id [] = []
without_job id (j ∷ js) = let rest = without_job id js in if j.id == id then js else j ∷ rest

abbrev pub update_job : Job → List Job → List Job
update_job job [] = []
update_job job (j ∷ js) =
    let rest = update_job job js in if j.id == job.id then job ∷ js else j ∷ rest

-- `indexOf` and `splice`.
abbrev pub without_payload : ℕ → List ℕ → List ℕ
without_payload id [] = []
without_payload id (p ∷ ps) = let rest = without_payload id ps in if p == id then ps else p ∷ rest

abbrev pub without_timer : ℕ → List (ℕ × ℕ) → List (ℕ × ℕ)
without_timer id [] = []
without_timer id ((t, delay) ∷ ts) =
    let rest = without_timer id ts in if t == id then rest else (t, delay) ∷ rest

abbrev pub has_timer : ℕ → List (ℕ × ℕ) → Bool
has_timer id [] = false
has_timer id ((t, delay) ∷ ts) = if t == id then true else has_timer id ts

-- `acquire` of the semaphore.
abbrev pub acquire : Submissions → Job → Submissions
acquire b job =
    if ltb b.running b.max
    then record b { running = b.running + 1; active = b.active ++ job ∷ [] }
    else record b { waiting = b.waiting ++ job ∷ [] }

-- `release` of the semaphore: the first caller in the queue is let in.
abbrev pub hand_on : Submissions → List Job → Submissions
hand_on b [] = b
hand_on b (job ∷ rest) = record b {
  running = b.running + 1;
  waiting = rest;
  active = b.active ++ job ∷ [];
}

abbrev pub release : Submissions → Submissions
release b = hand_on (record b { running = b.running - 1 }) b.waiting

-- The `finally` block, and what the call gives.
unfoldable pub finish : Submissions → ℕ → Ending → Submissions
finish b id ending = release (record b {
  pending_queue = without_payload id b.pending_queue;
  active = without_job id b.active;
  settled = b.settled ++ (id, ending) ∷ [];
})

-- The head of the loop, up to the call of `submitFn`.
unfoldable pub loop_head : Submissions → Job → Submissions
unfolding finish
loop_head b job =
    if ltb job.max_retries job.attempt
    then finish b job.id out_of_retries
    else if b.is_destroyed
    then finish b job.id builder_destroyed
    else if job.aborted
    then finish b job.id operation_aborted
    else record b {
      active = update_job (record job { phase = trying; calls = job.calls + 1 }) b.active;
    }

abbrev pub delay_of : Job → ℕ
delay_of job = job.base_retry_delay * 2 ^ (job.attempt - 1)

-- The timer is set if there is a round left; otherwise the loop ends.
abbrev pub back_off : Submissions → Job → Submissions
back_off b job =
    if leb job.attempt job.max_retries
    then record b {
      active = update_job (record job { phase = backing_off }) b.active;
      active_timers = b.active_timers ++ (job.id, delay_of job) ∷ [];
    }
    else loop_head b job

-- The answer of `submitFn`.
unfoldable pub on_answer : Submissions → Job → Bool → Submissions
unfolding finish loop_head
on_answer b job true = finish b job.id returned
on_answer b job false =
    if job.aborted
    then finish b job.id operation_aborted
    else back_off b (record job { attempt = job.attempt + 1 })

unfoldable pub submit : Submissions → Job → Bool → Submissions
submit b job valid =
    let refused = λ (e : Ending). record b { settled = b.settled ++ (job.id, e) ∷ [] } in
    if b.is_destroyed
    then refused builder_destroyed
    else if job.aborted
    then refused operation_aborted
    else if leb b.max_queue_size (length b.pending_queue)
    then refused queue_full
    else if valid
    then acquire (record b { pending_queue = b.pending_queue ++ job.id ∷ [] }) job
    else refused invalid

-- An abort rejects the wait for a timer; otherwise it is seen when the call goes on.
abbrev pub on_abort : Submissions → Job → Phase → Submissions
on_abort b job let_in = record b { active = update_job (record job { aborted = true }) b.active }
on_abort b job trying = record b { active = update_job (record job { aborted = true }) b.active }
on_abort b job backing_off =
    finish (record b { active_timers = without_timer job.id b.active_timers }) job.id
      operation_aborted

-- The signals of calls that wait for the semaphore.
abbrev pub abort_waiting : ℕ → List Job → List Job
abort_waiting id [] = []
abort_waiting id (j ∷ js) =
    let rest = abort_waiting id js in (if j.id == id then record j { aborted = true } else j) ∷ rest

unfoldable pub cleanup : Submissions → Submissions
cleanup b = record b { is_destroyed = true; active_timers = []; pending_queue = [] }

unfoldable pub reset : Submissions → Submissions
reset b = record b { is_destroyed = false; active_timers = []; pending_queue = [] }

-- A call with the validity of what is configured, a call that goes on after it was let in, an answer and
-- whether it is a result, the end of a timer, the abort of a call's signal, and the two methods.
pub data Happening : Type 0 where
  submits : ℕ → ℕ → ℕ → Bool → Bool → Happening
  resumes timer_ends aborts : ℕ → Happening
  answers : ℕ → Bool → Happening
  cleans_up resets : Happening

abbrev pub resume_in : Phase → Submissions → Job → Submissions
resume_in let_in b job = loop_head b job
resume_in trying b job = b
resume_in backing_off b job = b

abbrev pub answer_in : Phase → Submissions → Job → Bool → Submissions
answer_in let_in b job result = b
answer_in trying b job result = on_answer b job result
answer_in backing_off b job result = b

abbrev pub resume : Submissions → Option Job → Submissions
resume b none = b
resume b (some job) = resume_in job.phase b job

abbrev pub answer : Submissions → Option Job → Bool → Submissions
answer b none result = b
answer b (some job) result = answer_in job.phase b job result

abbrev pub wake_in : Phase → Submissions → Job → Submissions
wake_in let_in b job = b
wake_in trying b job = b
wake_in backing_off b job =
    loop_head (record b { active_timers = without_timer job.id b.active_timers }) job

abbrev pub end_timer : Submissions → Option Job → Submissions
end_timer b none = b
end_timer b (some job) = if has_timer job.id b.active_timers then wake_in job.phase b job else b

abbrev pub abort : Submissions → ℕ → Option Job → Submissions
abort b id none = record b { waiting = abort_waiting id b.waiting }
abort b id (some job) = on_abort b job job.phase

unfoldable pub step : Submissions → Happening → Submissions
unfolding submit finish loop_head on_answer cleanup reset
step b (submits id max_retries delay aborted valid) =
    submit b
      (record {
        id = id;
        attempt = 0;
        calls = 0;
        max_retries = max_retries;
        base_retry_delay = delay;
        aborted = aborted;
        phase = let_in;
      })
      valid
step b (resumes id) = resume b (find id b.active)
step b (answers id result) = answer b (find id b.active) result
step b (timer_ends id) = end_timer b (find id b.active)
step b (aborts id) = abort b id (find id b.active)
step b cleans_up = cleanup b
step b resets = reset b

unfoldable pub run : Submissions → List Happening → Submissions
unfolding step
run b [] = b
run b (happening ∷ happenings) = run (step b happening) happenings
