-- ===== src/Builder/Bounded.antt =====
-- src/builder.ts: `StreamBuilder` keeps its limits, whatever happens to it.
use stream_fi_sdk.Base.{
  ap, ◌∙◌, ℕ, ◌≡◌, refl, Bool, true, false, some, List, [], ◌∷◌, ◌++◌, ltb, leb, if_cases, length,
  length-append, All-append, Option-cases, inl, inr, arith,
}
use stream_fi_sdk.Builder.{
  Phase, let_in, trying, backing_off, Job, Ending, Submissions, find, without_timer, has_timer,
  acquire, on_abort, submit, abort_waiting, resume_in, answer_in, wake_in, cleanup, reset,
  Happening, submits, resumes, timer_ends, aborts, answers, cleans_up, resets, step, run,
}
use stream_fi_sdk.Builder.Limits.{
  in_flight, IsTried, IsBounded, find-Tried, abort_waiting-Tried, find-id, finish-IsBounded,
  update-IsBounded, timers-IsBounded, loop_head-IsBounded, find_itself, on_answer-IsBounded,
  settled-IsBounded,
}

acquire-IsBounded :
    (b : Submissions) (job : Job) → IsTried job → IsBounded b → IsBounded (acquire b job)
acquire-IsBounded b job l v =
    if_cases IsBounded (ltb b.running b.max)
      (λ free.
        let longer = length-append b.active (job ∷ []) in
        record {
          counted = omega (arith, longer, v.counted);
          within = ground arith;
          busy = λ n. let full = v.busy n in ground (arith, full, free);
          room = v.room;
          tries = All-append IsTried b.active (job ∷ []) v.tries (l, tt);
          ready = v.ready;
        })
      (λ full. record {
        counted = v.counted;
        within = v.within;
        busy = λ n. ground (arith, v.within, full);
        room = v.room;
        tries = v.tries;
        ready = All-append IsTried b.waiting (job ∷ []) v.ready (l, tt);
      })

submit-IsBounded :
    (b : Submissions) (job : Job) (valid : Bool)
    → IsTried job
    → IsBounded b
    → IsBounded (submit b job valid)
unfolding submit
submit-IsBounded b job valid l v =
    let refused = λ (e : Ending). settled-IsBounded b (b.settled ++ (job.id, e) ∷ []) v in
    let longer = length-append b.pending_queue (job.id ∷ []) in
    if_cases IsBounded b.is_destroyed (λ _. refused Ending.builder_destroyed)
      (λ _.
        if_cases IsBounded job.aborted (λ _. refused Ending.operation_aborted)
          (λ _.
            if_cases IsBounded (leb b.max_queue_size (length b.pending_queue))
              (λ _. refused Ending.queue_full)
              (λ space.
                if_cases IsBounded valid
                  (λ _.
                    acquire-IsBounded (record b { pending_queue = b.pending_queue ++ job.id ∷ [] })
                      job l
                      (record {
                        counted = v.counted;
                        within = v.within;
                        busy = v.busy;
                        room = ground (arith, longer, space);
                        tries = v.tries;
                        ready = v.ready;
                      }))
                  (λ _. refused Ending.invalid))))

cleared-IsBounded :
    (b : Submissions) (destroyed : Bool)
    → IsBounded b
    → IsBounded (record b { is_destroyed = destroyed; active_timers = []; pending_queue = [] })
cleared-IsBounded b destroyed v = record {
  counted = v.counted;
  within = v.within;
  busy = v.busy;
  room = omega arith;
  tries = v.tries;
  ready = v.ready;
}

abort_waiting_nil : (id : ℕ) (js : List Job) → js ≡ [] → abort_waiting id js ≡ []
abort_waiting_nil id [] e = refl
abort_waiting_nil id (j ∷ js) e = cc

on_abort-IsBounded :
    (b : Submissions) (id : ℕ) (j : Job) (phase : Phase)
    → find id b.active ≡ some j
    → IsBounded b
    → IsBounded (on_abort b j phase)
on_abort-IsBounded b id j let_in e v =
    update-IsBounded b (record j { aborted = true }) (find-Tried id b.active j e v.tries) v
on_abort-IsBounded b id j trying e v =
    update-IsBounded b (record j { aborted = true }) (find-Tried id b.active j e v.tries) v
on_abort-IsBounded b id j backing_off e v =
    let itself = find_itself id b.active j e in
    finish-IsBounded (record b { active_timers = without_timer j.id b.active_timers }) j.id j
      Ending.operation_aborted itself (timers-IsBounded b (without_timer j.id b.active_timers) v)

-- A call that does not wait for `submitFn` has called it once for each attempt.
rests :
    (b : Submissions) (id : ℕ) (j : Job) {phase : Phase}
    → j.phase ≡ phase
    → in_flight phase ≡ 0
    → find id b.active ≡ some j
    → IsBounded b
    → j.calls ≡ j.attempt
rests b id j p z e v =
    let tried : IsTried j = find-Tried id b.active j e v.tries in
    let none_now : in_flight j.phase ≡ 0 = ap in_flight p ∙ z in omega (arith, tried.0, none_now)

pub step-IsBounded : (b : Submissions) (h : Happening) → IsBounded b → IsBounded (step b h)
unfolding step cleanup reset
step-IsBounded b (submits id max_retries delay aborted valid) v =
    submit-IsBounded b _ valid (omega arith, omega arith) v
step-IsBounded b (resumes id) v = elim (Option-cases (find id b.active)) [
  | inl e ↦ rw e v
  | inr (j, e) ↦ rw e (resumed j j.phase refl e)
]
  where
    resumed :
        (j : Job) (phase : Phase)
        → j.phase ≡ phase
        → find id b.active ≡ some j
        → IsBounded (resume_in phase b j)
    resumed j let_in p e =
        loop_head-IsBounded b id j j (find-id id b.active j e) (rests b id j p refl e v) e v
    resumed j trying p e = v
    resumed j backing_off p e = v
step-IsBounded b (answers id result) v = elim (Option-cases (find id b.active)) [
  | inl e ↦ rw e v
  | inr (j, e) ↦ rw e (answered j j.phase refl e)
]
  where
    answered :
        (j : Job) (phase : Phase)
        → j.phase ≡ phase
        → find id b.active ≡ some j
        → IsBounded (answer_in phase b j result)
    answered j let_in p e = v
    answered j trying p e = on_answer-IsBounded b id j result p e v
    answered j backing_off p e = v
step-IsBounded b (timer_ends id) v = elim (Option-cases (find id b.active)) [
  | inl e ↦ rw e v
  | inr (j, e) ↦
      rw e
        (if_cases IsBounded (has_timer j.id b.active_timers) (λ _. woken j j.phase refl e) (λ _. v))
]
  where
    woken :
        (j : Job) (phase : Phase)
        → j.phase ≡ phase
        → find id b.active ≡ some j
        → IsBounded (wake_in phase b j)
    woken j let_in p e = v
    woken j trying p e = v
    woken j backing_off p e =
        loop_head-IsBounded (record b { active_timers = without_timer j.id b.active_timers }) id j j
          (find-id id b.active j e) (rests b id j p refl e v) e
          (timers-IsBounded b (without_timer j.id b.active_timers) v)
step-IsBounded b (aborts id) v = elim (Option-cases (find id b.active)) [
  | inl e ↦ rw e (record {
    counted = v.counted;
    within = v.within;
    busy = λ n. v.busy (λ q. n (abort_waiting_nil id b.waiting q));
    room = v.room;
    tries = v.tries;
    ready = abort_waiting-Tried id b.waiting v.ready;
  })
  | inr (j, e) ↦ rw e (on_abort-IsBounded b id j j.phase e v)
]
step-IsBounded b cleans_up v = cleared-IsBounded b true v
step-IsBounded b resets v = cleared-IsBounded b false v

-- Whatever happens to a builder that starts within its limits, its limits hold: no more submissions are
-- in flight than the concurrency allows, all of that are while others wait, the queue holds no more
-- payloads than its size, and `submitFn` is called for a submission once for each of its attempts
-- that failed and for the one in flight, which is once more than its `maxRetries` at most.
pub run-IsBounded :
    (b : Submissions) (happenings : List Happening) → IsBounded b → IsBounded (run b happenings)
unfolding run
run-IsBounded b [] v = v
run-IsBounded b (h ∷ happenings) v = run-IsBounded (step b h) happenings (step-IsBounded b h v)
