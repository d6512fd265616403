-- ===== src/Builder/Limits.antt =====
-- src/builder.ts: the limits of `StreamBuilder.submit`, and that the parts of an attempt keep them.
use stream_fi_sdk.Base.{
  Option, ap, ◌∙◌, ℕ, suc, ◌+◌, ◌-◌, ◌≤◌, ◌≡◌, ◌≢◌, refl, sym, subst, Bool, true, false, some, List,
  [], ◌∷◌, ◌++◌, ltb, leb, ◌==◌, if_cases, length, length-append, All, All-append, arith,
}
use stream_fi_sdk.Builder.{
  Phase, let_in, trying, backing_off, Job, Ending, Submissions, find, without_job, update_job,
  without_payload, hand_on, finish, loop_head, on_answer, abort_waiting,
}

abbrev pub in_flight : Phase → ℕ
in_flight let_in = 0
in_flight trying = 1
in_flight backing_off = 0

abbrev pub IsTried : Job → Type 0
IsTried j = (j.calls ≡ j.attempt + in_flight j.phase) × (j.calls ≤ j.max_retries + 1)

-- As many calls run as the semaphore counts, at most its maximum, and as many as that while others wait;
-- the queue holds no more payloads than it may, and each call has called `submitFn` once for each attempt
-- that has failed and for the one in flight, and once more than it may retry at most.
pub record IsBounded (b : Submissions) : Type 0 where
  pub counted : b.running ≡ length b.active
  pub within : b.running ≤ b.max
  pub busy : b.waiting ≢ [] → b.running ≡ b.max
  pub room : length b.pending_queue ≤ b.max_queue_size
  pub tries : All IsTried b.active
  pub ready : All IsTried b.waiting

abbrev Tried : List Job → Type 0
Tried js = All IsTried js

length-without_job :
    (id : ℕ) (js : List Job) (j : Job)
    → find id js ≡ some j
    → suc (length (without_job id js)) ≡ length js
length-without_job id [] j h = cc
length-without_job id (k ∷ js) j h = ground (arith, length-without_job id js j)

length-update_job : (job : Job) (js : List Job) → length (update_job job js) ≡ length js
length-update_job job [] = refl
length-update_job job (j ∷ js) = ground (arith, length-update_job job js)

length-without_payload : (id : ℕ) (ps : List ℕ) → length (without_payload id ps) ≤ length ps
length-without_payload id [] = omega arith
length-without_payload id (p ∷ ps) = ground (arith, length-without_payload id ps)

without_job-Tried : (id : ℕ) (js : List Job) → Tried js → Tried (without_job id js)
without_job-Tried id [] h = tt
without_job-Tried id (j ∷ js) h =
    if_cases Tried (j.id == id) (λ _. h.1) (λ _. (h.0, without_job-Tried id js h.1))

update_job-Tried : (job : Job) (js : List Job) → IsTried job → Tried js → Tried (update_job job js)
update_job-Tried job [] l h = tt
update_job-Tried job (j ∷ js) l h =
    if_cases Tried (j.id == job.id) (λ _. (l, h.1)) (λ _. (h.0, update_job-Tried job js l h.1))

pub find-Tried : (id : ℕ) (js : List Job) (j : Job) → find id js ≡ some j → Tried js → IsTried j
find-Tried id [] j e h = cc
find-Tried id (k ∷ js) j e h =
    if_cases (λ (o : Option Job). o ≡ some j → IsTried j) (k.id == id)
      (λ _ q. let same : k ≡ j = cc q in subst (λ (i : Job). IsTried i) same h.0)
      (λ _ q. find-Tried id js j q h.1) e

pub abort_waiting-Tried : (id : ℕ) (js : List Job) → Tried js → Tried (abort_waiting id js)
abort_waiting-Tried id [] h = tt
abort_waiting-Tried id (j ∷ js) h =
    let here = h.0 in
    (if_cases (IsTried) (j.id == id) (λ _. here) (λ _. here), abort_waiting-Tried id js h.1)

pub find-id : (id : ℕ) (js : List Job) (j : Job) → find id js ≡ some j → j.id ≡ id
find-id id [] j e = cc
find-id id (k ∷ js) j e = ground (arith, find-id id js j)

-- The end of a call that is let in.
pub finish-IsBounded :
    (b : Submissions) (id : ℕ) (j : Job) (ending : Ending)
    → find id b.active ≡ some j
    → IsBounded b
    → IsBounded (finish b id ending)
unfolding finish
finish-IsBounded b id j ending e v = handed b.waiting refl
  where
    one_less : suc (length (without_job id b.active)) ≡ length b.active
    one_less = length-without_job id b.active j e

    handed :
        (w : List Job)
        → b.waiting ≡ w
        → IsBounded (
            hand_on
              (record b {
                pending_queue = without_payload id b.pending_queue;
                active = without_job id b.active;
                settled = b.settled ++ (id, ending) ∷ [];
                running = b.running - 1;
              })
              w)
    handed [] q =
        let fewer = length-without_payload id b.pending_queue in
        record {
          counted = omega (arith, one_less, v.counted);
          within = omega (arith, v.within);
          busy = λ n. absurd (n q);
          room = omega (arith, fewer, v.room);
          tries = without_job-Tried id b.active v.tries;
          ready = v.ready;
        }
    handed (next ∷ rest) q =
        let fewer = length-without_payload id b.pending_queue in
        let longer = length-append (without_job id b.active) (next ∷ []) in
        let full = v.busy (λ n. cc (q, n)) in
        let others : Tried (next ∷ rest) = subst (λ w. Tried w) q v.ready in
        record {
          counted = omega (arith, one_less, v.counted, longer);
          within = omega (arith, one_less, v.counted, v.within);
          busy = λ n. omega (arith, one_less, v.counted, full);
          room = omega (arith, fewer, v.room);
          tries =
              All-append (IsTried) (without_job id b.active) (next ∷ [])
                (without_job-Tried id b.active v.tries) (others.0, tt);
          ready = others.1;
        }

-- A change of a call that is let in.
pub update-IsBounded :
    (b : Submissions) (job : Job)
    → IsTried job
    → IsBounded b
    → IsBounded (record b { active = update_job job b.active })
update-IsBounded b job l v =
    let same = length-update_job job b.active in
    record {
      counted = omega (arith, same, v.counted);
      within = v.within;
      busy = v.busy;
      room = v.room;
      tries = update_job-Tried job b.active l v.tries;
      ready = v.ready;
    }

-- Nothing of the invariant is about timers.
pub timers-IsBounded :
    (b : Submissions) (timers : List (ℕ × ℕ))
    → IsBounded b
    → IsBounded (record b { active_timers = timers })
timers-IsBounded b timers v = record {
  counted = v.counted;
  within = v.within;
  busy = v.busy;
  room = v.room;
  tries = v.tries;
  ready = v.ready;
}

pub loop_head-IsBounded :
    (b : Submissions) (id : ℕ) (job j : Job)
    → job.id ≡ id
    → job.calls ≡ job.attempt
    → find id b.active ≡ some j
    → IsBounded b
    → IsBounded (loop_head b job)
unfolding loop_head
loop_head-IsBounded b id job j here made e v =
    let ends = λ (ending : Ending). finish-IsBounded b job.id j ending (rw here e) v in
    if_cases IsBounded (ltb job.max_retries job.attempt) (λ _. ends Ending.out_of_retries)
      (λ more.
        if_cases IsBounded b.is_destroyed (λ _. ends Ending.builder_destroyed)
          (λ _.
            if_cases IsBounded job.aborted (λ _. ends Ending.operation_aborted)
              (λ _.
                update-IsBounded b (record job { phase = trying; calls = job.calls + 1 })
                  (omega (arith, made), ground (arith, made, more)) v)))

pub find_itself : (id : ℕ) (js : List Job) (j : Job) → find id js ≡ some j → find j.id js ≡ some j
find_itself id js j e = subst (λ i. find i js ≡ some j) (sym (find-id id js j e)) e

pub on_answer-IsBounded :
    (b : Submissions) (id : ℕ) (j : Job) (result : Bool)
    → j.phase ≡ trying
    → find id b.active ≡ some j
    → IsBounded b
    → IsBounded (on_answer b j result)
unfolding on_answer
on_answer-IsBounded b id j true p e v =
    finish-IsBounded b j.id j Ending.returned (find_itself id b.active j e) v
on_answer-IsBounded b id j false p e v =
    let tried : IsTried j = find-Tried id b.active j e v.tries in
    let made : j.calls ≡ j.attempt + 1 = tried.0 ∙ ap (λ q. j.attempt + in_flight q) p in
    let here = find-id id b.active j e in
    let itself = find_itself id b.active j e in
    if_cases IsBounded j.aborted (λ _. finish-IsBounded b j.id j Ending.operation_aborted itself v)
      (λ _.
        let next = record j { attempt = j.attempt + 1 } in
        if_cases IsBounded (leb next.attempt next.max_retries)
          (λ l.
            timers-IsBounded
              (record b { active = update_job (record next { phase = backing_off }) b.active }) _
              (update-IsBounded b (record next { phase = backing_off })
                (omega (arith, made), tried.1) v))
          (λ _. loop_head-IsBounded b id next j here made e v))

pub settled-IsBounded :
    (b : Submissions) (settled : List (ℕ × Ending))
    → IsBounded b
    → IsBounded (record b { settled = settled })
settled-IsBounded b settled v = record {
  counted = v.counted;
  within = v.within;
  busy = v.busy;
  room = v.room;
  tries = v.tries;
  ready = v.ready;
}
