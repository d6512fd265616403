-- ===== src/Builder/Stranded.antt =====
-- src/builder.ts: a call of `submit` whose timer `cleanup` or `reset` has cleared.
use stream_fi_sdk.Base.{
  ℕ, ◌+◌, ◌-◌, ◌<◌, ◌≡◌, ◌≢◌, refl, sym, ap, subst, ◌⊎◌, All, ◌∙◌, Bool, true, false, some, List,
  [], ◌∷◌, ◌++◌, ltb, leb, ◌==◌, ==_iff, if_cases, Bool-cases, length, Option-cases, inl, inr,
  arith,
}
use stream_fi_sdk.Builder.{
  wake_in, Phase, let_in, trying, backing_off, Job, Ending, Submissions, find, without_job,
  update_job, without_payload, without_timer, has_timer, hand_on, finish, loop_head, on_answer,
  on_abort, submit, resume_in, answer_in, cleanup, reset, Happening, submits, resumes, timer_ends,
  aborts, answers, cleans_up, resets, step, run,
}
use stream_fi_sdk.Builder.Limits.{IsBounded, find-id}
use stream_fi_sdk.Builder.Bounded.{step-IsBounded, run-IsBounded}

find-without_job :
    (id k : ℕ) (js : List Job) (j : Job)
    → k ≢ id
    → find id js ≡ some j
    → find id (without_job k js) ≡ some j
find-without_job id k [] j n e = cc
find-without_job id k (i ∷ js) j n e = ground (arith, find-without_job id k js j)

find-update_job :
    (id : ℕ) (job : Job) (js : List Job) (j : Job)
    → job.id ≢ id
    → find id js ≡ some j
    → find id (update_job job js) ≡ some j
find-update_job id job [] j n e = cc
find-update_job id job (i ∷ js) j n e = ground (arith, find-update_job id job js j)

find-append :
    (id : ℕ) (js ks : List Job) (j : Job) → find id js ≡ some j → find id (js ++ ks) ≡ some j
find-append id [] ks j e = cc
find-append id (i ∷ js) ks j e = ground (arith, find-append id js ks j)

has_timer-without_timer :
    (id k : ℕ) (ts : List (ℕ × ℕ))
    → has_timer id ts ≡ false
    → has_timer id (without_timer k ts) ≡ false
has_timer-without_timer id k [] e = refl
has_timer-without_timer id k ((t, d) ∷ ts) e = ground (arith, has_timer-without_timer id k ts)

has_timer-append :
    (id k delay : ℕ) (ts : List (ℕ × ℕ))
    → k ≢ id
    → has_timer id ts ≡ false
    → has_timer id (ts ++ (k, delay) ∷ []) ≡ false
has_timer-append id k delay [] n e = ground arith
has_timer-append id k delay ((t, d) ∷ ts) n e = ground (arith, has_timer-append id k delay ts)

-- The call holds its place, with no timer to go on.
pub record IsStranded (id : ℕ) (j : Job) (b : Submissions) : Type 0 where
  pub held : find id b.active ≡ some j
  pub idle : has_timer id b.active_timers ≡ false

module _ (id : ℕ) (j : Job) where
  finish-IsStranded :
      (b : Submissions) (k : ℕ) (ending : Ending)
      → k ≢ id
      → IsStranded id j b
      → IsStranded id j (finish b k ending)
  unfolding finish
  finish-IsStranded b k ending n v = handed b.waiting
    where
      kept : find id (without_job k b.active) ≡ some j
      kept = find-without_job id k b.active j n v.held

      handed :
          (w : List Job)
          → IsStranded id j (
              hand_on
                (record b {
                  pending_queue = without_payload k b.pending_queue;
                  active = without_job k b.active;
                  settled = b.settled ++ (k, ending) ∷ [];
                  running = b.running - 1;
                })
                w)
      handed [] = record { held = kept; idle = v.idle }
      handed (next ∷ rest) = record {
        held = find-append id (without_job k b.active) (next ∷ []) j kept;
        idle = v.idle;
      }

  update-IsStranded :
      (b : Submissions) (job : Job)
      → job.id ≢ id
      → IsStranded id j b
      → IsStranded id j (record b { active = update_job job b.active })
  update-IsStranded b job n v = record {
    held = find-update_job id job b.active j n v.held;
    idle = v.idle;
  }

  loop_head-IsStranded :
      (b : Submissions) (job : Job)
      → job.id ≢ id
      → IsStranded id j b
      → IsStranded id j (loop_head b job)
  unfolding loop_head
  loop_head-IsStranded b job n v =
      let ends = λ (ending : Ending). finish-IsStranded b job.id ending n v in
      if_cases (IsStranded id j) (ltb job.max_retries job.attempt) (λ _. ends Ending.out_of_retries)
        (λ _.
          if_cases (IsStranded id j) b.is_destroyed (λ _. ends Ending.builder_destroyed)
            (λ _.
              if_cases (IsStranded id j) job.aborted (λ _. ends Ending.operation_aborted)
                (λ _.
                  update-IsStranded b (record job { phase = trying; calls = job.calls + 1 }) n v)))

  on_answer-IsStranded :
      (b : Submissions) (job : Job) (result : Bool)
      → job.id ≢ id
      → IsStranded id j b
      → IsStranded id j (on_answer b job result)
  unfolding on_answer
  on_answer-IsStranded b job true n v = finish-IsStranded b job.id Ending.returned n v
  on_answer-IsStranded b job false n v =
      if_cases (IsStranded id j) job.aborted
        (λ _. finish-IsStranded b job.id Ending.operation_aborted n v)
        (λ _.
          if_cases (IsStranded id j) (leb (job.attempt + 1) job.max_retries)
            (λ _. record {
              held = find-update_job id _ b.active j n v.held;
              idle = has_timer-append id job.id _ b.active_timers n v.idle;
            })
            (λ _. loop_head-IsStranded b (record job { attempt = job.attempt + 1 }) n v))

  submit-IsStranded :
      (b : Submissions) (job : Job) (valid : Bool)
      → IsStranded id j b
      → IsStranded id j (submit b job valid)
  unfolding submit
  submit-IsStranded b job valid v =
      let later = find-append id b.active (job ∷ []) j v.held in
      let same : (settled : List (ℕ × Ending)) → IsStranded id j (record b { settled = settled }) =
        λ settled. record { held = v.held; idle = v.idle } in
      if_cases (IsStranded id j) b.is_destroyed (λ _. same _)
        (λ _.
          if_cases (IsStranded id j) job.aborted (λ _. same _)
            (λ _.
              if_cases (IsStranded id j) (leb b.max_queue_size (length b.pending_queue))
                (λ _. same _)
                (λ _.
                  if_cases (IsStranded id j) valid
                    (λ _.
                      if_cases (IsStranded id j) (ltb b.running b.max)
                        (λ _. record { held = later; idle = v.idle })
                        (λ _. record { held = v.held; idle = v.idle }))
                    (λ _. same _))))

  resume_in-IsStranded :
      (b : Submissions) (phase : Phase) (job : Job)
      → job.id ≢ id
      → IsStranded id j b
      → IsStranded id j (resume_in phase b job)
  resume_in-IsStranded b let_in job n v = loop_head-IsStranded b job n v
  resume_in-IsStranded b trying job n v = v
  resume_in-IsStranded b backing_off job n v = v

  wake_in-IsStranded :
      (b : Submissions) (phase : Phase) (job : Job)
      → job.id ≢ id
      → IsStranded id j b
      → IsStranded id j (wake_in phase b job)
  wake_in-IsStranded b let_in job n v = v
  wake_in-IsStranded b trying job n v = v
  wake_in-IsStranded b backing_off job n v =
      loop_head-IsStranded (record b { active_timers = without_timer job.id b.active_timers }) job n
        (record { held = v.held; idle = has_timer-without_timer id job.id b.active_timers v.idle })

  answer_in-IsStranded :
      (b : Submissions) (phase : Phase) (job : Job) (result : Bool)
      → job.id ≢ id
      → IsStranded id j b
      → IsStranded id j (answer_in phase b job result)
  answer_in-IsStranded b let_in job result n v = v
  answer_in-IsStranded b trying job result n v = on_answer-IsStranded b job result n v
  answer_in-IsStranded b backing_off job result n v = v

  on_abort-IsStranded :
      (b : Submissions) (phase : Phase) (job : Job)
      → job.id ≢ id
      → IsStranded id j b
      → IsStranded id j (on_abort b job phase)
  on_abort-IsStranded b let_in job n v = update-IsStranded b (record job { aborted = true }) n v
  on_abort-IsStranded b trying job n v = update-IsStranded b (record job { aborted = true }) n v
  on_abort-IsStranded b backing_off job n v =
      finish-IsStranded (record b { active_timers = without_timer job.id b.active_timers }) job.id
        Ending.operation_aborted n
        (record { held = v.held; idle = has_timer-without_timer id job.id b.active_timers v.idle })

  -- A happening that is not the abort of the call's signal.
  abbrev pub Spares : Happening → Type 0
  Spares (aborts k) = k ≢ id
  Spares _ = Unit

  -- A call found under the number is the stranded one, or another.
  which :
      (b : Submissions) (k : ℕ) (i : Job)
      → find k b.active ≡ some i
      → IsStranded id j b
      → (i ≡ j) ⊎ (i.id ≢ id)
  which b k i e v = elim (Bool-cases (k == id)) [
    | inl t ↦
        let here : k ≡ id = (==_iff k id).0 t in
        let both : some i ≡ some j =
          sym e ∙ subst (λ n. find n b.active ≡ some j) (sym here) v.held in
        inl (cc)
    | inr f ↦ let found = find-id k b.active i e in inr (λ q. ground (arith, f, found, q))
  ]

  step-IsStranded :
      (b : Submissions) (h : Happening)
      → j.phase ≡ backing_off
      → Spares h
      → IsStranded id j b
      → IsStranded id j (step b h)
  unfolding step cleanup reset
  step-IsStranded b (submits k max_retries delay aborted valid) p s v =
      submit-IsStranded b _ valid v
  step-IsStranded b (resumes k) p s v = elim (Option-cases (find k b.active)) [
    | inl e ↦ rw e v
    | inr (i, e) ↦ elim (which b k i e v) [
      | inl same ↦ rw e (
          subst (λ q. IsStranded id j (resume_in q b i)) (sym (ap (λ (t : Job). t.phase) same ∙ p))
            v)
      | inr n ↦ rw e (resume_in-IsStranded b i.phase i n v)
    ]
  ]
  step-IsStranded b (answers k result) p s v = elim (Option-cases (find k b.active)) [
    | inl e ↦ rw e v
    | inr (i, e) ↦ elim (which b k i e v) [
      | inl same ↦ rw e (
          subst (λ q. IsStranded id j (answer_in q b i result))
            (sym (ap (λ (t : Job). t.phase) same ∙ p)) v)
      | inr n ↦ rw e (answer_in-IsStranded b i.phase i result n v)
    ]
  ]
  step-IsStranded b (timer_ends k) p s v = elim (Option-cases (find k b.active)) [
    | inl e ↦ rw e v
    | inr (i, e) ↦ elim (which b k i e v) [
      | inl same ↦
          let here = ap (λ (t : Job). t.id) same ∙ find-id id b.active j v.held in
          let none_set : has_timer i.id b.active_timers ≡ false =
            subst (λ n. has_timer n b.active_timers ≡ false) (sym here) v.idle in
          rw (e, none_set) v
      | inr n ↦ rw e (
          if_cases (IsStranded id j) (has_timer i.id b.active_timers)
            (λ _. wake_in-IsStranded b i.phase i n v) (λ _. v))
    ]
  ]
  step-IsStranded b (aborts k) p s v = elim (Option-cases (find k b.active)) [
    | inl e ↦ rw e (record { held = v.held; idle = v.idle })
    | inr (i, e) ↦
        let found = find-id k b.active i e in
        rw e (on_abort-IsStranded b i.phase i (λ q. s (sym found ∙ q)) v)
  ]
  step-IsStranded b cleans_up p s v = record { held = v.held; idle = refl }
  step-IsStranded b resets p s v = record { held = v.held; idle = refl }

  run-IsStranded :
      (b : Submissions) (happenings : List Happening)
      → j.phase ≡ backing_off
      → All Spares happenings
      → IsStranded id j b
      → IsStranded id j (run b happenings)
  unfolding run
  run-IsStranded b [] p s v = v
  run-IsStranded b (h ∷ happenings) p s v =
      run-IsStranded (step b h) happenings p s.1 (step-IsStranded b h p s.0 v)

find-length : (id : ℕ) (js : List Job) (j : Job) → find id js ≡ some j → 0 < length js
find-length id [] j e = cc
find-length id (i ∷ js) j e = omega arith

-- A call of `submit` that waits for its next attempt when the builder is reset never goes on, whatever
-- happens later but an abort of its own signal, and never gives back its place in the semaphore.
pub reset-strands :
    (b : Submissions) (id : ℕ) (j : Job) (happenings : List Happening)
    → IsBounded b
    → find id b.active ≡ some j
    → j.phase ≡ backing_off
    → All (Spares id j) happenings
    → (find id (run (reset b) happenings).active ≡ some j)
      × (0 < (run (reset b) happenings).running)
reset-strands b id j happenings v e p s =
    let first : IsStranded id j (reset b) = unfold reset in (record { held = e; idle = refl }) in
    let later = run-IsStranded id j (reset b) happenings p s first in
    let counted =
      (run-IsBounded (reset b) happenings (unfold step in (step-IsBounded b resets v))).counted in
    let some_active = find-length id (run (reset b) happenings).active j later.held in
    (later.held, omega (arith, counted, some_active))
