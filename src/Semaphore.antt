-- ===== src/Semaphore.antt =====
-- src/builder.ts: `class Semaphore`. A waiting caller is a number; `granted` lists the callers that
-- were let in, in order.
use stream_fi_sdk.Base.{
  ℕ, ◌+◌, ◌-◌, ◌≤◌, ◌<◌, ◌≡◌, ◌≢◌, List, [], ◌∷◌, ◌++◌, ltb, if◌then◌else◌, if_cases, arith, refl,
  sym, ◌∙◌, append_assoc, append-nil, Bool-cases, inl, inr,
}

pub record Semaphore : Type 0 where
  pub running : ℕ
  pub queue : List ℕ
  pub max : ℕ
  pub granted : List ℕ

unfoldable pub new : ℕ → Semaphore
new max = record { running = 0; queue = []; max = max; granted = [] }

unfoldable pub acquire : Semaphore → ℕ → Semaphore
acquire s caller =
    if ltb s.running s.max
    then record s { running = s.running + 1; granted = s.granted ++ caller ∷ [] }
    else record s { queue = s.queue ++ caller ∷ [] }

-- The first caller in the queue takes the place that is given back.
abbrev pub hand_on : Semaphore → List ℕ → Semaphore
hand_on s [] = s
hand_on s (caller ∷ rest) = record s {
  running = s.running + 1;
  queue = rest;
  granted = s.granted ++ caller ∷ [];
}

unfoldable pub release : Semaphore → Semaphore
release s = hand_on (record s { running = s.running - 1 }) s.queue

-- A call of `acquire` by a caller, or of `release` by somebody who was let in.
pub data Call : Type 0 where
  acquires : ℕ → Call
  releases : Call

-- `release` is called by a holder only.
unfoldable pub run : Semaphore → List Call → Semaphore
run s [] = s
run s (acquires caller ∷ calls) = run (acquire s caller) calls
run s (releases ∷ calls) = run (if ltb 0 s.running then release s else s) calls

abbrev pub callers : List Call → List ℕ
callers [] = []
callers (acquires caller ∷ calls) = caller ∷ callers calls
callers (releases ∷ calls) = callers calls

-- At most `max` run, all of them do while somebody waits, and the callers are let in as they came.
pub record IsFair (came : List ℕ) (s : Semaphore) : Type 0 where
  pub bounded : s.running ≤ s.max
  pub busy : s.queue ≢ [] → s.running ≡ s.max
  pub ordered : s.granted ++ s.queue ≡ came

nobody_waits : (q : List ℕ) (running max : ℕ) → (q ≢ [] → running ≡ max) → running < max → q ≡ []
nobody_waits [] running max b l = refl
nobody_waits (c ∷ q) running max b l = absurd (omega (arith, b (λ e. cc e)))

acquire-IsFair :
    (came : List ℕ) (s : Semaphore) (caller : ℕ)
    → IsFair came s
    → IsFair (came ++ caller ∷ []) (acquire s caller)
unfolding acquire
acquire-IsFair came s caller v = elim (Bool-cases (ltb s.running s.max)) [
  | inl free ↦
      let empty = nobody_waits s.queue s.running s.max v.busy (ground arith) in
      let all : s.granted ≡ came = sym (append-nil s.granted) ∙ rw (sym empty) v.ordered in
      rw free (record {
        bounded = ground arith;
        busy = λ n. absurd (n empty);
        ordered = rw (empty, all) (append-nil (came ++ caller ∷ []));
      })
  | inr full ↦ rw full (record {
    bounded = v.bounded;
    busy = λ n. ground (arith, v.bounded, full);
    ordered = sym (append_assoc s.granted s.queue (caller ∷ [])) ∙ rw v.ordered refl;
  })
]

release-IsFair :
    (came : List ℕ) (s : Semaphore) (q : List ℕ)
    → s.queue ≡ q
    → 0 < s.running
    → IsFair came s
    → IsFair came (hand_on (record s { running = s.running - 1 }) q)
release-IsFair came s [] e p v = record {
  bounded = omega (arith, v.bounded);
  busy = λ n. absurd (n e);
  ordered = v.ordered;
}
release-IsFair came s (caller ∷ rest) e p v = record {
  bounded = omega (arith, v.bounded);
  busy = λ n. omega (arith, v.busy (λ z. cc (e, z)), p);
  ordered = append_assoc s.granted (caller ∷ []) rest ∙ rw (sym e) v.ordered;
}

run-IsFair :
    (s : Semaphore) (came : List ℕ) (calls : List Call)
    → IsFair came s
    → IsFair (came ++ callers calls) (run s calls)
unfolding run
run-IsFair s came [] v = rw (append-nil came) v
run-IsFair s came (acquires caller ∷ calls) v =
    rw (sym (append_assoc came (caller ∷ []) (callers calls)))
      (run-IsFair (acquire s caller) (came ++ caller ∷ []) calls (acquire-IsFair came s caller v))
run-IsFair s came (releases ∷ calls) v =
    run-IsFair (if ltb 0 s.running then release s else s) came calls (
      if_cases (IsFair came) (ltb 0 s.running)
        (λ h. unfold release in release-IsFair came s s.queue refl (ground arith) v) (λ h. v))

-- After any calls of a new semaphore, where only holders release: at most the maximum run, as many as
-- that while somebody waits, and the callers let in and those who wait are, in this order, all who
-- came.
pub new-IsFair : (max : ℕ) (calls : List Call) → IsFair (callers calls) (run (new max) calls)
unfolding new
new-IsFair max calls =
    run-IsFair (new max) [] calls
      (record { bounded = omega arith; busy = λ n. absurd (n refl); ordered = refl })
