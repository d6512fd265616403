-- ===== src/Events/Spaced.antt =====
-- src/events.ts: a subscription does not dispatch an event again while its id is among the recent ones.
use stream_fi_sdk.Base.{
  ℕ, zero, suc, ◌≡◌, ◌⊎◌, refl, sym, ◌∙◌, ap, Bool, true, false, ◌||◌, String, List, [], ◌∷◌, ◌==◌,
  ◌===◌, string_eq, if◌then◌else◌, Bool-cases, inl, inr, arith, take,
}
use stream_fi_sdk.Events.{RpcEvent}
use stream_fi_sdk.Events.Replay.{contains}
use stream_fi_sdk.Events.Sound.{Fresh, contains-Fresh}
use stream_fi_sdk.Events.Effects.{delivered_ids, run-Good}
use stream_fi_sdk.Events.Subscription.{
  Settings, Subscription, Effect, dispatched, seen, Happening, unsubscribes, step, run, subscribe,
}

-- No id stands twice within `size` of each other.
abbrev pub AreSpaced : ℕ → List String → Type 0
AreSpaced size [] = Unit
AreSpaced size (id ∷ ids) = Fresh id (take size ids) × AreSpaced size ids

-- While there are handlers, the window holds the last ids that were dispatched.
pub record Windowed (size : ℕ) (recent : List String) (listening : Bool) (effects : List Effect)
    : Type 0 where
  pub spaced : AreSpaced size (delivered_ids effects)
  pub window : listening ≡ true → recent ≡ take size (delivered_ids effects)

unfoldable pub IsWindowed : {Cursor : Type 0} → ℕ → Subscription Cursor → Type 0
IsWindowed size s = Windowed size s.recent_ids s.listening s.effects

take_nil : (n : ℕ) → [] ≡ take {A = String} n []
take_nil zero = refl
take_nil (suc n) = refl

take-suc-take : (n : ℕ) (ids : List String) → take n (take (suc n) ids) ≡ take n ids
take-suc-take zero ids = refl
take-suc-take (suc n) [] = refl
take-suc-take (suc n) (id ∷ ids) = ap (λ t. id ∷ t) (take-suc-take n ids)

take-cons-take :
    (n : ℕ) (id : String) (ids : List String) → take n (id ∷ take n ids) ≡ take n (id ∷ ids)
take-cons-take zero id ids = refl
take-cons-take (suc n) id ids = ap (λ t. id ∷ t) (take-suc-take n ids)

-- A call of a handler that is no event.
other-Windowed :
    (size : ℕ) (recent : List String) (listening : Bool) (effect : Effect) (effects : List Effect)
    → delivered_ids (effect ∷ effects) ≡ delivered_ids effects
    → Windowed size recent listening effects
    → Windowed size recent listening (if listening then effect ∷ effects else effects)
other-Windowed size recent true effect effects e v = record {
  spaced = rw e v.spaced;
  window = λ h. rw e (v.window h);
}
other-Windowed size recent false effect effects e v = v

or_true : (b : Bool) → (b || true) ≡ true
or_true true = refl
or_true false = refl

seen_blank :
    (size : ℕ) (id : String) (ids : List String) → (id === "") ≡ true → (seen size id ids).0 ≡ ids
unfolding seen
seen_blank size id ids h = rw (h, or_true (size == 0)) refl

seen_zero : (id : String) (ids : List String) → (seen 0 id ids).0 ≡ ids
unfolding seen
seen_zero id ids = refl

seen_named :
    (n : ℕ) (id : String) (ids : List String)
    → (id === "") ≡ false
    → (seen (suc n) id ids).1 ≡ false
    → (contains id ids ≡ false) × ((seen (suc n) id ids).0 ≡ take (suc n) (id ∷ ids))
unfolding seen
seen_named n id ids h k =
    let z : (suc n == 0) ≡ false = ground arith in named z (Bool-cases (contains id ids))
  where
    named :
        (suc n == 0) ≡ false
        → (contains id ids ≡ true) ⊎ (contains id ids ≡ false)
        → (contains id ids ≡ false) × ((seen (suc n) id ids).0 ≡ take (suc n) (id ∷ ids))
    named z (inl c) =
        let s : (seen (suc n) id ids).1 ≡ true = rw (z, h, c) refl in absurd (cc (k, s))
    named z (inr c) = (c, rw (z, h, c) refl)

-- An event that was not seen.
unseen-Windowed :
    (size : ℕ) (recent : List String) (listening : Bool) (e : RpcEvent) (effects : List Effect)
    → (seen size e.id recent).1 ≡ false
    → Windowed size recent listening effects
    → Windowed size
        (seen size e.id recent).0
        listening
        (if listening then dispatched e ∷ effects else effects)
unseen-Windowed size recent false e effects h v = record {
  spaced = v.spaced;
  window = λ l. absurd (cc l);
}
unseen-Windowed size recent true e effects h v = elim (Bool-cases (e.id === "")) [
  | inl blank ↦ record {
    spaced = rw blank v.spaced;
    window = λ l. rw blank (seen_blank size e.id recent blank ∙ v.window l);
  }
  | inr named ↦ by_size size named h v
]
  where
    by_size :
        (size : ℕ)
        → (e.id === "") ≡ false
        → (seen size e.id recent).1 ≡ false
        → Windowed size recent true effects
        → Windowed size (seen size e.id recent).0 true (dispatched e ∷ effects)
    by_size zero named h v = record {
      spaced = rw named (tt, v.spaced);
      window = λ l. seen_zero e.id recent ∙ v.window l;
    }
    by_size (suc n) named h v =
        let (new, added) = seen_named n e.id recent named h in
        record {
          spaced = rw named (
            contains-Fresh e.id (take (suc n) (delivered_ids effects))
                (ap (contains e.id) (sym (v.window refl)) ∙ new),
            v.spaced,
          );
          window = λ l. rw named (
              added
              ∙ ap (λ r. take (suc n) (e.id ∷ r)) (v.window l)
              ∙ take-cons-take (suc n) e.id (delivered_ids effects));
        }

quiet_effects :
    (effects : List Effect) (listening : Bool) (effect : Effect) (es : List Effect)
    → (listening ≡ false) × (es ≡ effects)
    → (listening ≡ false) × ((if listening then effect ∷ es else es) ≡ effects)
quiet_effects effects true effect es h = absurd (cc (h.0))
quiet_effects effects false effect es h = h

module _ {Cursor : Type 0} (settings : Settings) where
  -- Whatever happens, backfills of gaps included, the events that were dispatched with an id have no id
  -- twice within the size of the window of each other, and while there are handlers the window
  -- holds the ids of the last ones.
  pub subscribe-IsWindowed :
      (hs : List (Happening Cursor))
      → IsWindowed settings.dedup_window_size (run settings (subscribe {Cursor = Cursor}) hs)
  unfolding IsWindowed
  subscribe-IsWindowed hs =
      run-Good settings (Windowed settings.dedup_window_size)
        (other-Windowed settings.dedup_window_size) (unseen-Windowed settings.dedup_window_size)
        (λ r l es v. record { spaced = v.spaced; window = λ h. absurd (cc h) }) subscribe hs
        (unfold subscribe in
          record { spaced = tt; window = λ l. take_nil settings.dedup_window_size })

  -- Once the caller has unsubscribed, no handler is called, whatever is still answered.
  pub run_unsubscribed :
      (s : Subscription Cursor) (hs : List (Happening Cursor))
      → (run settings s (unsubscribes ∷ hs)).effects ≡ s.effects
  unfolding run step
  run_unsubscribed s hs =
      (run-Good settings (λ r l es. (l ≡ false) × (es ≡ s.effects))
        (λ r l effect es e h. quiet_effects s.effects l effect es h)
        (λ r l e es k h. quiet_effects s.effects l (dispatched e) es h) (λ r l es h. (refl, h.1))
        (step settings s unsubscribes) hs (refl, refl)).1
