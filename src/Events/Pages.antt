-- ===== src/Events/Pages.antt =====
-- src/events.ts: what `replayEvents` does with a page of new events, and with the rest of a log.
use stream_fi_sdk.Base.{
  ℕ, zero, suc, ◌+◌, ◌≤◌, ◌≡◌, refl, sym, ◌∙◌, Bool, true, false, Option, some, List, [], ◌∷◌, ◌++◌,
  ltb, ===_iff, string_eq, if◌then◌else◌, length, take, drop, All, arith, append_assoc, append-nil,
  Bool-cases, inl, inr,
}
use stream_fi_sdk.Events.{RpcEvent, Request, Response, from_ledger, after}
use stream_fi_sdk.Events.Replay.{Replayed, contains, dispatch, take_page}
use stream_fi_sdk.Events.Sound.{ids, Fresh, Distinct}

-- The events come in the order of their ledgers.
abbrev pub Ordered : List RpcEvent → Type 0
Ordered [] = Unit
Ordered (e ∷ es) = All (λ (d : RpcEvent). e.ledger ≤ d.ledger) es × Ordered es

-- A server that pages through a log, from its first event. A cursor stands for a place in the log, and
-- a page has as many events as are asked for while there are any.
pub record IsLogServer {Cursor : Type 0}
    (get_events : Request Cursor → ℕ → Option (Response Cursor)) (log : List RpcEvent)
    (from size : ℕ) : Type 0 where
  pub place : Cursor → ℕ
  pub head :
      (r : Response Cursor) × (c : Cursor) × (get_events (from_ledger from) size ≡ some r)
      × (r.events ≡ take size log)
      × (r.cursor ≡ some c)
      × (place c ≡ length r.events)
  pub tail :
      (k : Cursor)
      → (r : Response Cursor) × (c : Cursor) × (get_events (after k) size ≡ some r)
        × (r.events ≡ take size (drop (place k) log))
        × (r.cursor ≡ some c)
        × (place c ≡ place k + length r.events)

-- The events up to the first past the range, and whether there is one.
unfoldable pub until : ℕ → List RpcEvent → List RpcEvent
until to [] = []
until to (e ∷ es) = let rest = until to es in if ltb to e.ledger then [] else e ∷ rest

unfoldable pub passes : ℕ → List RpcEvent → Bool
passes to [] = false
passes to (e ∷ es) = let rest = passes to es in if ltb to e.ledger then true else rest

unfoldable pub dispatch_all : List RpcEvent → Replayed → Replayed
dispatch_all [] r = r
dispatch_all (e ∷ es) r = dispatch_all es (dispatch e r)

-- None of the events was seen.
unfoldable pub AllNew : List RpcEvent → Replayed → Type 0
AllNew es r = Distinct (ids es) × All (λ (e : RpcEvent). contains e.id r.seen ≡ false) es

pub AllNew-dispatch :
    (e : RpcEvent) (es : List RpcEvent) (r : Replayed)
    → Fresh e.id (ids es)
    → All (λ (d : RpcEvent). contains d.id r.seen ≡ false) es
    → All (λ (d : RpcEvent). contains d.id (dispatch e r).seen ≡ false) es
AllNew-dispatch e [] r f h = tt
AllNew-dispatch e (d ∷ es) r f h =
    (ground (arith, ===_iff e.id d.id, f.0, h.0), AllNew-dispatch e es r f.1 h.1)

pub take_page_lem :
    (to : ℕ) (es : List RpcEvent) (r : Replayed)
    → AllNew es r
    → take_page to es r ≡ (dispatch_all (until to es) r, passes to es)
unfolding take_page until passes dispatch_all AllNew
take_page_lem to [] r n = refl
take_page_lem to (e ∷ es) r n = elim (Bool-cases (ltb to e.ledger)) [
  | inl l ↦ rw l refl
  | inr l ↦
      rw (l, n.1.0) (take_page_lem to es (dispatch e r) (n.0.1, AllNew-dispatch e es r n.0.0 n.1.1))
]

pub until-append :
    (to : ℕ) (xs ys : List RpcEvent)
    → until to (xs ++ ys) ≡ (if passes to xs then until to xs else until to xs ++ until to ys)
unfolding until passes
until-append to [] ys = refl
until-append to (e ∷ xs) ys = ground (arith, until-append to xs ys)

pub dispatch_all-append :
    (es ds : List RpcEvent) (r : Replayed)
    → dispatch_all (es ++ ds) r ≡ dispatch_all ds (dispatch_all es r)
unfolding dispatch_all
dispatch_all-append [] ds r = refl
dispatch_all-append (e ∷ es) ds r = dispatch_all-append es ds (dispatch e r)

pub delivered-dispatch_all :
    (es : List RpcEvent) (r : Replayed) → (dispatch_all es r).delivered ≡ r.delivered ++ es
unfolding dispatch_all
delivered-dispatch_all [] r = sym (append-nil r.delivered)
delivered-dispatch_all (e ∷ es) r =
    delivered-dispatch_all es (dispatch e r) ∙ append_assoc r.delivered (e ∷ []) es

pub AllNew-take : (n : ℕ) (es : List RpcEvent) (r : Replayed) → AllNew es r → AllNew (take n es) r
unfolding AllNew
AllNew-take zero es r h = (tt, tt)
AllNew-take (suc n) [] r h = (tt, tt)
AllNew-take (suc n) (e ∷ es) r h =
    let (d, a) = AllNew-take n es r (h.0.1, h.1.1) in ((Fresh_take n es h.0.0, d), (h.1.0, a))
  where
    Fresh_take : (n : ℕ) (es : List RpcEvent) → Fresh e.id (ids es) → Fresh e.id (ids (take n es))
    Fresh_take zero es h = tt
    Fresh_take (suc n) [] h = tt
    Fresh_take (suc n) (d ∷ es) h = (h.0, Fresh_take n es h.1)

-- What is left of the log is new once a page without an end was dispatched.
pub AllNew-drop :
    (to n : ℕ) (es : List RpcEvent) (r : Replayed)
    → passes to (take n es) ≡ false
    → AllNew es r
    → AllNew (drop n es) (dispatch_all (until to (take n es)) r)
unfolding AllNew passes until dispatch_all
AllNew-drop to zero es r p h = h
AllNew-drop to (suc n) [] r p h = h
AllNew-drop to (suc n) (e ∷ es) r p h = elim (Bool-cases (ltb to e.ledger)) [
  | inl l ↦ ground arith
  | inr l ↦ rw l (
      AllNew-drop to n es (dispatch e r) (ground arith) (h.0.1, AllNew-dispatch e es r h.0.0 h.1.1))
]
