-- ===== src/Events/Complete.antt =====
-- src/events.ts: `replayEvents` with a server that pages through a log.
use stream_fi_sdk.Base.{
  ℕ, zero, suc, ◌+◌, ◌*◌, ◌≤◌, ◌<◌, ◌≡◌, refl, sym, ◌∙◌, ap, Bool, true, false, ◌||◌, Option, none,
  some, List, [], ◌∷◌, ◌++◌, ltb, leb, string_eq, if◌then◌else◌, length, take, drop, filter, All,
  arith, Bool-cases, inl, inr, length-take, length-drop, take-append-drop, take_all, drop-drop,
}
use stream_fi_sdk.Events.{RpcEvent, Request, Response}
use stream_fi_sdk.Events.Replay.{
  Replayed, done, contains, take_page, request, replay_from, replay_events, nothing,
}
use stream_fi_sdk.Events.Sound.{ids, Distinct}
use native.Mathlib.Nat.{add-mul}
use stream_fi_sdk.Events.Pages.{
  IsLogServer, Ordered, until, passes, dispatch_all, AllNew, take_page_lem, until-append,
  dispatch_all-append, delivered-dispatch_all, AllNew-take, AllNew-drop,
}

-- From any place of the log: the loop dispatches what is left of the range.
module _ {Cursor : Type 0} (get_events : Request Cursor → ℕ → Option (Response Cursor))
    (log : List RpcEvent) (from to size : ℕ) (server : IsLogServer get_events log from size)
    (some_size : 0 < size) where
  -- The cursor, or none, stands for a place in the log.
  At : Option Cursor → ℕ → Type 0
  At none k = k ≡ 0
  At (some c) k = server.place c ≡ k

  answer :
      (cursor : Option Cursor) (k : ℕ)
      → At cursor k
      → (r : Response Cursor) × (c : Cursor) × (get_events (request get_events from cursor) size
          ≡ some r)
        × (r.events ≡ take size (drop k log))
        × (r.cursor ≡ some c)
        × (server.place c ≡ k + length r.events)
  unfolding At
  answer none k h =
      let (r, c, g, e, m, p) = server.head in (r, c, g, rw h e, m, p ∙ rw h (omega arith))
  answer (some x) k h =
      let (r, c, g, e, m, p) = server.tail x in (r, c, g, rw (sym h) e, m, rw (sym h) p)

  -- A round on the page that the answer has.
  replay_from_page :
      (pages k : ℕ) (cursor : Option Cursor) (r r' : Replayed) (past : Bool) (page : List RpcEvent)
      → At cursor k
      → take size (drop k log) ≡ page
      → take_page to page r ≡ (r', past)
      → (c : Cursor) × (server.place c ≡ k + length page)
        × (replay_from get_events (suc pages) from to size cursor r ≡ (
            if past || ltb (length page) size
            then done r'
            else replay_from get_events pages from to size (some c) r'))
  unfolding replay_from
  replay_from_page pages k cursor r r' past page a h t =
      let (response, c, g, e, m, p) = answer cursor k a in
      let same : response.events ≡ page = e ∙ h in
      (c, p ∙ ap (λ es. k + length es) same, rw (g, same, m, t) refl)

  replay_from_log :
      (pages k : ℕ) (rest : List RpcEvent) (cursor : Option Cursor) (r : Replayed)
      → drop k log ≡ rest
      → At cursor k
      → AllNew rest r
      → length rest < pages * size
      → replay_from get_events pages from to size cursor r ≡ done (dispatch_all (until to rest) r)
  unfolding At
  replay_from_log zero k rest cursor r d a n l = absurd (omega arith)
  replay_from_log (suc pages) k rest cursor r d a n l =
      let page : List RpcEvent = take size rest in
      let r' : Replayed = dispatch_all (until to page) r in
      let (c, p, round) =
        replay_from_page pages k cursor r r' (passes to page) page a (ap (take size) d)
          (take_page_lem to page r (AllNew-take size rest r n)) in
      let split : until to rest
          ≡ (if passes to page then until to page else until to page ++ until to (drop size rest)) =
        ap (until to) (sym (take-append-drop size rest)) ∙ until-append to page (drop size rest) in
      round ∙ elim (Bool-cases (passes to page)) [
        | inl e ↦ rw (split, e) refl
        | inr e ↦ elim (Bool-cases (ltb (length page) size)) [
          | inl short ↦
              let all : page ≡ rest = take_all size rest (ground (arith, length-take size rest)) in
              rw (e, short) (ap (λ es. done (dispatch_all (until to es) r)) all)
          | inr full ↦
              let whole : length page ≡ size = ground (arith, length-take size rest) in
              rw (e, full, split, e)
                (replay_from_log pages (k + length page) (drop size rest) (some c) r'
                    (ap (λ m. drop (k + m) log) whole
                      ∙ sym (drop-drop size k log)
                      ∙ ap (drop size) d)
                    p (AllNew-drop to size rest r e n)
                    (omega (
                      arith,
                      length-drop size rest,
                      whole,
                      length-take size rest,
                      l,
                      add-mul 1 pages size,
                    ))
                  ∙ ap done
                      (sym (dispatch_all-append (until to page) (until to (drop size rest)) r)))
        ]
      ]

until-filter :
    (to : ℕ) (es : List RpcEvent)
    → Ordered es
    → until to es ≡ filter (λ (e : RpcEvent). leb e.ledger to) es
unfolding until
until-filter to [] h = refl
until-filter to (e ∷ es) h = elim (Bool-cases (ltb to e.ledger)) [
  | inl l ↦
      let out : leb e.ledger to ≡ false = ground arith in rw (l, out) (sym (none_left es h.0 l))
  | inr l ↦
      let inside : leb e.ledger to ≡ true = ground arith in
      rw (l, inside) (ap (λ ds. e ∷ ds) (until-filter to es h.1))
]
  where
    none_left :
        (ds : List RpcEvent)
        → All (λ (d : RpcEvent). e.ledger ≤ d.ledger) ds
        → ltb to e.ledger ≡ true
        → filter (λ (d : RpcEvent). leb d.ledger to) ds ≡ []
    none_left [] h l = refl
    none_left (d ∷ ds) h l =
        let out : leb d.ledger to ≡ false = ground (arith, h.0) in rw out (none_left ds h.1 l)

-- With a server that pages through a log of distinct events in the order of their ledgers, a call
-- with an end, a page size that is allowed and enough pages ends, and has dispatched all events of
-- the log up to the end, in order.
pub replay_events-log :
    {Cursor : Type 0} (get_events : Request Cursor → ℕ → Option (Response Cursor))
    (log : List RpcEvent) (from to size pages : ℕ) (latest : Option ℕ)
    → IsLogServer get_events log from size
    → Distinct (ids log)
    → Ordered log
    → 1 ≤ from
    → from ≤ to
    → 1 ≤ size
    → size ≤ 200
    → length log < pages * size
    → (r : Replayed) × (replay_events get_events from
          (record { to_ledger = some to; page_size = some size; max_pages = some pages })
          latest
        ≡ done r)
      × (r.delivered ≡ filter (λ (e : RpcEvent). leb e.ledger to) log)
unfolding replay_events AllNew
replay_events-log get_events log from to size pages latest server d o h1 h2 h3 h4 h5 =
    let starts : ltb from 1 ≡ false = ground arith in
    let ends : ltb to from ≡ false = ground arith in
    let some_size : ltb size 1 ≡ false = ground arith in
    let fits : ltb 200 size ≡ false = ground arith in
    (
      dispatch_all (until to log) nothing,
      rw (starts, ends, some_size, fits)
          (replay_from_log get_events log from to size server (omega (arith, h3)) pages 0 log none
            nothing refl (unfold At in refl) (d, all_new log) h5),
      delivered-dispatch_all (until to log) nothing ∙ until-filter to log o,
    )
  where
    all_new : (es : List RpcEvent) → All (λ (e : RpcEvent). contains e.id [] ≡ false) es
    all_new [] = tt
    all_new (e ∷ es) = (refl, all_new es)
