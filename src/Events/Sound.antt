-- ===== src/Events/Sound.antt =====
-- src/events.ts: what `replayEvents` dispatches: never an event twice or past the range, and with a
-- server that pages through a log, all events of the range.
use stream_fi_sdk.Base.{
  ℕ, zero, suc, ◌≤◌, ◌≡◌, ◌≢◌, refl, sym, ◌∙◌, Bool, true, false, ◌||◌, Option, none, some, String,
  List, [], ◌∷◌, ◌++◌, ltb, ◌===◌, ===_iff, string_eq, if◌then◌else◌, if_cases, length, All,
  All-append, arith, inl, inr, ◌⊎◌, length-append,
}
use stream_fi_sdk.Events.{RpcEvent, Request, Response}
use stream_fi_sdk.Events.Replay.{
  Replayed, Reply, done, bad_from, bad_to, bad_page_size, exceeded, failed, contains, dispatch,
  take_page, request, next_page, on_answer, replay_from, replay_events, is_before, nothing,
  or_default, Options, with_end,
}

abbrev pub Fresh : String → List String → Type 0
Fresh id ids = All (λ s. s ≢ id) ids

abbrev pub Distinct : List String → Type 0
Distinct [] = Unit
Distinct (s ∷ ss) = Fresh s ss × Distinct ss

abbrev pub ids : List RpcEvent → List String
ids [] = []
ids (e ∷ es) = e.id ∷ ids es

abbrev pub last_of : Option ℕ → List RpcEvent → Option ℕ
last_of l [] = l
last_of l (e ∷ es) = last_of (some e.ledger) es

pub contains-Fresh : (id : String) (ss : List String) → contains id ss ≡ false → Fresh id ss
contains-Fresh id [] h = tt
contains-Fresh id (s ∷ ss) h = ground (arith, ===_iff s id, contains-Fresh id ss)

Fresh-contains : (id : String) (ss : List String) → Fresh id ss → contains id ss ≡ false
Fresh-contains id [] h = refl
Fresh-contains id (s ∷ ss) h = ground (arith, ===_iff s id, Fresh-contains id ss h.1)

-- Each event is dispatched once, in the range, and the counters say what was dispatched.
pub record IsSound (to : ℕ) (r : Replayed) : Type 0 where
  pub distinct : Distinct (ids r.delivered)
  pub in_range : All (λ (e : RpcEvent). e.ledger ≤ to) r.delivered
  pub counted : r.dispatched ≡ length r.delivered
  pub last : r.last_ledger ≡ last_of none r.delivered

-- The set of ids holds those of the events dispatched.
Known : Replayed → Type 0
Known r = (id : String) → contains id r.seen ≡ contains id (ids r.delivered)

contains-append :
    (id : String) (es : List RpcEvent) (e : RpcEvent)
    → contains id (ids (es ++ e ∷ [])) ≡ (if e.id === id then true else contains id (ids es))
contains-append id [] e = refl
contains-append id (d ∷ es) e = ground (arith, contains-append id es e)

Fresh-append :
    (id : String) (es : List RpcEvent) (e : RpcEvent)
    → Fresh id (ids es)
    → e.id ≢ id
    → Fresh id (ids (es ++ e ∷ []))
Fresh-append id [] e h n = (n, tt)
Fresh-append id (d ∷ es) e h n = (h.0, Fresh-append id es e h.1 n)

Distinct-append :
    (es : List RpcEvent) (e : RpcEvent)
    → Distinct (ids es)
    → Fresh e.id (ids es)
    → Distinct (ids (es ++ e ∷ []))
Distinct-append [] e h n = (tt, tt)
Distinct-append (d ∷ es) e h n =
    (Fresh-append d.id es e h.0 (λ p. n.0 (sym p)), Distinct-append es e h.1 n.1)

last_of-append :
    (l : Option ℕ) (es : List RpcEvent) (e : RpcEvent) → last_of l (es ++ e ∷ []) ≡ some e.ledger
last_of-append l [] e = refl
last_of-append l (d ∷ es) e = last_of-append (some d.ledger) es e

dispatch-IsSound :
    (to : ℕ) (e : RpcEvent) (r : Replayed)
    → e.ledger ≤ to
    → contains e.id r.seen ≡ false
    → Known r
    → IsSound to r
    → IsSound to (dispatch e r) × Known (dispatch e r)
unfolding Known
dispatch-IsSound to e r l n k v = (
  record {
    distinct =
        Distinct-append r.delivered e v.distinct
          (contains-Fresh e.id (ids r.delivered) (sym (k e.id) ∙ n));
    in_range = All-append (λ (d : RpcEvent). d.ledger ≤ to) r.delivered (e ∷ []) v.in_range (l, tt);
    counted = omega (arith, v.counted, length-append r.delivered (e ∷ []));
    last = sym (last_of-append none r.delivered e);
  },
  λ id. rw (contains-append id r.delivered e, k id) refl,
)

take_page-IsSound :
    (to : ℕ) (es : List RpcEvent) (r : Replayed)
    → Known r
    → IsSound to r
    → IsSound to (take_page to es r).0 × Known (take_page to es r).0
unfolding take_page
take_page-IsSound to [] r k v = (v, k)
take_page-IsSound to (e ∷ es) r k v =
    if_cases (λ (p : Replayed × Bool). IsSound to p.0 × Known p.0) (ltb to e.ledger) (λ l. (v, k))
      (λ l.
        if_cases (λ (p : Replayed × Bool). IsSound to p.0 × Known p.0) (contains e.id r.seen)
          (λ c. take_page-IsSound to es r k v)
          (λ c.
            let (v', k') = dispatch-IsSound to e r (ground arith) c k v in
            take_page-IsSound to es (dispatch e r) k' v'))

-- What holds of the events dispatched, however the call ends.
abbrev pub Dispatched : (Replayed → Type 0) → Reply → Type 0
Dispatched P (done r) = P r
Dispatched P (exceeded r) = P r
Dispatched P (failed r) = P r
Dispatched P bad_from = Unit
Dispatched P bad_to = Unit
Dispatched P bad_page_size = Unit

module _ {Cursor : Type 0} (get_events : Request Cursor → ℕ → Option (Response Cursor)) where
  next_page-IsSound :
      (again : Replayed → Cursor → Reply) (to size : ℕ) (es : List RpcEvent)
      (cursor : Option Cursor)
      → (p : Replayed × Bool) → IsSound to p.0
      → ((c : Cursor) → Dispatched (IsSound to) (again p.0 c))
      → Dispatched (IsSound to) (next_page get_events again size es cursor p)
  next_page-IsSound again to size es none (r, past) v h = v
  next_page-IsSound again to size es (some c) (r, past) v h =
      if_cases (Dispatched (IsSound to)) (past || ltb (length es) size) (λ e. v) (λ e. h c)

  on_answer-IsSound :
      (again : Replayed → Cursor → Reply) (to size : ℕ) (r : Replayed)
      → Known r
      → IsSound to r
      → ((r' : Replayed) (c : Cursor)
          → Known r'
          → IsSound to r'
          → Dispatched (IsSound to) (again r' c))
      → (o : Option (Response Cursor))
      → Dispatched (IsSound to) (on_answer get_events again to size r o)
  on_answer-IsSound again to size r k v h none = v
  on_answer-IsSound again to size r k v h (some response) =
      let (v', k') = take_page-IsSound to response.events r k v in
      next_page-IsSound again to size response.events response.cursor
        (take_page to response.events r) v' (λ c. h _ c k' v')

  replay_from-IsSound :
      (pages from to size : ℕ) (cursor : Option Cursor) (r : Replayed)
      → Known r
      → IsSound to r
      → Dispatched (IsSound to) (replay_from get_events pages from to size cursor r)
  unfolding replay_from
  replay_from-IsSound zero from to size cursor r k v = v
  replay_from-IsSound (suc pages) from to size cursor r k v =
      on_answer-IsSound (λ r' c. replay_from get_events pages from to size (some c) r') to size r k
        v (λ r' c k' v'. replay_from-IsSound pages from to size (some c) r' k' v')
        (get_events (request get_events from cursor) size)

  -- Whatever the server answers and however the call ends, no event id is dispatched twice, no event
  -- past the range's end is dispatched, and the counter and the last ledger are those of the events
  -- dispatched. The end is `toLedger`, or the latest ledger without it.
  pub replay_events-IsSound :
      (from : ℕ) (o : Options) (latest : Option ℕ) (to : ℕ)
      → ((o.to_ledger ≡ some to) ⊎ ((o.to_ledger ≡ none) × (latest ≡ some to)))
      → Dispatched (IsSound to) (replay_events get_events from o latest)
  unfolding replay_events Known
  replay_events-IsSound from o latest to h =
      let size : ℕ = or_default o.page_size 200 in
      let ok : Dispatched (IsSound to)
          (with_end get_events from size (or_default o.max_pages 1000) o.to_ledger latest) =
        ends size h in
      if_cases (Dispatched (IsSound to)) (ltb from 1) (λ e. tt)
        (λ e.
          if_cases (Dispatched (IsSound to)) (is_before get_events o.to_ledger from) (λ e. tt)
            (λ e.
              if_cases (Dispatched (IsSound to)) (ltb size 1 || ltb 200 size) (λ e. tt) (λ e. ok)))
    where
      start :
          (size : ℕ)
          → Dispatched
              (IsSound to)
              (replay_from get_events (or_default o.max_pages 1000) from to size none nothing)
      start size =
          replay_from-IsSound (or_default o.max_pages 1000) from to size none nothing (λ id. refl)
            (record { distinct = tt; in_range = tt; counted = refl; last = refl })

      ends :
          (size : ℕ)
          → ((o.to_ledger ≡ some to) ⊎ ((o.to_ledger ≡ none) × (latest ≡ some to)))
          → Dispatched
              (IsSound to)
              (with_end get_events from size (or_default o.max_pages 1000) o.to_ledger latest)
      ends size (inl e) = rw e (start size)
      ends size (inr (e, l)) = rw (e, l) (start size)
