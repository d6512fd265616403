-- ===== src/Events/Replay.antt =====
-- src/events.ts: `replayEvents`. The server is a parameter: what it answers to a request, or `none`
-- when the call fails. A page that is full and has a cursor is followed by another.
use stream_fi_sdk.Base.{
  ℕ, zero, suc, ◌+◌, Bool, true, false, ◌||◌, Option, none, some, String, List, [], ◌∷◌, ◌++◌, ltb,
  ◌===◌, string_eq, if◌then◌else◌, length,
}
use stream_fi_sdk.Events.{RpcEvent, Request, Response, from_ledger, after}

-- The seen ids, the events dispatched and the last ledger.
pub record Replayed : Type 0 where
  pub seen : List String
  pub delivered : List RpcEvent
  pub dispatched : ℕ
  pub last_ledger : Option ℕ

pub data Reply : Type 0 where
  done : Replayed → Reply
  bad_from bad_to bad_page_size : Reply
  exceeded failed : Replayed → Reply

abbrev pub contains : String → List String → Bool
contains id [] = false
contains id (s ∷ ss) = let rest = contains id ss in if s === id then true else rest

abbrev pub dispatch : RpcEvent → Replayed → Replayed
dispatch event r = record {
  seen = event.id ∷ r.seen;
  delivered = r.delivered ++ event ∷ [];
  dispatched = r.dispatched + 1;
  last_ledger = some event.ledger;
}

-- The events of a page; the flag says that one lies past the range.
unfoldable pub take_page : ℕ → List RpcEvent → Replayed → Replayed × Bool
take_page to [] r = (r, false)
take_page to (event ∷ events) r =
    let skipped = take_page to events r in
    let taken = take_page to events (dispatch event r) in
    if ltb to event.ledger then (r, true) else if contains event.id r.seen then skipped else taken

pub record Options : Type 0 where
  pub to_ledger : Option ℕ
  pub page_size : Option ℕ
  pub max_pages : Option ℕ

abbrev pub or_default : Option ℕ → ℕ → ℕ
or_default none n = n
or_default (some m) n = m

abbrev pub nothing : Replayed
nothing = record { seen = []; delivered = []; dispatched = 0; last_ledger = none }

module _ {Cursor : Type 0} (get_events : Request Cursor → ℕ → Option (Response Cursor)) where
  abbrev pub request : ℕ → Option Cursor → Request Cursor
  request from none = from_ledger from
  request from (some c) = after c

  -- After a page: the loop ends, or goes on at the cursor.
  abbrev pub next_page :
      (Replayed → Cursor → Reply) → ℕ → List RpcEvent → Option Cursor → Replayed × Bool → Reply
  next_page again size events none (r, past) = done r
  next_page again size events (some c) (r, past) =
      if past || ltb (length events) size then done r else again r c

  abbrev pub on_answer :
      (Replayed → Cursor → Reply) → ℕ → ℕ → Replayed → Option (Response Cursor) → Reply
  on_answer again to size r none = failed r
  on_answer again to size r (some response) =
      next_page again size response.events response.cursor (take_page to response.events r)

  -- The pages that may still be fetched come first.
  unfoldable pub replay_from : ℕ → ℕ → ℕ → ℕ → Option Cursor → Replayed → Reply
  replay_from zero from to size cursor r = exceeded r
  replay_from (suc pages) from to size cursor r =
      on_answer (λ r' c. replay_from pages from to size (some c) r') to size r
        (get_events (request from cursor) size)

  abbrev pub is_before : Option ℕ → ℕ → Bool
  is_before none from = false
  is_before (some to) from = ltb to from

  -- `latest` is what `getLatestLedger` gives, and is asked for only without an end.
  abbrev pub with_end : ℕ → ℕ → ℕ → Option ℕ → Option ℕ → Reply
  with_end from size pages (some to) latest = replay_from pages from to size none nothing
  with_end from size pages none (some to) = replay_from pages from to size none nothing
  with_end from size pages none none = failed nothing

  unfoldable pub replay_events : ℕ → Options → Option ℕ → Reply
  replay_events from o latest =
      let size = or_default o.page_size 200 in
      if ltb from 1
      then bad_from
      else if is_before o.to_ledger from
      then bad_to
      else if ltb size 1 || ltb 200 size
      then bad_page_size
      else with_end from size (or_default o.max_pages 1000) o.to_ledger latest
