-- ===== src/Events.antt =====
-- src/events.ts: what the readers of contract events see of the RPC server. Requests, answers and
-- errors are values; what is sent to the handlers is the list of events dispatched.
pub mod Replay
pub mod Pages
pub mod Sound
pub mod Complete
pub mod Subscription
pub mod Alive
pub mod Effects
pub mod Spaced
use stream_fi_sdk.Base.{ℕ, Option, String, List}

-- An event as the RPC gives it: its topics and value matter here only for the sequence number that
-- `sequenceOf` reads from them.
pub record RpcEvent : Type 0 where
  pub id : String
  pub ledger : ℕ
  pub sequence : Option ℕ

module _ (Cursor : Type 0) where
  pub data Request : Type 0 where
    from_ledger : ℕ → Request
    after : Cursor → Request

  pub record Response : Type 0 where
    pub events : List RpcEvent
    pub cursor : Option Cursor
    pub latest_ledger : ℕ
