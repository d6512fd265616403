-- ===== src/History.antt =====
-- src/dashboard/transaction-history.ts: the rows of the transaction history, as the dashboard's reducer
-- keeps them and its selectors rank and cut them. A string is the list of its code units.
pub mod Values
pub mod Normalize
pub mod Filters
pub mod Sort
pub mod Heap
pub mod Reducer
pub mod Pages
pub mod Csv
use stream_fi_sdk.Base.{
  ℕ, ◌+◌, ◌<◌, ◌≡◌, Bool, true, false, ltb, if◌then◌else◌, List, [], ◌∷◌, arith,
}
use stream_fi_sdk.Amount.{ℤ, pos, negsuc}
use stream_fi_sdk.Amount.Digits.{Text}

pub data TransactionStatus : Type 0 where
  pending confirmed failed cancelled unknown : TransactionStatus

pub data TransactionKind : Type 0 where
  create withdraw pause resume cancel top_up unknown : TransactionKind

pub data TransactionDirection : Type 0 where
  in_ out unknown : TransactionDirection

-- The timestamp is a whole number of milliseconds, of either sign.
pub record TransactionRecord : Type 0 where
  pub id : Text
  pub hash : Text
  pub stream_id : Text
  pub kind : TransactionKind
  pub direction : TransactionDirection
  pub status : TransactionStatus
  pub amount : Text
  pub asset : Text
  pub counterparty : Text
  pub timestamp : ℤ

-- `a < b` on numbers.
unfoldable pub less : ℤ → ℤ → Bool
less (pos m) (pos n) = ltb m n
less (pos m) (negsuc n) = false
less (negsuc m) (pos n) = true
less (negsuc m) (negsuc n) = ltb n m
