-- ===== src/History/Reducer.antt =====
-- src/dashboard/transaction-history.ts: the state of the view and its reducer. `selectFilteredTransactions`
-- is `matching` here: Filters/Cached shows that the cache gives no other rows. `now` is `Date.now()`.
pub mod Valid
use stream_fi_sdk.Base.{
  ℕ, ◌+◌, ◌-◌, ◌*◌, ◌/◌, ◌≡◌, Bool, true, false, Option, none, some, List, [], ◌∷◌, ◌===◌, max, ltb,
  map, if◌then◌else◌, length,
}
use stream_fi_sdk.Amount.{ℤ, pos}
use stream_fi_sdk.Amount.Digits.{Text}
use stream_fi_sdk.Paging.{Truncated, not_finite, negative, whole}
use stream_fi_sdk.History.{TransactionRecord}
use stream_fi_sdk.Texts.{codes, text_eq, trim}
use stream_fi_sdk.History.Values.{Value, Readers, as_string, as_enum}
use stream_fi_sdk.History.Normalize.{
  Raw, valid_statuses, valid_kinds, valid_directions, normalize_transactions,
}
use stream_fi_sdk.History.Filters.{
  Choice, TransactionFilters, initial_transaction_filters, matching,
}

pub record TransactionHistoryState : Type 0 where
  pub transactions : List TransactionRecord
  pub filters : TransactionFilters
  pub page : ℕ
  pub page_size : ℕ
  pub loading : Bool
  pub error : Option Text
  pub last_updated : ℤ

-- What was thrown: a string, anything with a `message` that is a string, or anything else.
pub data Thrown : Type 0 where
  string with_message : Text → Thrown
  other : Thrown

-- `Number(pageSize)`: not finite, not positive, or positive with its whole part.
pub data PageSize : Type 0 where
  nonfinite not_positive : PageSize
  positive : ℕ → PageSize

-- A filter that is `undefined` is `none`.
pub record PartialFilters : Type 0 where
  pub status : Option Value
  pub kind : Option Value
  pub direction : Option Value
  pub search : Option Value

abbrev pub default_page_size : ℕ
default_page_size = 10

abbrev pub initial_transaction_history_state : TransactionHistoryState
initial_transaction_history_state = record {
  transactions = [];
  filters = initial_transaction_filters;
  page = 0;
  page_size = default_page_size;
  loading = false;
  error = none;
  last_updated = pos 0;
}

unfoldable pub to_error_message : Thrown → Text
unfolding trim
to_error_message (Thrown.string t) =
    if trim t === [] then codes "Failed to load transaction history." else t
to_error_message (Thrown.with_message t) =
    if trim t === [] then codes "Failed to load transaction history." else t
to_error_message Thrown.other = codes "Failed to load transaction history."

unfoldable pub clamp_page : Truncated → ℕ → ℕ
clamp_page not_finite total_pages = 0
clamp_page negative total_pages = 0
clamp_page (whole n) total_pages =
    let max_page = max 0 (total_pages - 1) in if ltb max_page n then max_page else n

-- `Math.max(1, Math.ceil(rows / Math.max(1, pageSize)))`
abbrev pub total_pages : ℕ → ℕ → ℕ
total_pages rows page_size = max 1 ((rows + max 1 page_size - 1) / max 1 page_size)

abbrev pub page_size_of : PageSize → ℕ
page_size_of PageSize.nonfinite = default_page_size
page_size_of PageSize.not_positive = default_page_size
page_size_of (PageSize.positive n) = n

module _ (r : Readers) where
  pub data TransactionHistoryAction : Type 0 where
    load_start reset : TransactionHistoryAction
    load_success : Option (List (Raw r)) → Option ℤ → Value → TransactionHistoryAction
    load_failure : Thrown → TransactionHistoryAction
    set_filter : PartialFilters → TransactionHistoryAction
    set_page : Truncated → TransactionHistoryAction
    set_page_size : PageSize → TransactionHistoryAction

  abbrev pub as_choice : {A : Type 0} → List (Text × A) → Choice A → Option Value → Choice A
  as_choice allowed current none = current
  as_choice allowed current (some v) =
      as_enum r v (map (λ p. (p.0, Choice.only p.1)) allowed) Choice.all

  abbrev pub search_or : Text → Option Value → Text
  search_or current none = current
  search_or current (some v) = as_string v []

  abbrev pub received : Option ℤ → ℤ → ℤ
  received none now = now
  received (some at) now = at

  unfoldable pub transaction_history_reducer :
      ℤ → TransactionHistoryState → TransactionHistoryAction → TransactionHistoryState
  unfolding normalize_transactions matching clamp_page to_error_message as_enum as_string
  transaction_history_reducer now current load_start = record current {
    loading = true;
    error = none;
  }
  transaction_history_reducer now current (load_success payload received_at wallet_address) =
      let transactions = normalize_transactions r payload wallet_address in
      record current {
        transactions = transactions;
        loading = false;
        error = none;
        page =
            clamp_page (whole current.page) (total_pages (length transactions) current.page_size);
        last_updated = received received_at now;
      }
  transaction_history_reducer now current (load_failure error) = record current {
    loading = false;
    error = some (to_error_message error);
  }
  transaction_history_reducer now current (set_filter raw) = record current {
    filters = record {
      status = as_choice valid_statuses current.filters.status raw.status;
      kind = as_choice valid_kinds current.filters.kind raw.kind;
      direction = as_choice valid_directions current.filters.direction raw.direction;
      search = search_or current.filters.search raw.search;
    };
    page = 0;
  }
  transaction_history_reducer now current (set_page page) =
      let visible = matching r current.filters current.transactions in
      record current { page = clamp_page page (total_pages (length visible) current.page_size) }
  transaction_history_reducer now current (set_page_size size) = record current {
    page_size = page_size_of size;
    page = 0;
  }
  transaction_history_reducer now current reset = initial_transaction_history_state

  -- The states that dispatched actions lead to, each with the time at which it came.
  unfoldable pub run :
      TransactionHistoryState → List (ℤ × TransactionHistoryAction) → TransactionHistoryState
  unfolding transaction_history_reducer
  run state [] = state
  run state ((now, action) ∷ actions) = run (transaction_history_reducer now state action) actions
