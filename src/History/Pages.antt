-- ===== src/History/Pages.antt =====
-- src/dashboard/transaction-history.ts: the selectors that cut the ranked rows into pages.
pub mod Covered
use stream_fi_sdk.Base.{
  ℕ, zero, suc, ◌+◌, ◌*◌, ◌≡◌, Bool, true, false, ◌&&◌, not, Option, none, some, List, [], ◌∷◌,
  ◌++◌, max, leb, ltb, if◌then◌else◌, length, take, drop, filter,
}
use stream_fi_sdk.Amount.{ℤ}
use stream_fi_sdk.Paging.{Truncated, not_finite, negative, whole}
use stream_fi_sdk.History.{TransactionRecord, less}
use stream_fi_sdk.History.Values.{Readers}
use stream_fi_sdk.History.Filters.{matching}
use stream_fi_sdk.History.Heap.{top_k_by_timestamp_desc}
use stream_fi_sdk.History.Reducer.{TransactionHistoryState, clamp_page, total_pages}

pub data ViewStatus : Type 0 where
  loading error empty ready : ViewStatus

module _ (r : Readers) where
  unfoldable pub select_total_pages : TransactionHistoryState → ℕ
  unfolding matching
  select_total_pages state =
      total_pages (length (matching r state.filters state.transactions)) state.page_size

  unfoldable pub select_visible_transactions : TransactionHistoryState → List TransactionRecord
  unfolding matching clamp_page top_k_by_timestamp_desc
  select_visible_transactions state =
      let filtered = matching r state.filters state.transactions in
      let page_size = max 1 state.page_size in
      let page = clamp_page (whole state.page) (total_pages (length filtered) page_size) in
      let start = page * page_size in
      let top = top_k_by_timestamp_desc filtered (start + page_size) in
      take page_size (drop start top)

  abbrev pub is_empty : List TransactionRecord → Bool
  is_empty [] = true
  is_empty (tx ∷ rows) = false

  abbrev pub is_error : Option (List ℕ) → Bool
  is_error none = false
  is_error (some e) = true

  unfoldable pub select_view_status : TransactionHistoryState → ViewStatus
  unfolding matching
  select_view_status state =
      let no_rows = is_empty (matching r state.filters state.transactions) in
      if state.loading && no_rows
      then ViewStatus.loading
      else if is_error state.error && no_rows
      then ViewStatus.error
      else if no_rows
      then ViewStatus.empty
      else ViewStatus.ready

-- A bound of the range, if it is a finite number.
unfoldable pub filter_by_date_range :
    List TransactionRecord → Option ℤ → Option ℤ → List TransactionRecord
unfolding less
filter_by_date_range history none to = []
filter_by_date_range history (some from) none = []
filter_by_date_range history (some from) (some to) =
    if less to from
    then []
    else filter
        (λ (tx : TransactionRecord). not (less tx.timestamp from) && not (less to tx.timestamp))
        history

-- The page and its size are at least 0 here; a negative one would be raised to 0 and to 1.
unfoldable pub paginate_history : List TransactionRecord → ℕ → ℕ → List TransactionRecord
paginate_history history page page_size =
    let safe_page_size = max 1 page_size in
    let start = page * safe_page_size in
    if leb (length history) start then [] else take safe_page_size (drop start history)
