-- ===== src/Tests/Histories.antt =====
-- Inputs of the transaction history.
use stream_fi_sdk.Base.{ℕ, ◌≡◌, refl, true, false, none, some, List, [], ◌∷◌, take, arith}
use stream_fi_sdk.Amount.{ℤ, pos, negsuc}
use stream_fi_sdk.Amount.Digits.{Text}
use stream_fi_sdk.Paging.{whole}
use stream_fi_sdk.History.{
  TransactionRecord, TransactionStatus, TransactionKind, TransactionDirection,
}
use stream_fi_sdk.Texts.{codes}
use stream_fi_sdk.History.Values.{Value, Readers}
use stream_fi_sdk.History.Filters.{
  TransactionFilters, initial_transaction_filters, matching, SelectorCache, selector_entry,
}
use stream_fi_sdk.History.Filters.Cached.{IsHonest, selector_entry-matching}
use stream_fi_sdk.History.Sort.{sort}
use stream_fi_sdk.History.Heap.{top_k_by_timestamp_desc}
use stream_fi_sdk.History.Heap.TopK.{is_older, top_k-sort}
use stream_fi_sdk.History.Reducer.{
  TransactionHistoryState, TransactionHistoryAction, load_success, set_page, set_page_size,
  PageSize, initial_transaction_history_state, run,
}
use stream_fi_sdk.History.Reducer.Valid.{IsPaged, run-IsPaged}
use stream_fi_sdk.History.Pages.{select_total_pages}
use stream_fi_sdk.History.Pages.Covered.{pages_before, ranked_rows, pages_before-total}
use stream_fi_sdk.History.Csv.{
  ExportTransactionsOptions, export_transactions_to_csv, table_of, format_amount, escape_csv_cell,
}
use stream_fi_sdk.History.Csv.Reader.{Mode, read}
use stream_fi_sdk.History.Csv.RoundTrip.{parse-export_transactions}

abbrev row_at : Text → ℤ → TransactionRecord
row_at id time = record {
  id = id;
  hash = codes "ab";
  stream_id = codes "1";
  kind = TransactionKind.withdraw;
  direction = TransactionDirection.in_;
  status = TransactionStatus.confirmed;
  amount = codes "12345678901";
  asset = codes "X\"LM";
  counterparty = codes "G1,2";
  timestamp = time;
}

abbrev four_rows : List TransactionRecord
four_rows =
    row_at (codes "a") (pos 5)
    ∷ row_at (codes "b") (pos 9)
    ∷ row_at (codes "c") (pos 5)
    ∷ row_at (codes "d") (negsuc 3)
    ∷ []

-- Text that is a number of one digit, no dates, and no change of case.
abbrev plain_readers : Readers
plain_readers = record {
  to_number = λ t. none;
  parse_date = λ t. none;
  to_upper_case = λ t. t;
  to_lower_case = λ t. t;
}

newest_two :
    top_k_by_timestamp_desc four_rows 2
    ≡ row_at (codes "b") (pos 9) ∷ row_at (codes "a") (pos 5) ∷ []
unfolding top_k_by_timestamp_desc
newest_two = refl

top_k-sort_example : top_k_by_timestamp_desc four_rows 3 ≡ take 3 (sort is_older four_rows)
top_k-sort_example = top_k-sort four_rows 3

grouped : format_amount (codes "12345678901") 7 ≡ codes "1,234.5678901"
unfolding format_amount
grouped = refl

negative_zero : format_amount (codes " -000 ") 7 ≡ codes "0"
unfolding format_amount
negative_zero = refl

abbrev viewed : TransactionHistoryState
viewed = record initial_transaction_history_state { transactions = four_rows; page_size = 3 }

pages_before-total_example :
    pages_before plain_readers viewed (select_total_pages plain_readers viewed)
    ≡ ranked_rows plain_readers viewed
pages_before-total_example = pages_before-total plain_readers viewed

abbrev one_payload : TransactionHistoryAction plain_readers
one_payload =
    load_success (some (some (λ key. Value.text (codes "7")) ∷ none ∷ [])) none Value.missing

abbrev three_actions : List (ℤ × TransactionHistoryAction plain_readers)
three_actions =
    (pos 1, one_payload)
    ∷ (pos 2, set_page_size (PageSize.positive 0))
    ∷ (pos 3, set_page (whole 4))
    ∷ []

initial-IsPaged : IsPaged plain_readers initial_transaction_history_state
initial-IsPaged = record { distinct = tt; within = omega arith }

run-IsPaged_example :
    IsPaged plain_readers (run plain_readers initial_transaction_history_state three_actions)
run-IsPaged_example =
    run-IsPaged plain_readers initial_transaction_history_state three_actions initial-IsPaged

abbrev seven_filters : TransactionFilters
seven_filters = record initial_transaction_filters { search = codes "b" }

abbrev all_the_rows : ℕ → List TransactionRecord
all_the_rows i = four_rows

-- The cache after a call with other filters.
abbrev warm : SelectorCache plain_readers
warm = (selector_entry plain_readers (λ i. none) 0 four_rows initial_transaction_filters).1

warm-IsHonest : IsHonest plain_readers all_the_rows warm
warm-IsHonest =
    (selector_entry-matching plain_readers all_the_rows (λ i. none) 0 initial_transaction_filters
      (λ i entry e. cc)).1

selector_entry-matching_example :
    ((selector_entry plain_readers warm 0 four_rows seven_filters).0.filtered
      ≡ matching plain_readers seven_filters four_rows)
    × IsHonest plain_readers all_the_rows
        (selector_entry plain_readers warm 0 four_rows seven_filters).1
selector_entry-matching_example =
    selector_entry-matching plain_readers all_the_rows warm 0 seven_filters warm-IsHonest

abbrev plain_export : ExportTransactionsOptions
plain_export = record {
  format_amounts = true;
  decimals = 7;
  format_addresses = false;
  visible_address_chars = 6;
  format_timestamps = false;
  include_header = true;
}

quoted_cell : escape_csv_cell (codes "a\"b") ≡ codes "\"a\"\"b\""
unfolding escape_csv_cell
quoted_cell = refl

parse-export_transactions_example :
    read Mode.start (export_transactions_to_csv (λ n. none) plain_export four_rows)
    ≡ table_of (λ n. none) plain_export four_rows
parse-export_transactions_example =
    parse-export_transactions (λ n. none) plain_export four_rows (omega arith)
