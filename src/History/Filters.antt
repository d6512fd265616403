-- ===== src/History/Filters.antt =====
-- src/dashboard/transaction-history.ts: the filters, and the cache in front of them. An array is known by
-- the number that stands for its identity; its rows never change.
pub mod Cached
use stream_fi_sdk.Base.{
  ℕ, ◌≡◌, Bool, true, false, ◌&&◌, ◌||◌, Option, none, some, List, [], ◌∷◌, ◌++◌, ◌===◌, ◌==◌,
  if◌then◌else◌, filter,
}
use stream_fi_sdk.Amount.Digits.{Text}
use stream_fi_sdk.History.{
  TransactionRecord, TransactionStatus, TransactionKind, TransactionDirection,
}
use stream_fi_sdk.Texts.{codes, text_eq, trim, includes}
use stream_fi_sdk.History.Values.{Value, Readers}
use stream_fi_sdk.History.Normalize.{kind_text}

-- A filter's value: `'ALL'` or one to keep.
pub data Choice (A : Type 0) : Type 0 where
  all : Choice A
  only : A → Choice A

pub record TransactionFilters : Type 0 where
  pub status : Choice TransactionStatus
  pub kind : Choice TransactionKind
  pub direction : Choice TransactionDirection
  pub search : Text

abbrev pub initial_transaction_filters : TransactionFilters
initial_transaction_filters = record {
  status = Choice.all;
  kind = Choice.all;
  direction = Choice.all;
  search = [];
}

abbrev pub status_text : TransactionStatus → Text
status_text TransactionStatus.pending = codes "PENDING"
status_text TransactionStatus.confirmed = codes "CONFIRMED"
status_text TransactionStatus.failed = codes "FAILED"
status_text TransactionStatus.cancelled = codes "CANCELLED"
status_text TransactionStatus.unknown = codes "UNKNOWN"

abbrev pub direction_text : TransactionDirection → Text
direction_text TransactionDirection.in_ = codes "IN"
direction_text TransactionDirection.out = codes "OUT"
direction_text TransactionDirection.unknown = codes "UNKNOWN"

-- `filters.x !== 'ALL' && tx.x !== filters.x` is that the row does not pass; names are compared.
abbrev pub passes : {A : Type 0} → (A → Text) → Choice A → A → Bool
passes name Choice.all a = true
passes name (Choice.only b) a = name a === name b

abbrev pub choice_text : {A : Type 0} → (A → Text) → Choice A → Text
choice_text name Choice.all = codes "ALL"
choice_text name (Choice.only a) = name a

pub record SelectorCacheEntry : Type 0 where
  pub signature : Text
  pub filtered : List TransactionRecord

module _ (r : Readers) where
  abbrev pub search_of : TransactionFilters → Text
  search_of filters = r.to_lower_case (trim filters.search)

  unfoldable pub signature_of : TransactionFilters → Text
  unfolding trim
  signature_of filters =
      choice_text status_text filters.status
      ++ 32
        ∷ (choice_text kind_text filters.kind
            ++ 32 ∷ (choice_text direction_text filters.direction ++ 32 ∷ search_of filters))

  -- The text that one of the searched fields has.
  abbrev pub found_in : Text → TransactionRecord → Bool
  found_in search tx =
      includes (r.to_lower_case tx.hash) search
      || includes (r.to_lower_case tx.stream_id) search
      || includes (r.to_lower_case tx.counterparty) search
      || includes (r.to_lower_case tx.asset) search

  -- The test that `transactions.filter` makes of each row.
  unfoldable pub is_selected : TransactionFilters → TransactionRecord → Bool
  unfolding trim includes
  is_selected filters tx =
      let search = search_of filters in
      passes status_text filters.status tx.status
      && (passes kind_text filters.kind tx.kind
          && (passes direction_text filters.direction tx.direction
              && (if search === [] then true else found_in search tx)))

  unfoldable pub matching : TransactionFilters → List TransactionRecord → List TransactionRecord
  unfolding is_selected
  matching filters rows = filter (is_selected filters) rows

  -- The weak map, by the arrays' identities.
  abbrev pub SelectorCache : Type 0
  SelectorCache = ℕ → Option SelectorCacheEntry

  abbrev pub remember : SelectorCache → ℕ → SelectorCacheEntry → SelectorCache
  remember cache i entry j = if i == j then some entry else cache j

  -- The entry to return, and the cache after the call.
  abbrev pub entry_or :
      Option SelectorCacheEntry
      → Text
      → SelectorCacheEntry
      → SelectorCache
      → SelectorCache
      → SelectorCacheEntry × SelectorCache
  entry_or none signature fresh cache updated = (fresh, updated)
  entry_or (some cached) signature fresh cache updated =
      if cached.signature === signature then (cached, cache) else (fresh, updated)

  unfoldable pub selector_entry :
      SelectorCache
      → ℕ
      → List TransactionRecord
      → TransactionFilters
      → SelectorCacheEntry × SelectorCache
  unfolding signature_of matching
  selector_entry cache i rows filters =
      let signature = signature_of filters in
      let fresh : SelectorCacheEntry = record {
        signature = signature;
        filtered = matching filters rows;
      } in
      entry_or (cache i) signature fresh cache (remember cache i fresh)
