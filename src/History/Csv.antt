-- ===== src/History/Csv.antt =====
-- src/dashboard/transaction-history.ts: the CSV export and its formatters. Every row has its ten cells.
pub mod Reader
pub mod RoundTrip
use stream_fi_sdk.Base.{
  ℕ, zero, suc, ◌+◌, ◌-◌, ◌%◌, Bool, true, false, not, ◌&&◌, ◌||◌, Option, none, some, List, [],
  ◌∷◌, ◌++◌, map, max, ltb, leb, ◌==◌, ◌===◌, if◌then◌else◌, length, take, drop,
}
use stream_fi_sdk.Amount.{ℤ, pos, negsuc, magnitude, sign, all_digits}
use stream_fi_sdk.Amount.Digits.{Text, is_digit, to_string, pad_start}
use stream_fi_sdk.History.{TransactionRecord}
use stream_fi_sdk.Texts.{integer_of, codes, text_eq, trim}
use stream_fi_sdk.History.Values.{number_timestamp}
use stream_fi_sdk.History.Normalize.{kind_text}
use stream_fi_sdk.History.Filters.{status_text, direction_text}

-- 44 is the comma, 34 the quotation mark, 10 and 13 end a line.
abbrev pub is_special : ℕ → Bool
is_special c = c == 44 || (c == 34 || (c == 10 || c == 13))

abbrev pub has_special : Text → Bool
has_special [] = false
has_special (c ∷ cs) = is_special c || has_special cs

-- `str.replace(/"/g, '""')`
abbrev pub double_quotes : Text → Text
double_quotes [] = []
double_quotes (c ∷ cs) = let rest = double_quotes cs in if c == 34 then 34 ∷ 34 ∷ rest else c ∷ rest

unfoldable pub escape_csv_cell : Text → Text
escape_csv_cell str = if has_special str then 34 ∷ (double_quotes str ++ 34 ∷ []) else str

-- `parts.join(separator)`
abbrev pub join : ℕ → List Text → Text
join separator [] = []
join separator (t ∷ []) = t
join separator (t ∷ u ∷ ts) = t ++ separator ∷ join separator (u ∷ ts)

-- `formatAddress`; 8212 is the dash and 8230 the ellipsis.
unfoldable pub format_address : Text → ℕ → Text
format_address value visible =
    let head = max 2 visible in
    if value === []
    then 8212 ∷ []
    else if leb (length value) (head + 4 + 1)
    then value
    else take head value ++ 8230 ∷ drop (length value - 4) value

-- `whole.replace(/^0+(?=\d)/, '')`
abbrev pub strip_zeros : Text → Text
strip_zeros [] = []
strip_zeros (c ∷ []) = c ∷ []
strip_zeros (c ∷ d ∷ ds) = let rest = strip_zeros (d ∷ ds) in if c == 48 then rest else c ∷ d ∷ ds

-- `fraction.replace(/0+$/, '')`
abbrev pub cons_unless_zero : ℕ → Text → Text
cons_unless_zero c [] = if c == 48 then [] else c ∷ []
cons_unless_zero c (d ∷ ds) = c ∷ d ∷ ds

abbrev pub trim_zeros : Text → Text
trim_zeros [] = []
trim_zeros (c ∷ cs) = cons_unless_zero c (trim_zeros cs)

-- A comma before each digit but the first that a multiple of three digits begins with.
abbrev pub group_rest : Text → Text
group_rest [] = []
group_rest (c ∷ cs) =
    let rest = group_rest cs in if length (c ∷ cs) % 3 == 0 then 44 ∷ c ∷ rest else c ∷ rest

abbrev pub group_thousands : Text → Text
group_thousands [] = []
group_thousands (c ∷ cs) = c ∷ group_rest cs

unfoldable pub format_digits : Bool → Text → ℕ → Text
format_digits negative digits places =
    let padded = pad_start digits (places + 1) in
    let formatted_whole = group_thousands (strip_zeros (take (length padded - places) padded)) in
    let trimmed_fraction = trim_zeros (drop (length padded - places) padded) in
    let is_zero = formatted_whole === (48 ∷ []) && trimmed_fraction === [] in
    let sign = if negative && not is_zero then 45 ∷ [] else [] in
    if trimmed_fraction === []
    then sign ++ formatted_whole
    else sign ++ (formatted_whole ++ 46 ∷ trimmed_fraction)

abbrev pub format_integer : Option (Bool × Text) → ℕ → Text
format_integer none places = 48 ∷ []
format_integer (some (negative, digits)) places = format_digits negative digits places

-- `places` is the number of decimals, at least 0.
unfoldable pub format_amount : Text → ℕ → Text
unfolding trim format_digits
format_amount amount places = format_integer (integer_of (trim amount)) places

pub record ExportTransactionsOptions : Type 0 where
  pub format_amounts : Bool
  pub decimals : ℕ
  pub format_addresses : Bool
  pub visible_address_chars : ℕ
  pub format_timestamps : Bool
  pub include_header : Bool

abbrev pub headers : List Text
headers =
    codes "id"
    ∷ codes "hash"
    ∷ codes "streamId"
    ∷ codes "kind"
    ∷ codes "direction"
    ∷ codes "status"
    ∷ codes "amount"
    ∷ codes "asset"
    ∷ codes "counterparty"
    ∷ codes "timestamp"
    ∷ []

-- `text.replace('T', ' ')`
abbrev pub space_first_t : Text → Text
space_first_t [] = []
space_first_t (c ∷ cs) = let rest = space_first_t cs in if c == 84 then 32 ∷ cs else c ∷ rest

-- `iso` is the text that `toISOString` gives for a time, where there is a date for it.
module _ (iso : ℤ → Option Text) where
  abbrev pub shown_date : Option Text → Text
  shown_date none = 8212 ∷ []
  shown_date (some t) = take 19 (space_first_t t)

  unfoldable pub format_timestamp : ℤ → Text
  unfolding number_timestamp
  format_timestamp timestamp =
      let ms = number_timestamp timestamp in
      if magnitude ms == 0 then 8212 ∷ [] else shown_date (iso ms)

  -- The ten values of a row, before they are escaped.
  unfoldable pub cells_of : ExportTransactionsOptions → TransactionRecord → List Text
  unfolding format_amount format_address format_timestamp number_timestamp
  cells_of options tx =
      let ms = number_timestamp tx.timestamp in
      tx.id
      ∷ tx.hash
      ∷ tx.stream_id
      ∷ kind_text tx.kind
      ∷ direction_text tx.direction
      ∷ status_text tx.status
      ∷ (if options.format_amounts then format_amount tx.amount options.decimals else tx.amount)
      ∷ tx.asset
      ∷ (if options.format_addresses
          then format_address tx.counterparty options.visible_address_chars
          else tx.counterparty)
      ∷ (if options.format_timestamps
          then format_timestamp tx.timestamp
          else sign ms ++ to_string (magnitude ms))
      ∷ []

  -- The table that the export prints, with its header if it is wanted.
  abbrev pub table_of : ExportTransactionsOptions → List TransactionRecord → List (List Text)
  table_of options list =
      let rows = map (cells_of options) list in
      if options.include_header then headers ∷ rows else rows

  unfoldable pub export_transactions_to_csv :
      ExportTransactionsOptions → List TransactionRecord → Text
  unfolding escape_csv_cell cells_of
  export_transactions_to_csv options list =
      join 10 (map (λ cells. join 44 (map escape_csv_cell cells)) (table_of options list))
