-- ===== src/History/Normalize.antt =====
-- src/dashboard/transaction-history.ts: an indexer's payload becomes rows. An object is the function that
-- gives the value of each of its keys.
use stream_fi_sdk.Base.{
  Bool, true, false, ◌&&◌, Option, none, some, List, [], ◌∷◌, ◌++◌, String, ◌===◌, if◌then◌else◌,
}
use stream_fi_sdk.Amount.{magnitude, sign}
use stream_fi_sdk.Amount.Digits.{Text, to_string}
use stream_fi_sdk.History.{
  TransactionRecord, TransactionStatus, TransactionKind, TransactionDirection,
}
use stream_fi_sdk.Texts.{codes, text_eq, trim}
use stream_fi_sdk.History.Values.{Value, Readers, or_value, as_string, as_timestamp, as_enum}

abbrev pub valid_statuses : List (Text × TransactionStatus)
valid_statuses =
    (codes "PENDING", TransactionStatus.pending)
    ∷ (codes "CONFIRMED", TransactionStatus.confirmed)
    ∷ (codes "FAILED", TransactionStatus.failed)
    ∷ (codes "CANCELLED", TransactionStatus.cancelled)
    ∷ (codes "UNKNOWN", TransactionStatus.unknown)
    ∷ []

abbrev pub valid_kinds : List (Text × TransactionKind)
valid_kinds =
    (codes "CREATE", TransactionKind.create)
    ∷ (codes "WITHDRAW", TransactionKind.withdraw)
    ∷ (codes "PAUSE", TransactionKind.pause)
    ∷ (codes "RESUME", TransactionKind.resume)
    ∷ (codes "CANCEL", TransactionKind.cancel)
    ∷ (codes "TOP_UP", TransactionKind.top_up)
    ∷ (codes "UNKNOWN", TransactionKind.unknown)
    ∷ []

abbrev pub valid_directions : List (Text × TransactionDirection)
valid_directions =
    (codes "IN", TransactionDirection.in_)
    ∷ (codes "OUT", TransactionDirection.out)
    ∷ (codes "UNKNOWN", TransactionDirection.unknown)
    ∷ []

-- The text of a kind, as the template of a synthesised id prints it.
abbrev pub kind_text : TransactionKind → Text
kind_text TransactionKind.create = codes "CREATE"
kind_text TransactionKind.withdraw = codes "WITHDRAW"
kind_text TransactionKind.pause = codes "PAUSE"
kind_text TransactionKind.resume = codes "RESUME"
kind_text TransactionKind.cancel = codes "CANCEL"
kind_text TransactionKind.top_up = codes "TOP_UP"
kind_text TransactionKind.unknown = codes "UNKNOWN"

abbrev pub direction_of_kind : TransactionKind → TransactionDirection
direction_of_kind TransactionKind.create = TransactionDirection.out
direction_of_kind TransactionKind.withdraw = TransactionDirection.in_
direction_of_kind TransactionKind.pause = TransactionDirection.unknown
direction_of_kind TransactionKind.resume = TransactionDirection.unknown
direction_of_kind TransactionKind.cancel = TransactionDirection.unknown
direction_of_kind TransactionKind.top_up = TransactionDirection.out
direction_of_kind TransactionKind.unknown = TransactionDirection.unknown

unfoldable pub derive_transaction_direction : TransactionKind → Text → TransactionDirection
unfolding trim
derive_transaction_direction kind wallet_address =
    if trim wallet_address === [] then TransactionDirection.unknown else direction_of_kind kind

-- An explicit direction is trusted.
abbrev pub direction_or : TransactionDirection → TransactionDirection → TransactionDirection
direction_or TransactionDirection.in_ derived = TransactionDirection.in_
direction_or TransactionDirection.out derived = TransactionDirection.out
direction_or TransactionDirection.unknown derived = derived

module _ (r : Readers) where
  -- A value that is no object is `none`.
  abbrev pub Raw : Type 0
  Raw = Option (String → Value)

  unfoldable pub normalize_transaction : Raw → Value → Option TransactionRecord
  unfolding or_value as_string as_timestamp as_enum derive_transaction_direction
  normalize_transaction none wallet_address = none
  normalize_transaction (some field) wallet_address =
      let id = as_string (or_value (field "id") (field "hash")) [] in
      let hash = as_string (or_value (field "hash") (or_value (field "txHash") (field "id"))) [] in
      let stream_id = as_string (or_value (field "streamId") (field "stream_id")) [] in
      let kind =
        as_enum r (or_value (field "kind") (field "type")) valid_kinds TransactionKind.unknown in
      let timestamp = as_timestamp r (or_value (field "timestamp") (field "createdAt")) in
      if (id === []) && (hash === []) && (stream_id === [])
      then none
      else some (record {
        id =
            if id === []
            then if hash === []
              then stream_id
                ++ 58 ∷ (kind_text kind ++ 58 ∷ (sign timestamp ++ to_string (magnitude timestamp)))
              else hash
            else id;
        hash = hash;
        stream_id = stream_id;
        kind = kind;
        direction =
            direction_or
              (as_enum r (field "direction") valid_directions TransactionDirection.unknown)
              (derive_transaction_direction kind (as_string wallet_address []));
        status = as_enum r (field "status") valid_statuses TransactionStatus.unknown;
        amount = as_string (or_value (field "amount") (field "value")) (codes "0");
        asset =
            as_string (or_value (field "asset") (or_value (field "token") (field "symbol")))
              (codes "XLM");
        counterparty =
            as_string
              (or_value (field "counterparty") (or_value (field "recipient") (field "sender"))) [];
        timestamp = timestamp;
      })

  -- `seen.has(id)`
  abbrev pub has : List Text → Text → Bool
  has [] id = false
  has (s ∷ seen) id = if s === id then true else has seen id

  -- What the loop does with a normalised entry; `rest` goes on with the ids seen.
  abbrev pub push_new :
      List Text
      → Option TransactionRecord
      → (List Text → List TransactionRecord)
      → List TransactionRecord
  push_new seen none rest = rest seen
  push_new seen (some tx) rest =
      let more = rest (tx.id ∷ seen) in if has seen tx.id then rest seen else tx ∷ more

  -- The loop over the payload's list.
  unfoldable pub normalize_from : List Text → List Raw → Value → List TransactionRecord
  unfolding normalize_transaction
  normalize_from seen [] wallet_address = []
  normalize_from seen (raw ∷ list) wallet_address =
      push_new seen (normalize_transaction raw wallet_address)
        (λ s. normalize_from s list wallet_address)

  -- The list that the payload holds, if it holds one.
  unfoldable pub normalize_transactions : Option (List Raw) → Value → List TransactionRecord
  unfolding normalize_from
  normalize_transactions none wallet_address = []
  normalize_transactions (some list) wallet_address = normalize_from [] list wallet_address
