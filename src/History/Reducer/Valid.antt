-- ===== src/History/Reducer/Valid.antt =====
-- src/dashboard/transaction-history.ts: what holds of every state that the reducer leads to.
use stream_fi_sdk.Base.{
  ℕ, suc, ◌+◌, ◌-◌, ◌/◌, ◌<◌, ◌≤◌, ◌≡◌, ◌≢◌, refl, ap, Bool, true, Option, none, some, List, [],
  ◌∷◌, ◌===◌, ===_refl, max, if_cases, Bool-cases, inl, inr, length, filter, All, arith,
}
use native.Mathlib.Nat.{div-add-mod', mod-lt, div-lt_iff_lt-mul}
use stream_fi_sdk.Amount.{ℤ}
use stream_fi_sdk.Amount.Digits.{Text}
use stream_fi_sdk.Paging.{Truncated, not_finite, negative, whole}
use stream_fi_sdk.History.{TransactionRecord}
use stream_fi_sdk.Texts.{text_eq}
use stream_fi_sdk.History.Values.{Value, Readers}
use stream_fi_sdk.History.Normalize.{
  Raw, has, push_new, normalize_transaction, normalize_from, normalize_transactions,
}
use stream_fi_sdk.History.Filters.{is_selected, matching}
use stream_fi_sdk.History.Reducer.{
  TransactionHistoryState, TransactionHistoryAction, load_start, load_success, load_failure,
  set_filter, set_page, set_page_size, reset, clamp_page, total_pages, transaction_history_reducer,
  run,
}

pub length-filter : {A : Type 0} (p : A → Bool) (xs : List A) → length (filter p xs) ≤ length xs
length-filter p [] = omega arith
length-filter p (x ∷ xs) = ground (arith, length-filter p xs)

-- No two rows have one id.
abbrev pub Distinct : List TransactionRecord → Type 0
Distinct [] = Unit
Distinct (tx ∷ rows) = All (λ (u : TransactionRecord). tx.id ≢ u.id) rows × Distinct rows

quotient_mono : (m a b : ℕ) → 0 < m → a ≤ b → a / m ≤ b / m
quotient_mono m a b p h =
    let split = div-add-mod' b m in
    let part = mod-lt b p in
    let less = (div-lt_iff_lt-mul {x = a} {y = suc (b / m)} p).1 (grind arith) in
    omega (arith, less)

pub total_pages_mono : (a b size : ℕ) → a ≤ b → total_pages a size ≤ total_pages b size
total_pages_mono a b size h =
    let q =
      quotient_mono (max 1 size) (a + max 1 size - 1) (b + max 1 size - 1) (omega arith)
        (omega arith) in
    omega (arith, q)

pub clamp_page-lt : (page : Truncated) (total : ℕ) → 0 < total → clamp_page page total < total
unfolding clamp_page
clamp_page-lt not_finite total p = p
clamp_page-lt negative total p = p
clamp_page-lt (whole n) total p = ground arith

module _ (r : Readers) where
  push_new-New :
      (s : Text) (seen : List Text) (o : Option TransactionRecord)
      (rest : List Text → List TransactionRecord)
      → has r seen s ≡ true
      → ((more : List Text)
          → has r more s ≡ true
          → All (λ (u : TransactionRecord). s ≢ u.id) (rest more))
      → All (λ (u : TransactionRecord). s ≢ u.id) (push_new r seen o rest)
  push_new-New s seen none rest h later = later seen h
  push_new-New s seen (some tx) rest h later = elim (Bool-cases (has r seen tx.id)) [
    | inl t ↦ rw t (later seen h)
    | inr f ↦ rw f (
      (λ e. cc (h, ap (has r seen) e, f)),
      later (tx.id ∷ seen) (if_cases (λ b. b ≡ true) (tx.id === s) (λ _. refl) (λ _. h)),
    )
  ]

  -- A row that the loop keeps has an id not seen before.
  normalize_from-New :
      (list : List (Raw r)) (s : Text) (seen : List Text) (wallet : Value)
      → has r seen s ≡ true
      → All (λ (u : TransactionRecord). s ≢ u.id) (normalize_from r seen list wallet)
  unfolding normalize_from
  normalize_from-New [] s seen wallet h = tt
  normalize_from-New (raw ∷ list) s seen wallet h =
      push_new-New s seen (normalize_transaction r raw wallet) (λ t. normalize_from r t list wallet)
        h (λ more k. normalize_from-New list s more wallet k)

  push_new-Distinct :
      (seen : List Text) (o : Option TransactionRecord) (rest : List Text → List TransactionRecord)
      → ((more : List Text) → Distinct (rest more))
      → ((s : Text) (more : List Text)
          → has r more s ≡ true
          → All (λ (u : TransactionRecord). s ≢ u.id) (rest more))
      → Distinct (push_new r seen o rest)
  push_new-Distinct seen none rest later fresh = later seen
  push_new-Distinct seen (some tx) rest later fresh =
      if_cases Distinct (has r seen tx.id) (λ _. later seen)
        (λ _. (fresh tx.id (tx.id ∷ seen) (rw (===_refl tx.id)), later (tx.id ∷ seen)))

  normalize_from-Distinct :
      (list : List (Raw r)) (seen : List Text) (wallet : Value)
      → Distinct (normalize_from r seen list wallet)
  unfolding normalize_from
  normalize_from-Distinct [] seen wallet = tt
  normalize_from-Distinct (raw ∷ list) seen wallet =
      push_new-Distinct seen (normalize_transaction r raw wallet)
        (λ t. normalize_from r t list wallet) (λ more. normalize_from-Distinct list more wallet)
        (λ s more k. normalize_from-New list s more wallet k)

  normalize_transactions-Distinct :
      (payload : Option (List (Raw r))) (wallet : Value)
      → Distinct (normalize_transactions r payload wallet)
  unfolding normalize_transactions
  normalize_transactions-Distinct none wallet = tt
  normalize_transactions-Distinct (some list) wallet = normalize_from-Distinct list [] wallet

  -- The rows have different ids, and the page is one of the pages of all rows.
  pub record IsPaged (state : TransactionHistoryState) : Type 0 where
    pub distinct : Distinct state.transactions
    pub within : state.page < total_pages (length state.transactions) state.page_size

  pub reducer-IsPaged :
      (now : ℤ) (state : TransactionHistoryState) (action : TransactionHistoryAction r)
      → IsPaged state
      → IsPaged (transaction_history_reducer r now state action)
  unfolding transaction_history_reducer matching
  reducer-IsPaged now state load_start v = record { distinct = v.distinct; within = v.within }
  reducer-IsPaged now state reset v = record { distinct = tt; within = omega arith }
  reducer-IsPaged now state (load_success payload received_at wallet) v = record {
    distinct = normalize_transactions-Distinct payload wallet;
    within = clamp_page-lt (whole state.page) _ (omega arith);
  }
  reducer-IsPaged now state (load_failure error) v = record {
    distinct = v.distinct;
    within = v.within;
  }
  reducer-IsPaged now state (set_filter raw) v = record {
    distinct = v.distinct;
    within = omega arith;
  }
  reducer-IsPaged now state (set_page page) v =
      let fewer = length-filter (is_selected r state.filters) state.transactions in
      let some_page =
        clamp_page-lt page
          (total_pages (length (matching r state.filters state.transactions)) state.page_size)
          (omega arith) in
      let cut = total_pages_mono _ (length state.transactions) state.page_size fewer in
      record { distinct = v.distinct; within = omega (arith, some_page, cut) }
  reducer-IsPaged now state (set_page_size size) v = record {
    distinct = v.distinct;
    within = omega arith;
  }

  -- If the rows of a state have different ids and its page is one of the pages of its rows, this is so
  -- after any actions are dispatched to it.
  pub run-IsPaged :
      (state : TransactionHistoryState) (actions : List (ℤ × TransactionHistoryAction r))
      → IsPaged state
      → IsPaged (run r state actions)
  unfolding run
  run-IsPaged state [] v = v
  run-IsPaged state ((now, action) ∷ actions) v =
      run-IsPaged (transaction_history_reducer r now state action) actions
        (reducer-IsPaged now state action v)
