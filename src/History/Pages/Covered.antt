-- ===== src/History/Pages/Covered.antt =====
-- src/dashboard/transaction-history.ts: the pages of the view, laid end to end.
use stream_fi_sdk.Base.{
  ℕ, zero, suc, ◌+◌, ◌-◌, ◌*◌, ◌/◌, ◌<◌, ◌≤◌, ◌≡◌, refl, ap, ap₂, ◌∙◌, List, [], ◌∷◌, ◌++◌, max,
  length, take, drop, take_all, arith,
}
use native.Mathlib.Nat.{div-add-mod', mod-lt}
use stream_fi_sdk.Paging.{whole}
use stream_fi_sdk.History.{TransactionRecord}
use stream_fi_sdk.History.Values.{Readers}
use stream_fi_sdk.History.Sort.{sort, length-sort}
use stream_fi_sdk.History.Filters.{matching}
use stream_fi_sdk.History.Heap.TopK.{is_older, is_older-IsComparator, top_k-sort}
use stream_fi_sdk.History.Reducer.{TransactionHistoryState, clamp_page, total_pages}
use stream_fi_sdk.History.Pages.{select_total_pages, select_visible_transactions}

module _ {A : Type 0} where
  drop-take : (n m : ℕ) (xs : List A) → take m (drop n (take (n + m) xs)) ≡ take m (drop n xs)
  drop-take zero m xs = let e : 0 + m ≡ m = omega arith in rw e (take-take m xs)
    where
      take-take : (m : ℕ) (xs : List A) → take m (take m xs) ≡ take m xs
      take-take zero xs = refl
      take-take (suc m) [] = refl
      take-take (suc m) (x ∷ xs) = ap (λ t. x ∷ t) (take-take m xs)
  drop-take (suc n) m [] = let e : suc n + m ≡ suc (n + m) = omega arith in rw e refl
  drop-take (suc n) m (x ∷ xs) =
      let e : suc n + m ≡ suc (n + m) = omega arith in rw e (drop-take n m xs)

  take_none : (m : ℕ) → take {A = A} m [] ≡ []
  take_none zero = refl
  take_none (suc m) = refl

  -- A page after what the pages before it hold.
  take-page : (n m : ℕ) (xs : List A) → take n xs ++ take m (drop n xs) ≡ take (n + m) xs
  take-page zero m xs = let e : 0 + m ≡ m = omega arith in rw e refl
  take-page (suc n) m [] = let e : suc n + m ≡ suc (n + m) = omega arith in rw e (take_none m)
  take-page (suc n) m (x ∷ xs) =
      let e : suc n + m ≡ suc (n + m) = omega arith in rw e (ap (λ t. x ∷ t) (take-page n m xs))

clamp_page_below : (n total : ℕ) → n < total → clamp_page (whole n) total ≡ n
unfolding clamp_page
clamp_page_below n total h = ground arith

-- The pages are enough for the rows.
total_pages-enough : (rows size : ℕ) → rows ≤ total_pages rows size * max 1 size
total_pages-enough rows size =
    let m = max 1 size in
    let whole_pages = div-add-mod' (rows + m - 1) m in
    let part = mod-lt (rows + m - 1) {m = m} (omega arith) in
    let q = (rows + m - 1) / m in
    let least : q * m ≤ max 1 q * m = grind arith in omega (arith, whole_pages, part, least)

module _ (r : Readers) (state : TransactionHistoryState) where
  -- All rows that the filters keep, newest first.
  abbrev pub ranked_rows : List TransactionRecord
  ranked_rows = sort is_older (matching r state.filters state.transactions)

  abbrev pub shown : ℕ → List TransactionRecord
  shown page = select_visible_transactions r (record state { page = page })

  -- What the pages before `n` show.
  pub pages_before : ℕ → List TransactionRecord
  pages_before zero = []
  pages_before (suc n) = pages_before n ++ shown n

  shown-slice :
      (page : ℕ)
      → page < select_total_pages r state
      → shown page ≡ take (max 1 state.page_size) (drop (page * max 1 state.page_size) ranked_rows)
  unfolding select_visible_transactions select_total_pages
  shown-slice page h =
      let m = max 1 state.page_size in
      let rows = matching r state.filters state.transactions in
      let twice : max 1 m ≡ m = omega arith in
      let same : total_pages (length rows) m ≡ total_pages (length rows) state.page_size =
        rw twice refl in
      let here = clamp_page_below page (total_pages (length rows) m) (rw same h) in
      rw (here, top_k-sort rows (page * m + m)) (drop-take (page * m) m ranked_rows)

  pages_before-take :
      (n : ℕ)
      → n ≤ select_total_pages r state
      → pages_before n ≡ take (n * max 1 state.page_size) ranked_rows
  unfolding pages_before
  pages_before-take zero h = let e : 0 * max 1 state.page_size ≡ 0 = omega arith in rw e refl
  pages_before-take (suc n) h =
      let m = max 1 state.page_size in
      let e : suc n * m ≡ n * m + m = grind arith in
      rw e (
        ap₂ (λ s t. s ++ t) (pages_before-take n (omega arith)) (shown-slice n (omega arith))
        ∙ take-page (n * m) m ranked_rows)

  -- The pages laid end to end are all rows that the filters keep, newest first, each once.
  pub pages_before-total : pages_before (select_total_pages r state) ≡ ranked_rows
  unfolding select_total_pages
  pages_before-total =
      let rows = matching r state.filters state.transactions in
      let size = length-sort is_older is_older-IsComparator rows in
      let enough = total_pages-enough (length rows) state.page_size in
      pages_before-take (select_total_pages r state) (omega arith)
      ∙ take_all _ ranked_rows (omega (arith, size, enough))
