-- ===== src/History/Heap/TopK.antt =====
-- src/dashboard/transaction-history.ts: `topKByTimestampDesc` against sorting all rows.
use mathlib.Core.List.{Permᴰ}
use mathlib.Core.List.Permᴰ
use stream_fi_sdk.Base.{
  ℕ, zero, suc, ◌<◌, ◌≡◌, refl, sym, ap, ◌∙◌, Bool, ◌||◌, true, false, leb, ◌==◌, if_cases, List,
  [], ◌∷◌, ◌++◌, length, take, All, map, arith,
}
use stream_fi_sdk.History.{TransactionRecord, less}
use stream_fi_sdk.History.Sort.{
  IsComparator, insert_sorted, sort, Apart, AllApart, sort-perm, All-sort,
}
use stream_fi_sdk.History.Heap.{
  RankedTransaction, Heap, is_lower_priority, keep_newest, top_k_by_timestamp_desc,
}
use stream_fi_sdk.History.Heap.Priority.{
  is_lower_priority-IsComparator, is_lower_priority-Apart, less_asym, less_level_trans,
}
use stream_fi_sdk.History.Heap.Newest.{Kept, consider-Kept}

-- The comparator of a plain sort: an older row comes after.
unfoldable pub is_older : TransactionRecord → TransactionRecord → Bool
unfolding less
is_older a b = less a.timestamp b.timestamp

pub is_older-IsComparator : IsComparator is_older
unfolding is_older
is_older-IsComparator = record {
  asym = λ a b h. less_asym a.timestamp b.timestamp h;
  level_trans = λ a b c p q. less_level_trans a.timestamp b.timestamp c.timestamp p q;
}

abbrev plain : RankedTransaction → TransactionRecord
plain r = r.tx

ranked : ℕ → List TransactionRecord → Heap
ranked n [] = []
ranked n (tx ∷ rows) = record { tx = tx; idx = n } ∷ ranked (suc n) rows

-- The rows in the order in which the loop has seen them, the last first.
seen_after : Heap → ℕ → List TransactionRecord → Heap
seen_after seen n [] = seen
seen_after seen n (tx ∷ rows) = seen_after (record { tx = tx; idx = n } ∷ seen) (suc n) rows

seen_after-perm :
    (seen : Heap) (n : ℕ) (rows : List TransactionRecord)
    → Permᴰ (ranked n rows ++ seen) (seen_after seen n rows)
unfolding ranked seen_after
seen_after-perm seen n [] = Permᴰ.refl seen
seen_after-perm seen n (tx ∷ rows) =
    let r : RankedTransaction = record { tx = tx; idx = n } in
    Permᴰ.trans (Permᴰ.symm (Permᴰ.middle r (ranked (suc n) rows) seen))
      (seen_after-perm (r ∷ seen) (suc n) rows)

keep_newest_lem :
    (k : ℕ) (rows : List TransactionRecord) (n : ℕ) (seen heap : Heap)
    → 0 < k
    → Kept k n seen heap
    → sort is_lower_priority (keep_newest k heap n rows)
      ≡ take k (sort is_lower_priority (seen_after seen n rows))
unfolding keep_newest seen_after
keep_newest_lem k [] n seen heap pos v = v.best
keep_newest_lem k (tx ∷ rows) n seen heap pos v =
    let r : RankedTransaction = record { tx = tx; idx = n } in
    keep_newest_lem k rows (suc n) (r ∷ seen) _ pos (consider-Kept k r seen heap pos v)

ranked-behind :
    (m n : ℕ) (rows : List TransactionRecord)
    → m < n
    → All (λ (r : RankedTransaction). m < r.idx) (ranked n rows)
unfolding ranked
ranked-behind m n [] h = tt
ranked-behind m n (tx ∷ rows) h = (h, ranked-behind m (suc n) rows (omega arith))

apart :
    (c : RankedTransaction) (h : Heap)
    → All (λ (r : RankedTransaction). c.idx < r.idx) h
    → All (Apart is_lower_priority c) h
apart c [] v = tt
apart c (r ∷ h) v =
    let here = v.0 in (is_lower_priority-Apart c r (λ e. omega arith), apart c h v.1)

ranked-AllApart :
    (n : ℕ) (rows : List TransactionRecord) → AllApart is_lower_priority (ranked n rows)
unfolding ranked
ranked-AllApart n [] = tt
ranked-AllApart n (tx ∷ rows) = (
  apart (record { tx = tx; idx = n }) (ranked (suc n) rows)
      (ranked-behind n (suc n) rows (omega arith)),
  ranked-AllApart (suc n) rows,
)

-- The index breaks ties as a stable sort does.
plain-insert :
    (x : RankedTransaction) (rs : Heap)
    → All (λ (r : RankedTransaction). x.idx < r.idx) rs
    → map plain (insert_sorted is_lower_priority x rs) ≡ insert_sorted is_older x.tx (map plain rs)
unfolding insert_sorted is_older is_lower_priority
plain-insert x [] h = refl
plain-insert x (r ∷ rs) h =
    ground (arith, h.0, less_asym x.tx.timestamp r.tx.timestamp, plain-insert x rs h.1)

plain-sort :
    (n : ℕ) (rows : List TransactionRecord)
    → map plain (sort is_lower_priority (ranked n rows)) ≡ sort is_older rows
unfolding ranked sort
plain-sort n [] = refl
plain-sort n (tx ∷ rows) =
    let r : RankedTransaction = record { tx = tx; idx = n } in
    plain-insert r (sort is_lower_priority (ranked (suc n) rows)) (
      All-sort is_lower_priority is_lower_priority-IsComparator
        (λ (r : RankedTransaction). n < r.idx) (ranked (suc n) rows)
        (ranked-behind n (suc n) rows (omega arith)))
    ∙ ap (insert_sorted is_older tx) (plain-sort (suc n) rows)

map-take : (k : ℕ) (h : Heap) → map plain (take k h) ≡ take k (map plain h)
map-take zero h = refl
map-take (suc k) [] = refl
map-take (suc k) (r ∷ h) = ap (λ t. r.tx ∷ t) (map-take k h)

-- The bounded heap gives the first `k` rows of a stable sort of all rows, newest first.
pub top_k-sort :
    (rows : List TransactionRecord) (k : ℕ)
    → top_k_by_timestamp_desc rows k ≡ take k (sort is_older rows)
unfolding top_k_by_timestamp_desc
top_k-sort rows zero = refl
top_k-sort [] (suc k) = if_cases (λ t. t ≡ []) (leb (suc k) 0 || true) (λ _. refl) (λ _. refl)
top_k-sort (tx ∷ rows) (suc k) =
    let all = tx ∷ rows in
    let start : Kept (suc k) 0 [] [] = record {
      ordered = λ c p q. absurd (omega arith);
      apart = tt;
      indexed = tt;
      best = refl;
    } in
    let perm =
      Permᴰ.trans (Permᴰ.symm (Permᴰ.append-nil (ranked 0 all))) (seen_after-perm [] 0 all) in
    let some_rows : (leb (suc k) 0 || length all == 0) ≡ false = ground arith in
    let loop = keep_newest_lem (suc k) all 0 [] [] (omega arith) start in
    rw some_rows (
      ap (map plain) (
        loop
        ∙ ap (take (suc k)) (
            sym (
              sort-perm is_lower_priority is_lower_priority-IsComparator perm
                (ranked-AllApart 0 all))))
      ∙ map-take (suc k) (sort is_lower_priority (ranked 0 all))
      ∙ ap (take (suc k)) (plain-sort 0 all))
