-- ===== src/History/Heap.antt =====
-- src/dashboard/transaction-history.ts: the bounded heap that finds the newest rows, with the oldest
-- kept row at its root. `heap[i]` out of range would give `undefined`; here it gives `blank`, and no
-- call reads there.
pub mod Priority
pub mod Slots
pub mod Order
pub mod Sift
pub mod Newest
pub mod TopK
use stream_fi_sdk.Base.{
  ℕ, zero, suc, ◌+◌, ◌-◌, ◌*◌, ◌/◌, ◌≡◌, Bool, true, false, ◌&&◌, ◌||◌, List, [], ◌∷◌, ◌++◌, map,
  ltb, leb, ◌==◌, if◌then◌else◌, length, take,
}
use stream_fi_sdk.Amount.{pos}
use stream_fi_sdk.History.Sort.{sort}
use stream_fi_sdk.History.{
  TransactionRecord, TransactionStatus, TransactionKind, TransactionDirection, less,
}

pub record RankedTransaction : Type 0 where
  pub tx : TransactionRecord
  pub idx : ℕ

-- `a.tx.timestamp !== b.tx.timestamp` is that one is less than the other.
unfoldable pub is_lower_priority : RankedTransaction → RankedTransaction → Bool
unfolding less
is_lower_priority a b =
    if less a.tx.timestamp b.tx.timestamp || less b.tx.timestamp a.tx.timestamp
    then less a.tx.timestamp b.tx.timestamp
    else ltb b.idx a.idx

abbrev pub blank : RankedTransaction
blank = record {
  tx = record {
    id = [];
    hash = [];
    stream_id = [];
    kind = TransactionKind.unknown;
    direction = TransactionDirection.unknown;
    status = TransactionStatus.unknown;
    amount = [];
    asset = [];
    counterparty = [];
    timestamp = pos 0;
  };
  idx = 0;
}

abbrev pub Heap : Type 0
Heap = List RankedTransaction

-- `heap[i]`
unfoldable pub at : Heap → ℕ → RankedTransaction
at [] i = blank
at (r ∷ heap) zero = r
at (r ∷ heap) (suc i) = at heap i

-- `heap[i] = r`
unfoldable pub put : Heap → ℕ → RankedTransaction → Heap
put [] i r = []
put (s ∷ heap) zero r = r ∷ heap
put (s ∷ heap) (suc i) r = s ∷ put heap i r

-- The three lines that exchange two entries.
unfoldable pub swap : Heap → ℕ → ℕ → Heap
unfolding at put
swap heap i j = put (put heap i (at heap j)) j (at heap i)

-- One of the two tests that choose a child: `if (c < n && isLowerPriority(heap[c]!, heap[smallest]!))`.
unfoldable pub lower_of : Heap → ℕ → ℕ → ℕ
unfolding is_lower_priority at
lower_of heap smallest c =
    if ltb c (length heap) && is_lower_priority (at heap c) (at heap smallest) then c else smallest

unfoldable pub smallest_of : Heap → ℕ → ℕ
unfolding lower_of
smallest_of heap i = lower_of heap (lower_of heap i (2 * i + 1)) (2 * i + 2)

-- The rounds of the loop are bounded by the fuel, and the heap's length is enough.
unfoldable pub sift_down : ℕ → Heap → ℕ → Heap
unfolding smallest_of swap
sift_down zero heap i = heap
sift_down (suc fuel) heap i =
    let smallest = smallest_of heap i in
    let rest = sift_down fuel (swap heap i smallest) smallest in
    if smallest == i then heap else rest

-- The `while` loop after a push; it climbs at most `i` times.
unfoldable pub sift_up : ℕ → Heap → ℕ → Heap
unfolding is_lower_priority at swap
sift_up zero heap i = heap
sift_up (suc fuel) heap i =
    let parent = (i - 1) / 2 in
    let rest = sift_up fuel (swap heap i parent) parent in
    if ltb 0 i then if is_lower_priority (at heap parent) (at heap i) then heap else rest else heap

-- The body of the `for` loop.
unfoldable pub consider : ℕ → Heap → RankedTransaction → Heap
unfolding sift_up sift_down is_lower_priority at put
consider k heap candidate =
    if ltb (length heap) k
    then sift_up (length heap) (heap ++ candidate ∷ []) (length heap)
    else if is_lower_priority (at heap 0) candidate
    then sift_down (length heap) (put heap 0 candidate) 0
    else heap

unfoldable pub keep_newest : ℕ → Heap → ℕ → List TransactionRecord → Heap
unfolding consider
keep_newest k heap idx [] = heap
keep_newest k heap idx (tx ∷ transactions) =
    keep_newest k (consider k heap (record { tx = tx; idx = idx })) (suc idx) transactions

unfoldable pub top_k_by_timestamp_desc : List TransactionRecord → ℕ → List TransactionRecord
unfolding keep_newest sort is_lower_priority
top_k_by_timestamp_desc transactions k =
    if leb k 0 || length transactions == 0
    then []
    else map (λ (r : RankedTransaction). r.tx)
        (sort is_lower_priority (keep_newest k [] 0 transactions))
