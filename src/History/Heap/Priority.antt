-- ===== src/History/Heap/Priority.antt =====
-- src/dashboard/transaction-history.ts: `isLowerPriority` orders the ranked rows strictly, and two rows
-- of different indices are never level.
use stream_fi_sdk.Base.{◌≡◌, ◌≢◌, true, false, inl, inr, ltb, Bool-cases, arith}
use stream_fi_sdk.Amount.{ℤ, pos, negsuc}
use stream_fi_sdk.History.{less}
use stream_fi_sdk.History.Heap.{RankedTransaction, is_lower_priority}
use stream_fi_sdk.History.Sort.{IsComparator, Apart}

pub less_asym : (a b : ℤ) → less a b ≡ true → less b a ≡ false
unfolding less
less_asym (pos m) (pos n) h = ground arith
less_asym (pos m) (negsuc n) h = cc
less_asym (negsuc m) (pos n) h = ground arith
less_asym (negsuc m) (negsuc n) h = ground arith

pub less_level_trans : (a b c : ℤ) → less a b ≡ false → less b c ≡ false → less a c ≡ false
unfolding less
less_level_trans (pos l) (pos m) (pos n) p q = ground arith
less_level_trans (pos l) (pos m) (negsuc n) p q = ground arith
less_level_trans (pos l) (negsuc m) (pos n) p q = cc
less_level_trans (pos l) (negsuc m) (negsuc n) p q = ground arith
less_level_trans (negsuc l) (pos m) (pos n) p q = cc
less_level_trans (negsuc l) (pos m) (negsuc n) p q = cc
less_level_trans (negsuc l) (negsuc m) (pos n) p q = cc
less_level_trans (negsuc l) (negsuc m) (negsuc n) p q = ground arith

-- Of two timestamps exactly one relation holds.
data Order (s t : ℤ) : Type 0 where
  before : less s t ≡ true → less t s ≡ false → Order s t
  level : less s t ≡ false → less t s ≡ false → Order s t
  behind : less s t ≡ false → less t s ≡ true → Order s t

order : (s t : ℤ) → Order s t
order s t = elim (Bool-cases (less s t)) [
  | inl l ↦ before l (less_asym s t l)
  | inr n ↦ elim (Bool-cases (less t s)) [ inl g ↦ behind n g | inr m ↦ level n m ]
]

asym : (a b : RankedTransaction) → is_lower_priority a b ≡ true → is_lower_priority b a ≡ false
unfolding is_lower_priority
asym a b h = elim (order a.tx.timestamp b.tx.timestamp) [
  | before l m ↦ rw (l, m)
  | level l m ↦ rw (l, m) (ground (arith, l, m))
  | behind l m ↦ ground (arith, l, m)
]

level_trans :
    (a b c : RankedTransaction)
    → is_lower_priority a b ≡ false
    → is_lower_priority b c ≡ false
    → is_lower_priority a c ≡ false
unfolding is_lower_priority
level_trans a b c p q = ground (
  arith,
  less_level_trans a.tx.timestamp b.tx.timestamp c.tx.timestamp,
  less_level_trans c.tx.timestamp b.tx.timestamp a.tx.timestamp,
  less_level_trans c.tx.timestamp a.tx.timestamp b.tx.timestamp,
  less_level_trans b.tx.timestamp c.tx.timestamp a.tx.timestamp,
  less_level_trans b.tx.timestamp a.tx.timestamp c.tx.timestamp,
  less_level_trans a.tx.timestamp c.tx.timestamp b.tx.timestamp,
  less_asym a.tx.timestamp b.tx.timestamp,
  less_asym b.tx.timestamp c.tx.timestamp,
  less_asym a.tx.timestamp c.tx.timestamp,
)

pub is_lower_priority-IsComparator : IsComparator is_lower_priority
is_lower_priority-IsComparator = record { asym = asym; level_trans = level_trans }

pub is_lower_priority-Apart :
    (a b : RankedTransaction) → a.idx ≢ b.idx → Apart is_lower_priority a b
unfolding is_lower_priority
is_lower_priority-Apart a b h = elim (order a.tx.timestamp b.tx.timestamp) [
  | before l m ↦ inl (rw l)
  | behind l m ↦ inr (rw (l, m))
  | level l m ↦ elim (Bool-cases (ltb b.idx a.idx)) [
    | inl u ↦ inl (rw (l, m) u)
    | inr u ↦ inr (rw (l, m) (ground arith))
  ]
]
