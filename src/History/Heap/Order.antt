-- ===== src/History/Heap/Order.antt =====
-- src/dashboard/transaction-history.ts: the order that the heap keeps.
use stream_fi_sdk.Base.{
  Bool-cases, inl, inr, lt→ltb, ltb, ◌&&◌, refl, ℕ, zero, suc, ◌+◌, ◌-◌, ◌*◌, ◌/◌, ◌<◌, ◌≡◌, ◌≢◌,
  true, false, ◌⊎◌, length, arith,
}
use stream_fi_sdk.History.Heap.{
  RankedTransaction, is_lower_priority, Heap, at, swap, lower_of, smallest_of,
}
use stream_fi_sdk.History.Heap.Priority.{is_lower_priority-IsComparator}
use stream_fi_sdk.History.Heap.Slots.{at-swap, length-swap}

abbrev pub parent : ℕ → ℕ
parent c = (c - 1) / 2

-- `a` is no older than `b`.
abbrev pub Over : RankedTransaction → RankedTransaction → Type 0
Over a b = is_lower_priority a b ≡ false

pub Over-trans : (a b c : RankedTransaction) → Over a b → Over b c → Over a c
Over-trans a b c p q = is_lower_priority-IsComparator.level_trans a b c p q

pub Over-of_lower : (a b : RankedTransaction) → is_lower_priority a b ≡ true → Over b a
Over-of_lower a b h = is_lower_priority-IsComparator.asym a b h

abbrev pub IsHeap : Heap → Type 0
IsHeap h = (c : ℕ) → 0 < c → c < length h → Over (at h c) (at h (parent c))

-- The children of `i` are no older than its parent.
abbrev pub IsBridged : Heap → ℕ → Type 0
IsBridged h i =
    (c : ℕ) → 0 < c → c < length h → parent c ≡ i → 0 < i → Over (at h c) (at h (parent i))

-- Only the edge above `i` may be out of order.
pub record IsRising (h : Heap) (i : ℕ) : Type 0 where
  pub inside : i < length h
  pub edges : (c : ℕ) → 0 < c → c < length h → c ≢ i → Over (at h c) (at h (parent c))
  pub bridged : IsBridged h i

-- Only the edges below `i` may be out of order.
pub record IsSinking (h : Heap) (i : ℕ) : Type 0 where
  pub edges : (c : ℕ) → 0 < c → c < length h → parent c ≢ i → Over (at h c) (at h (parent c))
  pub bridged : IsBridged h i

pub swap-IsRising :
    (h : Heap) (i : ℕ)
    → IsRising h i
    → 0 < i
    → Over (at h (parent i)) (at h i)
    → IsRising (swap h i (parent i)) (parent i)
swap-IsRising h i v pos above =
    let inside = v.inside in
    let near : parent i < length h = omega arith in
    let size = length-swap h i (parent i) in
    let now = at-swap h i (parent i) inside near in
    record {
      inside = omega (arith, size);
      edges = λ c p q r. ground (
        arith,
        size,
        now c,
        now (parent c),
        v.edges c,
        v.bridged c,
        Over-trans (at h c) (at h (parent i)) (at h i),
      );
      bridged = λ c p q r t. ground (
        arith,
        size,
        now c,
        now (parent (parent i)),
        v.edges c,
        v.edges (parent i),
        Over-trans (at h c) (at h (parent i)) (at h (parent (parent i))),
      );
    }

Over-refl : (a : RankedTransaction) → Over a a
Over-refl a = elim (Bool-cases (is_lower_priority a a)) [ inl h ↦ Over-of_lower a a h | inr h ↦ h ]

-- `m` is `i` or a child of it, and neither `i` nor a child of it is older.
pub record IsSmallest (h : Heap) (i m : ℕ) : Type 0 where
  pub inside : m < length h
  pub place : (m ≡ i) ⊎ ((m ≡ 2 * i + 1) ⊎ (m ≡ 2 * i + 2))
  pub below : Over (at h i) (at h m)
  pub left : 2 * i + 1 < length h → Over (at h (2 * i + 1)) (at h m)
  pub right : 2 * i + 2 < length h → Over (at h (2 * i + 2)) (at h m)

lower_of_lem :
    (h : Heap) (s c : ℕ)
    → s < length h
    → (lower_of h s c < length h)
      × ((lower_of h s c ≡ s) ⊎ (lower_of h s c ≡ c))
      × Over (at h s) (at h (lower_of h s c))
      × (c < length h → Over (at h c) (at h (lower_of h s c)))
unfolding lower_of
lower_of_lem h s c l = elim (Bool-cases (ltb c (length h) && is_lower_priority (at h c) (at h s))) [
  | inl t ↦ rw t (
      (
        ground arith,
        inr refl,
        Over-of_lower (at h c) (at h s) (ground arith),
        λ _. Over-refl (at h c),
      ))
  | inr t ↦ rw t ((l, inl refl, Over-refl (at h s), λ k. ground (arith, lt→ltb c (length h) k)))
]

pub smallest_of-IsSmallest : (h : Heap) (i : ℕ) → i < length h → IsSmallest h i (smallest_of h i)
unfolding smallest_of
smallest_of-IsSmallest h i l =
    let m = lower_of h i (2 * i + 1) in
    let n = lower_of h m (2 * i + 2) in
    let first = lower_of_lem h i (2 * i + 1) l in
    let second = lower_of_lem h m (2 * i + 2) first.0 in
    record {
      inside = second.0;
      place = ground arith;
      below = Over-trans (at h i) (at h m) (at h n) first.2 second.2;
      left = λ k. Over-trans (at h (2 * i + 1)) (at h m) (at h n) (first.3 k) second.2;
      right = λ k. second.3 k;
    }

pub child_cases : (c i : ℕ) → 0 < c → parent c ≡ i → (c ≡ 2 * i + 1) ⊎ (c ≡ 2 * i + 2)
child_cases c i p e = ground arith

pub swap-IsSinking :
    (h : Heap) (i m : ℕ)
    → i < length h
    → IsSinking h i
    → IsSmallest h i m
    → m ≢ i
    → IsSinking (swap h i m) m
swap-IsSinking h i m inside v s other =
    let deep = s.inside in
    let size = length-swap h i m in
    let now = at-swap h i m inside deep in
    record {
      edges = λ c p q r. ground (
        arith,
        size,
        now c,
        now (parent c),
        v.edges c,
        v.bridged m,
        s.left,
        s.right,
        s.below,
        child_cases c i,
      );
      bridged = λ c p q r t. ground (arith, size, now c, now (parent m), v.edges c);
    }

pub root_lowest : (h : Heap) (c : ℕ) → IsHeap h → c < length h → Over (at h c) (at h 0)
root_lowest h c v l = climb (suc c) c (omega arith) l
  where
    climb : (fuel c : ℕ) → c < fuel → c < length h → Over (at h c) (at h 0)
    climb zero c f l = absurd (omega arith)
    climb (suc fuel) zero f l = Over-refl (at h 0)
    climb (suc fuel) (suc c) f l =
        let up = parent (suc c) in
        Over-trans (at h (suc c)) (at h up) (at h 0) (v (suc c) (omega arith) l)
          (climb fuel up (omega arith) (omega arith))
