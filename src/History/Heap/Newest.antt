-- ===== src/History/Heap/Newest.antt =====
-- src/dashboard/transaction-history.ts: the heap holds the newest of the rows seen so far.
use mathlib.Core.List.{Permᴰ}
use mathlib.Core.List.Permᴰ
use stream_fi_sdk.Base.{
  ℕ, suc, ◌<◌, ◌≤◌, ◌≡◌, refl, sym, subst, ap, ◌∙◌, true, false, ltb, ltb→lt, if_cases, Bool-cases,
  inl, inr, [], ◌∷◌, ◌++◌, length, take, take_all, length-take, length-append, append-nil, All,
  arith,
}
use stream_fi_sdk.History.Sort.{
  insert_sorted, sort, Apart, AllApart, All-perm, AllApart-perm, sort-perm, All-sort, length-sort,
  length-insert_sorted, insert_sorted-append_last, take-insert_sorted_last,
  take-insert_sorted_worse,
}
use stream_fi_sdk.History.Heap.{
  RankedTransaction, Heap, at, put, is_lower_priority, sift_up, sift_down, consider,
}
use stream_fi_sdk.History.Heap.Priority.{is_lower_priority-IsComparator, is_lower_priority-Apart}
use stream_fi_sdk.History.Heap.Slots.{at-append, at-put, length-put}
use stream_fi_sdk.History.Heap.Order.{
  parent, IsHeap, IsRising, IsSinking, Over, Over-trans, root_lowest,
}
use stream_fi_sdk.History.Heap.Sift.{sift_up-Restores, sift_down-Restores}

-- `heap` holds the `k` newest of `seen`, whose indices are below `n`.
pub record Kept (k n : ℕ) (seen heap : Heap) : Type 0 where
  pub ordered : IsHeap heap
  pub apart : AllApart is_lower_priority heap
  pub indexed : All (λ (r : RankedTransaction). r.idx < n) heap
  pub best : sort is_lower_priority heap ≡ take k (sort is_lower_priority seen)

All-at :
    (P : RankedTransaction → Type 0) (h : Heap) → ((i : ℕ) → i < length h → P (at h i)) → All P h
unfolding at
All-at P [] f = tt
All-at P (r ∷ h) f = (f 0 (omega arith), All-at P h (λ i l. f (suc i) (omega arith)))

All-indexed :
    (n m : ℕ) (h : Heap)
    → n ≤ m
    → All (λ (r : RankedTransaction). r.idx < n) h
    → All (λ (r : RankedTransaction). r.idx < m) h
All-indexed n m [] l v = tt
All-indexed n m (r ∷ h) l v = let here = v.0 in (omega arith, All-indexed n m h l v.1)

-- A row of index `n` stands apart from all rows of lower indices.
All-Apart :
    (c : RankedTransaction) (h : Heap)
    → All (λ (r : RankedTransaction). r.idx < c.idx) h
    → All (Apart is_lower_priority c) h
All-Apart c [] v = tt
All-Apart c (r ∷ h) v =
    let here = v.0 in (is_lower_priority-Apart c r (λ e. omega arith), All-Apart c h v.1)

append-perm : (h : Heap) (c : RankedTransaction) → Permᴰ (h ++ c ∷ []) (c ∷ h)
append-perm h c = Permᴰ.trans (Permᴰ.middle c h []) (Permᴰ.cons refl (Permᴰ.append-nil h))

-- A heap of a new row and some of the old ones, if these are the best.
replaced :
    (k : ℕ) (c : RankedTransaction) (seen rest heap : Heap)
    → IsHeap heap
    → Permᴰ heap (c ∷ rest)
    → AllApart is_lower_priority rest
    → All (λ (r : RankedTransaction). r.idx < c.idx) rest
    → insert_sorted is_lower_priority c (sort is_lower_priority rest)
      ≡ take k (sort is_lower_priority (c ∷ seen))
    → Kept k (suc c.idx) (c ∷ seen) heap
unfolding sort
replaced k c seen rest heap ordered same apart indexed best =
    let back = Permᴰ.symm same in
    let all_apart : AllApart is_lower_priority (c ∷ rest) = (All-Apart c rest indexed, apart) in
    record {
      ordered = ordered;
      apart = AllApart-perm is_lower_priority is_lower_priority-IsComparator back all_apart;
      indexed =
          All-perm (λ (r : RankedTransaction). r.idx < suc c.idx) back
            (omega arith, All-indexed c.idx (suc c.idx) rest (omega arith) indexed);
      best = sym (sort-perm is_lower_priority is_lower_priority-IsComparator back all_apart) ∙ best;
    }

append-IsRising : (h : Heap) (c : RankedTransaction) → IsHeap h → IsRising (h ++ c ∷ []) (length h)
append-IsRising h c v =
    let size = length-append h (c ∷ []) in
    record {
      inside = omega (arith, size);
      edges = λ d p q r.
          ground (arith, size, v d, at-append h (c ∷ []) d, at-append h (c ∷ []) (parent d));
      bridged = λ d p q r t. absurd (omega (arith, size));
    }

put-IsSinking :
    (h : Heap) (c : RankedTransaction) → 0 < length h → IsHeap h → IsSinking (put h 0 c) 0
put-IsSinking h c l v =
    let size = length-put h 0 c in
    record {
      edges = λ d p q r. ground (arith, size, v d, at-put h 0 d c, at-put h 0 (parent d) c);
      bridged = λ d p q r t. absurd (omega arith);
    }

All-lower :
    (root : RankedTransaction) (rest : Heap)
    → All (Apart is_lower_priority root) rest
    → All (λ x. Over x root) rest
    → All (λ x. is_lower_priority root x ≡ true) rest
All-lower root [] a o = tt
All-lower root (x ∷ rest) (inl l, a) o = (l, All-lower root rest a o.1)
All-lower root (x ∷ rest) (inr l, a) o = cc

root_below :
    (root : RankedTransaction) (rest : Heap)
    → IsHeap (root ∷ rest)
    → AllApart is_lower_priority (root ∷ rest)
    → All (λ x. is_lower_priority root x ≡ true) rest
unfolding at
root_below root rest v a =
    All-lower root rest a.0
      (All-at (λ x. Over x root) rest (λ i l. root_lowest (root ∷ rest) (suc i) v (omega arith)))

-- A row that does not beat the root is older than all that are kept.
All-older :
    (c root : RankedTransaction) (h : Heap)
    → is_lower_priority c root ≡ true
    → All (λ x. Over x root) h
    → All (λ x. is_lower_priority c x ≡ true) h
All-older c root [] l o = tt
All-older c root (x ∷ h) l o = elim (Bool-cases (is_lower_priority c x)) [
  | inl t ↦ (t, All-older c root h l o.1)
  | inr f ↦ cc (Over-trans c x root f o.0)
]

apart_behind :
    (c root : RankedTransaction)
    → root.idx < c.idx
    → is_lower_priority root c ≡ false
    → is_lower_priority c root ≡ true
apart_behind c root l h = elim (is_lower_priority-Apart root c (λ e. omega arith)) [
  | inl t ↦ cc
  | inr t ↦ t
]

module _ (k : ℕ) (c : RankedTransaction) (seen : Heap) where
  -- While there is room, every row is kept.
  pushed :
      (heap : Heap)
      → Kept k c.idx seen heap
      → length heap < k
      → Kept k (suc c.idx) (c ∷ seen) (sift_up (length heap) (heap ++ c ∷ []) (length heap))
  unfolding sort
  pushed heap v room =
      let r =
        sift_up-Restores (length heap) (heap ++ c ∷ []) (length heap) (omega arith)
          (append-IsRising heap c v.ordered) in
      let s = sort is_lower_priority seen in
      let few = ap length v.best in
      let kept = length-sort is_lower_priority is_lower_priority-IsComparator heap in
      let cut = length-take k s in
      let all = take_all k s (omega arith) in
      let one_more = length-insert_sorted is_lower_priority is_lower_priority-IsComparator c s in
      replaced k c seen heap _ r.ordered (Permᴰ.trans r.same (append-perm heap c)) v.apart v.indexed
        (ap (insert_sorted is_lower_priority c) (v.best ∙ all)
          ∙ sym (take_all k (insert_sorted is_lower_priority c s) (omega arith)))

  -- A newer row takes the root's place.
  took_place :
      (root : RankedTransaction) (rest : Heap)
      → Kept k c.idx seen (root ∷ rest)
      → k ≤ length (root ∷ rest)
      → is_lower_priority root c ≡ true
      → Kept k (suc c.idx) (c ∷ seen) (sift_down (length (root ∷ rest)) (put (root ∷ rest) 0 c) 0)
  unfolding sort put at
  took_place root rest v full newer =
      let s = sort is_lower_priority seen in
      let lowest : All (λ x. is_lower_priority root x ≡ true) rest =
        root_below root rest v.ordered v.apart in
      let last =
        insert_sorted-append_last is_lower_priority is_lower_priority-IsComparator root
          (sort is_lower_priority rest) []
          (All-sort is_lower_priority is_lower_priority-IsComparator
            (λ x. is_lower_priority root x ≡ true) rest lowest) in
      let r =
        sift_down-Restores (length (root ∷ rest)) (c ∷ rest) 0 (omega arith) (omega arith)
          (put-IsSinking (root ∷ rest) c (omega arith) v.ordered) in
      let few = ap length v.best in
      let kept = length-sort is_lower_priority is_lower_priority-IsComparator (root ∷ rest) in
      let part = length-sort is_lower_priority is_lower_priority-IsComparator rest in
      let cut = length-take k s in
      let front =
        sym v.best
        ∙ ap (insert_sorted is_lower_priority root) (sym (append-nil (sort is_lower_priority rest)))
        ∙ last in
      replaced k c seen rest _ r.ordered r.same v.apart.1 v.indexed.1 (
        sym (
          take-insert_sorted_last is_lower_priority is_lower_priority-IsComparator k s
            (sort is_lower_priority rest) root c front (omega arith)
            (is_lower_priority-IsComparator.asym root c newer)))

  -- An older row changes nothing.
  passed :
      (heap : Heap)
      → 0 < k
      → Kept k c.idx seen heap
      → k ≤ length heap
      → is_lower_priority (at heap 0) c ≡ false
      → Kept k (suc c.idx) (c ∷ seen) heap
  unfolding sort at
  passed [] pos v full older = absurd (omega arith)
  passed (root ∷ rest) pos v full older =
      let s = sort is_lower_priority seen in
      let few = ap length v.best in
      let kept = length-sort is_lower_priority is_lower_priority-IsComparator (root ∷ rest) in
      let cut = length-take k s in
      let behind : is_lower_priority c root ≡ true = apart_behind c root v.indexed.0 older in
      let all_over =
        All-at (λ x. Over x root) (root ∷ rest) (λ i l. root_lowest (root ∷ rest) i v.ordered l) in
      record {
        ordered = v.ordered;
        apart = v.apart;
        indexed = All-indexed c.idx (suc c.idx) (root ∷ rest) (omega arith) v.indexed;
        best =
            v.best
            ∙ sym (
                take-insert_sorted_worse is_lower_priority is_lower_priority-IsComparator k s
                  (take k s) c refl (omega arith)
                  (subst (All (λ x. is_lower_priority c x ≡ true)) v.best (
                    All-sort is_lower_priority is_lower_priority-IsComparator
                      (λ x. is_lower_priority c x ≡ true) (root ∷ rest)
                      (All-older c root (root ∷ rest) behind all_over))));
      }

  ahead :
      (heap : Heap)
      → 0 < k
      → k ≤ length heap
      → is_lower_priority (at heap 0) c ≡ true
      → Kept k c.idx seen heap
      → Kept k (suc c.idx) (c ∷ seen) (sift_down (length heap) (put heap 0 c) 0)
  unfolding at
  ahead [] pos full newer v = absurd (omega arith)
  ahead (root ∷ rest) pos full newer v = took_place root rest v full newer

  pub consider-Kept :
      (heap : Heap)
      → 0 < k
      → Kept k c.idx seen heap
      → Kept k (suc c.idx) (c ∷ seen) (consider k heap c)
  unfolding consider
  consider-Kept heap pos v =
      if_cases (Kept k (suc c.idx) (c ∷ seen)) (ltb (length heap) k)
        (λ room. pushed heap v (ltb→lt (length heap) k room))
        (λ full.
          if_cases (Kept k (suc c.idx) (c ∷ seen)) (is_lower_priority (at heap 0) c)
            (λ newer. ahead heap pos (ground arith) newer v)
            (λ older. passed heap pos v (ground arith) older))
