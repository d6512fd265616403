-- ===== src/History/Heap/Sift.antt =====
-- src/dashboard/transaction-history.ts: both loops that move an entry leave a heap of the same entries.
use mathlib.Core.List.{Permᴰ}
use mathlib.Core.List.Permᴰ
use stream_fi_sdk.Base.{
  ℕ, zero, suc, ◌+◌, ◌<◌, ◌≤◌, ◌≢◌, ltb, ltb→lt, ◌==◌, if_cases, length, arith,
}
use stream_fi_sdk.History.Heap.{Heap, at, swap, is_lower_priority, smallest_of, sift_up, sift_down}
use stream_fi_sdk.History.Heap.Slots.{swap-perm, length-swap}
use stream_fi_sdk.History.Heap.Order.{
  parent, IsHeap, IsRising, IsSinking, Over-of_lower, swap-IsRising, swap-IsSinking,
  smallest_of-IsSmallest, child_cases,
}

-- `g` is a heap of the entries of `h`.
pub record Restores (h g : Heap) : Type 0 where
  pub ordered : IsHeap g
  pub same : Permᴰ g h

Restores-swap :
    {h g : Heap} (i j : ℕ) → i < length h → j < length h → Restores (swap h i j) g → Restores h g
Restores-swap {h} i j p q r = record {
  ordered = r.ordered;
  same = Permᴰ.trans r.same (swap-perm h i j p q);
}

pub sift_up-Restores :
    (fuel : ℕ) (h : Heap) (i : ℕ) → i ≤ fuel → IsRising h i → Restores h (sift_up fuel h i)
unfolding sift_up
sift_up-Restores zero h i f v = record {
  ordered = λ c p q. v.edges c p q (omega arith);
  same = Permᴰ.refl h;
}
sift_up-Restores (suc fuel) h i f v =
    if_cases (Restores h) (ltb 0 i)
      (λ pos.
        let positive = ltb→lt 0 i pos in
        if_cases (Restores h) (is_lower_priority (at h (parent i)) (at h i))
          (λ settled. record {
            ordered = λ c p q. ground (arith, v.edges c, Over-of_lower (at h (parent i)) (at h i));
            same = Permᴰ.refl h;
          })
          (λ rise.
            let inside = v.inside in
            Restores-swap i (parent i) inside (omega arith) (
              sift_up-Restores fuel (swap h i (parent i)) (parent i) (omega arith)
                (swap-IsRising h i v positive rise))))
      (λ root. record { ordered = λ c p q. v.edges c p q (ground arith); same = Permᴰ.refl h })

pub sift_down-Restores :
    (fuel : ℕ) (h : Heap) (i : ℕ)
    → i < length h
    → length h ≤ fuel + i
    → IsSinking h i
    → Restores h (sift_down fuel h i)
unfolding sift_down
sift_down-Restores zero h i l f v = absurd (omega arith)
sift_down-Restores (suc fuel) h i l f v =
    let m = smallest_of h i in
    let s = smallest_of-IsSmallest h i l in
    if_cases (Restores h) (m == i)
      (λ e. record {
        ordered = λ c p q. ground (arith, v.edges c, s.left, s.right, child_cases c i);
        same = Permᴰ.refl h;
      })
      (λ e.
        let other : m ≢ i = ground arith in
        let deep = s.inside in
        let child = s.place in
        let size = length-swap h i m in
        Restores-swap i m l deep (
          sift_down-Restores fuel (swap h i m) m (omega (arith, size)) (ground (arith, size))
            (swap-IsSinking h i m l v s other)))
