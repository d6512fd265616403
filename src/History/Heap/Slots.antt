-- ===== src/History/Heap/Slots.antt =====
-- src/dashboard/transaction-history.ts: reads, writes and exchanges of the heap's entries.
use mathlib.Core.List.{Permᴰ}
use mathlib.Core.List.Permᴰ
use stream_fi_sdk.Base.{
  ℕ, zero, suc, ◌<◌, ◌≡◌, refl, ap, ◌∙◌, [], ◌∷◌, ◌++◌, ◌==◌, if◌then◌else◌, length, arith,
}
use stream_fi_sdk.History.Heap.{Heap, RankedTransaction, at, put, swap}

pub length-put : (h : Heap) (i : ℕ) (r : RankedTransaction) → length (put h i r) ≡ length h
unfolding put
length-put [] i r = refl
length-put (s ∷ h) zero r = refl
length-put (s ∷ h) (suc i) r = ap suc (length-put h i r)

pub at-put :
    (h : Heap) (i j : ℕ) (r : RankedTransaction)
    → i < length h
    → at (put h i r) j ≡ (if i == j then r else at h j)
unfolding at put
at-put [] i j r l = absurd (omega arith)
at-put (s ∷ h) zero zero r l = refl
at-put (s ∷ h) zero (suc j) r l = ground arith
at-put (s ∷ h) (suc i) zero r l = ground arith
at-put (s ∷ h) (suc i) (suc j) r l = ground (arith, at-put h i j r)

pub at-append : (h g : Heap) (i : ℕ) → i < length h → at (h ++ g) i ≡ at h i
unfolding at
at-append [] g i l = absurd (omega arith)
at-append (s ∷ h) g zero l = refl
at-append (s ∷ h) g (suc i) l = at-append h g i (omega arith)

-- What a write drops, and what it brings.
put-perm :
    (h : Heap) (i : ℕ) (r : RankedTransaction) → i < length h → Permᴰ (at h i ∷ put h i r) (r ∷ h)
unfolding at put
put-perm [] i r l = absurd (omega arith)
put-perm (s ∷ h) zero r l = Permᴰ.swap refl refl
put-perm (s ∷ h) (suc i) r l =
    Permᴰ.trans (Permᴰ.swap refl refl)
      (Permᴰ.trans (Permᴰ.cons refl (put-perm h i r (omega arith))) (Permᴰ.swap refl refl))

pub swap-perm : (h : Heap) (i j : ℕ) → i < length h → j < length h → Permᴰ (swap h i j) h
unfolding swap put at
swap-perm [] i j p q = absurd (omega arith)
swap-perm (s ∷ h) zero zero p q = Permᴰ.refl _
swap-perm (s ∷ h) zero (suc j) p q = put-perm h j s (omega arith)
swap-perm (s ∷ h) (suc i) zero p q = put-perm h i s (omega arith)
swap-perm (s ∷ h) (suc i) (suc j) p q =
    Permᴰ.cons refl (swap-perm h i j (omega arith) (omega arith))

pub length-swap : (h : Heap) (i j : ℕ) → length (swap h i j) ≡ length h
unfolding swap
length-swap h i j = length-put (put h i (at h j)) j (at h i) ∙ length-put h i (at h j)

module _ (h : Heap) (i j : ℕ) (hi : i < length h) (hj : j < length h) where
  pub at-swap :
      (c : ℕ) → at (swap h i j) c ≡ (if j == c then at h i else if i == c then at h j else at h c)
  unfolding swap
  at-swap c = ground (
    arith,
    at-put (put h i (at h j)) j c (at h i),
    at-put h i c (at h j),
    length-put h i (at h j),
  )
