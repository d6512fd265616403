-- ===== src/History/Sort.antt =====
-- `Array.prototype.sort` with a comparator, as src/dashboard/transaction-history.ts uses it, and its
-- laws: the order in which distinct entries stand before the sort does not matter.
use mathlib.Core.List.{Permᴰ}
use mathlib.Core.List.Permᴰ
use stream_fi_sdk.Base.{
  ℕ, zero, suc, ◌≡◌, refl, sym, subst, ap, ap₂, ◌∙◌, Bool, true, false, List, [], ◌∷◌, ◌++◌, ◌⊎◌,
  inl, inr, if◌then◌else◌, if_cases, length, take, All, arith, Bool-cases, drop, take-append-drop,
  append_assoc,
}

-- The sort is stable; `after a b` is that `compare(a, b)` is positive.
module _ {A : Type 0} (after : A → A → Bool) where
  unfoldable pub insert_sorted : A → List A → List A
  insert_sorted a [] = a ∷ []
  insert_sorted a (b ∷ bs) =
      let rest = insert_sorted a bs in if after a b then b ∷ rest else a ∷ b ∷ bs

  unfoldable pub sort : List A → List A
  unfolding insert_sorted
  sort [] = []
  sort (x ∷ xs) = insert_sorted x (sort xs)

-- What the comparator promises: `after` is a strict order, and so is its being level.
pub record IsComparator {A : Type 0} (after : A → A → Bool) : Type 0 where
  pub asym : (a b : A) → after a b ≡ true → after b a ≡ false
  pub level_trans : (a b c : A) → after a b ≡ false → after b c ≡ false → after a c ≡ false

abbrev pub Apart : {A : Type 0} → (A → A → Bool) → A → A → Type 0
Apart after a b = (after a b ≡ true) ⊎ (after b a ≡ true)

abbrev pub AllApart : {A : Type 0} → (A → A → Bool) → List A → Type 0
AllApart after [] = Unit
AllApart after (x ∷ xs) = All (Apart after x) xs × AllApart after xs

pub All-perm : {A : Type 0} (P : A → Type 0) {xs ys : List A} → Permᴰ xs ys → All P xs → All P ys
All-perm P Permᴰ.nil h = h
All-perm P (Permᴰ.cons e p) h = (rw (← e) h.0, All-perm P p h.1)
All-perm P (Permᴰ.swap e f) h = (rw (← f) h.1.0, (rw (← e) h.0, h.1.1))
All-perm P (Permᴰ.trans p q) h = All-perm P q (All-perm P p h)

pub length-perm : {A : Type 0} {xs ys : List A} → Permᴰ xs ys → length xs ≡ length ys
length-perm Permᴰ.nil = refl
length-perm (Permᴰ.cons e p) = ap suc (length-perm p)
length-perm (Permᴰ.swap e f) = refl
length-perm (Permᴰ.trans p q) = length-perm p ∙ length-perm q

take_exact : {A : Type 0} (n : ℕ) (xs ys : List A) → n ≡ length xs → take n (xs ++ ys) ≡ xs
take_exact zero [] ys h = refl
take_exact (suc n) (x ∷ xs) ys h = ap (λ t. x ∷ t) (take_exact n xs ys (omega arith))
take_exact zero (x ∷ xs) ys h = absurd (omega arith)
take_exact (suc n) [] ys h = absurd (omega arith)

module _ {A : Type 0} (after : A → A → Bool) (c : IsComparator after) where
  Apart-comm : (a b : A) → Apart after a b → Apart after b a
  Apart-comm a b (inl h) = inr h
  Apart-comm a b (inr h) = inl h

  insert_sorted_comm :
      (a b : A) (xs : List A)
      → Apart after a b
      → insert_sorted after a (insert_sorted after b xs)
        ≡ insert_sorted after b (insert_sorted after a xs)
  unfolding insert_sorted
  insert_sorted_comm a b [] h = ground (arith, c.asym a b, c.asym b a)
  insert_sorted_comm a b (x ∷ xs) h = ground (
    arith,
    c.asym a b,
    c.asym b a,
    c.level_trans a b x,
    c.level_trans b a x,
    c.asym a x,
    c.asym b x,
    insert_sorted_comm a b xs h,
  )

  pub AllApart-perm : {xs ys : List A} → Permᴰ xs ys → AllApart after xs → AllApart after ys
  AllApart-perm Permᴰ.nil h = h
  AllApart-perm (Permᴰ.cons {a = a} {b = b} {l₁ = l₁} {l₂ = l₂} e p) h =
      (All-perm (Apart after b) p (rw (← e) h.0), AllApart-perm p h.1)
  AllApart-perm (Permᴰ.swap {a = a} {a' = a'} {l = l} e f) h =
      subst (λ y. AllApart after (a' ∷ y ∷ l)) e
        (subst (λ x. AllApart after (x ∷ a ∷ l)) f ((Apart-comm _ _ h.0.0, h.1.0), (h.0.1, h.1.1)))
  AllApart-perm (Permᴰ.trans p q) h = AllApart-perm q (AllApart-perm p h)

  pub sort-perm : {xs ys : List A} → Permᴰ xs ys → AllApart after xs → sort after xs ≡ sort after ys
  unfolding sort
  sort-perm Permᴰ.nil h = refl
  sort-perm (Permᴰ.cons e p) h = ap₂ (insert_sorted after) e (sort-perm p h.1)
  sort-perm (Permᴰ.swap {l = l} e f) h = rw (← e, ← f) (insert_sorted_comm _ _ (sort after l) h.0.0)
  sort-perm (Permᴰ.trans p q) h = sort-perm p h ∙ sort-perm q (AllApart-perm p h)

  insert_sorted-perm : (a : A) (xs : List A) → Permᴰ (a ∷ xs) (insert_sorted after a xs)
  unfolding insert_sorted
  insert_sorted-perm a [] = Permᴰ.refl _
  insert_sorted-perm a (x ∷ xs) =
      if_cases (λ ys. Permᴰ (a ∷ x ∷ xs) ys) (after a x)
        (λ _. Permᴰ.trans (Permᴰ.swap refl refl) (Permᴰ.cons refl (insert_sorted-perm a xs)))
        (λ _. Permᴰ.refl _)

  perm-sort : (xs : List A) → Permᴰ xs (sort after xs)
  unfolding sort
  perm-sort [] = Permᴰ.nil
  perm-sort (x ∷ xs) =
      Permᴰ.trans (Permᴰ.cons refl (perm-sort xs)) (insert_sorted-perm x (sort after xs))

  pub All-sort : (P : A → Type 0) (xs : List A) → All P xs → All P (sort after xs)
  All-sort P xs h = All-perm P (perm-sort xs) h

  pub length-sort : (xs : List A) → length (sort after xs) ≡ length xs
  length-sort xs = sym (length-perm (perm-sort xs))

  -- An entry that comes after all of the front goes to the rest.
  pub insert_sorted-append_last :
      (c : A) (xs ys : List A)
      → All (λ x. after c x ≡ true) xs
      → insert_sorted after c (xs ++ ys) ≡ xs ++ insert_sorted after c ys
  unfolding insert_sorted
  insert_sorted-append_last c [] ys h = refl
  insert_sorted-append_last c (x ∷ xs) ys h =
      rw h.0 (ap (λ t. x ∷ t) (insert_sorted-append_last c xs ys h.1))

  -- An entry that does not come after `r` goes to the part before it.
  pub insert_sorted-append_before :
      (c r : A) (xs ys : List A)
      → after c r ≡ false
      → insert_sorted after c (xs ++ r ∷ ys) ≡ insert_sorted after c xs ++ r ∷ ys
  unfolding insert_sorted
  insert_sorted-append_before c r [] ys h = rw h
  insert_sorted-append_before c r (x ∷ xs) ys h = elim (Bool-cases (after c x)) [
    | inl l ↦ rw l (ap (λ t. x ∷ t) (insert_sorted-append_before c r xs ys h))
    | inr g ↦ rw g
  ]

  pub length-insert_sorted :
      (c : A) (xs : List A) → length (insert_sorted after c xs) ≡ suc (length xs)
  length-insert_sorted c xs = sym (length-perm (insert_sorted-perm c xs))

  -- The best `k` entries when one comes that beats the last of them, and when one comes that does not.
  pub take-insert_sorted_last :
      (k : ℕ) (all best : List A) (r c : A)
      → take k all ≡ best ++ r ∷ []
      → k ≡ suc (length best)
      → after c r ≡ false
      → take k (insert_sorted after c all) ≡ insert_sorted after c best
  take-insert_sorted_last k all best r c e n h =
      let whole =
        sym (take-append-drop k all)
        ∙ ap (λ t. t ++ drop k all) e
        ∙ append_assoc best (r ∷ []) (drop k all) in
      let size = length-insert_sorted c best in
      ap (λ t. take k (insert_sorted after c t)) whole
      ∙ ap (take k) (insert_sorted-append_before c r best (drop k all) h)
      ∙ take_exact k (insert_sorted after c best) (r ∷ drop k all) (omega arith)

  pub take-insert_sorted_worse :
      (k : ℕ) (all best : List A) (c : A)
      → take k all ≡ best
      → k ≡ length best
      → All (λ x. after c x ≡ true) best
      → take k (insert_sorted after c all) ≡ best
  take-insert_sorted_worse k all best c e n h =
      let whole = sym (take-append-drop k all) ∙ ap (λ t. t ++ drop k all) e in
      ap (λ t. take k (insert_sorted after c t)) whole
      ∙ ap (take k) (insert_sorted-append_last c best (drop k all) h)
      ∙ take_exact k best (insert_sorted after c (drop k all)) n
