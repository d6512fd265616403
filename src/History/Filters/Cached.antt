-- ===== src/History/Filters/Cached.antt =====
-- src/dashboard/transaction-history.ts: the selector's cache, against filtering anew.
use mathlib.Core.Path.{fun_ext}
use stream_fi_sdk.Base.{
  ℕ, ◌≡◌, ◌≢◌, refl, sym, ap, ap₂, ◌∙◌, true, ◌&&◌, Option-cases, some, List, [], ◌∷◌, ◌++◌, ◌===◌,
  ===_iff, ==_iff, ◌==◌, if◌then◌else◌, Bool-cases, inl, inr, filter, All, arith,
}
use stream_fi_sdk.Amount.Digits.{Text}
use stream_fi_sdk.History.{
  TransactionRecord, TransactionStatus, TransactionKind, TransactionDirection,
}
use stream_fi_sdk.Texts.{codes, text_eq}
use stream_fi_sdk.History.Values.{Readers}
use stream_fi_sdk.History.Normalize.{kind_text}
use stream_fi_sdk.History.Filters.{
  Choice, TransactionFilters, status_text, direction_text, passes, choice_text, SelectorCacheEntry,
  signature_of, found_in, is_selected, matching, SelectorCache, remember, selector_entry,
}

abbrev Spaceless : Text → Type 0
Spaceless t = All (λ c. c ≢ 32) t

-- A text is cut at its first space in one way.
cut_at_space :
    (s t : Text) {a b : Text}
    → Spaceless s
    → Spaceless t
    → s ++ 32 ∷ a ≡ t ++ 32 ∷ b
    → (s ≡ t) × (a ≡ b)
cut_at_space [] [] h k e = (refl, ground arith)
cut_at_space [] (d ∷ t) h k e = let no = k.0 in absurd (no (ground arith))
cut_at_space (c ∷ s) [] h k e = let no = h.0 in absurd (no (ground arith))
cut_at_space (c ∷ s) (d ∷ t) {a} {b} h k e =
    let first : c ≡ d = cc in
    let later : s ++ 32 ∷ a ≡ t ++ 32 ∷ b = cc in
    let rest = cut_at_space s t h.1 k.1 later in (ap₂ (λ x y. x ∷ y) first rest.0, rest.1)

-- A name in a signature has no space, and is not that of the choice that keeps all.
abbrev IsName : Text → Type 0
IsName t = Spaceless t × (t ≢ codes "ALL")

status_text-IsName : (v : TransactionStatus) → IsName (status_text v)
status_text-IsName TransactionStatus.pending = (omega arith, λ e. ground arith)
status_text-IsName TransactionStatus.confirmed = (omega arith, λ e. ground arith)
status_text-IsName TransactionStatus.failed = (omega arith, λ e. ground arith)
status_text-IsName TransactionStatus.cancelled = (omega arith, λ e. ground arith)
status_text-IsName TransactionStatus.unknown = (omega arith, λ e. ground arith)

kind_text-IsName : (v : TransactionKind) → IsName (kind_text v)
kind_text-IsName TransactionKind.create = (omega arith, λ e. ground arith)
kind_text-IsName TransactionKind.withdraw = (omega arith, λ e. ground arith)
kind_text-IsName TransactionKind.pause = (omega arith, λ e. ground arith)
kind_text-IsName TransactionKind.resume = (omega arith, λ e. ground arith)
kind_text-IsName TransactionKind.cancel = (omega arith, λ e. ground arith)
kind_text-IsName TransactionKind.top_up = (omega arith, λ e. ground arith)
kind_text-IsName TransactionKind.unknown = (omega arith, λ e. ground arith)

direction_text-IsName : (v : TransactionDirection) → IsName (direction_text v)
direction_text-IsName TransactionDirection.in_ = (omega arith, λ e. ground arith)
direction_text-IsName TransactionDirection.out = (omega arith, λ e. ground arith)
direction_text-IsName TransactionDirection.unknown = (omega arith, λ e. ground arith)

module _ {A : Type 0} (name : A → Text) (named : (a : A) → IsName (name a)) where
  choice_text-Spaceless : (c : Choice A) → Spaceless (choice_text name c)
  choice_text-Spaceless Choice.all = omega arith
  choice_text-Spaceless (Choice.only a) = (named a).0

  passes_same :
      (c d : Choice A) (a : A)
      → choice_text name c ≡ choice_text name d
      → passes name c a ≡ passes name d a
  passes_same Choice.all Choice.all a e = refl
  passes_same Choice.all (Choice.only d) a e = absurd ((named d).1 (sym e))
  passes_same (Choice.only c) Choice.all a e = absurd ((named c).1 e)
  passes_same (Choice.only c) (Choice.only d) a e = ap (λ t. name a === t) e

module _ (r : Readers) where
  -- Filters of one signature keep the same rows.
  matching_same :
      (f g : TransactionFilters) (rows : List TransactionRecord)
      → signature_of r f ≡ signature_of r g
      → matching r f rows ≡ matching r g rows
  unfolding signature_of matching is_selected
  matching_same f g rows e =
      let first =
        cut_at_space (choice_text status_text f.status) (choice_text status_text g.status)
          (choice_text-Spaceless status_text status_text-IsName f.status)
          (choice_text-Spaceless status_text status_text-IsName g.status) e in
      let second =
        cut_at_space (choice_text kind_text f.kind) (choice_text kind_text g.kind)
          (choice_text-Spaceless kind_text kind_text-IsName f.kind)
          (choice_text-Spaceless kind_text kind_text-IsName g.kind) first.1 in
      let third =
        cut_at_space (choice_text direction_text f.direction)
          (choice_text direction_text g.direction)
          (choice_text-Spaceless direction_text direction_text-IsName f.direction)
          (choice_text-Spaceless direction_text direction_text-IsName g.direction) second.1 in
      let same : (tx : TransactionRecord) → is_selected r f tx ≡ is_selected r g tx = λ tx.
        ap₂ ◌&&◌ (passes_same status_text status_text-IsName f.status g.status tx.status first.0) (
          ap₂ ◌&&◌ (passes_same kind_text kind_text-IsName f.kind g.kind tx.kind second.0) (
            ap₂ ◌&&◌
              (passes_same direction_text direction_text-IsName f.direction g.direction tx.direction
                third.0)
              (ap (λ (s : Text). if s === [] then true else found_in r s tx) third.1))) in
      ap (λ p. filter p rows) (fun_ext same)

  -- What the cache remembers of an array is what its filters keep of the array's rows.
  abbrev pub IsHonest : (ℕ → List TransactionRecord) → SelectorCache r → Type 0
  IsHonest rows cache =
      (i : ℕ) (entry : SelectorCacheEntry)
      → cache i ≡ some entry
      → (f : TransactionFilters) × (entry.signature ≡ signature_of r f)
        × (entry.filtered ≡ matching r f (rows i))

  fresh : List TransactionRecord → TransactionFilters → SelectorCacheEntry
  fresh rows f = record { signature = signature_of r f; filtered = matching r f rows }

  remember-IsHonest :
      (rows : ℕ → List TransactionRecord) (cache : SelectorCache r) (i : ℕ) (f : TransactionFilters)
      → IsHonest rows cache
      → IsHonest rows (remember r cache i (fresh (rows i) f))
  unfolding fresh
  remember-IsHonest rows cache i f honest j entry e = elim (Bool-cases (i == j)) [
    | inl t ↦
        let here : i ≡ j = (==_iff i j).0 t in
        let shown : some (fresh (rows i) f) ≡ some entry = rw t at e in
        let given : fresh (rows i) f ≡ entry = cc in
        (
          f,
          sym (ap (λ (c : SelectorCacheEntry). c.signature) given),
          sym (ap (λ (c : SelectorCacheEntry). c.filtered) given)
              ∙ ap (λ k. matching r f (rows k)) here,
        )
    | inr t ↦ honest j entry (rw t at e)
  ]

  -- Whatever calls have filled the cache, a call gives the rows that filtering anew gives, and leaves the
  -- cache fit for the next one.
  pub selector_entry-matching :
      (rows : ℕ → List TransactionRecord) (cache : SelectorCache r) (i : ℕ) (f : TransactionFilters)
      → IsHonest rows cache
      → ((selector_entry r cache i (rows i) f).0.filtered ≡ matching r f (rows i))
        × IsHonest rows (selector_entry r cache i (rows i) f).1
  unfolding selector_entry fresh
  selector_entry-matching rows cache i f honest = elim (Option-cases (cache i)) [
    | inl none_yet ↦ rw none_yet (refl, remember-IsHonest rows cache i f honest)
    | inr (entry, kept) ↦
        let known = honest i entry kept in
        elim (Bool-cases (entry.signature === signature_of r f)) [
          | inl t ↦
              let same = sym known.1 ∙ (===_iff entry.signature (signature_of r f)).0 t in
              rw (kept, t) (known.2 ∙ matching_same known.0 f (rows i) same, honest)
          | inr t ↦ rw (kept, t) (refl, remember-IsHonest rows cache i f honest)
        ]
  ]
