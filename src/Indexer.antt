-- ===== src/Indexer.antt =====
-- src/indexer.ts: `class LedgerGapDetector`. A ledger is a natural number, which the code tests.
pub mod Fetch
use stream_fi_sdk.Base.{
  ℕ, ◌+◌, ◌≤◌, ◌<◌, ◌≡◌, max, true, Option, none, some, List, [], ◌∷◌, ltb, if◌then◌else◌, arith,
  refl, ◌⊎◌, inl, inr, Bool-cases,
}

pub record LedgerGap : Type 0 where
  pub expected : ℕ
  pub actual : ℕ

-- The tracked ledger before and after, and the gap that is returned.
unfoldable pub gap_at : Option ℕ → ℕ → Option LedgerGap
gap_at none ledger = none
gap_at (some current) ledger =
    if ltb (current + 1) ledger
    then some (record { expected = current + 1; actual = ledger })
    else none

unfoldable pub next_current : Option ℕ → ℕ → Option ℕ
next_current none ledger = some ledger
next_current (some current) ledger = if ltb current ledger then some ledger else some current

unfoldable pub observe : Option ℕ → ℕ → Option ℕ × Option LedgerGap
observe current ledger = (next_current current ledger, gap_at current ledger)

abbrev pub add_gap : Option LedgerGap → List LedgerGap → List LedgerGap
add_gap none gaps = gaps
add_gap (some gap) gaps = gap ∷ gaps

-- The calls of `observe` for the ledgers in turn: the ledger tracked at the end, and the gaps.
unfoldable pub observe_all : Option ℕ → List ℕ → Option ℕ × List LedgerGap
observe_all current [] = (current, [])
observe_all current (ledger ∷ ledgers) =
    let (current', gap) = observe current ledger in
    let (last, gaps) = observe_all current' ledgers in (last, add_gap gap gaps)

abbrev pub highest : ℕ → List ℕ → ℕ
highest m [] = m
highest m (ledger ∷ ledgers) = highest (max m ledger) ledgers

abbrev pub Observed : ℕ → List ℕ → Type 0
Observed n [] = ⊥
Observed n (ledger ∷ ledgers) = (n ≡ ledger) ⊎ Observed n ledgers

-- The ledger `n` lies in one of the gaps.
abbrev pub InGap : ℕ → List LedgerGap → Type 0
InGap n [] = ⊥
InGap n (gap ∷ gaps) = ((gap.expected ≤ n) × (n < gap.actual)) ⊎ InGap n gaps

highest-ge : (m : ℕ) (ledgers : List ℕ) → m ≤ highest m ledgers
highest-ge m [] = omega arith
highest-ge m (ledger ∷ ledgers) = omega (arith, highest-ge (max m ledger) ledgers)

next_current-max : (m ledger : ℕ) → next_current (some m) ledger ≡ some (max m ledger)
unfolding next_current
next_current-max m ledger = ground arith

InGap-add :
    (n : ℕ) (o : Option LedgerGap) (gaps : List LedgerGap) → InGap n gaps → InGap n (add_gap o gaps)
InGap-add n none gaps h = h
InGap-add n (some gap) gaps h = inr h

gap_skips :
    (n m ledger : ℕ) (gaps : List LedgerGap)
    → m < n
    → n < ledger
    → InGap n (add_gap (gap_at (some m) ledger) gaps)
unfolding gap_at
gap_skips n m ledger gaps l u =
    let wide : ltb (m + 1) ledger ≡ true = ground arith in rw wide (inl (omega arith, u))

observe_all-current :
    (m : ℕ) (ledgers : List ℕ) → (observe_all (some m) ledgers).0 ≡ some (highest m ledgers)
unfolding observe_all observe
observe_all-current m [] = refl
observe_all-current m (ledger ∷ ledgers) =
    rw (next_current-max m ledger) (observe_all-current (max m ledger) ledgers)

observe_all-covers :
    (m : ℕ) (ledgers : List ℕ) (n : ℕ)
    → m < n
    → n ≤ highest m ledgers
    → Observed n ledgers ⊎ InGap n (observe_all (some m) ledgers).1
unfolding observe_all observe
observe_all-covers m [] n l u = absurd (omega arith)
observe_all-covers m (ledger ∷ ledgers) n l u = elim (Bool-cases (ltb (max m ledger) n)) [
  | inl later ↦
      rw (next_current-max m ledger)
        (elim (observe_all-covers (max m ledger) ledgers n (ground arith) u) [
          | inl seen ↦ inl (inr seen)
          | inr gap ↦ inr (InGap-add n (gap_at (some m) ledger) _ gap)
        ])
  | inr now ↦ elim (Bool-cases (ltb n ledger)) [
    | inl before ↦ inr (gap_skips n m ledger _ l (ground arith))
    | inr at ↦ inl (inl (ground arith))
  ]
]

-- Once a ledger is tracked, the detector ends at the highest ledger it has seen, and each ledger
-- after the tracked one and up to that end was either observed or lies in a gap it returned.
pub observe_all_lem :
    (m : ℕ) (ledgers : List ℕ) (n : ℕ)
    → m < n
    → n ≤ highest m ledgers
    → ((observe_all (some m) ledgers).0 ≡ some (highest m ledgers))
      × (Observed n ledgers ⊎ InGap n (observe_all (some m) ledgers).1)
observe_all_lem m ledgers n l u =
    (observe_all-current m ledgers, observe_all-covers m ledgers n l u)
