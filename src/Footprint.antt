-- ===== src/Footprint.antt =====
-- src/fee-estimator.ts: `estimateBatchFootprint`. The counts are naturals, the warning threshold is a
-- fraction, and the products that the code computes in floating point are exact here.
use stream_fi_sdk.Base.{
  ℕ, ◌+◌, ◌-◌, ◌*◌, ◌/◌, ◌≤◌, ◌<◌, ◌≡◌, ◌↔◌, max, Bool, true, ◌||◌, ltb, leb, if◌then◌else◌, arith,
}
use native.Mathlib.Nat.{le-div_iff_mul-le, mul-pos}

pub record BatchFootprintOptions : Type 0 where
  pub instructions_per_item : ℕ
  pub fixed_overhead_instructions : ℕ
  pub cpu_instruction_limit : ℕ
  pub warn_num : ℕ
  pub warn_den : ℕ

pub record ResourceEstimate : Type 0 where
  pub item_count : ℕ
  pub cpu_instructions : ℕ
  pub cpu_instruction_limit : ℕ
  pub exceeds_threshold : Bool
  pub recommended_max_items : ℕ

pub data Estimate : Type 0 where
  estimated : ResourceEstimate → Estimate
  bad_item_count bad_cpu_instruction_limit bad_warn_threshold : Estimate

-- The items that fit: `cpuInstructionLimit * warnThreshold` less the overhead, shared among items.
unfoldable pub recommended : BatchFootprintOptions → ℕ → ℕ
recommended o item_count =
    let usable =
      o.cpu_instruction_limit * o.warn_num - o.fixed_overhead_instructions * o.warn_den in
    if ltb 0 o.instructions_per_item
    then max 1 (usable / (o.instructions_per_item * o.warn_den))
    else item_count

-- `utilizationRatio > warnThreshold`.
unfoldable pub exceeds : BatchFootprintOptions → ℕ → Bool
exceeds o cpu_instructions =
    ltb (o.cpu_instruction_limit * o.warn_num) (cpu_instructions * o.warn_den)

unfoldable pub estimate : BatchFootprintOptions → ℕ → ResourceEstimate
estimate o item_count =
    let cpu_instructions = o.fixed_overhead_instructions + o.instructions_per_item * item_count in
    record {
      item_count = item_count;
      cpu_instructions = cpu_instructions;
      cpu_instruction_limit = o.cpu_instruction_limit;
      exceeds_threshold = exceeds o cpu_instructions;
      recommended_max_items = recommended o item_count;
    }

unfoldable pub estimate_batch_footprint : BatchFootprintOptions → ℕ → Estimate
estimate_batch_footprint o item_count =
    if ltb item_count 1
    then bad_item_count
    else if leb o.cpu_instruction_limit 0
    then bad_cpu_instruction_limit
    else if leb o.warn_num 0 || ltb o.warn_den o.warn_num
    then bad_warn_threshold
    else estimated (estimate o item_count)

threshold_iff : (a b c n q : ℕ) → b ≤ a → (n ≤ q) ↔ (c ≤ a - b) → ltb a (b + c) ≡ ltb q n
threshold_iff a b c n q h s = ground (arith, s)

module _ (per fixed limit num den : ℕ) where
  abbrev quotient : ℕ
  quotient = (limit * num - fixed * den) / (per * den)

  fits_iff :
      (n : ℕ)
      → 0 < per * den
      → fixed * den ≤ limit * num
      → ltb (limit * num) ((fixed + per * n) * den) ≡ ltb quotient n
  fits_iff n p h =
      let expanded : (fixed + per * n) * den ≡ fixed * den + n * (per * den) = grind arith in
      rw expanded (
        threshold_iff (limit * num) (fixed * den) (n * (per * den)) n quotient h
          (le-div_iff_mul-le {k = per * den} {x = n} {y = limit * num - fixed * den} p))

  room_for_one : 0 < per * den → (fixed + per) * den ≤ limit * num → max 1 quotient ≡ quotient
  room_for_one p h =
      let expanded : (fixed + per) * den ≡ fixed * den + 1 * (per * den) = grind arith in
      let one : 1 ≤ quotient =
        (le-div_iff_mul-le {k = per * den} {x = 1} {y = limit * num - fixed * den} p).1
          (omega (arith, expanded)) in
      omega (arith, one)

-- For a positive cost per item and a threshold that leaves room for one item, a batch exceeds the
-- threshold exactly if it has more items than recommended.
pub estimate-exceeds :
    (o : BatchFootprintOptions) (item_count : ℕ)
    → 0 < o.instructions_per_item
    → 0 < o.warn_den
    → (o.fixed_overhead_instructions + o.instructions_per_item) * o.warn_den
      ≤ o.cpu_instruction_limit * o.warn_num
    → (estimate o item_count).exceeds_threshold
      ≡ ltb (estimate o item_count).recommended_max_items item_count
unfolding estimate recommended exceeds
estimate-exceeds o item_count p d h =
    let positive : ltb 0 o.instructions_per_item ≡ true = ground arith in
    let scale : 0 < o.instructions_per_item * o.warn_den = mul-pos p d in
    let fixed : o.fixed_overhead_instructions * o.warn_den ≤ o.cpu_instruction_limit * o.warn_num =
      grind (arith, h) in
    rw
      (
        positive,
        room_for_one o.instructions_per_item o.fixed_overhead_instructions o.cpu_instruction_limit
            o.warn_num o.warn_den scale h,
      )
      (fits_iff o.instructions_per_item o.fixed_overhead_instructions o.cpu_instruction_limit
        o.warn_num o.warn_den item_count scale fixed)
