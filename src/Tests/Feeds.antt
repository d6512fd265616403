-- ===== src/Tests/Feeds.antt =====
-- src/indexer.ts, the semaphore of src/builder.ts and src/fee-estimator.ts at small inputs.
use stream_fi_sdk.Base.{ℕ, ◌≡◌, refl, some, List, [], ◌∷◌}
use stream_fi_sdk.Footprint.{BatchFootprintOptions, recommended, estimate}
use stream_fi_sdk.Indexer.{observe_all, observe, gap_at, next_current}
use stream_fi_sdk.Semaphore.{
  Call, acquires, releases, run, new, acquire, release, IsFair, new-IsFair,
}

abbrev ledgers : List ℕ
ledgers = 11 ∷ 15 ∷ 12 ∷ 16 ∷ []

-- The ledgers 12 to 14 were missed; 12 comes late.
one_gap : observe_all (some 10) ledgers ≡ (some 16, record { expected = 12; actual = 15 } ∷ [])
unfolding observe_all observe gap_at next_current
one_gap = refl

abbrev calls : List Call
calls = acquires 7 ∷ acquires 8 ∷ acquires 9 ∷ releases ∷ []

hands_on : (run (new 1) calls).granted ≡ 7 ∷ 8 ∷ []
unfolding run new acquire release
hands_on = refl

new-IsFair_example : IsFair (7 ∷ 8 ∷ 9 ∷ []) (run (new 1) calls)
new-IsFair_example = new-IsFair 1 calls

abbrev defaults : BatchFootprintOptions
defaults = record {
  instructions_per_item = 4000000;
  fixed_overhead_instructions = 2000000;
  cpu_instruction_limit = 100000000;
  warn_num = 9;
  warn_den = 10;
}

twenty_two : (estimate defaults 25).recommended_max_items ≡ 22
unfolding estimate recommended
twenty_two = refl
