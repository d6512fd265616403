-- ===== src/Errors/Hints.antt =====
-- src/errors.ts: the recovery hints, `getRecoveryHint`.
use stream_fi_sdk.Base.{ℕ, ◌≡◌, refl, List, [], ◌∷◌, String, ◌==◌, if◌then◌else◌}
use stream_fi_sdk.Errors.{
  ConduitContract, stream, factory, governor, messages_by_contract, has_code,
}

abbrev pub stream_recovery_hints : List (ℕ × String)
stream_recovery_hints =
    (
      1,
      "Verify the calling account matches the stream’s sender or recipient; sign with the correct keypair, wallet, or signer for this operation.",
    )
    ∷ (
      2,
      "Confirm the stream ID exists and was created on the network you’re currently connected to (mainnet vs. testnet IDs do not overlap).",
    )
    ∷ (
      3,
      "This stream was already cancelled — no further withdrawals, pauses, or resumes are possible. Create a new stream instead.",
    )
    ∷ (
      4,
      "Wait until the stream’s startTime is reached before withdrawing or otherwise interacting with it.",
    )
    ∷ (
      5,
      "The stream has passed its endTime. Withdraw any remaining balance; no further streaming will occur.",
    )
    ∷ (
      6,
      "Call withdrawable() first — the balance may already be fully withdrawn, or the stream may not have accrued anything yet.",
    )
    ∷ (
      7,
      "Increase depositAmount or shorten durationSeconds so the resulting rate covers at least one second of streaming.",
    )
    ∷ (8, "Ensure endTime (or stopTime) is strictly greater than startTime.")
    ∷ (9, "The stream is already paused — call resume() before pausing it again.")
    ∷ (10, "The stream is not currently paused — pause() must be called before resume().")
    ∷ (
      11,
      "This stream was created with clawbackEnabled: false. Clawback is only available on streams created with that flag set.",
    )
    ∷ (
      12,
      "Reduce the amount, rate, or duration involved — the computation overflowed the contract’s 128-bit integer range.",
    )
    ∷ (
      13,
      "force_cancel requires the stream to have been paused for at least 30 days. Wait for the threshold to elapse, or use cancel() instead if you’re authorized to.",
    )
    ∷ (
      14,
      "This stream contract has already been initialized — initialize() is a one-time setup call per deployment.",
    )
    ∷ (15, "Provide an amount greater than zero.")
    ∷ []

abbrev pub factory_recovery_hints : List (ℕ × String)
factory_recovery_hints =
    (
      1,
      "The factory has not been initialized yet — this is normally done once during protocol deployment/governance setup.",
    )
    ∷ (2, "depositAmount must be greater than zero.")
    ∷ (
      3,
      "The computed ratePerSecond must be greater than zero — check your depositAmount/durationSeconds math.",
    )
    ∷ (4, "Ensure endTime is strictly greater than startTime.")
    ∷ (
      5,
      "Increase the deposit so it covers at least one second of streaming at the given rate across the full declared duration.",
    )
    ∷ (
      6,
      "startTime must be now or in the future — check for clock skew or a stale timestamp before building the transaction.",
    )
    ∷ (7, "The factory has already been initialized — this is a one-time setup call.")
    ∷ (
      8,
      "Lower ratePerSecond below the governor’s configured max_rate_per_second, or ask governance to raise the limit.",
    )
    ∷ (9, "Increase durationSeconds to at least the governor’s configured min_duration_seconds.")
    ∷ (10, "Reduce the deposit or duration involved — the validation computation overflowed.")
    ∷ []

abbrev pub governor_recovery_hints : List (ℕ × String)
governor_recovery_hints =
    (
      1,
      "Only the current governor authority can perform this action — verify you’re signing with the configured governor address.",
    )
    ∷ (
      2,
      "Check fee_bps (must be ≤ 10,000) and any duration/rate parameters passed to setConfig — one of them failed validation.",
    )
    ∷ (3, "The governor has already been initialized — this is a one-time setup call.")
    ∷ []

abbrev pub recovery_hints_by_contract : ConduitContract → List (ℕ × String)
recovery_hints_by_contract stream = stream_recovery_hints
recovery_hints_by_contract factory = factory_recovery_hints
recovery_hints_by_contract governor = governor_recovery_hints

abbrev pub default_recovery_hint : String
default_recovery_hint =
    "No troubleshooting hint is available for this error code. Check the contract’s errors.rs and the Conduit protocol docs for its meaning."

abbrev pub hint_or_default : ℕ → List (ℕ × String) → String
hint_or_default code [] = default_recovery_hint
hint_or_default code ((c, hint) ∷ hints) =
    let later = hint_or_default code hints in if c == code then hint else later

unfoldable pub get_recovery_hint : ConduitContract → ℕ → String
get_recovery_hint contract code = hint_or_default code (recovery_hints_by_contract contract)

-- A contract has hints for the codes that it has messages for, and for no other.
has_code-recovery_hints :
    (contract : ConduitContract) (code : ℕ)
    → has_code code (recovery_hints_by_contract contract)
      ≡ has_code code (messages_by_contract contract)
has_code-recovery_hints stream code = refl
has_code-recovery_hints factory code = refl
has_code-recovery_hints governor code = refl
