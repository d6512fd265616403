-- ===== src/Retry.antt =====
-- src/with-retry.ts: `withRetry`. A run sees the world through what each attempt meets: the
-- operation's result, the draw of `Math.random()`, and whether the signal was aborted. Delays are
-- whole milliseconds and `Math.random()` is a fraction below 1.
pub mod Jitter
pub mod Loop
pub mod Waits
pub mod Schedule
pub mod Attempts
pub mod Scope
