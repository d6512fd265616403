-- ===== src/Tests.antt =====
-- Runs of the model at small inputs, and each result of the library applied to one.
mod Circuits
mod Batches
mod Streams
mod Caches
mod Retries
mod Relayers
mod Feeds
mod Amounts
mod Subscriptions
mod Pools
mod Histories
mod Faults
mod Builders
mod Signatures
