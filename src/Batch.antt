-- ===== src/Batch.antt =====
-- src/batch-tx.ts: chunking a list of operations, and submitting built transactions in order.
pub mod Chunk
pub mod Submit
pub mod Failed
