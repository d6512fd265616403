-- ===== src/Relayer.antt =====
-- src/relayer/WebSocketRelayer.ts: `WebSocketRelayer` as a machine. Each method runs without a break
-- up to an `await`; what comes after one is a task, and the browser's events, its timers and the
-- tasks' turns are the events of the machine.
pub mod State
pub mod Sending
pub mod Connecting
pub mod Machine
pub mod Bounds
pub mod Turns
pub mod Flush
