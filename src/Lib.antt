-- ===== src/Lib.antt =====
-- A model of the core of the StreamFi SDK (TypeScript), with the results about it.
--
-- The SDK reads and writes payment streams on Soroban. Around the contract calls it keeps state of
-- its own, which this library models:
--
-- Circuit: src/rpc-circuit-state.ts. The three tables of the module are the record `Circuits`, and
--   every exported function is one operation on it (`getCircuitState` is `get_circuit_state`, and so
--   on). Callbacks are numbers, and what they are told is the list of events. Circuit.Breaker is
--   `class RpcCircuitBreaker`: `execute` is `start` and `settle`, between which other calls may run.
-- Retry: src/with-retry.ts. `withRetry` with its options and jitter. It consults a circuit of the
--   part above before its loop. The loop has fuel for `maxRetries + 1` attempts, which is enough:
--   the reply that stands for running out is never given. `Math.random()` is a fraction.
-- Batch: src/batch-tx.ts. Batch.Chunk is `chunkBatchOperations`, whose loop has one round for each
--   item at most; Batch.Submit is `submitBatch`, where each transaction comes with the answers that
--   the signer, the network and the abort signal give it. A poll loop has the rounds that the
--   options allow. Batch.Failed is `BatchPartiallySubmittedError`, the error it throws.
-- Cache: src/lru-memo-cache.ts. `LruMemoCache` with its two maps; a JavaScript map is a list in
--   order of insertion (Base.JsMap). Cache.Snapshot is `serialize` and `hydrate`, whose text is what
--   `JSON.parse` makes of it, and Cache.Calls any sequence of the methods that change the cache.
-- Relayer: src/relayer/WebSocketRelayer.ts. `WebSocketRelayer` as a machine: `step` is one event, which
--   is a call of a method, an event of a socket, the end of a timer, or the turn of a task that has
--   the lock. Socket and promise identities are numbers.
-- Stream: src/utils.ts, the functions on a `StreamInfo` (src/types/index.ts) that the dashboards
--   use in place of a contract call. Stream.Preview and Stream.Validate are the pure functions of
--   src/streams.ts, which reads amounts with the part below.
-- Amount: src/utils.ts, `toStroops`, `fromStroops`, `calculateRate` and `formatTokenAmount`. Text is a
--   list of code units, and a call that throws gives `none`. A number is printed with fuel of one
--   more than itself, and a number has fewer digits than that.
-- Duration: src/utils.ts, `formatDuration` and `parseDuration`; the loop of `re.exec` has a round for
--   each character at most.
-- Events: src/events.ts. Events.Replay is `replayEvents`, whose loop has `maxPages` rounds, with the RPC
--   server as a parameter. Events.Subscription is `subscribeToStream` as a machine: `step` is one
--   happening, an answer of the server among them, so that backfills and polls interleave. It keeps
--   the ledger detector of Indexer.
-- Signature: src/signer.ts, `derToRawSignature`; bytes are numbers, and lengths of more than one byte are
--   signed numbers of 32 bits.
-- Concurrency: src/map-with-concurrency.ts. The calls in flight are indices, and the order in which they
--   end is an argument. Concurrency.Adaptive is the limit that adapts to the times of the calls.
-- Coalesce: src/coalesce-async.ts. Promises are numbers; a call, the end of a call and the end of a
--   timer are operations on the map, the calls in flight and the timers.
--
-- History: src/dashboard/transaction-history.ts. The rows and how a payload becomes them, the filters
--   behind their cache, the reducer, the selectors of a page and the CSV export. History.Heap is
--   `topKByTimestampDesc` with its array as a list; `siftDown` has as many rounds as the heap has
--   entries and the loop after a push as many as the entry's index, which is enough for both. The
--   tables of Unicode and the readers of numbers and dates are the parameter `Readers`.
--
-- Builder: src/builder.ts. `StreamBuilder.submit` as a machine, where `step` is a call, an answer of
--   `submitFn`, the end of a timer, an abort, `cleanup` or `reset`; a call is a number, and its calls of
--   `submitFn` are counted beside its attempts, which the code does not do. Builder.Config
--   is the fields with their setters, `validate` and `build`; what it needs of the Stellar SDK and of
--   doubles is the parameter `Environment`.
--
-- Errors: src/errors.ts. Errors has the codes of the contracts and the search for one in what was thrown,
--   whose causes are a function of the depth; the loop has five rounds, as in the source. Its `number`
--   rounds a code to a double, doubling the unit four times for each digit at most. Errors.Parse is
--   `parseContractError`, with the messages of the typed errors left out, Errors.Translate is
--   `translateStreamError`, Errors.Hints is `getRecoveryHint` and Errors.Recoverable `isRecoverableError`.
--
-- Semaphore: `class Semaphore` of src/builder.ts.
-- Indexer: `class LedgerGapDetector` of src/indexer.ts; its state is the ledger it tracks. Indexer.Fetch
--   is `fetchAll`, whose loop has `maxPages` rounds.
-- Confirmation: `pollForConfirmation` of src/soroban.ts, whose loop has `maxAttempts` rounds.
-- Footprint: `estimateBatchFootprint` of src/fee-estimator.ts, with exact fractions.
-- Paging: `clampListLimit` and `clampOffset` of src/constants.ts.
--
-- Texts has what History, Builder and Errors use of strings, Base the shared names and lemmas, and
-- Tests runs the model at small inputs.
--
-- Numbers are naturals: times are whole milliseconds or seconds, and the amounts of a stream are stroops
-- that are not negative (Amount has the signed ones); NaN, infinities and negative options are outside
-- the model. Errors that are thrown are values. Not modelled: the transport, the Stellar SDK's encoding of transactions and events, the
-- wallet adapters, the React packages, the analytics modules, the GraphQL requests, the mapping of
-- Horizon errors, `ConduitBatcher`, the token bucket of the worker pool and `metrics` of the cache.
mod Base
pub mod Circuit
pub mod Retry
pub mod Batch
pub mod Cache
pub mod Stream
pub mod Relayer
pub mod Semaphore
pub mod Indexer
pub mod Footprint
pub mod Paging
mod Tests
pub mod Amount
pub mod Duration
pub mod Events
pub mod Concurrency
pub mod Signature
pub mod Coalesce
pub mod Confirmation
pub mod History
pub mod Builder
pub mod Texts
pub mod Errors
