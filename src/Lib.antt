-- ===== src/Lib.antt =====
-- Verification of FlowFi, payment streaming on Stellar.
--
-- The backend indexes the events of the stream contract into a database, answers what a stream's
-- recipient can claim, and notifies clients over server-sent events. The model follows the
-- TypeScript sources function by function.
--
-- - Prelude: numbers, integers (BigInt, and numbers that hold integers), text as code units with
--   `trim`, `BigInt(text)` and `toString`, and JavaScript's `Map` in insertion order.
-- - MemoryCache: the LRU cache of backend/src/lib/redis.ts (`get`, `set`, `del`, `getMetadata`,
--   `getStats`, `cleanup`). `Date.now()` is an argument of each call.
-- - Claimable: backend/src/services/claimable.service.ts: the i128 arithmetic, the cache key, and
--   `getClaimableAmount` through the cache. A thrown error is `none`.
-- - Indexer: backend/src/workers/soroban-event-worker.ts. Xdr has the decoding helpers, Tables
--   the rows and queries of the database (backend/prisma/schema.prisma), Bodies and Reads what
--   each handler reads from an event, Transactions what it writes, Handlers the handlers with
--   their broadcasts and the dispatch, and Poll the poll cycle with the dead letters of
--   backend/src/services/indexerService.ts and the state row of backend/src/lib/indexer-state.ts.
--   Rows, Keys, Post, Validity, Amounts, Preservation and Processing are about the tables, Replay
--   and Renewal about an event that is delivered twice, Batch, Isolation and Health about poll
--   cycles, Integers about decoded amounts, and Reachable about the columns that
--   backend/src/controllers/stream.controller.ts selects for the claimable service. DeadLetters
--   lists, replays and discards dead letters (backend/src/services/indexerService.ts), with Rows
--   about their rows and Accounts about what a replay of all counts. An event that is read from a
--   payload is as the function that reads it says.
-- - Sse: backend/src/services/sse.service.ts, the registry of clients of server-sent events. A
--   Network says what each response does with a write. Registry and Counts are about its counts,
--   Operations about each operation, Sequences about any order of them, Limits about the limits
--   where check and opening are one step, Race about the wait between the two
--   (backend/src/controllers/sse.controller.ts), Delivery about broadcasts. The indexer's
--   broadcasts are calls of these.
-- - RpcPool: backend/src/lib/rpc-pool.ts. What an operation comes to on each endpoint, its time
--   limit included, is given by Calls. Breaker is about the states of the circuits, Failover
--   about which endpoints are tried.
-- - Amount: frontend/src/utils/amount.ts, `formatAmount`, `parseAmount` and
--   `streamProgressPercent`. Digits is about padded and stripped digits, RoundTrip about
--   formatting and parsing, Progress about the percentage.
-- - Runway: backend/src/workers/stream-runway-worker.ts, over the indexer's rows and through the
--   claimable service. Forecast is about what a runway foretells, Spacing about the alerts of one
--   stream.
-- - Csv: the writer of frontend/src/utils/csvExport.ts and `parseCSVLine` of
--   frontend/src/lib/csv-parser.ts. RoundTrip is about both.
-- - Payroll: `validateEntry` and `parseBatchCSV` of frontend/src/lib/csv-parser.ts. What an
--   amount reads as is given by a function, since it is floating point. Validation is about what
--   a row must be, Totals about the summary.
-- - Webhook: backend/src/services/webhook.service.ts. Webhook has the subscriptions, Signing the
--   signatures, Deliver the attempts, Dispatch the deliveries that run in parallel, as tasks that
--   go on from wait to wait in any order; the HMAC and what each attempt meets are arguments.
--   Attempts is about one delivery, Binding about signatures, Owners about the users, Calls about
--   whom a dispatch calls, Ends about its end. An update writes whatever columns a body names.
-- - Summary: `getUserStreamSummary` of backend/src/controllers/stream.controller.ts and its
--   cache, through the claimable service. Freshness is about how old an answer may be, Counts
--   about the numbers of a summary.
-- - Listing: `findStreams` of backend/src/repositories/stream.repository.ts and `listStreams` of
--   the stream controller; what the database makes of the rows of a query is an argument. Order
--   is about sorted rows without ties, Walk about the pages.
-- - Export: backend/src/services/export.service.ts. Export has the records and the lines, Write
--   the pages of the query and the two exports; how a time is printed is an argument. Pages is
--   about the loop over pages, Records about what is written, Elements about the text of the
--   export as JSON, Amounts about one record. The fuel is a bound on pages.
-- - Streams: backend/src/controllers/stream.controller.ts, less its lists and the user's summary,
--   with `parseStreamId` of backend/src/lib/stream-id.ts. Streams has the creation, TopUp the
--   top-up, Withdraw the withdrawal (backend/src/routes/v1/streams/withdraw.ts) and the
--   cancellation (backend/src/controllers/stream/cancel.ts), Answers the handlers that change
--   nothing. The answers of the chain are arguments, and so is what others write while one of
--   them waits. Ownership, Withdrawals and Parties are about what requests of others leave alone,
--   Resets about a creation of a stream that is there, TopUps about the deposit.
--
-- The clock, the answers of the RPC and the text encodings of keys are arguments. A handler that
-- throws is an error value, and its transaction leaves the tables alone. A failing database, spans,
-- metrics and logs are not modelled. Times are whole numbers; the source's conversions of 64-bit
-- times to numbers are exact below 2^53, and are taken to be. The order of keys in an object is the
-- order in which they are written.
--
-- Fuel: `toString` of a number n takes n + 1 rounds at most, one for each digit; the pages of an
-- export and of a walk through a list take one round each, and no more than there are rows, and
-- one; every other recursion is structural.
pub mod Prelude
pub mod MemoryCache
pub mod Claimable
pub mod Indexer
pub mod Sse
pub mod RpcPool
pub mod Amount
pub mod Csv
pub mod Payroll
pub mod Webhook
pub mod Runway
pub mod Streams
pub mod Export
pub mod Summary
pub mod Listing
