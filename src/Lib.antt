-- ===== src/Lib.antt =====
-- kafkaman, a library for a transactional outbox, an entity cache and a dispatcher between Postgres
-- and Kafka.
--
-- A writer enqueues an entity's new state in its own transaction; a relay claims the newest state of
-- each entity, publishes it and marks it. On the other side an ingest stores each record in the
-- received table; a dispatcher claims one due row at a time, converges the cache with it, calls the
-- application's handlers and marks the row, or records why it failed and when it is tried again.
--
-- The parts and the files that model them:
--   Base         shared names and lemmas: tests, lists, integers, a table as a list of rows with the
--                statements that select, update and delete, `ORDER BY`.
--   Core         crates/kafkaman-core/src: Status (status.rs, enum_macros.rs), Problem (problem.rs,
--                failure_kind.rs), Error (error.rs), Config (relay_config.rs, dispatcher_config.rs,
--                purge_config.rs), Sampler (lifecycle.rs), Idempotency (idempotency.rs: the
--                hexadecimal form of a key), Rfc9557 (rfc9557.rs), Topics (topics.rs),
--                Identifier (identifier.rs). Core/Names, Core/Identifier/Accepted,
--                Core/Validated, Core/Sampler/Rate, Core/Idempotency/Hex and
--                Core/Topics/Reconciled hold the theorems.
--   Failure      crates/kafkaman-sqlx/src/error.rs and the classification of dispatch_failure.rs.
--   Outbox       crates/kafkaman-sqlx/src/outbox_enqueue.rs (Enqueue: enqueue_inner), outbox_claim.rs
--                (Claim: claim_batch, collapse_stale_pending_rows), outbox_mark.rs (Mark:
--                mark_published, mark_publish_failed), outbox_purge.rs (Purge: purge_outbox_once).
--                Outbox/Order models the sessions as steps of one table with a log of publications.
--   Received     crates/kafkaman-sqlx/src/received_rows.rs (Rows) and retry_backoff.rs (Retry).
--                Storage and Quarantine are received_storage.rs and ingest_failure.rs:
--                insert_received_with_outcome, insert_received_ingest_failure. Claim, Recording,
--                Ends, Dedup, Once, Redelivery, Kept and Arrival hold the theorems.
--   Cache        crates/kafkaman-sqlx/src/dispatch_cache.rs: upsert_cache_from_received,
--                classify_skipped_cache_apply, migrate_cache_origin. Origin, Guard, Convergence and
--                Migration hold the theorems.
--   Dispatch     crates/kafkaman-sqlx/src/dispatch.rs and dispatch_failure.rs; Router is router.rs,
--                and Cycle the end of a cycle: dispatch_once is dispatch_once_inner. Atomicity,
--                Handled and Work hold the theorems.
--   Worker       crates/kafkaman-worker/src: Relay (relay.rs: relay_once is relay_once_inner) and
--                Dispatcher (dispatcher.rs: what run_dispatcher makes of each cycle's result).
--                Publishing, Steps and Breaker hold the theorems.
--   Kafka        crates/kafkaman-rdkafka/src: Headers and Decode (ingest_record.rs), Publisher
--                (publisher.rs), Consumer, Ingest and Loop (consumer.rs, stats.rs); the errors are
--                error.rs. Keys, Namespaces, Wire, Carried, RoundTrip, Enqueued, EndToEnd, Named,
--                Accounted, Acknowledged, AtLeastOnce, Undisturbed, Breaker and Totals hold the theorems.
--   Examples     the theorems at concrete rows.
--
-- How state corresponds. A table is the list of its rows, and a SQL statement a function on it that
-- is one step; the rows that other sessions lock, the clock and the faults of the database are
-- parameters of a run, as are errors in the decoding of a claimed row. A transaction works on a copy that replaces the table at the commit. The cache
-- is a function of the entity key, which is the primary key of its table. Text is a string, a UUID
-- and an instant a number, and a JSON value a type parameter. Loops over rows are structural
-- recursion, so that no fuel is needed.
-- Inside the transaction of one dispatch cycle no other session changes what the cycle reads; the
-- theorems of Cache/Guard do without this.
--
-- The consumer's state is the two tables, the counter of its breaker, the records it took, and the
-- positions whose commit the broker confirmed; a loop runs over the list of calls that come before the
-- shutdown, each with its record, its faults and what other sessions commit. Committing the position
-- behind a record acknowledges all the records of the partition below it, those too whose call
-- failed: the loop does not take these again. The tests at the end of Examples/Kafka show such a run.
-- A `COMMIT` that fails may have taken effect or not. The counter of skips is a number without a
-- bound.
--
-- An instant is a number of nanoseconds; the columns `occurred_at` keep it to the microsecond, and the
-- clock of the database has no finer readings. The column `attempts` is an integer, and the cycle fails
-- where it would leave the range of an INTEGER.
--
-- Not under the sources, and so parameters: the errors of sqlx (whether one is of the database, and
-- its SQLSTATE), the code of message types and handlers, the random generator of the jitter, the
-- decoding of UTF-8, and the codec of the Kafka crate: UUIDs, RFC 3339, JSON and the payload's
-- deserializer. The float arithmetic of the backoff and of the sampling rate is a parameter too,
-- by its result.
--
-- Not modelled: the outer worker loops, the canonical JSON of idempotency keys,
-- the schema with its changesets, replay, resync and the operator queries, the configuration files,
-- the client handles and the topic administration of the Kafka crate, and the HTTP and telemetry
-- crates, which are mostly I/O.
pub mod Base
pub mod Core
pub mod Failure
pub mod Outbox
pub mod Received
pub mod Cache
pub mod Dispatch
pub mod Worker
pub mod Kafka
pub mod Examples
