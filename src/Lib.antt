-- ===== src/Lib.antt =====
-- Sakura Assistant: the two Go programs, agent/ (the collector on a monitored device) and hub/ (the
-- server that it reports to).
--
-- Agent. Agent.Queue (agent/internal/queue/queue.go) is the persistent queue: Agent.Queue.Rows has
-- the tables and SQL statements, Agent.Queue the operations on one stream, metrics or events. Every
-- operation of the model is one statement or one transaction, so a database error leaves the stream
-- as it was; the sender's `db` makes that choice. TakeOverflow, which is two statements and no
-- transaction, is the two operations read_overflow and clear_overflow. Agent.Queue.Fifo, Steps,
-- Ledger, Taken and Delivery are proofs. Agent.Client (agent/internal/report/client.go) reads the
-- hub's answers, Agent.Pace and Agent.Reporter (agent/internal/report/reporter.go) send what the
-- queue holds: Agent.Reporter.Drain is drainOnce, Drain.Order and Drain.Livelock are proofs about
-- it; Agent.Reporter.Loop is drainLoop, pass by pass, with the probe of a hub that refuses the key,
-- and Reporter.Latched a proof. The n-th interaction of the sender with the database, the clock or
-- the hub is answered by an `Env`; the JSON encoders are fields of it. The loops of drainOnce take
-- fuel, one unit for each round; more fuel than pending batches is enough where the hub refuses
-- none as poison.
--
-- Hub. Hub.Types (hub/types.go, hub/db.go) has the rows, Hub.Store (hub/store.go) transactions and
-- the change log, Hub.Severity (hub/util.go) the severities. Hub.Fault (hub/fault.go) applies an
-- event: Fault.Tables has the statements, Fault.Machine the state machine of a fault, Fault.Apply
-- the whole of applyEventTx; Fault.Lifecycle, Arrival, Invariant and Events are proofs, with
-- Hub.Ensures. A table is the list of its rows, newest last. A failing statement ends a transaction
-- and rolls it back, whichever it is, so `with_tx` takes one flag for them all. The clock, the ids
-- and the JSON encoders are fields of `HubEnv`.
--
-- Hub.Ingest (hub/ingest.go) takes a batch of events: Ingest.Validate checks one event,
-- Ingest.Events is the handler after its body is decoded, with the sort a parameter; Ingest.Record,
-- Positions, Delivered, Redelivery, Partition and Soundness are proofs. Hub.Rules (hub/rules.go,
-- hub/types.go) is the rule engine: Rules.Types has samples and rules, Rules.Threshold what one
-- value does to a timer, Rules.Containers and Rules.Nas the other rules, Rules.Engine the timers
-- and evalSample, Rules.Heartbeat the check for lost sources; Rules.Window, Wrapped, Silence,
-- Soundness and Committed are proofs. Measured values are of any type with an order, and the texts
-- that print them are parameters. The seconds of a rule are natural numbers, and their product with
-- a second wraps around as a time.Duration does. Hub.Metrics (hub/ingest.go) takes a sample:
-- Metrics.Tables has the rows of samples and what is kept of the source, Metrics.Batch the handler,
-- which runs the rules; Metrics.Stale is a proof. The tables of samples are beside the `Hub`, and
-- the timers of the rules are in memory.
--
-- Hub.Auth (hub/auth.go) has the sessions: Auth.Limiter counts the attempts to log in, Auth.Decimal
-- is itoa, Auth.Sessions has login and the two keys, Auth.Refresh refresh and logout; Auth.Window,
-- Rotation, Race and Login are proofs. The clock, random tokens, hashes and bcrypt are fields of
-- `AuthEnv`, which the n-th statement asks by its number. A handler is one step: between the SELECT
-- and the UPDATE of handleRefresh, which are two statements and no transaction, no statement of
-- another request comes; Auth.Race puts them in another order.
--
-- Hub.Stream (hub/sse.go, hub/store.go) is the stream of changes: Stream.Frames prints an event as
-- bytes, Stream.Client is one client beside the writers, as a function on steps: commits,
-- publications in any order, the subscription, the replay and the loop. Stream.Reader is an
-- EventSource, which reads the bytes; it describes the client's side and is no code of the
-- repository. Stream.Lines, Numbers, Order, Upcoming, Delivery and Overflow are proofs.
--
-- Hub.Retention (hub/retention.go) deletes what is old: Retention.Run is runRetention,
-- Retention.Present, Told and Sound are proofs. The tables of metrics are beside the `Hub`.
--
-- Hub.Admin (hub/admin.go, hub/store.go) is administration: Admin.Sources makes and changes
-- sources, Admin.Keys rotates their keys and deletes them, Admin.Settings and Admin.Rules have the
-- two documents with their versions; Admin.Shut, which also takes the door of Hub.Auth,
-- Admin.Versions and Admin.Distinct are proofs.
--
-- Hub.Api (hub/api.go): Api.Sync is handleSync, a page of the changes; Api.Paging follows its
-- cursors, with one round of fuel for each change, which is enough since a page has at least one;
-- Api.Skipped is a commit between its two statements. Api.Flags is updateFaultFlags and
-- setMessageRead, Api.Again a proof.
--
-- Sequence numbers are int64 in the source and natural numbers here: a negative one is not
-- modelled, and neither is an overflow of 2^63. Neither are the negative forSeconds and
-- recoverForSeconds that validateRulesDoc refuses: `check_threshold` leaves out these two tests.
-- Times are nanoseconds, or texts where the source keeps texts. Not modelled: the app (Dart,
-- Kotlin), the probes of the collector, HTTP routing, the feedback and attachment proxies, the
-- release cache, the series of metrics and their rollup, the installation notes, and the answers
-- that only print rows.
pub mod Base
pub mod Agent
pub mod Hub
