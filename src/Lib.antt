-- ===== src/Lib.antt =====
-- Adept Engine: the durable queue of jobs and its workers, the metrics, and the risk rules.
--
-- Processes of the engine run several consumer threads over one PostgreSQL database. A thread claims a
-- job, leases it, and dispatches it to a handler; the outcome of the attempt is a write to the job's
-- row. Handlers compute metrics and labels by pure functions.
--
-- Jobs, for app/jobs: `Table` is the table processing_jobs as a list of rows (Jobs/Row.antt has the
-- columns that the code reads or writes), and each transaction a function of the table, of its
-- `now()` in microseconds and of the locks that other transactions hold.
--   Jobs/Sanitize, Jobs/Retry: app/jobs/retry.py, one function for each of its functions
--   Jobs/Claimer: app/jobs/claimer.py; `Locks` says which rows SKIP LOCKED passes over
--   Jobs/Dispatcher: app/jobs/dispatcher.py; `Handlers` are the functions of HANDLERS, any of them
--   Jobs/Advisory, Jobs/Lease: app/jobs/lease.py; `hash` is PostgreSQL's hashtextextended; sessions
--     enter and leave leases by the relation `Step` of Jobs/Lease/Exclusion
--   Jobs/QueueMetrics: app/jobs/queue_metrics.py
--   Jobs/Invariant, Jobs/Keeps: the invariant of rows, and that the writes keep it
-- Worker, for app/worker.py: one consumer's loop. A `Turn` has what the thread does not decide in one
-- turn: the clock, other transactions, whether the stop event is set, how the lease begins.
-- Values: the JSON of payloads, and UUIDs as 128-bit numbers.
-- Metrics, for app/metrics: calculator.py is in Percentiles, Snapshot, Dora, Buckets (with the
-- calendar of `datetime` in Calendar) and cycle_time.py in CycleTime. Instants and durations are
-- microseconds, reported values whole numbers of the last decimal that `round` keeps.
-- Risk, for app/risk: stale.py in Stale, outcomes.py in Outcomes, its regular expressions in Matching.
-- Store: the rows of the tables on which the service, the normalization and the alerts work, each table
-- a list; `INSERT ... ON CONFLICT` is `upsert` of Base/Upsert.
-- Normalization, for app/normalization/deployments.py: Patterns (which runs and environments count as
-- production, with Python's fnmatch in Fnmatch), Deployments (`_run_upsert`), Deliveries (the two kinds of
-- events) and Reclassify.
-- Metrics/Service, for app/metrics/service.py: Incidents, Links, Enqueue, Snapshots and History for the
-- functions of these names, Queries for the SELECTs of a recalculation, Recalculate for
-- `recalculate_repository_metrics` and `_cycle_time_snapshots`; Iso is `isoformat` of `datetime`. A
-- `Database` has the tables, an `Environment` the zones, the time and the defaults of new rows.
-- Deliveries and recalculations call Links, Incidents and Enqueue; a recalculation ends with the job of
-- Alerts/Enqueue.
-- Alerts, for app/jobs/handlers/evaluate_alerts.py: Aggregate (rolling windows) with the Median that it
-- takes, Evaluate (the handler and the transaction that queues a delivery), Cooldown (what workers keep
-- together), Enqueue. A `Decimal` is a whole number of a unit that is small enough for all values.
-- Base: names, tests, lists, sorting and texts that the others share.
--
-- An exception is a value of `JobError`. Numbers are unbounded, as Python's are. The loop over periods
-- recurses on the number of periods that begin before the year 10000, and the step past the last one
-- raises, as the program's does; the conversion of a first or last local date whose UTC instant lies
-- outside the years 1 to 9999 is not modelled. Two functions have fuel: `month_from` (the day's number,
-- of which a day's month exceeds a thirty-first by less) and the digits of a number (the number itself
-- and one).
--
-- Not modelled: the text of an alert's email; the other handlers in app/jobs/handlers, the rest of
-- app/normalization, app/providers and the risk model; the threads,
-- signals and the HTTP server of `run`; logging and the counters of app/monitoring, since no failure
-- there changes what a worker does; the guard thread of a lease, whose loss of the connection ends
-- the process; doubles, for which exact numbers stand, so that a result may differ in a tie of its
-- last digit, and nothing is said of the order of percentiles.
pub mod Base
pub mod Values
pub mod Jobs
pub mod Worker
pub mod Metrics
pub mod Risk
pub mod Alerts
pub mod Normalization
pub mod Store
