-- ===== src/Lib.antt =====
-- Durable delivery in the backend of app_template: how a job that an API request schedules reaches a
-- worker, within its attempt budget, although messages, workers, coordinators and the broker may be
-- lost or doubled at any point; and what two of its modules, files and notifications, do with it.
--
-- The parts and how they interact. A producer writes a job and an outbox event in one transaction
-- (backend/app/modules/jobs/service.py, backend/app/modules/outbox/service.py). The coordinator
-- (backend/app/job_coordinator/loop.py) claims due events under a token, sends the reference-only
-- message through its allow-list (registry.py), and settles the event under that token; each cycle
-- ends with a pass that recovers lost jobs and runs, schedules sweeps and cleans the outbox
-- (reconciliation.py). A worker claims the job that the message names, under a rotated owner token
-- and a lease, and settles it by progress, success, failure or a durable retry, which is again an
-- outbox event. Maintenance runs (backend/app/modules/maintenance/service.py) follow the same scheme.
-- Two modules on top of it are modelled: files (backend/app/modules/files/service.py), whose upload
-- completion schedules the job that processes the file, and notifications
-- (backend/app/modules/notifications), whose job sends an email.
--
-- The files:
--   Prelude         names of the libraries, Boolean tests, lists as tables, properties of all elements
--   Models          the rows of jobs, job_attempts, outbox_events, maintenance_runs, files, notifications
--                   and notification_deliveries (models.py of each module), the audit rows, and the
--                   exceptions
--   Database        the tables as lists (App: those beside durable delivery), reads and writes of one
--                   row, the unique constraints, their laws, and the primary key of the outbox
--   Outbox          modules/outbox/contracts.py and service.py
--   Jobs            modules/jobs/service.py: Policy, Lookup, Failure, Claim and Settle hold the
--                   operations; Ledger and Invariant say how a job agrees with its attempts; Calls
--                   and Traces are about sequences of calls; Frame, Protection, Leases, Ownership,
--                   Progress and Retry hold the theorems on single calls
--   Jobs/Tasks      modules/jobs/tasks.py, the finalizer of exhausted messages; Finalizer holds its
--                   theorem
--   Jobs/Execution  modules/jobs/execution.py, the wrapper of a handler: Budget, Validity, Delivery
--                   and Retrying hold its theorems
--   Maintenance     modules/maintenance/service.py: Claim and Settle hold the operations on a run,
--                   Runs and Fence are about sequences of them
--   Files           modules/files/service.py, queries.py and authority.py: Tables, Validation, Upload,
--                   Service and Lifecycle hold the operations, StateMachine the abstract states, Calls,
--                   Invariant and Preservation say what a sequence of calls keeps, Steps and Transitions
--                   show it of each call; History, Refinement, Completion (with Verification and
--                   Finishing) and Access hold the theorems. Tasks is tasks.py, the processing
--                   job; Readiness, Transactions and Gate lead to its theorem in Trust
--   Notifications   modules/notifications/service.py (Service, Deliveries) and tasks.py (Email); Queue,
--                   Endings, Sends and Attempts follow a delivery through an attempt, Once,
--                   Superseded and Notices hold the theorems; Exhaustion is the hook of tasks.py with its theorem
--   Coordinator     modules/outbox/queries.py (Queries, Candidates), job_coordinator/registry.py
--                   (Registry), loop.py (Claims, Settlement, Publication, Backoff, Cycle) and
--                   reconciliation.py (Reconciliation, Upkeep, Pass); OwnedRows, Fencing, Selection,
--                   Claiming, Publication/, Reconciliation/, Backoff/, Cycle/ and
--                   Upkeep/ hold the theorems
--   Jobs/Examples, Jobs/TaskExamples, Jobs/Execution/Examples, Maintenance/Examples,
--   Coordinator/ClaimExamples, Coordinator/Examples, Files/Examples,
--   Files/MachineExamples, Files/TaskExamples, Notifications/Examples,
--   Notifications/SupersededExamples
--                   concrete runs, on the rows of Jobs/Samples and Files/Samples
--
-- The correspondence. A service call is a function from the tables to a result and the committed
-- tables; an exception commits nothing. The row lock of a call makes it one step, so an interleaving
-- of workers, producers and coordinators is a sequence of calls (Jobs.Calls); a coordinator's cycle is
-- many transactions, and what others commit between them is a parameter (Coordinator.Cycle.World). A
-- call reads the clock, fresh identifiers, the lease setting and the registered hooks from an Env.
-- Times are milliseconds after the epoch and identifiers are numbers. `SKIP LOCKED` is a predicate
-- that tells the rows others hold. The broker is a predicate on messages: it takes one or raises.
-- What the object storage, the scanner and the email provider answer to a request is an argument of
-- the call that asks them, an exception included; object keys are compared as wholes. An attempt of a
-- handler is many transactions too: what others commit between them is a part of its world.
-- `delete_file` and the `mark_file_*` calls read their row without a lock in the source; here each is
-- one step, as every service call is, so what is said of sequences of file calls is said of whole
-- calls, one after another.
--
-- Bounds and fuel. The exponent of the coordinator's backoff has as fuel the maximum delay: as many
-- doublings of a positive number reach it. The loop of run_claimed has 1202 turns: each deferral takes
-- the margin of 100 ms at least, and the budget is 120 s. The attempt budget is three, the
-- payload bound 16384 characters, the error bound 500.
--
-- Not modelled: what a registered exhaustion hook does in the transaction that calls it (a call is
-- recorded and never raises; the hook of the notifications is modelled by itself, in
-- Notifications.Exhaustion), the cancellation or interrupt of a handler, which its wrapper does not
-- catch, the row-level-security bindings of a session (each read sees the row that its policy
-- admits), metrics and logs, paged reads, the process around the coordinator's loop (signals, waits,
-- start-up), the floating-point rounding of the backoff settings, and the other modules of the backend.
pub mod Prelude
pub mod Models
pub mod Database
pub mod Outbox
pub mod Jobs
pub mod Files
pub mod Notifications
pub mod Maintenance
pub mod Coordinator
