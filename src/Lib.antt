-- ===== src/Lib.antt =====
-- Durable workflows: a model of the engine of the crate `durable-workflows`, and what it guarantees.
--
-- The engine keeps workflows, their events, activities, attempts and approvals in database tables.
-- A coordinator leases a ready workflow, runs its step and commits the transition that the
-- step asks for or a bounded failure. An activity worker leases an activity, renews the
-- lease while the handler runs, and commits its outcome. The temporal materializers
-- fire timers and expire approvals. A terminal child wakes the parents that wait for it. The
-- application starts and cancels workflows, and an operator pauses, resumes, cancels, restarts,
-- retries and decides.
--
-- Files and the code they model, with paths from the root of the repository:
--   Base        shared names: tables as lists of rows, signed integers, results with their errors
--   Status      the six enums of durable-workflows/src/persistence/mod.rs
--   Policy      durable-workflows/src/policy.rs
--   Clock       durable-workflows/src/clock.rs
--   Wait        durable-workflows/src/persistence/wait.rs, and the id check of ids.rs
--   Text        ensure_size and truncate_utf8 of durable-workflows/src/error.rs
--   Rows        the rows of durable-workflows/src/persistence/models.rs
--   Tx          the database, and transactions as functions from a database to a result with the
--               database they leave; a failed transaction leaves none (dialect/mod.rs, tx.rs)
--   Events      durable-workflows/src/transition.rs (events, results) and persistence/events.rs
--   Parents     wake_waiting_parents_on_child_terminal of persistence/workflows.rs
--   Temporal    durable-workflows/src/runtime/temporal.rs
--   Coordinator durable-workflows/src/runtime/coordinator.rs: Claim is claim_row, Commit the arms of
--               commit_on_connection and commit_wait_transition, Child commit_child with the checks on
--               ancestors and the whole of commit_on_connection, Failure record_activation_failure,
--               Activate activate_one and activate_claim_inner
--   Worker      durable-workflows/src/runtime/activity_worker.rs: Claim is claim_locked_candidate,
--               Heartbeat heartbeat_once, Finish finish_on_connection, Revoke settle_revoked, Expiry
--               reconcile_expired
--   Sound       what holds of a row and what may happen to it, with a rule for each statement
--   Schedule    classify of durable-workflows/src/runtime/schedule_materializer.rs; Plan is
--               plan_due_chunk, over a calendar as an argument, and Overlap
--               materialize_occurrence and promote_queued
--   Engine      the engine's transactions as steps of one database
--   Store       durable-workflows/src/store.rs: Start is insert_prepared_untraced (with insert_started
--               of persistence/workflows.rs and insert_workflow of dialect/postgres.rs), with the map of
--               keys as its abstract view, Generations
--               lock_newest_generation, Cancel cancel_with_conn with the cascade to owned children,
--               Recover recoverable_start_in
--   Admin       durable-workflows/src/admin/control.rs: Pause, Resume, Retry, Resolve and Restart are
--               the controls of these names; Operator is of admin/types.rs
--   Restart     durable-workflows/src/runtime/restart.rs
--   System      the engine, the application and the operators together
--   Examples    the definitions and theorems on concrete inputs
--
-- A database table is the list of its rows. Transactions follow one another: the row locks that they
-- hold to commit make the order of commits an order of whole transactions. Which rows a SKIP LOCKED
-- read finds locked is an argument, so every such answer is covered. What comes from outside is in the
-- record `Env` of Events.antt: the clock's sample, a fresh UUID, the id of an inserted row, JSON
-- encoders and decoders, the texts that the code formats from ids, and the two bytes of the SHA-256
-- digest behind a jitter percentile. What the registered handlers answer to an operator's control is in
-- the record `Handlers` of Admin.antt.
-- Identifiers, counters and timestamps are integers with the saturations and checks of the code;
-- unsigned values and durations are natural numbers. Most loops are recursions on the list or number
-- that they walk. The walks that follow ids through the table have fuel: one round more than there are
-- workflows for the generations of a row, three more for the ancestors of a caller (both links point at
-- a row that was inserted earlier), and two more for the generations and for the work list of a
-- cancellation, which enters a workflow once. A walk without fuel fails as a lost connection does.
-- A resume leaves the wait columns as they are, so it is a step only where no wait is answered already.
--
-- Not modelled: the handlers, the calendar and the state row
-- of schedules with their controls, progress reports, the typed wrappers around serialized values, the
-- operator's queries, the supervisor's tasks, the registry of handlers, the counts of the activities
-- claimed for each topic, traces and metrics, and the rest of the SQL of the two dialects.
pub mod Base
pub mod Status
pub mod Policy
pub mod Clock
pub mod Wait
pub mod Text
pub mod Rows
pub mod Tx
pub mod Sound
pub mod Events
pub mod Parents
pub mod Temporal
pub mod Coordinator
pub mod Worker
pub mod Engine
pub mod Schedule
pub mod Examples
pub mod Store
pub mod System
pub mod Admin
pub mod Restart
