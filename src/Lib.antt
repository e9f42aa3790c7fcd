-- ===== src/Lib.antt =====
-- ComfyUI Image Front-End: the generation queue of its backend, modelled and verified.
--
-- The program is a web front-end for ComfyUI. Users submit generations; each is a row of the
-- `generations` table (backend/app/models.py) whose status moves along the state machine of
-- backend/app/domain/status.py. One worker process (backend/app/services/queue_worker.py) claims
-- queued rows for a pool of ComfyUI runtimes (backend/app/services/worker_pool.py), submits their
-- graphs, archives what the runtimes produce as rows of `artifacts`, and commits a terminal result;
-- the API cancels and deletes rows at the same time (backend/app/services/generations.py). All of
-- them meet in the database; the claim, the finalization, the cancellation and the deletion of a row
-- hold the lock of `lock_user_state`, the other transactions of the worker do not.
--
-- A transaction of the code is a function here, from the row and what the transaction reads
-- besides it to the row afterwards, the events it adds and what it returns; a row is a record with
-- the columns that the queue works on. Times are numbers, and a JSON column holds a value of
-- `Json`. A transaction is taken as one step, and the concurrency of the program as the
-- order of such steps. `Step` of Lifecycle relates a row and the point at which the worker's task
-- stands to those afterwards. What the task has established is not assumed of the row at a step; it
-- is proved of every row that is reached. A task makes its steps from its points, and the owner, the
-- preemption, the worker's notes and a restart make theirs at any.
--
-- Files, with the code they model:
--   Errors       AppError and results that can fail: backend/app/errors.py
--   Text, Json   Python's texts and JSON values, as the worker uses them
--   Status       statuses and allowed transitions: backend/app/models.py (GenerationStatus,
--                TERMINAL_STATUSES, ACTIVE_STATUSES) and backend/app/domain/status.py
--   Database     rows and events: backend/app/models.py, backend/app/services/events.py
--   Worker       the worker's transactions before and between executions: Transactions (the claim,
--                its undoing, the submission, outages, early failures; and the cancellation of
--                GenerationService), History (what a native history says), Recovery (the plan that
--                is made at the start), Reports (errors on the way, and the sending of a
--                cancellation)
--   Artifacts    the choice of the artifact that stands for a result (`_best_native_image`)
--   Finalize     `_commit_finalization`: Record (history, errors, warnings), Retention (which
--                artifacts are kept), Commit (the branches and the commit)
--   Archive      `_insert_artifact`, and Failures: the records of files that could not be archived,
--                and their clearing once they are
--   Lifecycle    the life of one row as steps of those transactions, up to its deletion
--   Scheduler    `_claim_next` and `_dispatch_iteration`: Pool (which worker can execute what),
--                Activity (background reels are preempted:
--                backend/app/services/demo_reel_activity.py), Turn (whose turn it is), Claim (the
--                job that is taken), Dispatch (one iteration of the dispatcher)
--   Broker       the fan-out of events to the connections of their owner
--                (backend/app/services/event_broker.py)
--   Estimates    the simulation of the pending queue
--                (backend/app/services/activity_estimates.py), which follows the dispatcher
--   Accounts     accounts and their sessions (backend/app/services/auth.py,
--                backend/app/security.py): Login (with the throttle of wrong passwords), Sessions,
--                Passwords. They stand beside the queue: a session is what lets a request submit,
--                cancel or delete a generation
--   Admission    the admission of HTTP requests before all that (backend/app/admission.py)
--   Collections  folders (backend/app/services/collections.py): their creation and their moves with
--                the bound on the nesting, and their order
--   Expectations the scoring of an image by a vision model (backend/app/domain/expectations.py)
--   Examples     each theorem at concrete rows, and runs of the code
--
-- Every loop of the modelled code is over a list of rows, and is structural recursion here, but
-- for three. `_level` of the folders climbs at most five levels and raises beyond: `climb` counts
-- them down, and its last clause is that error; `descend` of `_subtree_levels` likewise. The
-- simulation of the queue runs while jobs are pending: `simulate` takes fuel, and one more than
-- the number of jobs is enough, since each round removes one. Parameters stand for what is
-- outside: the digest of a graph, the text of a time, the hash of a password, the printing of a
-- value that is no text and the number that a text stands for, the answer whether some member of
-- the pool carries a revision. A text is a sequence of Unicode scalar values, without lone
-- surrogates. A comparison of owners orders texts by code point, as Python and SQLite do. An
-- artifact's time of emission is a number in whole units.
--
-- Not modelled: HTTP and WebSocket traffic with ComfyUI, the router and the browser; archived
-- files on disk; the durations that are measured, and what is recorded of them beside a
-- finalization (backend/app/services/generation_eta.py); the compilation of a graph; the
-- components of the backend that the queue does not run through (deletions of folders, galleries,
-- LoRA maintenance, prompt assistance); the ComfyUI extension, the scripts and the browser's code;
-- the middleware around the admission, and the time that requests wait; what the worker writes to a
-- row as progress, timings and stages; and what another transaction commits between the reading and
-- the writing of one of the worker's that does not hold the lock.
pub mod Prelude
pub mod Errors
pub mod Text
pub mod Json
pub mod Status
pub mod Database
pub mod Worker
pub mod Artifacts
pub mod Finalize
pub mod Archive
pub mod Lifecycle
pub mod Scheduler
pub mod Broker
pub mod Estimates
pub mod Accounts
pub mod Admission
pub mod Collections
pub mod Expectations
pub mod Examples
