-- ===== src/Lib.antt =====
-- Verification of mcmanager, a manager of Minecraft servers: the rules of its core services, modelled
-- from the Python sources under app/.
--
-- The program keeps its durable state in one SQLite store. A request creates an operation, a
-- dispatcher claims it, a service does the work and reports milestones, and every change is published
-- on the realtime hub, noted for the users and recorded in the audit log. Cleanup runs as such an
-- operation. Authentication guards the requests, and the line buffers feed the consoles.
--
--   Common         shared names: Boolean tests, equality, lists, dictionaries, results, sorting
--   Ring           bounded queues of numbered elements, as collections.deque(maxlen=…)
--   Domain         app/domain: Values (value_objects.py), World (entities.py, events.py,
--                  invariants.py) and Lifecycle (lifecycle.py), with Rules as the independent
--                  description of the moves
--   Notifications  app/services/notifications.py: rules, one notification of an operation, markers,
--                  and the dropdown (Listing)
--   Operations     app/services/operations.py: Rows (rows and tests on them), Policy
--                  (_apply_conflict_policy), Engine (store and publishing), Methods (creation and
--                  queries), Milestones (claim_queued, transition, update_progress_in_memory); the
--                  other modules hold what each method writes, the properties of runs (Calls), and an
--                  independent table of the conflict policy (Compatible)
--   Realtime       app/services/realtime.py: Hub (RealtimeHub, StreamSubscriber)
--   Tailing        app/platform/process/tailing.py: Buffer (RingBuffer, LogRingBuffer)
--   Cleanup        app/services/cleanup.py: Retention (backup_candidates, execute_backup_cleanup) and
--                  Service (evaluate_and_execute_cleanup)
--   Scheduler      app/services/scheduler.py: Times (_expected_run_at) and Tick (tick)
--   Sync           app/services/sync.py: Rows (tables) and Dispatch (dispatch_sync and its attempts)
--   Auth           app/services/auth.py: Store (tables), Accounts (the rows) and Service
--                  (AuthenticationService)
--   Worlds         app/services/worlds.py: Store (tables and ports), Exec (state and exceptions), State
--                  (_world, _set_world_state, sessions), Readiness (_await_readiness, _wait_exit), Launch
--                  (gate, RCON and session of a start), Start, Stop (stop, kill), Dispatch (enqueue_*,
--                  dispatch_queued_operations), Supervisor (poll_running, reconcile), Eula
--                  (accept_eula) and Deletion (_apply_queued_world_delete). Kept and Refines say which
--                  steps the methods are made of, Stable, Outcomes, Started, Stopped, Accepted and
--                  Ends what they lead to, and Fuel is about the loops
--
-- A table is a list of rows in the order of their insertion, and a transaction is a function on the
-- store: one that raises returns an error and leaves the store as it was. The store serialises
-- transactions, so that concurrent callers are a sequence of calls. The clock, fresh identifiers and
-- tokens are arguments. The hash of passwords, the hash of tokens, json.dumps, the digest of a
-- preview and the transport of sync are code from elsewhere, and are parameters. Times are whole
-- seconds, but milliseconds in the loops of Worlds. Every loop of the code is a recursion on its list,
-- or for sync on the attempts left, except the two loops of Worlds over a process: they take as fuel at
-- least one round more than the pauses that fit before the deadline, 481 rounds of 250 ms for a start
-- and 122 rounds of 500 ms for a stop.
--
-- The driver of the worlds calls ports: the process adapter, the Minecraft port, the secrets, files. A
-- port is a function of the step at which it is called, so that each call may answer anything or raise,
-- and a method that raises leaves what it has committed. Messages of exceptions are kept by kind.
--
-- Not modelled: threads and their timeouts, the files and processes of the operating system, the HTTP
-- handlers, and the services for backups, restores and configuration; of worlds.py not the dispatcher of
-- queued mutations, which dispatch_queued_operations calls last, the mutations other than deletion, and
-- the composition of paths and command lines.
pub mod Common
pub mod Ring
pub mod Tailing
pub mod Realtime
pub mod Cleanup
pub mod Auth
pub mod Scheduler
pub mod Sync
pub mod Worlds
pub mod Domain
pub mod Notifications
pub mod Operations
