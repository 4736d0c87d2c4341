-- ===== src/Lib.antt =====
-- The Real-Time Surveillance Analytics Platform: models of its Python code, and what holds of them.
--
-- The platform reads cameras, tracks people, and raises counts and alerts. The engine
-- (packages/cv-engine/cv_engine) holds the frame buffer between the capture thread and the
-- analytics, and the analyses of a frame. The desktop backend (apps/desktop-backend/app) runs
-- one worker per camera, which owns the capture, the pipeline, the frame buffer and a queue of
-- events.
--
-- Streaming/Buffer is streaming/buffer.py of the engine. A method under the lock is one atomic
-- function (`put`, `clear`, `get_latest_with_sequence`), and a wait takes the calls that other
-- threads make meanwhile. Streaming/Buffer/Numbering and Streaming/Buffer/Waiting are its
-- theorems.
--
-- Pipeline is pipeline/ of the engine. Pipeline/Floats is the arithmetic of IEEE numbers as a
-- parameter without laws. Pipeline/Types is types.py. Pipeline/PeopleCounter is
-- pipeline/people_counter.py (`update`, `cleanup`, `reset`); Pipeline/IntrusionDetector is
-- pipeline/intrusion_detector.py (`check`, `cleanup`), with instants and durations in
-- microseconds; Pipeline/ZoneAnalyzer is pipeline/zone_analyzer.py (`analyze`), with OpenCV's
-- polygon test as a parameter.
--
-- Orchestration is orchestration/ of the desktop backend. Orchestration/Errors is errors.py and
-- security.py, whose two regular expressions are parameters; Orchestration/States and
-- Orchestration/Payload are models.py (the table of transitions, `FrozenPayload.from_mapping`).
-- Orchestration/Worker/Callback is `RoutedAnalyticsEvent.from_callback` of models.py, and
-- Orchestration/Worker/Snapshot is `CameraStatus.to_dict` and `CameraStatus.from_dict`.
-- Orchestration/Worker is worker.py: Record is the state, Lifecycle and Finish are its methods,
-- each as the stretch between two awaits, and Actions makes a schedule out of them: an arbitrary
-- list of such stretches stands for whatever order the event loop runs the tasks in. The
-- dispatcher takes an event in one stretch and counts it in another, the `finally` block of
-- `_run` has a stretch for each of its awaits, and a cancelled dispatcher or an exception out of
-- an await of that block is a stretch too. Ending is the end of a run. What a call
-- of the camera, the pipeline or the sink does is an argument. Invariants carries a property
-- from single writes to all actions. Orchestration/Manager is manager.py: Registry is the state
-- and each write under the registry lock, Calls the calls on one camera, which hold the lock of
-- that camera; what other tasks do to the registry at each await is a list of such writes, an
-- argument of the call.
--
-- Web/Access is apps/webapp-backend/app/services/rbac_service.py: `authorize` and the management
-- of accounts, with Web/Access/LastAdmin for `protect_last_super_admin` over the rows of two
-- tables. Web/Sessions is services/session_service.py beside it: the two Redis keys of one user,
-- with Scripts for the Lua scripts, each of which Redis runs alone, and Steps for
-- `validate_session_state` and the schedules of all operations. Seconds are numbers, and the
-- hash of a token and the query of the database are parameters. Rotation, Revocation, Expiry and
-- Reconciliation are the theorems; what Python's `int` makes of a value of the JSON that is not a
-- whole number is a parameter of `reconciliation_expiries`. Web/Sessions/Outbox is `process_session_outbox_once`: which
-- of its awaits raise is an argument.
--
-- Desktop is apps/desktop-backend/app/repositories.py, the SQLite tables of an edge machine.
-- Desktop/Rows is a table with `UPDATE … WHERE …`. Desktop/Queue is the table `sync_queue`:
-- `_enqueue`, and in its parts Claims and Outcomes the operations of `SyncQueueRepository`.
-- Desktop/Store is the database: State its tables, Sessions `SessionRepository`, Cameras
-- `CameraRepository`, Readings `AnalyticsRepository`. Each function is one transaction, with the
-- instants and the fresh uuids as arguments, and Desktop/Store/Steps makes schedules of them: a
-- list of transactions in any order stands for whatever the tasks of the backend do.
-- Desktop/Queue/Purge is `purge_retained`. In Desktop/Queue, Order is about what a claim hands
-- out and Failures about `fail`. Kept, Keys, Leases, Completion and Revocation carry properties
-- through all schedules. What pydantic writes into a request and the cipher are parameters
-- (`Texts`).
--
-- Base and Dict are shared: lists, results, dictionaries with the order of insertion.
--
-- All loops run over a list, and one round of a loop of the worker is one action. Only the
-- recursive query of Desktop/Queue/Purge has fuel: as many rounds as the table has rows, which
-- is enough, since a round that adds no row changes nothing more and every other adds one at
-- least.
--
-- Not modelled: floating-point laws, image processing and inference, the listener of transitions
-- and the frame rate of the worker, `reconcile` and the parallel `shutdown` of the manager, the
-- listings of the repositories, the other services, the web routers, the file server, and the
-- front ends.
pub mod Base
pub mod Dict
pub mod Desktop
pub mod Orchestration
pub mod Pipeline
pub mod Streaming
pub mod Web
