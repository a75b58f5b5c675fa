-- ===== src/Lib.antt =====
-- Verification of the LyraOS desktop updater: the rules by which it plans, authorizes, stores and
-- verifies an upgrade of the system.
--
-- An upgrade is an operation with a stored record. A host's facts are checked (core/src/preflight.rs),
-- a solver proposes package changes that are judged against the policy of a signed manifest
-- (core/src/solver.rs, core/src/manifest.rs, core/src/migration.rs), and the accepted plan is carried
-- out along a state machine (core/src/lib.rs) whose records are validated at every store and load
-- (core/src/persistence.rs, core/src/recovery.rs). After a reboot the verifier (verifier/src) looks
-- for the operations of the state directory, checks the booted system and stores the outcome.
--
-- The files and the code:
-- - Domain: OperationKind, OperationState, OperationStateRecord, valid_transition and transition_to of
--   core/src/lib.rs. Domain/Transitions is about one transition.
-- - Recovery: SubvolumeIdentity and RollbackGoal with their validity (core/src/recovery.rs).
-- - Persistence: validate_state, is_sha256 and validate_operation_id (core/src/persistence.rs).
-- - Facts: the structs that the preflight and the solver exchange.
-- - Preflight: evaluate_preflight; Preflight/Plan: build_plan (core/src/preflight.rs).
-- - Solver: valid_vendor_transitions, vendor_policy_blockers and evaluate_solver_preflight
--   (core/src/solver.rs).
-- - Release: the manifest's structs; Manifest: validate_manifest_route, with its versions in
--   Manifest/Version (core/src/manifest.rs).
-- - Migration: validate_migration, pending_migration and validate_migration_plan
--   (core/src/migration.rs).
-- - Verifier/Pending: pending_operation and interrupted_state (verifier/src/pending.rs), and the loop
--   of main over the interrupted operations; Verifier/Boot: CheckFailure, finalize_verification,
--   write_sequence and verify_release (verifier/src/main.rs).
-- - Executor: ExecutionError, failure_state, persist and parse_snapshot_number; Executor/Update:
--   execute_update (service/src/executor.rs), with the failure that service/src/main.rs stores;
--   Executor/Staging: stage_release_upgrade and stage_system_update, with the planner's check of the
--   confirmed plan and of each staged proposal.
-- - Rollback: schedule_rollback and finish_rollback (service/src/recovery.rs); Rollback/Intent is about
--   the order of their writes.
-- - Sanitize: sanitize_technical_line, strip_terminal_controls and truncate_utf8; Sanitize/Masks: the
--   masks of home directories, URLs and secrets (core/src/sanitize.rs). Sanitize/Lines is about cleaned
--   lines.
-- - Events: EventLog with restore, push_technical and trim_technical (service/src/event_log.rs), and
--   the events of protocol/src/lib.rs. Events/Trim, Events/Bounds, Events/Pushes and Events/Restored
--   are about the retention.
-- - Persistence/Store: save_state and load_state over the entries of the paths
--   (core/src/persistence.rs); Persistence/Store/Replacement is about what they leave and load.
-- - Service: Request and Response (protocol/src/lib.rs); Service/Files: the files of an operation and
--   its owner; Service/Reports: status and trust_state; Service/Start: start, up to its thread;
--   Service/Handle: cancel, acknowledge_recovery, handle and query_response (service/src/main.rs).
--   Service/Authority, Service/Ownership, Service/Foreign, Service/Confirmed and Service/Cancelled are
--   about what a request may change.
-- - Service/Revalidation: check_confirmed_release_plan and revalidate_release_plan
--   (service/src/planner.rs); Service/Approved is about the plans they let through.
-- - Lifecycle: the changes of an operation's record in all of these, with the record of mark_recovery
--   (offline/src/main.rs), one after the other; Lifecycle/Invariant is about what holds all its life.
-- - Examples: runs on concrete data. Prelude: shared helpers, lemmas on lists, texts and orders.
--
-- Conventions. A text is the list of its code points, and its bytes are their UTF-8 encoding; numbers
-- are natural, with the bound of u64 where the code saturates or parses. A function that changes a
-- record returns the new one; a guard that returns early is a step of the Result monad. A set or a map
-- that a closure fills is an argument of the recursion. Recursion is on lists or texts, but for
-- the loops of the masks and of trim_technical: their fuel is one more than the length of the line, or
-- of the log, and each round leaves less of it. A result none of these is a panic or used up fuel. The parser of the crate url is a parameter of Manifest. What the file system answers is an
-- argument: the entries of the state directory, the file of the last sequence, and the fault that ends
-- its replacement. An execution is a function of what the host answers in each of its steps (UpdateHost,
-- StageHost) and of a session, and so is the schedule of a rollback (RollbackHost). A session is the record with
-- the stores, the reports and the commands so far. A store that succeeded
-- is an effect, and so is, as another one, a store that replaced the file before its directory failed
-- to synchronise. The steps of Lifecycle are changes of one record in memory, one
-- writer after the other; a step may be one whose store is then refused.
--
-- The service is a function of its state and of the host's answers (ServiceHost); the codec of serde is
-- a parameter of the store, and that it reads back what it prints is a hypothesis. The thread that a
-- start leaves behind is the execution of Executor.
--
-- Not modelled: the commands and probes of the host, D-Bus, the network, JSON and hashing, the desktop
-- shell, the stored event log, and the run of the offline worker.
pub mod Prelude
pub mod Recovery
pub mod Domain
pub mod Persistence
pub mod Facts
pub mod Preflight
pub mod Solver
pub mod Release
pub mod Migration
pub mod Manifest
pub mod Verifier
pub mod Executor
pub mod Rollback
pub mod Sanitize
pub mod Events
pub mod Service
pub mod Lifecycle
pub mod Examples
