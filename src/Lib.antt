-- ===== src/Lib.antt =====
-- The durable core of Forge: the job reducer, the review contracts that it rests on, and the control
-- plane that keeps jobs in PostgreSQL (engine/contracts, engine/workflows, engine/control).
--
-- A job goes from QUEUED through its stages to SUCCEEDED, and waits three times for a person: for the
-- plan, for the execution and for the promotion. `transitionJob` decides, as a pure function, which
-- request is accepted. `changeState` calls it inside a transaction, writes the row, the events, the
-- review and the next step. A worker touches a job only under `leased`; whoever ends a job first asks for a
-- cleanup, which takes the steps away from their workers; the reconciler settles what a
-- provider may still charge.
--
-- Files, and the code that they translate:
--   Prelude, Prelude/*        lists, texts, results and tests that the parts share
--   Contracts/Primitives      engine/contracts/primitives.ts
--   Contracts/Paths, Paths/*  engine/contracts/paths.ts: isSourcePath is `is_source_path`, and so on
--   Contracts/Review          engine/contracts/review.ts: one test to a schema, `validate_approval`,
--                             `validate_descriptor` and `validate_passing_verification`
--   Review/Bindings           what an approval that is validated binds
--   Review/Descriptors        what an accepted descriptor and an accepted verification bind
--   Contracts/Events, Events/Cursor
--                             parseEventCursor of engine/contracts/events.ts, and its round trip
--   Contracts/Source          engine/contracts/source.ts: the schemas of plans, changes, batches and
--                             manifests
--   Source/Proposal, Proposal/*
--                             validateProposal of engine/contracts/source.ts
--   Jobs                      engine/workflows/jobs.ts, whole: `transition_job`
--   Jobs/WellFormed, Outcomes the schema of a job as propositions; what is accepted, and what comes of it
--   Jobs/Terminal, Runs, Exits, Approvals, Success
--                             the diagram, runs of requests, the ways out, the reviews
--   Control/Tables            the rows of the tables that engine/control uses, and `World`, all of them
--   Control/Tx                engine/control/database.ts: `Tx`, a computation over the tables that may
--                             fail; `one`, the clock and random identifiers
--   Control/State, State/*    engine/control/state.ts, all but releaseReservation
--   Control/Reservations, Reservations/Released
--                             releaseReservation of engine/control/state.ts
--   Control/Cleanup, Cleanup/* requestCleanup and destroyFixtureResources of engine/control/worker.ts
--   Control/Worker, Worker/*  leased and heartbeat of engine/control/worker.ts
--   Worker/Inputs, Inputs/Read
--                             claim, payload, input, putArtifact and candidate
--   Worker/Authority, Authority/Latest
--                             executionContext, and the descriptor of a runner's operation
--   Worker/Prepare, Prepare/* prepare: the budget of a job and the approval of an operation
--   Worker/Stages, Stages/Targets
--                             the branches of complete, one to a stage and a result
--   Worker/Complete, Complete/Advanced
--                             complete: the choice of a branch, and what follows it
--   Control/Service, Service/Cancellation
--                             cancelLocked, cancel and project of engine/control/service.ts
--   Service/Approval, Approval/Decided, Approval/Recorded
--                             approve of engine/control/service.ts
--   Service/Idempotency, Idempotency/Replay
--                             idempotent: the records of requests and their replay
--   Service/Admission, Admission/Admitted
--                             admit and restore, with lock_admission of engine/migrations
--   Service/Projects, Projects/Deleted
--                             createProject, patchProject and deleteProject; the requests around
--                             cancel and approve; promote
--   Service/Pages, Pages/Complete
--                             listProjects and snapshots: a page and the pages after it
--   Service/Events            events
--   Control/Reconciler, Reconciler/Resolution
--                             resolveUncertain of engine/control/reconciler.ts
--   Reconciler/Rounds, Rounds/Late
--                             the two transactions of runOnce of engine/control/reconciler.ts
--   State/Approvals           changeState leaves the approvals alone
--   Control/State/Target       the state of the row that changeState returns
--   Fixtures, Control/Samples, */Tests
--                             sample values, and each theorem applied to them
--
-- Conventions. A thrown error is a `Fault`. Where the code mutates the row that it holds, the operation
-- returns the row. A statement on a table is an update of a list. Instants are milliseconds; a
-- timestamp also has a spelling, since the code compares texts, and its schema asks for a year of four
-- digits. A UUID and a digest are numbers. Ill-typed
-- JSON has no counterpart: a schema is the test that it makes of well-typed values. Every loop
-- is structural recursion on a list, and a job takes at most 21 requests, which is a theorem; only
-- the printer of decimal digits runs on fuel, for which a number serves itself: it has fewer digits.
--
-- Parameters. `Hashing` stands for canonicalHash (SHA-256 of the canonical JSON) and for the byte lengths of JSON
-- texts, and `SourceHashing` for those of plans, manifests and files; no theorem assumes that it is injective. `Environment` stands for the database's
-- clock, for random identifiers for `now()`, and for the digests of the fixture policy, template and image.
-- `claim_step` and `reserve_fixture_preview`, functions of the database, are parameters of the operations that
-- call them, as is zod's schema of a UUID.
--
-- Not modelled: row-level security, roles, locks and interleavings of transactions, which PostgreSQL
-- provides; sessions, HTTP and the views of rows; runOnce of the worker, which drives an adapter under
-- timers; the stages themselves (generation, validation, preview), the runner, and the web
-- application.
pub mod Prelude
pub mod Contracts
pub mod Jobs
pub mod Control
mod Fixtures
