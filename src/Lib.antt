-- ===== src/Lib.antt =====
-- A model of the core services of Meeseek Collective: the resource ledger, the decision on a
-- workflow's next step and the cases that it moves, the missions, the tasks with their attempts and
-- leases and their verification, the approvals, and the operations with external effects.
--
-- The parts and their files, with the Go source that each models:
--   Domain       internal/domain: the enumerations and small types that the services share.
--   Resources    internal/resources/service.go: reservations against the hard limit of an envelope
--                (Reserve, Settle, MarkUnresolved, Release, Available). Steps has the state machine
--                of a reservation, Budget the budget invariant, Cover the limit with the settled costs,
--                Lifecycle the laws of the operations.
--   Workflow     internal/workflow/decision.go: Decide. Authority relates it to an independent
--                description of what may go on.
--   Execution    internal/execution/service.go and read.go. State has the tables, Intake and Creation
--                the creation of tasks, Lease StartAttempt, RenewLease, RevokeLease, GuardAttempt and
--                WithGuardedAttempt, Setback FailAttempt and ChallengeTask. Guard, Writes, Invariant,
--                Exclusive and Ended are about the fencing of attempts, Child, Created,
--                Replay and Reads the intake.
--   Approvals    internal/approvals/service.go. Requests has Create, Decisions has Approve, Reject,
--                Consume and IsApproved. Tally, Steps, Unanimity and Grant are about the count of
--                the approvers, Lifecycle about the end of a request.
--   Operations   internal/operations: an effect on the outside world, over the tables of the ledger,
--                the execution service and the approvals. Operations has the rows and the outcome
--                (SettleOutcome, markUnknown, cancelPrepared), Policy and Gate approval_gate.go and
--                the control of a task, Slots ResolveEffectSlot, Plan and Prepare the method Prepare,
--                Claim and Dispatch the method Dispatch, Reconcile the method reconcile and
--                ReconcilePending of reconciler.go. Calls has the transactions of all four
--                components as calls. Moves is the state machine of an operation; Quiet, Unmoved,
--                Safe and Preserved follow it through each transaction and Runs through
--                interleavings; Committed is about the checks of a dispatch, Traces and Methods
--                about methods of several transactions, Departure about the method Dispatch, Silent and
--                Recovery about the reconciler, Settlement, Recorded, Outcome and Cancelled about the
--                recorded outcomes.
--   Purpose      internal/purpose/service.go: missions, goals and obligations (CreateMission,
--                ActiveMission, DeactivateMission, CreateGoal, CreateObligation, ValidatePurpose).
--                Missions is about the end of a mission.
--   Cases        internal/workflowcase: a case from its observation to its verification, over Workflow,
--                Purpose and Execution. Observe has Ensure and the queries, Assess the method Assess,
--                Verify Close and Reject, Materialize MaterializeTask and EnsureAndMaterialize, Calls
--                the transactions as calls. Steps and Endings are about the effect of each call,
--                Invariant about runs, Replay about repeated calls and ended missions.
--   Completion   internal/verification/service.go: CompleteAttempt and AcceptTask, over Execution, with the
--                verification work, the acceptance records and the dependencies between tasks.
--                Accepted is about what an accepted task had come to, Release and Effect about the task
--                and those that waited for it.
--   Common       tests on numbers and texts, tables of rows, errors and transactions, the int64
--                arithmetic, and the sorted sets of texts.
--
-- How the code is read. A service's tables are a record of lists of rows, and `find`, `update` and
-- `insert` are the SQL statements on a primary key. An operation is the body of a transaction,
-- `Tx S A = S → Result (A × S)`, whose checks and writes stand in the source's order; `with_tx` is
-- `store.WithTx`, which commits the state of a body that returns without an error and rolls back
-- otherwise. SQLite runs one transaction at a time, so a list of calls stands for every interleaving of
-- clients. A method that opens several transactions is a `Run`, which keeps
-- what an earlier one has committed when a later step fails. A reading of the clock, a fresh identifier and a callback (attempt recorders, the guard and
-- the purpose check of a new task, the hash and the canonical JSON of a request, the policy engine and
-- the providers of effects) are arguments. A time
-- is a number of nanoseconds since Go's zero time, and 0 is that zero time. An int64 that can leave its
-- range wraps around (`wrap64`). `strings.TrimSpace` and the sorted, duplicate-free sets of texts are
-- modelled on characters and bytes. Recursion is structural on lists, so there is no fuel; the loop of
-- Close counts down its twenty attempts (closeRetryAttempts).
--
-- What is left out: the checks that a service is configured, contexts and cancellation, errors of the
-- database driver, the text form of times and JSON columns, the text that `fmt.Errorf` prints into
-- an error, foreign keys other than those of execution events, the CHECK constraints of columns that the
-- types of the model do not carry, and the unique indexes feedback_emit_task_per_artifact on tasks and
-- (effect_slot_id, operation_sequence) on operations. The sequence of an operation in its slot is a number
-- without the bound of an int64, and ReconcilePending orders the operations by the time of their creation
-- and not by its text. The policy engine, scheduling,
-- the evidence store, memory, feedback and the adapters are not modelled.
pub mod Common
pub mod Domain
pub mod Resources
pub mod Workflow
pub mod Execution
pub mod Approvals
pub mod Operations
pub mod Purpose
pub mod Cases
pub mod Completion
