-- ===== src/Lib.antt =====
-- Yorva: the Runtime installer of the node service, its operations, its events, the service that
-- joins them, and the plans for upgrades.
--
-- The node service (services/node) installs a Runtime (Hermes) as immutable generations under a
-- managed root. An installation is a transaction: a record under control/transactions that goes
-- through CREATED, BUILDING, SEALED, PUBLISHED, ACTIVATING and COMMITTED or FAILED. A generation is
-- a directory that is sealed by two files, and control/active.json is the pointer to the active
-- one. The process may stop between any two writes. At the next start, recovery observes the disk,
-- decides on one step, executes it and repeats this until nothing is left to do; then old trees are
-- collected and the gate of the installer is set.
--
-- Files, and the code of services/node/internal/install that each is about:
--   Install/Types, Records: types.go, errors.go and the record types of the other files
--   Install/Ids, Paths, Validate, Transaction: ids.go, paths.go, transaction.go
--   Install/Disk: what is on disk, and the monad of the operations. Every write has a fate: it is
--     made, it is lost with an error, or it is made and an error is returned all the same. The fates
--     are a list in the state, so that a statement for all disks is one for all ways to fail.
--   Install/Store: transaction_store.go (SaveTransaction, LoadTransaction, the list of views)
--   Install/Seal: verify.go, the reading side of seal.go, active_pointer.go
--   Install/Sealing: the writing side of seal.go, generation.go, SealNew of manager.go
--   Install/Observe: observe.go
--   Install/Decide: recovery_decide.go (DecideRecovery and the functions below it)
--   Install/Pointer: the compare-and-swap of activate.go
--   Install/Manager: manager.go, publish.go, activate.go, environment_apply.go
--   Install/Environment: environment.go
--   Install/Gc: gc.go
--   Install/Execute, Recover: recovery_execute.go, recover.go
--
-- Long-running work is tracked as an operation, a row of an SQLite table with a status. Files, and
-- the code of services/node/internal that each is about:
--   Operation/Types, Status: domain/operation/operation.go
--   Operation/Constraints: the unique indexes, the CHECK and the triggers on the table, as they are
--     after the last of persistence/sqlite/migrations
--   Operation/Errors, Table: persistence/sqlite/operations.go (CreateOperation, UpdateOperation,
--     InterruptActiveInstalls)
--   Operation/Clock: the texts of stored times (node.go there) and the order of `ORDER BY created_at`
--   Operation/Queries, Lists: the queries of operations.go that give one operation, and a list
--   Operation/Installations: the accepted installations, persistence/sqlite/installations.go
--
-- Changes of operations are published as events, which subscribers read from bounded channels:
--   Events/Broker, Operations: events/broker.go, events/operation.go
--
-- The service of the installation joins these parts: it starts an operation and the transaction that
-- belongs to it, reads the operation through the transaction on disk, cancels and interrupts it. Its
-- state is a node: the disk, the rows, the gate, the broker and the operations that have a worker.
-- Files, and the code of services/node/internal/app that each is about:
--   App/Node: runtime_install_events.go and the fields of RuntimeInstall
--   App/Preflight, Transactions, Project, Start, Cancel, Stale: runtime_install.go
--   App/Worker: runtime_install_run.go; the worker's state is a node and the accepted installations
--
-- An upgrade or a rollback of the Runtime is planned, and not yet executed, from evidence:
--   Upgrade/Patterns, Identity, Policy, Reasons, Assess, Plan, Rollback: the files of
--     services/node/internal/runtime/hermes/upgrademanagement
--
-- Shared:
--   Prelude: tests on numbers and texts, lists, results. Examples: sample data, runs, statements at
--     sample inputs.
--
-- Texts are lists of bytes. A time is a number and 0 is Go's zero time. A file is its decoded
-- content, or none where it does not decode. Digests are texts that stand beside the content they
-- were computed of. The recovery loop has the fuel of the source: maxRecoverSteps, 8; when it runs
-- out, the result is the one of the source. What filepath.Clean does, the managed root and the
-- binary directory of a generation are the fields of a parameter, Platform.
--
-- SQLite is a parameter where it is not the statements themselves: a statement takes effect when its
-- rows break no constraint, and else fails with a message that the parameter `report` makes of the
-- constraints that are broken. The table of instances is a function from an instance to its
-- installation. An operation's table is a list of rows whose order means nothing.
--
-- Not modelled: the steps inside an atomic write, the lock file (its outcome is an argument), the
-- creation of the control directory before a listing of the records, the registry, JSON and fail points
-- for tests. What builds a generation is an argument. Two processes never run at once, as the lock
-- guarantees. The revision of a record is a uint64: the next one is taken modulo 2 ^ 64. Of the operations, errors of the driver other than broken
-- constraints. Of the service, its log and the hooks for tests. What the Runtime's discovery finds and
-- what the host's installer answers are arguments; what it does to the node, and what a worker does
-- while Cancel waits for it, are functions of the node.
pub mod Prelude
pub mod Install
pub mod Operation
pub mod Events
pub mod Upgrade
pub mod App
pub mod Examples
