-- ===== src/Lib.antt =====
-- A model of the Threadmill control plane: the Coordination Graph of internal/coordination, its
-- store and the runtime state beside it, the scheduler's selection, and the merge queue's store, with
-- the error and revision types of internal/kernel and the tools' authority of internal/platform/auth.
--
-- The program. A project has a graph of tasks. Each task has three phase endpoints, plan, execute
-- and verify, and edges and blockers say what an endpoint waits for. A Task Manager changes the graph
-- by two writes, each made at an expected revision: `Transition` moves one endpoint, blocker or task,
-- and `ReplacePending` replaces a part of the graph that has not started. The store admits a write
-- only if the next graph passes the whole validation, and keeps every revision. The service makes a
-- write for an agent that has the tool, on a registered decision, once for each request. The runtime
-- reads the graph, claims a lease for each runnable endpoint, appends a run command, and folds the observations
-- of the invocation back into commands and leases. Which runnable endpoints start is chosen by the
-- scheduler, within a capacity and a budget. An accepted code change is enqueued as a merge candidate;
-- the merge queue claims one candidate of a repository at a time, merges it by an operation that fences
-- the repository, and keeps an audit of each change to be delivered later.
--
-- The files.
--   Base: shared names, lists, maps, texts, 64-bit integers, and sorting with the order of texts.
--   Kernel: internal/kernel/errors.go, id.go, revision.go. Kernel/Idempotency is idempotency.go; its
--     Invariant and Replay are about overlapping calls.
--   Coordination/Types: the structs and enumerations of internal/coordination/types.go and of the
--     stores. A named string type is a data type with a constructor for each constant and one for any
--     other string.
--   Coordination/Graph: validateGraph and validateAcyclic of validation.go. Graph/Acyclic has the
--     depth-first search, and its children are about the cycles that it looks for.
--   Coordination/Transition: transition.go and validateTransitionShape. Endpoint, Others, Observed and
--     Apply are the code; Machine, Generations, Results, Closed and Inputs are what it does.
--   Coordination/Pending: the replacement of a pending subgraph in validation.go.
--   Coordination/Store: memory_store.go. Project is one project's state, Memory the methods, Commits
--     what a write does, Invariant, History and Keyed what holds after any sequence of writes to the
--     graph and the runtime.
--   Coordination/Runtime: recovery.go (View, Runnable), phase_observation.go (Observations) and
--     command_store.go (Commands, Marks, and Writes for all of its writes as one type); Claims, Lasting,
--     Waits, Ready, Folding and Rejection are the theorems.
--   Coordination/Reconcile: runtime.go. Run is a monad on one project's state, Fold, Dispatch,
--     Claims and Loop are the code, Traced and Whole relate it to the store's writes, Stops,
--     Stopped and Stopping are about what it stops, Ends and Total about its loop of claims.
--   Coordination/Service: service.go and decision.go. Decisions is the log, Calls the calls; Again is
--     about repeated calls, Permission and Authority about who may make them.
--   Auth: internal/platform/auth. Tools is roleAllowsTool and operationAllowsTool, Require is RequireTool,
--     Capability is validateCapability and AuthenticateAgentToken of authenticator.go; Allowed and Grants
--     are about them.
--   Scheduler: scheduler.go of internal/scheduler. Ledgers and Select are the code; Fitting and Bounds
--     are what the selection keeps within.
--   MergeQueue: store.go and model.go of internal/mergequeue. Model has the types, Checks the tests of
--     requests and texts, Audits the outbox, Store the candidates and claims, Steps the moves of a
--     claimed candidate and the merge operations, Calls all of them as one type; Moves, Tables,
--     Effects, OperationEffects, Invariant, Claiming, Fencing, Evidence and Replay are the theorems.
--   The Tests folders: concrete data, and each theorem at it.
--
-- How the code is read. A method under the store's mutex is one function from the store to the next
-- store and its answer; the clock is an argument; a call whose context is cancelled is left out. A
-- Go error is an `Error` in the result type of Kernel/Errors, and a loop with early returns is `each`,
-- `any` or a recursion with the same order of tests. A Go map is an association list in the order of
-- insertion, which is one of the orders in which Go may range over it; it can change which of several
-- errors is reported, never whether there is one. A revision is a uint64 that wraps, so that the
-- theorems on sequences of writes bound their number. An int generation is its 64-bit pattern, and is
-- positive below 2 ^ 63. Other ints are exact integers, cut to 64 bits where the code adds. sort.Slice is
-- an insertion sort. A text is its characters; Go orders texts by their bytes in UTF-8, which is the
-- order by characters. A slice is a list, and nil is told from empty only where JSON texts are compared.
--
-- Bounds. The recursion of the search of validateAcyclic has as fuel two more than the graph has
-- arrows, as each level of it that is entered follows another arrow. The loop of claims in reconcile
-- has one round for each candidate, as a round that claims nothing removes what was selected; that it
-- suffices is proved of selections among the candidates, and the default one and the scheduler's are
-- such.
--
-- Not modelled: the operators' sessions and the stores of sessions and tokens,
-- the merge queue's reconciler and git backend, the Postgres stores, and everything that talks to processes, files,
-- databases or the network. Writes of other callers while a reconcile runs are left out.
pub mod Base
pub mod Kernel
pub mod Coordination
pub mod Auth
pub mod Scheduler
pub mod MergeQueue
