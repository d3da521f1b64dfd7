-- ===== src/Lib.antt =====
-- Verification of rogojin, a Go library for running stateful tasks over leased resources (accounts,
-- proxies, payment cards, mailboxes). Paths below are from the repository's root.
--
-- Parts of the program. `leasing` is a generic manager of a pool of resources in groups: tasks
-- lease a resource for a while (Acquire), or bind it durably and lease it (Lock), through a
-- selection strategy per group; every change is written to a repository first. `workflows` is the
-- programming model of a task's state graph, and `tasks` runs such graphs; `accounts`, `payments`,
-- `proxies` and `email` are resource kinds over `leasing`; `sqlite` implements the repositories.
--
-- Files.
--   Prelude: decisions on ids, Go maps with string keys as association lists, lists by native
--     numbers, the Go int where it can be negative, channels with a buffer, sets of handles.
--   Comms: comms/bus.go and comms/topic.go, the in-memory bus (below it Wiring, Delivery and
--     Delivery.Order, the proofs).
--   Email.Types: email/email.go. Email.Vendors: the validation of inboxes of email/vendors.go.
--   Email.State: the structs of email/manager.go and email/listener.go. Email.Inventory:
--     NewManager, Add, Get, Delete. Email.Listening: Listen and the two kinds of Close.
--     Email.Delivery: offer, fanout, backfill. Email.Serving: the goroutine of a listener and its
--     cursor, email/listener.go. Email.System: all of them as steps of one system.
--   Email.Wiring, Safety, Fanout, Cursors: the proofs about it.
--   Accounts: accounts/accounts.go and accounts/manager.go over Leasing and Email, with the guard that
--     joins them (below it Guarding and Forwarding, the proofs).
--   Leasing.Types: leasing/leasing.go, the records, errors and ports.
--   Leasing.Strategy (and Strategy.Rotation): leasing/roundrobin.go.
--   Leasing.State (and State.Holds): the Manager struct of leasing/manager.go and the bookkeeping
--     of live leases (hold, unhold, heldCount, holderIDs, release).
--   Leasing.Groups: CreateGroup, UpdateGroup. Leasing.Inventory: Add, Update, Delete, DeleteGroup.
--   Leasing.Acquire: Acquire and Lock. Leasing.Locks: Unlock, ReleaseStaleLock.
--   Leasing.Load: NewManager.
--   Leasing.Invariant: what holds between calls, and below it why each call preserves it.
--   Leasing.Calls: all calls as steps. Leasing.Outcomes: what a round of Acquire or
--     Lock yields (and Outcomes.Releasing: what Release and Unlock undo). Leasing.Wakeups: which
--     calls wake the rounds that wait.
--   Workflows.Policy (and Policy.Retrying): workflows/policy.go, retries and backoffs.
--   Workflows.Graph: workflows/workflows.go, the state graph and the statuses.
--   Workflows.Base (and Base.Effects, Base.Snapshots): workflows/base.go, the effect log of a task
--     and its snapshot. Workflows.Module (and Module.Recovery): workflows/module.go.
--   Leasing.Queries: Get, List, GetGroup, ListGroups, Held, Locked.
--   Tasks.Engine: tasks/engine.go, the engine of a run; below it what holds of it between segments.
--   Tasks.Placement: tasks/groups.go and the placement part of tasks/manager.go.
--   Tasks.Lifecycle (and Lifecycle.Recovery): creation, recovery and placement of tasks, and the
--     two ends of Start, in tasks/manager.go and tasks/tasks.go. Tasks.Cascade: DeleteGroup.
--   Tasks.Registry: DeleteTask, releaseTask and the group calls of tasks/manager.go.
--   Leasing.Kind: Kind.Validate.
--   The Tests of each part: runs on concrete inputs.
--
-- State and operations. A manager is a record with the fields of the Go struct, its repository's
-- store among them; every method is a function from a manager to a manager and a result. The
-- methods hold the manager's mutex from end to end, so calls of several goroutines are a list of
-- steps in some order. Acquire gives the mutex up only in cond.Wait: a round of its loop is one
-- step that may end in `waiting`, and a waiting call takes part again by a further round. The
-- repository and custom strategies are parameters (Env), of which nothing is assumed: they
-- may answer anything and fail at any time. A callback that edits a struct in place also leaves
-- its edits of the maps that the struct shares with the manager's copy, which the code shares too.
-- Times are given to each call as a number; error texts are dropped; loops over a Go map, whose
-- order is not defined, occur only where the result is sorted or summed.
--
-- In comms and email, a pointer is a handle (a number) into a store of its targets, so that a
-- subscription that a set forgot still has its channel. A channel keeps what was received from it,
-- and notes a send after its close or a second close, where Go panics. A loop over a set of
-- subscriptions visits them in the list's order; each visit touches one subscription only. A
-- listener's session with the server runs outside the manager's lock, so its goroutine is a state
-- machine: its steps are the sections under the lock and the answers of the session (any answers),
-- interleaved with calls of the manager in any order. A backfill's connection is left out, and its
-- delivery is a step that may come at any time, with any messages.
--
-- The guard of the accounts is a closure over the pointer of their manager: a function from the
-- world to that manager is an argument, so the guard reads the pool as it is at the Delete.
--
-- In workflows, a handler is a function of a world that holds all it may change, and an effect one
-- of the instance's base and that world; encoding/json, the clock, the build function and the
-- checkpoint are parameters.
--
-- The engine's run loop is cut where it releases its mutex or calls out; a run is a list of events,
-- each the next segment of the loop (with what the repository or the handler answers) or a call of
-- another goroutine. Its repository writes are recorded, newest first, without their blobs. A
-- midCheckpoint is two events, the read under the mutex and the save, with others between them.
--
-- Bounds. Loops are structural over lists, but for Retry, which runs on as much fuel as it has
-- attempts, one round for each. The round robin cursor is a Go int kept
-- as its 64-bit pattern, with wrap-around; a subscription's count of drops wraps at 2^64. Counts of
-- live leases are unbounded numbers.
--
-- Not modelled: the context watcher's goroutine (its effect, an error at the start of a round, is
-- an argument), `tasks/typed.go` (JSON around the untyped calls), the resource kinds `payments` and
-- `proxies`, the IMAP and OAuth sessions of `email/vendors.go` (third-party packages), `sqlite`, the
-- scaffold generator, the command and the examples.
pub mod Accounts
pub mod Prelude
pub mod Comms
pub mod Email
pub mod Leasing
pub mod Workflows
pub mod Tasks
