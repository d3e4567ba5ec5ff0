-- ===== src/Lib.antt =====
-- The verification library of lazybones, a server that runs agents on a graph of coding tasks.
--
-- The store keeps the tasks and runs, and moves a task through its lifecycle. The scheduler of the
-- engine asks the store which tasks are ready, claims them for agents and gates their work. The
-- extension host loads WASM components that react to the events of both, behind guards.
--
--   Prelude         numbers, tests, lists, maps and results that all parts share
--   Store           crates/lazybones-store/src: tasks, runs, events, chats, and the verbs on them
--     Task          task/{status,model,row,transition}.rs: the state machine, the document, its row
--     Run           run/{model,row,derived}.rs: the workflow, its row, its derived state
--     Run.Verbs     run/{create,get,stop,resume,start,update,cursor}.rs
--     RoundTrip     what the rows keep of the documents
--     Surreal       the calls of SurrealDB, as a record of operations with documented laws
--     Verbs         task/*.rs, event/append.rs: one function for each verb
--     Lifecycle     what holds of a task whatever verbs are applied to it
--     Edges         the lifecycle as a graph
--     Handle        handle.rs, event/bus.rs, chat/append.rs: status changes with what they publish
--   Engine          crates/lazybones-engine/src: config.rs and the scheduler
--     Effective     scheduler/effective.rs: the settings of a claim, layer by layer
--     Fair          scheduler/tick.rs: fair_order, the order in which ready tasks are claimed
--     Claims        scheduler/tick.rs: the budget, the guards and the baseline of a claim
--     Reclaim       scheduler/reclaim.rs: what is decided of a task in flight
--     Commands      what the scheduler asks of git, sh, the files, hcom, the extensions and the store
--     Program       a piece of the scheduler as a tree of commands and answers; the protocols it obeys
--     FollowUp      scheduler/follow_up.rs: the walls that need an operator
--     Block         scheduler/block.rs: how a failure blocks a task, and its retry
--     Landing       scheduler/{merge,git}.rs: the commit of the work and the landing of the branch
--     Gate          scheduler/{gate,gate_preflight}.rs: the commands of the gate, fitted to the repository
--     Worktree      scheduler/worktree.rs: provision and teardown
--     Prompt        scheduler/prompt.rs
--     Await         scheduler/finish.rs: await_signal, the wait for an agent
--     Finish        scheduler/finish.rs: drive, gate_and_land and the set of the driven tasks
--     Reconcile     scheduler/reclaim.rs: the pass that blocks, reclaims and reaps
--     Workspace     scheduler/preflight.rs: the test of a workspace before a workflow starts
--     Tick          scheduler/tick.rs: the passes that promote, resume and claim
--   Auth            crates/lazybones-auth/src, and require of crates/lazybones-api/src/extract.rs
--   Api             crates/lazybones-api/src/error.rs: the errors of the REST surface and their status
--   Ext             crates/lazybones-ext/src: breaker.rs, cycle.rs, capability.rs, manifest.rs and
--                   registry.rs, one module each
--
-- A verb of the store is a function of the database that answers a result or an error and the
-- database after it, so that the order of calls and their failures are those of the code. The
-- database itself is a parameter: its laws say what a call that returned has read or written, and
-- that a failed call has left the tables. The scheduler moves tasks by the handle, whose state is the
-- database with the list of what was published. The operations of the extension host are functions of
-- its state; the mutexes of the code serialise the calls.
--
-- The passes of the scheduler are programs: each asks one command of the world after the other and goes
-- on with the answers. A protocol says which commands are allowed after what has been seen, and a
-- theorem that a program obeys one holds whatever the world answers: git, hcom and the store are not
-- assumed to do anything. The answers are values of the types that the code gives them, with the
-- errors of crate anyhow as texts; Program.run runs a program in a concrete world.
--
-- A u32 or u64 is a natural number, with the saturation and the conversions of the code written
-- out. A time is its RFC3339 text in the store and a number in the guards. The loops are over lists,
-- but for the rounds of the fair order, which run on fuel: one round more than there are ready tasks,
-- which is more than the longest bucket needs; and the wait for a signal, which has fuel for the 180
-- polls of 20 seconds in an hour and the test after the last one, and never uses it up. The search for
-- member crates goes down the two levels of the code.
--
-- Not modelled: queries whose meaning is in SurrealQL text (lists, deletes, graph edges), the pull
-- requests, the drain of hcom's events and the sync of issues that a tick ends with, the parsing of what
-- hcom prints, the HTTP routes but for their test of a session and their errors, the WASM runtime, the
-- GitHub client, the MCP server, rendering and the user interface.
pub mod Prelude
pub mod Store
pub mod Ext
pub mod Engine
pub mod Auth
pub mod Api
