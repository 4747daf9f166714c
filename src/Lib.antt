-- ===== src/Lib.antt =====
-- Models of the core of VibeGo, a local coding agent that is driven from a browser.
--
-- The daemon admits a request through the access gate, queues a run with the scheduler, and drives it
-- through the states of a run. The agent loop fills the model's context, asks the approval policy
-- about each tool call, waits for the user at the approval broker, and runs the call in the sandbox
-- that the resolver gives out. What happens is written to the event store, from which a browser reads
-- on after the last number it has seen. The daemon itself is not modelled.
--
-- - Base: shared names, tests on numbers and texts, lists, and JavaScript maps kept in insertion order
--   (Base/Keyed). A `Map` is a list; `set` replaces in place or appends.
-- - Scheduler: packages/scheduler/src/index.ts. A promise is named by the order of its queue entry, a
--   lease by a serial number; `acquire`, `cancelQueued`, `release` and `inspect` are functions of the
--   state, and a history is any sequence of calls. The loop of `pump` takes as fuel one more than the
--   length of the queue, which is enough since each round takes one entry from it.
-- - Approval: packages/agent/src/approval.ts. Timers and abort listeners are entries of the state, and
--   their calls are steps of a history; time is an argument.
-- - Context: packages/context/src/index.ts. Errors are values; bytes are those of the UTF-8 text; the
--   estimator of tokens is a function that may return a number that is no whole one.
-- - Tools, Policy: packages/tools/src/index.ts and packages/policy/src/index.ts. `JSON.stringify` is a
--   parameter, and the two readings of the clock in `approve` are two arguments.
-- - Compiler: packages/policy/src/compiler.ts, the decision on a request and the bounded store of grants
--   (Compiler/Store). `JSON.stringify`, SHA-256, the check of a tool's schema and the pattern for secret
--   values are parameters (Host); the denials are a chain of tests, each with its reason code.
-- - Permissions: packages/policy/src/permission-profile.ts with the schema of a profile in
--   packages/contracts/src/permission-profile.ts and the request of packages/sandbox/src. A profile is
--   resolved against the boundary of a run and goes to Compiler and Sandbox. The patterns for texts and
--   the schema of a session grant are parameters (Schemas); `permissionToolAllowed` and
--   `resolvePermissionSandbox` are not modelled.
-- - Runs: the transition table of packages/contracts/src/index.ts.
-- - Events: the in-memory store of packages/storage/src/index.ts. Ids and times are arguments.
-- - Sandbox: packages/sandbox/src/index.ts. What a verifier answers is part of the provider.
-- - Auth: packages/auth/src/index.ts. SHA-256 and the hexadecimal encoding are parameters, and the
--   encoded random bytes are arguments. The regular expressions are functions on characters; the calls
--   of the session storage are listed in the state.
-- - Agent: packages/agent/src/index.ts, the loop of one run. Its parts are functions from a state to a
--   next state, a returned result or a thrown error; `and_then` runs the next part only after the
--   first. What the model, the tools, the user and the scheduler answer, which of them throw
--   (`approvalDetails` and the closing of the model's stream among them), and by which check the run is
--   aborted, is a parameter (World). What is appended goes to the store of Events; an `append` of the
--   event store that throws is not modelled. The loop over the turns takes as fuel one more than
--   `maxTurns`, the attempts of a tool two; that both are enough is part of the proofs in Agent/Rounds
--   and Agent/Calling, which carry one invariant (Agent/Ledger) through the code.
-- - Workspaces: packages/workspaces/src/index.ts. The file system and `basename` are parameters (Host);
--   whether a call of `save` throws is an argument, and an error that is thrown is a value.
-- - Execution: packages/execution/src/index.ts. Execution/Paths is the guard of paths, over the file system
--   and node:path as parameters (Host); Execution/Argv is the guard of a process's arguments and
--   variables, where a number is a whole one or any other.
-- - Stream: apps/web/src/streamBuffer.ts, by which the browser joins the deltas of a stream.
--
-- Not modelled: the HTTP server and the Web console, the run manager, the clients
-- of model services, the adapters that call the file system, git or a container runtime, the SQLite
-- stores, goal control, certificates and observability.
mod Base
pub mod Scheduler
pub mod Approval
pub mod Context
pub mod Tools
pub mod Policy
pub mod Runs
pub mod Events
pub mod Sandbox
pub mod Auth
pub mod Stream
pub mod Agent
pub mod Compiler
pub mod Workspaces
pub mod Permissions
pub mod Execution
