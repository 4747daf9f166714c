-- ===== src/Agent.antt =====
-- packages/agent/src/index.ts: the loop that drives one run. Ids, times and the snapshots that are only
-- copied into the first event are left out; what the world answers is a parameter.
mod Types
mod Text
mod Steps
mod Tools
mod Stream
mod Turns
pub mod Ledger
mod Calling
mod Quiet
mod Reading
mod Rounds
mod Endings
pub mod Outcomes
pub mod Scheduling
mod Examples
pub use Types.*
unfoldable pub use Steps.*
unfoldable pub use Tools.*
unfoldable pub use Stream.*
unfoldable pub use Turns.*
use Prim.Native.String.{◌++◌ as ◌+s◌}
use vibe_go.Base.{
  ℕ, suc, ◌+◌, String, Bool, true, false, ◌||◌, Option, none, some, List, [], ◌∷◌, ◌++◌,
  if◌then◌else◌, map,
}
use vibe_go.Runs.{created, queued, planning}
use vibe_go.Context
use vibe_go.Context.{
  ContextItem, ContextBuildResult, Result, ok, err, Error, budget, trusted, user, user_source,
}
use vibe_go.Scheduler

abbrev pub access_of : SandboxMode → Scheduler.Access
access_of read_only = Scheduler.Access.read
access_of _ = Scheduler.Access.write

abbrev pub sandboxes_of : SandboxMode → ℕ
sandboxes_of external_sandbox = 1
sandboxes_of _ = 0

unfoldable pub to_scheduler_request :
    AgentRunRequest → Option Scheduler.Priority → Scheduler.Request
to_scheduler_request q priority = record {
  run_id = q.run_id;
  workspace_id = q.config.workspace_id;
  workspace_access = access_of q.config.sandbox_mode;
  resources = record {
    model_calls = some (Scheduler.Amount.whole 1);
    tool_processes = if has_tools q then some (Scheduler.Amount.whole 1) else none;
    external_sandboxes = some (Scheduler.Amount.whole (sandboxes_of q.config.sandbox_mode));
  };
  priority = priority;
}

-- The context of a run: the items of the request, and the message of the user.
user_item : AgentRunRequest → ContextItem
user_item q = record {
  id = q.run_id +s ":user-message";
  source = user_source;
  trust = trusted;
  role = user;
  content = q.config.user_message;
  preserve = none;
  sequence = none;
}

built_by : Result Context.Manager → Result ContextBuildResult
built_by (ok m) = Context.build m
built_by (err e) = err e

unfoldable pub build_context : AgentRunRequest → Result ContextBuildResult
unfolding user_item built_by
build_context q = built_by (
    Context.new q.config.limits.max_context_bytes (some q.config.limits.max_model_input_tokens) none
      none (q.context_items ++ user_item q ∷ []))

unfoldable pub set_messages : List Message → M (Unit {0})
set_messages ms s = next (record s { messages = ms }) tt

unfoldable pub take_lease : M (Unit {0})
take_lease s = next (record s { leased = true }) tt

module _ (w : World) (q : AgentRunRequest) where
  -- The `catch` around `acquire`.
  unfoldable pub not_scheduled : Bool → M (Unit {0})
  not_scheduled in_queue = do
    aborted ← poll w q
    branch (aborted || in_queue) (cancel w q "user-cancelled-while-queued")
        (fail w q "SCHEDULER_REJECTED" false)

  unfoldable pub acquire : Acquisition → M (Unit {0})
  acquire granted = take_lease
  acquire cancelled_in_queue = not_scheduled true
  acquire refused = not_scheduled false

  -- From the context on.
  unfoldable pub with_context : ContextBuildResult → M AgentRunResult
  with_context c = do
    branch c.compacted (emit (context_compacted c)) (pure tt)
    transition queued
    cancel_if_aborted w q "user-cancelled-while-queued"
    acquire w.acquisition
    cancel_if_aborted w q "user-cancelled-before-start"
    transition planning
    set_messages (map from_context c.messages)
    turns w q (suc q.config.limits.max_turns)

  unfoldable pub after_context : Result ContextBuildResult → M AgentRunResult
  after_context (ok c) = with_context c
  after_context (err (budget bytes tokens)) = fail w q "CONTEXT_BUDGET_EXCEEDED" false
  after_context (err _) = throws

  -- The body of `try`.
  unfoldable pub body : M AgentRunResult
  body = emit run_created >> after_context (build_context q)

  -- `lease?.release()`
  abbrev pub release : AgentState → AgentState
  release s = if s.leased then record s { leased = false; releases = suc s.releases } else s

  -- `finally`
  abbrev pub finally : Flow AgentRunResult → Flow AgentRunResult
  finally (next s r) = returns (release s) r
  finally (returns s r) = returns (release s) r
  finally (throws s) = throws (release s)

  abbrev pub initial : AgentState
  initial = record {
    status = created;
    output = "";
    aborted = false;
    leased = false;
    releases = 0;
    log = [];
    messages = [];
    turn_index = 0;
    tool_call_count = 0;
    checks = 0;
    executions = 0;
    waits = 0;
  }

  unfoldable pub run : Flow AgentRunResult
  run = finally (body initial)
