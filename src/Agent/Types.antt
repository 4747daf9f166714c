-- ===== src/Agent/Types.antt =====
-- The data of the agent loop, packages/agent/src/index.ts, with the limits and the model events of
-- packages/contracts/src/index.ts.
use vibe_go.Base.{ℕ, String, Bool, Option, List}
use vibe_go.Events.{EventSource, Log}
use vibe_go.Context.{ContextItem, ContextMessage, ContextBuildResult}
use vibe_go.Runs.{RunStatus}

pub record RunLimits : Type 0 where
  pub max_turns : ℕ
  pub max_model_input_tokens : ℕ
  pub max_tool_calls : ℕ
  pub max_output_bytes : ℕ
  pub max_context_bytes : ℕ

pub data SandboxMode : Type 0 where
  read_only workspace_write external_sandbox danger_full_access : SandboxMode

-- What the loop reads of a run's configuration.
pub record RunConfig : Type 0 where
  pub workspace_id : String
  pub user_message : String
  pub sandbox_mode : SandboxMode
  pub limits : RunLimits

pub record AgentToolDescriptor : Type 0 where
  pub name : String
  pub id : String

-- A tool runtime: its descriptors, and whether it has the method `approve`.
pub record ToolRuntime : Type 0 where
  pub descriptors : List AgentToolDescriptor
  pub can_approve : Bool

pub record PendingToolCall : Type 0 where
  pub call_id : String
  pub name : Option String
  pub arguments_text : String

pub data FinishReason : Type 0 where
  stop tool_calls cut_length content_filter : FinishReason

pub data ModelEvent : Type 0 where
  text_delta : String → ModelEvent
  tool_call_delta : String → Option String → String → ModelEvent
  usage : ModelEvent
  completed : FinishReason → ModelEvent
  error : String → Bool → ModelEvent

-- How the stream of a turn ends after its last event.
pub data StreamEnd : Type 0 where
  ended broken : StreamEnd

-- What `execute` gives: the output as JSON, or an error with its code; `none` is an error without one.
pub data Execution : Type 0 where
  returned : String → Execution
  failed : Option String → Execution

pub data Decision : Type 0 where
  allow deny expired : Decision

-- How a wait at the approval broker ends: with a decision, cancelled, or by another error.
pub data Wait : Type 0 where
  decided : Decision → Wait
  wait_cancelled wait_failed : Wait

-- What `approve` of the tool runtime gives: nothing, or an error like that of `execute`.
pub data Approve : Type 0 where
  approved : Approve
  not_approved : Option String → Approve

-- How the promise of `scheduler.acquire` ends.
pub data Acquisition : Type 0 where
  granted cancelled_in_queue refused : Acquisition

-- The types and payloads of the events. Ids, times and what an event copies from the call that it
-- belongs to are left out, and so are the reasons of the status events.
pub data Payload : Type 0 where
  run_created model_usage : Payload
  context_compacted : ContextBuildResult → Payload
  model_requested : ℕ → Payload
  run_status : RunStatus → RunStatus → Payload
  turn_started : ℕ → Payload
  turn_completed : ℕ → Option ℕ → Payload
  model_text : String → Payload
  model_tool_call : String → Option String → String → Payload
  model_error : String → Payload
  model_completed : FinishReason → Payload
  run_completed : String → String → Payload
  run_failed : String → Bool → Payload
  run_cancelled : String → Payload
  tool_requested : String → Option AgentToolDescriptor → Payload
  tool_started : String → ℕ → Payload
  tool_output : String → String → Bool → Payload
  tool_succeeded : String → ℕ → Payload
  tool_failed : String → String → Payload
  approval_required : String → Payload
  approval_expired : String → Payload
  approval_decided : String → Decision → Payload

-- An entry of `tool_calls` in a message.
pub record FunctionCall : Type 0 where
  pub id : String
  pub name : String
  pub arguments : String

pub data Message : Type 0 where
  from_context : ContextMessage → Message
  from_assistant : Option String → List FunctionCall → Message
  from_tool : String → String → Message

pub data FinalStatus : Type 0 where
  run_is_completed run_is_failed run_is_cancelled : FinalStatus

pub record AgentRunResult : Type 0 where
  pub status : FinalStatus
  pub output : String
  pub last_seq : ℕ

-- What lies outside the loop: the answers of the model, the tools, the user and the scheduler, by the
-- number of the question, and whether the run is aborted by the time of each check. `details_fail` tells
-- whether `approvalDetails` throws after an execution, `expiry_is_date` whether the time at which an
-- approval expires is one that a Date can hold, and `close_fails` whether the iterator of a turn's
-- stream throws when it is closed early. The last five are the parts of an event that the loop does not
-- choose by what happens, by the number of the event in the run.
pub record World : Type 1 where
  pub aborts : ℕ → Bool
  pub stream : ℕ → List ModelEvent
  pub stream_end : ℕ → StreamEnd
  pub execution : ℕ → Execution
  pub wait : ℕ → Wait
  pub approve : ℕ → Approve
  pub acquisition : Acquisition
  pub is_json : String → Bool
  pub cut : ℕ → String → String
  pub error_content : String → String → String
  pub details_fail : ℕ → Bool
  pub expiry_is_date : ℕ → Bool
  pub close_fails : ℕ → Bool
  pub event_type : ℕ → String
  pub event_source : ℕ → EventSource
  pub correlation_id : ℕ → String
  pub event_id : ℕ → String
  pub now : ℕ → String

-- The request of a run, with the parts of the loop's options that it uses; `store` is what the event
-- store holds when the run begins.
pub record AgentRunRequest : Type 0 where
  pub config : RunConfig
  pub run_id : String
  pub context_items : List ContextItem
  pub tool_runtime : Option ToolRuntime
  pub model_tool_calls : Bool
  pub has_broker : Bool
  pub store : List (Log Payload)

-- The variables of `run`. `log` lists the events that it appended, newest first; `checks`,
-- `executions` and `waits` count the questions that were put to the world.
pub record AgentState : Type 0 where
  pub status : RunStatus
  pub output : String
  pub aborted : Bool
  pub leased : Bool
  pub releases : ℕ
  pub log : List Payload
  pub messages : List Message
  pub turn_index : ℕ
  pub tool_call_count : ℕ
  pub checks : ℕ
  pub executions : ℕ
  pub waits : ℕ

-- How a part of `run` ends: it goes on with a value, `run` returns, or an error is thrown.
pub data Flow {ℓ} (A : Type ℓ) : Type ℓ where
  next : AgentState → A → Flow A
  returns : AgentState → AgentRunResult → Flow A
  throws : AgentState → Flow A

pub data ToolResult : Type 0 where
  content : Option AgentToolDescriptor → String → ToolResult
  failure : String → String → ToolResult
