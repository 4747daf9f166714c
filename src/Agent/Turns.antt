-- ===== src/Agent/Turns.antt =====
-- One round of the loop in `run` of packages/agent/src/index.ts: a request to the model, and the tools
-- that it calls.
use Prim.Native.String.{len}
use vibe_go.Base.{
  ℕ, zero, suc, ◌+◌, String, Bool, true, false, not, ◌&&◌, Option, none, some, List, [], ◌∷◌, ◌++◌,
  ◌==◌, ltb, leb, if◌then◌else◌, length, map,
}
use vibe_go.Agent.Text.{arguments_or_object}
use vibe_go.Runs.{planning, executing, completed}
use vibe_go.Agent.Types.{
  World, AgentRunRequest, next, throws, turn_started, turn_completed, model_requested,
  run_completed, AgentToolDescriptor, PendingToolCall, ToolResult, content, failure, FinishReason,
  tool_calls, Message, from_assistant, from_tool, FunctionCall, run_is_completed,
}
use vibe_go.Agent.Steps.{
  M, ◌>>=◌, ◌>>◌, pure, branch, emit, transition, abort, poll, finish, cancel, fail,
  cancel_if_aborted,
}
use vibe_go.Agent.Tools.{execute_tool_call}
use vibe_go.Agent.Stream.{Turn, new_turn, truthy, read_stream}

-- An entry of `toolResults`.
pub record CallResult : Type 0 where
  pub call : PendingToolCall
  pub descriptor : Option AgentToolDescriptor
  pub content : String

-- `call.name ?? descriptor?.name ?? 'unknown'`
unfoldable pub function_name : Option String → Option AgentToolDescriptor → String
function_name (some n) d = n
function_name none (some d) = d.name
function_name none none = "unknown"

unfoldable pub to_function_call : CallResult → FunctionCall
unfolding function_name arguments_or_object
to_function_call r = record {
  id = r.call.call_id;
  name = function_name r.call.name r.descriptor;
  arguments = arguments_or_object r.call.arguments_text;
}

-- The messages that a turn adds.
unfoldable pub turn_messages : Turn → List CallResult → List Message
unfolding to_function_call
turn_messages t rs =
    from_assistant (truthy (some t.text)) (map to_function_call rs)
    ∷ map (λ r. from_tool r.call.call_id r.content) rs

unfoldable pub push : List Message → M (Unit {0})
push ms s = next (record s { messages = s.messages ++ ms }) tt

unfoldable pub count_call : M (Unit {0})
count_call s = next (record s { tool_call_count = suc s.tool_call_count }) tt

abbrev pub exit_reason : Option FinishReason → String
exit_reason (some tool_calls) = "tool-calls-without-call"
exit_reason _ = "model-completed"

-- The number of `modelTools`.
abbrev pub model_tool_count : AgentRunRequest → ℕ
model_tool_count q = elim q.tool_runtime [
  | none ↦ 0
  | some runtime ↦ if q.model_tool_calls then length runtime.descriptors else 0
]

abbrev pub has_tools : AgentRunRequest → Bool
has_tools q = elim q.tool_runtime [ none ↦ false | some runtime ↦ true ]

module _ (w : World) (q : AgentRunRequest) where
  unfoldable pub on_failure : String → M CallResult
  on_failure c = do
    aborted ← poll w q
    branch aborted (cancel w q "user-cancelled-during-tool") (abort >> fail w q c false)

  unfoldable pub settle_call : PendingToolCall → ToolResult → M CallResult
  settle_call call (failure c message) = on_failure c
  settle_call call (content d text) =
      count_call >> pure (record { call = call; descriptor = d; content = text })

  -- The loop over the calls of a turn.
  unfoldable pub run_calls : List PendingToolCall → M (List CallResult)
  run_calls [] = pure []
  run_calls (call ∷ calls) = do
    answer ← execute_tool_call w q q.tool_runtime call
    r ← settle_call call answer
    rs ← run_calls calls
    pure (r ∷ rs)

  unfoldable pub start_turn : M (Unit {0})
  start_turn s =
      next
        (record s { turn_index = suc s.turn_index; log = turn_started (suc s.turn_index) ∷ s.log })
        tt

  -- The stream of a turn is the world's answer under the number of the turn.
  unfoldable pub read_model : M Turn
  read_model s = read_stream w q (w.stream_end s.turn_index) (w.stream s.turn_index) new_turn s

  unfoldable pub emit_turn_completed : Option ℕ → M (Unit {0})
  emit_turn_completed calls s =
      next (record s { log = turn_completed (len s.output) calls ∷ s.log }) tt

  -- `run.completed`, with the output as its summary.
  unfoldable pub emit_run_completed : Turn → M (Unit {0})
  emit_run_completed t s =
      next (record s { log = run_completed s.output (exit_reason t.finish_reason) ∷ s.log }) tt

  -- The model called no tool.
  unfoldable pub complete_run : Turn → M (Unit {0})
  complete_run t = do
    emit_turn_completed none
    transition completed
    emit_run_completed t
    finish w q run_is_completed

  -- The test of the limit after the tools.
  unfoldable pub next_turn : M (Unit {0})
  next_turn s =
      branch (leb q.config.limits.max_turns s.turn_index) (fail w q "MAX_TURNS_EXCEEDED" false)
        (transition planning) s

  unfoldable pub use_tools : Turn → M (Unit {0})
  use_tools t = do
    rs ← run_calls t.calls
    push (turn_messages t rs)
    emit_turn_completed (some (length t.calls))
    next_turn

  unfoldable pub with_calls : Turn → M (Unit {0})
  with_calls t s =
      branch (not (has_tools q && q.model_tool_calls)) (abort >> fail w q "TOOLS_UNAVAILABLE" false)
        (branch (ltb q.config.limits.max_tool_calls (s.tool_call_count + length t.calls))
          (abort >> fail w q "MAX_TOOL_CALLS_EXCEEDED" false) (use_tools t))
        s

  unfoldable pub after_model : Turn → M (Unit {0})
  after_model t = branch (length t.calls == 0) (complete_run t) (with_calls t)

  unfoldable pub turn : M (Unit {0})
  turn = do
    cancel_if_aborted w q "user-cancelled-before-model"
    start_turn
    transition executing
    emit (model_requested (model_tool_count q))
    t ← read_model
    after_model t

  -- `while (turnIndex < config.limits.maxTurns)`; running out of fuel throws.
  unfoldable pub turns {ℓ} : {A : Type ℓ} → ℕ → M A
  turns zero s = throws s
  turns (suc fuel) s =
      branch (ltb s.turn_index q.config.limits.max_turns) (turn >> turns fuel)
        (fail w q "MAX_TURNS_EXCEEDED" false) s
