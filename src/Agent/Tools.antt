-- ===== src/Agent/Tools.antt =====
-- `executeToolCall` of packages/agent/src/index.ts: one call of a tool, with the approval of the user.
use Prim.Native.Char.{code}
use Prim.Native.String.{len, ◌++◌ as ◌+s◌}
use vibe_go.Base.{
  ℕ, zero, suc, String, Bool, true, false, not, ◌&&◌, ◌||◌, Option, none, some, List, [], ◌∷◌, ◌==◌,
  ◌=s◌, leb, if◌then◌else◌, any,
}
use vibe_go.Base.Keyed.{find, put}
use vibe_go.Agent.Text.{arguments_or_object}
use vibe_go.Runs.{waiting_approval, executing}
use vibe_go.Agent.Types.{
  World, AgentRunRequest, next, throws, tool_requested, tool_started, tool_output, tool_succeeded,
  tool_failed, approval_required, approval_expired, approval_decided, AgentToolDescriptor,
  ToolRuntime, PendingToolCall, Execution, returned, failed, allow, deny, expired, Wait, decided,
  wait_cancelled, wait_failed, Approve, approved, not_approved, ToolResult, content, failure,
}
use vibe_go.Agent.Steps.{M, ◌>>=◌, ◌>>◌, pure, branch, emit, transition, poll}

-- `[a-zA-Z0-9_-]`
is_name_char : ℕ → Bool
is_name_char c =
    (leb b'a' c && leb c b'z')
    || (leb b'A' c && leb c b'Z')
    || (leb b'0' c && leb c b'9')
    || (c == b'_')
    || (c == b'-')

sanitize : String → String
unfolding is_name_char
sanitize String.[] = ""
sanitize (String.◌∷◌ c s) =
    let rest = sanitize s in
    if is_name_char (code c) then String.◌∷◌ c rest else String.◌∷◌ "_" rest

unfoldable pub to_model_tool_name : String → String
unfolding sanitize
to_model_tool_name name = if sanitize name =s "" then "tool" else sanitize name

-- An entry of the map `modelToolDescriptors`.
pub record ModelTool : Type 0 where
  pub key : String
  pub descriptor : AgentToolDescriptor

abbrev pub model_tool_key : ModelTool → String
model_tool_key t = t.key

add_model_tools : List AgentToolDescriptor → List ModelTool → List ModelTool
unfolding to_model_tool_name
add_model_tools [] tools = tools
add_model_tools (d ∷ ds) tools =
    add_model_tools ds
      (put model_tool_key (record { key = to_model_tool_name d.name; descriptor = d }) tools)

-- The map is filled only if the model takes tools and the run has some.
unfoldable pub model_tool_descriptors : AgentRunRequest → List ModelTool
unfolding add_model_tools
model_tool_descriptors q = elim q.tool_runtime [
  | none ↦ []
  | some runtime ↦ if q.model_tool_calls then add_model_tools runtime.descriptors [] else []
]

named : Option String → String → Bool
named none s = false
named (some name) s = s =s name

find_by_name : Option String → List AgentToolDescriptor → Option AgentToolDescriptor
unfolding named
find_by_name name [] = none
find_by_name name (d ∷ ds) =
    if named name d.name || named name d.id then some d else find_by_name name ds

by_model_name : Option String → List ModelTool → Option AgentToolDescriptor
by_model_name none tools = none
by_model_name (some name) tools = elim (find model_tool_key name tools) [
  | none ↦ none
  | some t ↦ some t.descriptor
]

-- The descriptor of a call: by its name or id, or by the name that the model was given.
unfoldable pub find_descriptor :
    AgentRunRequest → ToolRuntime → Option String → Option AgentToolDescriptor
unfolding find_by_name by_model_name model_tool_descriptors
find_descriptor q runtime name = elim (find_by_name name runtime.descriptors) [
  | some d ↦ some d
  | none ↦ by_model_name name (model_tool_descriptors q)
]

-- `safeToolFailure`: the code, and the message that belongs to it.
abbrev pub failure_code : Option String → String
failure_code none = "TOOL_FAILED"
failure_code (some c) = c

-- The names that every object inherits are left out.
unfoldable pub failure_message : String → String
failure_message c =
    if c =s "APPROVAL_REQUIRED"
    then "User approval is required for this tool."
    else if c =s "APPROVAL_DENIED"
    then "The tool request was denied."
    else if c =s "APPROVAL_EXPIRED"
    then "The approval request expired."
    else if c =s "APPROVAL_CANCELLED"
    then "The approval wait was cancelled."
    else if c =s "APPROVAL_BROKER_FAILED"
    then "The approval request could not continue."
    else if c =s "TOOL_FORBIDDEN"
    then "The tool request is forbidden."
    else if c =s "SANDBOX_UNAVAILABLE"
    then "The requested sandbox is unavailable."
    else if c =s "TOOL_EXECUTION_UNAVAILABLE"
    then "The tool execution provider is unavailable."
    else if c =s "TOOL_HANDLER_UNAVAILABLE"
    then "The tool implementation is unavailable."
    else if c =s "TOOL_INPUT_INVALID"
    then "The tool arguments were invalid."
    else if c =s "PATH_GUARD"
    then "The path was rejected by the workspace guard. Use a workspace-relative path such as \"src/main.ts\", or \".\" for the workspace root."
    else "The tool request failed safely."

-- `MODEL_RECOVERABLE_TOOL_CODES.has(code)`
unfoldable pub is_recoverable : String → Bool
is_recoverable c = any (λ r. c =s r) ("TOOL_UNKNOWN" ∷ "TOOL_INPUT_INVALID" ∷ "PATH_GUARD" ∷ [])

abbrev pub name_of : PendingToolCall → String
name_of call = elim call.name [ none ↦ "unknown" | some n ↦ n ]

module _ (w : World) (q : AgentRunRequest) where
  unfoldable pub execute : M Execution
  execute s = next (record s { executions = suc s.executions }) (w.execution s.executions)

  -- The promise of the broker; the approval of the same call asks the world under the same number.
  unfoldable pub wait_for_decision : M Wait
  wait_for_decision s = next (record s { waits = suc s.waits }) (w.wait s.waits)

  unfoldable pub approve : M Approve
  approve s = next s (w.approve s.waits)

  -- `serializeToolOutput`: the content, and whether it was cut.
  abbrev pub serialize : String → String
  serialize text =
      if leb (len text) q.config.limits.max_output_bytes
      then text
      else w.cut q.config.limits.max_output_bytes text

  abbrev pub is_cut : String → Bool
  is_cut text = not (leb (len text) q.config.limits.max_output_bytes)

  unfoldable pub succeed : AgentToolDescriptor → PendingToolCall → ℕ → String → M ToolResult
  succeed d call attempt text = do
    emit (tool_output call.call_id (serialize text) (is_cut text))
    emit (tool_succeeded call.call_id attempt)
    pure (content (some d) (serialize text))

  -- What is left of the `catch` once no approval is asked for.
  unfoldable pub give_up : AgentToolDescriptor → PendingToolCall → String → M ToolResult
  give_up d call c = do
    branch (c =s "APPROVAL_REQUIRED") (emit (approval_required call.call_id)) (pure tt)
    emit (tool_failed call.call_id c)
    branch (is_recoverable c)
        (emit (tool_output call.call_id (w.error_content c (failure_message c)) false)
          >> pure (content (some d) (w.error_content c (failure_message c))))
        (pure (failure c (failure_message c)))

  -- The wait that was rejected.
  unfoldable pub wait_ended : Bool → M ToolResult
  wait_ended cancelled =
      branch cancelled (pure (failure "APPROVAL_CANCELLED" "The approval wait was cancelled."))
        (pure (failure "APPROVAL_BROKER_FAILED" "The approval request could not continue."))

  -- The end of `approve`; `retry` is the next round of the loop.
  unfoldable pub after_approve : PendingToolCall → M ToolResult → Approve → M ToolResult
  after_approve call retry approved = retry
  after_approve call retry (not_approved c) =
      emit (tool_failed call.call_id (failure_code c))
      >> pure (failure (failure_code c) (failure_message (failure_code c)))

  -- The decision is `allow`.
  unfoldable pub after_allow : PendingToolCall → M ToolResult → M ToolResult
  after_allow call retry = do transition executing; given ← approve; after_approve call retry given

  unfoldable pub after_wait : PendingToolCall → M ToolResult → Wait → M ToolResult
  after_wait call retry wait_cancelled = poll w q >>= λ aborted. wait_ended true
  after_wait call retry wait_failed = poll w q >>= λ aborted. wait_ended aborted
  after_wait call retry (decided expired) = do
    emit (approval_expired call.call_id)
    emit (tool_failed call.call_id "APPROVAL_EXPIRED")
    pure (failure "APPROVAL_EXPIRED" "The approval request expired.")
  after_wait call retry (decided deny) = do
    emit (approval_decided call.call_id deny)
    emit (tool_failed call.call_id "APPROVAL_DENIED")
    pure (failure "APPROVAL_DENIED" "The tool request was denied.")
  after_wait call retry (decided allow) = do
    emit (approval_decided call.call_id allow)
    after_allow call retry

  unfoldable pub ask_and_wait : PendingToolCall → M ToolResult → M ToolResult
  ask_and_wait call retry = do
    emit (approval_required call.call_id)
    transition waiting_approval
    wait ← wait_for_decision
    after_wait call retry wait

  -- The wait begins before the event; `toISOString` throws a time that is no date.
  unfoldable pub ask_user : PendingToolCall → M ToolResult → M ToolResult
  ask_user call retry s = branch (w.expiry_is_date s.waits) (ask_and_wait call retry) throws s

  -- The test for asking the user: only the first attempt asks.
  abbrev pub asks : ToolRuntime → ℕ → String → Bool
  asks runtime attempt c =
      (c =s "APPROVAL_REQUIRED") && (attempt == 0) && runtime.can_approve && q.has_broker

  -- `approvalDetails` is asked for in the `catch`, for every error; what it throws leaves `run`.
  unfoldable pub after_execution :
      ToolRuntime
      → AgentToolDescriptor
      → PendingToolCall
      → ℕ
      → M ToolResult
      → Execution
      → M ToolResult
  after_execution runtime d call attempt retry (returned text) s =
      succeed d call (suc attempt) text s
  after_execution runtime d call attempt retry (failed c) s =
      branch (w.details_fail s.executions) throws
        (branch (asks runtime attempt (failure_code c)) (ask_user call retry)
          (give_up d call (failure_code c)))
        s

  -- The loop `while (true)`; running out of fuel throws.
  unfoldable pub attempts :
      ℕ → ToolRuntime → AgentToolDescriptor → PendingToolCall → ℕ → M ToolResult
  attempts zero runtime d call attempt = throws
  attempts (suc fuel) runtime d call attempt =
      emit (tool_started call.call_id (suc attempt))
      >> (execute
          >>= after_execution runtime d call attempt (attempts fuel runtime d call (suc attempt)))

  unfoldable pub with_descriptor :
      ToolRuntime → PendingToolCall → Option AgentToolDescriptor → M ToolResult
  with_descriptor runtime call none = do
    emit (tool_failed call.call_id "TOOL_UNKNOWN")
    pure (
        content none (
          w.error_content "TOOL_UNKNOWN" (
            "Tool \""
            +s name_of call
            +s "\" is not available. Retry with one of the tools listed in this conversation.")))
  with_descriptor runtime call (some d) =
      branch (w.is_json (arguments_or_object call.arguments_text)) (attempts 2 runtime d call 0) (
        emit (tool_failed call.call_id "TOOL_INPUT_INVALID")
        >> pure (
            content (some d) (
              w.error_content "TOOL_INPUT_INVALID"
                "The tool arguments were not valid JSON. Retry with a valid JSON object matching the tool schema.")))

  unfoldable pub execute_tool_call : Option ToolRuntime → PendingToolCall → M ToolResult
  execute_tool_call none call =
      pure (failure "TOOLS_UNAVAILABLE" "Tool calls are not enabled for this run.")
  execute_tool_call (some runtime) call = do
    emit (tool_requested call.call_id (find_descriptor q runtime call.name))
    with_descriptor runtime call (find_descriptor q runtime call.name)
