-- ===== src/Agent/Stream.antt =====
-- The reading of the model's stream in `run` of packages/agent/src/index.ts.
use Prim.Native.String.{len, ◌++◌ as ◌+s◌}
use vibe_go.Base.{
  ℕ, String, Bool, true, false, Option, none, some, List, [], ◌∷◌, ◌=s◌, ltb, if◌then◌else◌,
}
use vibe_go.Base.Keyed.{find, put}
use vibe_go.Agent.Types.{
  World, AgentRunRequest, Flow, next, returns, throws, model_text, model_tool_call, model_error,
  model_usage, model_completed, ModelEvent, text_delta, tool_call_delta, usage, completed, error,
  FinishReason, StreamEnd, ended, broken, PendingToolCall,
}
use vibe_go.Agent.Steps.{M, ◌>>=◌, ◌>>◌, pure, branch, emit, abort, cancel_if_aborted, fail}

-- `MAX_TOOL_ARGUMENT_BYTES`
abbrev pub max_tool_argument_bytes : ℕ
max_tool_argument_bytes = 262144

abbrev pub call_key : PendingToolCall → String
call_key c = c.call_id

-- The variables of a turn: `turnText`, the map `calls` and `finishReason`.
pub record Turn : Type 0 where
  pub text : String
  pub calls : List PendingToolCall
  pub finish_reason : Option FinishReason

abbrev pub new_turn : Turn
new_turn = record { text = ""; calls = []; finish_reason = none }

-- `previous?.argumentsText ?? ''`
abbrev pub text_before : Option PendingToolCall → String
text_before none = ""
text_before (some c) = c.arguments_text

name_before : Option PendingToolCall → Option String
name_before none = none
name_before (some c) = c.name

-- `event.name ?? previous?.name`, where an empty name is none.
abbrev pub truthy : Option String → Option String
truthy none = none
truthy (some n) = if n =s "" then none else some n

unfoldable pub next_name : Option String → Option PendingToolCall → Option String
unfolding name_before
next_name none previous = truthy (name_before previous)
next_name (some n) previous = truthy (some n)

unfoldable pub add_call : String → Option String → String → Turn → Turn
unfolding next_name
add_call id name chunk t = record t {
  calls =
      put call_key
        (record {
          call_id = id;
          name = next_name name (find call_key id t.calls);
          arguments_text = text_before (find call_key id t.calls) +s chunk;
        })
        t.calls;
}

module _ (w : World) (q : AgentRunRequest) where
  -- An event of the policy, and the run fails with its code.
  unfoldable pub exceed : String → M Turn
  exceed code = do emit (model_error code); abort; fail w q code false

  unfoldable pub add_output : String → M (Unit {0})
  add_output text s = next (record s { output = s.output +s text }) tt

  unfoldable pub on_text : String → Turn → M Turn
  on_text text t s =
      branch (ltb q.config.limits.max_output_bytes (len (s.output +s text)))
        (exceed "OUTPUT_LIMIT_EXCEEDED")
        (add_output text >> (emit (model_text text) >> pure (record t { text = t.text +s text }))) s

  unfoldable pub on_tool_call : String → Option String → String → Turn → M Turn
  on_tool_call id name chunk t =
      branch (ltb max_tool_argument_bytes (len (text_before (find call_key id t.calls) +s chunk)))
        (exceed "TOOL_ARGUMENT_LIMIT_EXCEEDED")
        (emit (model_tool_call id name chunk) >> pure (add_call id name chunk t))

  unfoldable pub on_error : String → Bool → M Turn
  on_error code retryable = do emit (model_error code); abort; fail w q code retryable

  -- After the stream: the checks behind the loop.
  unfoldable pub after_stream : Turn → M Turn
  after_stream t = do
    cancel_if_aborted w q "user-cancelled-during-model"
    elim t.finish_reason [ none ↦ fail w q "MODEL_STREAM_ENDED" true | some r ↦ pure t ]

  -- The `catch` of the loop.
  unfoldable pub on_broken : M Turn
  on_broken = do
    cancel_if_aborted w q "user-cancelled-during-model"
    emit (model_error "MODEL_PROVIDER_ERROR")
    fail w q "MODEL_PROVIDER_ERROR" true

  -- A `return` in the loop closes the iterator first; an error of that goes to the `catch`, although
  -- the run has ended. So does an error in the loop, and then one of the closing is dropped.
  abbrev pub leave : Flow Turn → Flow Turn
  leave (returns s r) = branch (w.close_fails s.turn_index) on_broken (λ t. returns t r) s
  leave (next s t) = next s t
  leave (throws s) = on_broken s

  abbrev pub in_loop : M Turn → M Turn
  in_loop m s = leave (m s)

  -- A `break` closes the iterator too.
  unfoldable pub break_loop : Turn → M Turn
  break_loop t s = branch (w.close_fails s.turn_index) on_broken (after_stream t) s

  -- The part of the loop before an event is looked at.
  abbrev pub on_event : M Turn → M Turn
  on_event m = in_loop (cancel_if_aborted w q "user-cancelled-during-model" >> m)

  -- The loop over the events; `completed` breaks it.
  unfoldable pub read_stream : StreamEnd → List ModelEvent → Turn → M Turn
  read_stream ended [] t = after_stream t
  read_stream broken [] t = on_broken
  read_stream e (text_delta text ∷ es) t = on_event (on_text text t) >>= read_stream e es
  read_stream e (tool_call_delta id name chunk ∷ es) t =
      on_event (on_tool_call id name chunk t) >>= read_stream e es
  read_stream e (usage ∷ es) t = on_event (emit model_usage >> pure t) >>= read_stream e es
  read_stream e (completed r ∷ es) t =
      on_event (emit (model_completed r) >> pure (record t { finish_reason = some r }))
      >>= break_loop
  read_stream e (error code retryable ∷ es) t = on_event (on_error code retryable)
