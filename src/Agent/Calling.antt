-- ===== src/Agent/Calling.antt =====
-- What a call of a tool keeps, `executeToolCall` of packages/agent/src/index.ts.
use vibe_go.Base.{
  inl, inr, ◌∷◌, ◌||◌, ap, ◌≡◌, refl, String, Option, none, some, arith, ◌=s◌, ℕ, suc,
}
use vibe_go.Agent.Types.{approved, allow, deny, expired, wait_failed, wait_cancelled}
use vibe_go.Agent.Text.{arguments_or_object}
use vibe_go.Runs.{executing, waiting_approval, same_status}
use vibe_go.Runs.Paths.{is_live, workflow, same_live}
use vibe_go.Agent.{
  ask_and_wait, asks, approval_decided, failure_code, failed, decided, returned, not_approved,
  content, tool_failed, failure_message, is_recoverable, pure, Wait, Execution, Approve, approve,
  approval_required, M, ◌>>◌, poll, PendingToolCall, ◌>>=◌, wait_ended, AgentToolDescriptor,
  wait_for_decision, failure, execute, emit, after_allow, ToolRuntime, with_descriptor, succeed,
  next, give_up, execute_tool_call, attempts, ask_user, after_wait, after_execution, after_approve,
  ToolResult, Flow, AgentRunRequest, World, AgentState,
}
use vibe_go.Agent.Ledger.{
  IsWithin, breaks-Ensures, Ensures, goes_on, and_then-Ensures, branch-Ensures, Used, Inv, Final,
  transition_from-Keeps,
}

module _ (w : World) (q : AgentRunRequest) where
  -- A call that gives content leaves the run executing; after a failure it may also be waiting.
  abbrev pub Answered : Used → AgentState → ToolResult → Type 0
  Answered u s (content d text) = Inv q (same_status executing) u s
  Answered u s (failure c message) = Inv q is_live u s

  module _ (u : Used) (within : IsWithin q u) where
    abbrev Calls : Flow ToolResult → Type 0
    Calls f = Ensures (Answered u) (Final q w u.holds) f

    fails_executing :
        (c message : String) (s : AgentState)
        → Inv q (same_status executing) u s
        → Calls (next s (failure c message))
    fails_executing c message s (b, life, e) =
        goes_on (b, life, same_live executing s.status refl e)

    fails_waiting :
        (c message : String) (s : AgentState)
        → Inv q (same_status waiting_approval) u s
        → Calls (next s (failure c message))
    fails_waiting c message s (b, life, e) =
        goes_on (b, life, same_live waiting_approval s.status refl e)

    succeed-Answered :
        (d : AgentToolDescriptor) (call : PendingToolCall) (n : ℕ) (text : String) (s : AgentState)
        → Inv q (same_status executing) u s
        → Calls (succeed w q d call n text s)
    unfolding succeed emit ◌>>=◌ ◌>>◌
    succeed-Answered d call n text s h = goes_on h

    give_up-Answered :
        (d : AgentToolDescriptor) (call : PendingToolCall) (c : String) (s : AgentState)
        → Inv q (same_status executing) u s
        → Calls (give_up w q d call c s)
    unfolding give_up emit ◌>>=◌ ◌>>◌
    give_up-Answered d call c s h =
        and_then-Ensures _
          (branch-Ensures {Q = λ t _. Inv q (same_status executing) u t} (c =s "APPROVAL_REQUIRED")
            (emit (approval_required call.call_id)) (pure tt) s (λ _. goes_on h) (λ _. goes_on h))
          (λ t _ i.
            branch-Ensures (is_recoverable c) _ _ _ (λ _. goes_on i)
              (λ _.
                fails_executing c (failure_message c)
                  (record t { log = tool_failed call.call_id c ∷ t.log }) i))

    approve-Answered :
        (call : PendingToolCall) (retry : M ToolResult)
        → ((t : AgentState) → Inv q (same_status executing) u t → Calls (retry t))
        → (given : Approve) (s : AgentState) → Inv q (same_status executing) u s
        → Calls (after_approve w q call retry given s)
    unfolding after_approve emit ◌>>=◌ ◌>>◌
    approve-Answered call retry again approved s h = again s h
    approve-Answered call retry again (not_approved c) s h =
        fails_executing (failure_code c) (failure_message (failure_code c))
          (record s { log = tool_failed call.call_id (failure_code c) ∷ s.log }) h

    after_wait-Answered :
        (call : PendingToolCall) (retry : M ToolResult)
        → ((t : AgentState) → Inv q (same_status executing) u t → Calls (retry t))
        → (wait : Wait) (s : AgentState) → Inv q (same_status waiting_approval) u s
        → Calls (after_wait w q call retry wait s)
    unfolding after_wait after_allow wait_ended poll approve emit ◌>>=◌ ◌>>◌
    after_wait-Answered call retry again wait_cancelled s h = fails_waiting _ _ _ h
    after_wait-Answered call retry again wait_failed s h =
        branch-Ensures (s.aborted || w.aborts s.checks) _ _ _ (λ _. fails_waiting _ _ _ h)
          (λ _. fails_waiting _ _ _ h)
    after_wait-Answered call retry again (decided expired) s h = fails_waiting _ _ _ h
    after_wait-Answered call retry again (decided deny) s h = fails_waiting _ _ _ h
    after_wait-Answered call retry again (decided allow) s h =
        and_then-Ensures _
          (transition_from-Keeps q w u waiting_approval executing
            (record s { log = approval_decided call.call_id allow ∷ s.log }) workflow.6 h)
          (λ t _ i. approve-Answered call retry again (w.approve t.waits) t i)

    ask_user-Answered :
        (call : PendingToolCall) (retry : M ToolResult)
        → ((t : AgentState) → Inv q (same_status executing) u t → Calls (retry t))
        → (s : AgentState) → Inv q (same_status executing) u s
        → Calls (ask_user w q call retry s)
    unfolding ask_user ask_and_wait wait_for_decision emit ◌>>=◌ ◌>>◌
    ask_user-Answered call retry again s h =
        branch-Ensures (w.expiry_is_date s.waits) _ _ s
          (λ _.
            and_then-Ensures _
              (transition_from-Keeps q w u executing waiting_approval
                (record s { log = approval_required call.call_id ∷ s.log }) workflow.5 h)
              (λ t _ i.
                after_wait-Answered call retry again (w.wait t.waits)
                  (record t { waits = suc t.waits }) i))
          (λ e. breaks-Ensures q w u within _ (same_status executing) s h (inr (inl e)))

    after_execution-Answered :
        (runtime : ToolRuntime) (d : AgentToolDescriptor) (call : PendingToolCall) (attempt : ℕ)
        (retry : M ToolResult)
        → (attempt ≡ 0 → (t : AgentState) → Inv q (same_status executing) u t → Calls (retry t))
        → (x : Execution) (s : AgentState) → Inv q (same_status executing) u s
        → Calls (after_execution w q runtime d call attempt retry x s)
    unfolding after_execution
    after_execution-Answered runtime d call attempt retry again (returned text) s h =
        succeed-Answered d call (suc attempt) text s h
    after_execution-Answered runtime d call attempt retry again (failed c) s h =
        branch-Ensures (w.details_fail s.executions) _ _ s
          (λ e. breaks-Ensures q w u within _ (same_status executing) s h (inl e))
          (λ _.
            branch-Ensures (asks w q runtime attempt (failure_code c)) _ _ s
              (λ e. ask_user-Answered call retry (again (ground (arith, e))) s h)
              (λ _. give_up-Answered d call (failure_code c) s h))

    -- Two rounds are enough: only the first asks the user and is repeated.
    attempts-Answered :
        (runtime : ToolRuntime) (d : AgentToolDescriptor) (call : PendingToolCall) (s : AgentState)
        → Inv q (same_status executing) u s
        → Calls (attempts w q 2 runtime d call 0 s)
    unfolding attempts execute emit ◌>>=◌ ◌>>◌
    attempts-Answered runtime d call s h =
        after_execution-Answered runtime d call 0 _
          (λ _ t i.
            after_execution-Answered runtime d call 1 _ (λ e. absurd (ground (arith, e)))
              (w.execution t.executions) _ i)
          (w.execution s.executions) _ h

    with_descriptor-Answered :
        (runtime : ToolRuntime) (call : PendingToolCall) (d : Option AgentToolDescriptor)
        (s : AgentState)
        → Inv q (same_status executing) u s
        → Calls (with_descriptor w q runtime call d s)
    unfolding with_descriptor emit ◌>>=◌ ◌>>◌
    with_descriptor-Answered runtime call none s h = goes_on h
    with_descriptor-Answered runtime call (some d) s h =
        branch-Ensures (w.is_json (arguments_or_object call.arguments_text)) _ _ s
          (λ _. attempts-Answered runtime d call s h) (λ _. goes_on h)

  -- A call that is asked for counts as one request, whatever comes of it.
  abbrev pub asked_once : Used → Used
  asked_once u = record u { calls_asked = suc u.calls_asked }

  pub execute_tool_call-Answered :
      (u : Used) (runtime : ToolRuntime) (call : PendingToolCall) (s : AgentState)
      → IsWithin q (asked_once u)
      → Inv q (same_status executing) u s
      → Ensures
          (Answered (asked_once u))
          (Final q w u.holds)
          (execute_tool_call w q (some runtime) call s)
  unfolding execute_tool_call emit ◌>>=◌ ◌>>◌
  execute_tool_call-Answered u runtime call s within
        ((text, bytes, begun, index, asked, counted, held, left), life, now) =
      with_descriptor-Answered (asked_once u) within runtime call _ _
        ((text, bytes, begun, index, ap suc asked, counted, held, left), life, now)
