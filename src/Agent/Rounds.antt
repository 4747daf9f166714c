-- ===== src/Agent/Rounds.antt =====
-- What a round of the loop keeps, in `run` of packages/agent/src/index.ts.
use Prim.Native.String.{len}
use vibe_go.Base.{
  ◌||◌, ◌≡◌, refl, String, Bool, true, false, none, some, List, [], ◌∷◌, arith, ltb, ap, not, ◌≤◌,
  ◌<◌, sym, subst, inl, inr, length, leb, Option-cases, ◌==◌, ◌&&◌, ◌+◌, ℕ, suc, zero,
}
use vibe_go.Runs.{RunStatus, planning, executing, completed, same_status}
use vibe_go.Runs.Paths.{is_live, same_live, same_open, live_open, workflow}
use vibe_go.Agent.{
  exit_reason, run_completed, turn_completed, model_tool_count, model_requested, new_turn, content,
  turn_started, failure, run_is_completed, execute_tool_call, emit, ToolResult, finish, after_model,
  Turn, PendingToolCall, CallResult, ◌>>◌, read_model, push, emit_run_completed, abort, ◌>>=◌,
  use_tools, start_turn, poll, emit_turn_completed, count_call, ToolRuntime, with_calls, turns,
  turn, settle_call, run_calls, on_failure, next_turn, has_tools, complete_run, AgentRunRequest,
  World, AgentState,
}
use vibe_go.Agent.Ledger.{
  Ensures, goes_on, comes_back, and_then-Ensures, weaken-Ensures, branch-Ensures, Used, Inv,
  IsWithin, Final, fail-Ensures, cancel-Ensures, cancel_if_aborted-Keeps, transition_from-Keeps,
  finish-Final,
}
use vibe_go.Agent.Calling.{Answered, asked_once, execute_tool_call-Answered}
use vibe_go.Agent.Reading.{read_stream-Executes}

-- Between two calls: every call that was asked for is counted.
abbrev pub rested : ℕ → ℕ → Used
rested n k = record { turns_begun = n; calls_asked = k; calls_counted = k; holds = true }

module _ (w : World) (q : AgentRunRequest) where
  -- A state of the loop after `n` rounds.
  abbrev pub Rests : (RunStatus → Bool) → ℕ → AgentState → Type 0
  Rests p n s =
      (n ≤ q.config.limits.max_turns)
      × ((k : ℕ) × (k ≤ q.config.limits.max_tool_calls) × Inv q p (rested n k) s)

  rested_within :
      (n k : ℕ)
      → n ≤ q.config.limits.max_turns
      → k ≤ q.config.limits.max_tool_calls
      → IsWithin q (rested n k)
  rested_within n k begun few = (begun, few, λ e. absurd (ground (arith, e)))

  runtime_of : has_tools q ≡ true → (runtime : ToolRuntime) × (q.tool_runtime ≡ some runtime)
  runtime_of e = elim (Option-cases q.tool_runtime) [
    | inl none_there ↦ absurd (ground (arith, e, none_there))
    | inr found ↦ found
  ]

  on_failure-Ensures :
      (Q : AgentState → CallResult → Type 0) (u : Used)
      → IsWithin q u
      → (c : String) (s : AgentState) → Inv q is_live u s
      → Ensures Q (Final q w u.holds) (on_failure w q c s)
  unfolding on_failure poll abort ◌>>=◌ ◌>>◌
  on_failure-Ensures Q u within c s (b, life, e) =
      branch-Ensures (s.aborted || w.aborts s.checks) _ _ _
        (λ _. cancel-Ensures q w u within Q _ _ (b, life, e))
        (λ _. fail-Ensures q w u within Q c false _ (b, life, live_open s.status e))

  module _ (n : ℕ) (begun : n ≤ q.config.limits.max_turns) where
    settle_call-Rests :
        (k : ℕ) (call : PendingToolCall) (answer : ToolResult) (s : AgentState)
        → suc k ≤ q.config.limits.max_tool_calls
        → Answered w q (asked_once w q (rested n k)) s answer
        → Ensures
            (λ t _. Inv q (same_status executing) (rested n (suc k)) t)
            (Final q w true)
            (settle_call w q call answer s)
    unfolding settle_call count_call ◌>>=◌ ◌>>◌
    settle_call-Rests k call (failure c message) s room h =
        on_failure-Ensures _ (asked_once w q (rested n k))
          (begun, room, λ e. absurd (ground (arith, e))) c s h
    settle_call-Rests k call (content d text) s room (b, life, e) =
        goes_on ((b.0, b.1, b.2, b.3, b.4, ap suc b.5, b.6, b.7), life, e)

    run_calls-Rests :
        (runtime : ToolRuntime)
        → q.tool_runtime ≡ some runtime
        → (calls : List PendingToolCall) (k : ℕ) (s : AgentState)
        → k + length calls ≤ q.config.limits.max_tool_calls
        → Inv q (same_status executing) (rested n k) s
        → Ensures
            (λ t _. Rests (same_status executing) n t)
            (Final q w true)
            (run_calls w q calls s)
    unfolding run_calls ◌>>=◌ ◌>>◌
    run_calls-Rests runtime has [] k s room h = goes_on (begun, (k, omega (arith, room), h))
    run_calls-Rests runtime has (call ∷ calls) k s room h =
        and_then-Ensures _
          (subst
            (λ o.
              Ensures (Answered w q (asked_once w q (rested n k))) (Final q w true)
                (execute_tool_call w q o call s))
            (sym has)
            (execute_tool_call-Answered w q (rested n k) runtime call s
              (begun, omega (arith, room), λ e. absurd (ground (arith, e))) h))
          (λ t answer i.
            and_then-Ensures _ (settle_call-Rests k call answer t (omega (arith, room)) i)
              (λ t' r j.
                and_then-Ensures _
                  (run_calls-Rests runtime has calls (suc k) t' (omega (arith, room)) j)
                  (λ t'' rs l. goes_on l)))

    next_turn-Rests :
        (s : AgentState)
        → Rests (same_status executing) n s
        → Ensures (λ t _. Rests (same_status planning) n t) (Final q w true) (next_turn w q s)
    unfolding next_turn
    next_turn-Rests s (_, (k, few, h)) =
        branch-Ensures (leb q.config.limits.max_turns s.turn_index) _ _ s
          (λ _.
            fail-Ensures q w (rested n k) (rested_within n k begun few) _ _ _ s
              (h.0, h.1, same_open executing s.status refl h.2))
          (λ _.
            weaken-Ensures
              (transition_from-Keeps q w (rested n k) executing planning s workflow.3 h)
              (λ t _ i. (begun, (k, few, i))))

    complete_run-Ends :
        (k : ℕ) (t : Turn) (s : AgentState)
        → k ≤ q.config.limits.max_tool_calls
        → Inv q (same_status executing) (rested n k) s
        → Ensures (λ t _. Rests (same_status planning) n t) (Final q w true) (complete_run w q t s)
    unfolding complete_run emit_turn_completed emit_run_completed finish ◌>>=◌ ◌>>◌
    complete_run-Ends k t s few h =
        and_then-Ensures _
          (transition_from-Keeps q w (rested n k) executing completed
            (record s { log = turn_completed (len s.output) none ∷ s.log }) workflow.4 h)
          (λ t' _ i. comes_back (
            finish-Final q w (rested n k) (rested_within n k begun few) run_is_completed
              (record t' { log = run_completed t'.output (exit_reason t.finish_reason) ∷ t'.log }) i
              refl))

    with_calls-Rests :
        (k : ℕ) (t : Turn) (s : AgentState)
        → k ≤ q.config.limits.max_tool_calls
        → Inv q (same_status executing) (rested n k) s
        → Ensures (λ t _. Rests (same_status planning) n t) (Final q w true) (with_calls w q t s)
    unfolding with_calls use_tools push emit_turn_completed abort ◌>>=◌ ◌>>◌
    with_calls-Rests k t s few h =
        branch-Ensures (not (has_tools q && q.model_tool_calls)) _ _ s
          (λ _.
            fail-Ensures q w (rested n k) (rested_within n k begun few) _ _ _ _
              (h.0, h.1, same_open executing s.status refl h.2))
          (λ able.
            branch-Ensures (ltb q.config.limits.max_tool_calls (s.tool_call_count + length t.calls))
              _ _ s
              (λ _.
                fail-Ensures q w (rested n k) (rested_within n k begun few) _ _ _ _
                  (h.0, h.1, same_open executing s.status refl h.2))
              (λ room.
                let (runtime, has) = runtime_of (ground (arith, able)) in
                and_then-Ensures _
                  (run_calls-Rests runtime has t.calls k s (ground (arith, room, h.0.5)) h)
                  (λ t' rs i. next_turn-Rests _ i)))

  turn-Rests :
      (n : ℕ) (s : AgentState)
      → n < q.config.limits.max_turns
      → Rests (same_status planning) n s
      → Ensures (λ t _. Rests (same_status planning) (suc n) t) (Final q w true) (turn w q s)
  unfolding turn start_turn read_model after_model emit ◌>>=◌ ◌>>◌
  turn-Rests n s more (begun, (k, few, h)) =
      and_then-Ensures _
        (cancel_if_aborted-Keeps q w (rested n k) (rested_within n k begun few)
          (same_status planning) _ s (λ st e. same_live planning st refl e) h)
        (λ t _ (b, life, e).
          and_then-Ensures _
            (transition_from-Keeps q w (rested (suc n) k) planning executing
              (record t {
                turn_index = suc t.turn_index;
                log = turn_started (suc t.turn_index) ∷ t.log;
              })
              workflow.2 ((b.0, b.1, ap suc b.2, ap suc b.3, b.4, b.5, b.6, b.7), life, e))
            (λ t' _ i.
              and_then-Ensures _
                (read_stream-Executes w q (rested (suc n) k) (rested_within (suc n) k more few)
                  (w.stream_end t'.turn_index) (w.stream t'.turn_index) new_turn
                  (record t' { log = model_requested (model_tool_count q) ∷ t'.log }) i)
                (λ t'' m j.
                  branch-Ensures (length m.calls == 0) _ _ t''
                    (λ _. complete_run-Ends (suc n) more k m t'' few j)
                    (λ _. with_calls-Rests (suc n) more k m t'' few j))))

  -- More fuel than there are turns left is enough.
  pub turns-Ends {ℓ} :
      {A : Type ℓ} (Q : AgentState → A → Type 0) (fuel n : ℕ) (s : AgentState)
      → q.config.limits.max_turns < fuel + n
      → Rests (same_status planning) n s
      → Ensures Q (Final q w true) (turns w q fuel s)
  unfolding turns ◌>>=◌ ◌>>◌
  turns-Ends Q zero n s enough (begun, _) = absurd (omega (arith, enough, begun))
  turns-Ends Q (suc fuel) n s enough (begun, (k, few, h)) =
      branch-Ensures (ltb s.turn_index q.config.limits.max_turns) _ _ s
        (λ more.
          and_then-Ensures _ (turn-Rests n s (ground (arith, more, h.0.3)) (begun, (k, few, h)))
            (λ t _ i. turns-Ends Q fuel (suc n) t (omega (arith, enough)) i))
        (λ _.
          fail-Ensures q w (rested n k) (rested_within n k begun few) Q _ _ s
            (h.0, h.1, same_open planning s.status refl h.2))
