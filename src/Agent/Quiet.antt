-- ===== src/Agent/Quiet.antt =====
-- The parts of the loop over the model's stream throw no error of their own, in `run` of
-- packages/agent/src/index.ts.
use Prim.Native.String.{len, ◌++◌ as ◌+s◌}
use vibe_go.Base.{
  ◌≡◌, ◌∙◌, ◌∷◌, ap, suc, Bool-cases, inl, inr, ◌||◌, refl, String, Bool, true, false, Option, ltb,
}
use vibe_go.Base.Keyed.{find}
use vibe_go.Runs.{
  RunStatus, failed, cancelling, cancelled, assert_transition, executing, same_status, passed,
}
use vibe_go.Agent.Types.{run_status}
use vibe_go.Runs.Paths.{passed_failed, passed_cancelling, workflow}
use vibe_go.Agent.{
  next, throws, returns, M, poll, cancel, to_cancelled, transition, call_key, text_before,
  max_tool_argument_bytes, emit, Turn, ◌>>◌, on_error, add_output, abort, ◌>>=◌, exceed,
  on_tool_call, on_text, fail, finish, cancel_if_aborted, branch, Flow, AgentRunRequest, World,
  AgentState, AgentRunResult,
}

abbrev pub IsQuiet {ℓ} : {A : Type ℓ} → Flow A → Type 0
IsQuiet (throws s) = ⊥
IsQuiet _ = Unit {0}

pub branch-IsQuiet {ℓ} :
    {A : Type ℓ} (b : Bool) (m k : M A) (s : AgentState)
    → IsQuiet (m s)
    → IsQuiet (k s)
    → IsQuiet (branch b m k s)
branch-IsQuiet true m k s h i = h
branch-IsQuiet false m k s h i = i

transition_passed :
    (to : RunStatus) (s : AgentState)
    → assert_transition s.status to ≡ passed
    → transition to s ≡ next (record s { log = run_status s.status to ∷ s.log; status = to }) tt
unfolding transition
transition_passed to s e = rw (e, transition) refl

module _ (w : World) (q : AgentRunRequest) where
  fail-IsQuiet {ℓ} :
      (A : Type ℓ) (code : String) (retryable : Bool) (s : AgentState)
      → s.status ≡ executing
      → IsQuiet (fail w q {A = A} code retryable s)
  unfolding fail emit finish ◌>>=◌ ◌>>◌
  fail-IsQuiet A code retryable s e =
      rw
        (transition_passed failed s
          (ap (λ st. assert_transition st failed) e ∙ passed_failed executing refl))
        tt

  cancel_returns {ℓ} :
      (A : Type ℓ) (reason : String) (s : AgentState)
      → s.status ≡ executing
      → (t : AgentState) × ((r : AgentRunResult) × (cancel w q {A = A} reason s ≡ returns t r))
  unfolding cancel to_cancelled emit finish ◌>>=◌ ◌>>◌
  cancel_returns A reason s e =
      let apart : same_status s.status cancelling ≡ false =
        ap (λ st. same_status st cancelling) e in
      rw
        (
          apart,
          transition_passed cancelling s
              (ap (λ st. assert_transition st cancelling) e ∙ passed_cancelling executing refl),
          transition_passed cancelled
              (record s { log = run_status s.status cancelling ∷ s.log; status = cancelling })
              workflow.7,
        )
        (_, (_, refl))

  -- The test of the signal, and then a part that throws nothing from the same status.
  pub checked-IsQuiet {ℓ} :
      {A : Type ℓ} (reason : String) (m : M A) (s : AgentState)
      → s.status ≡ executing
      → ((t : AgentState) → t.status ≡ executing → IsQuiet (m t))
      → IsQuiet ((cancel_if_aborted w q reason >> m) s)
  unfolding cancel_if_aborted poll ◌>>=◌ ◌>>◌
  checked-IsQuiet reason m s e each = elim (Bool-cases (s.aborted || w.aborts s.checks)) [
    | inl gone ↦
        let (t, (r, ends)) =
          cancel_returns (Unit {0}) reason (record s { aborted = true; checks = suc s.checks }) e in
        rw (gone, ends) tt
    | inr on ↦ rw on (each _ e)
  ]

  pub on_text-IsQuiet :
      (text : String) (t : Turn) (s : AgentState)
      → s.status ≡ executing
      → IsQuiet (on_text w q text t s)
  unfolding on_text exceed add_output abort emit ◌>>=◌ ◌>>◌
  on_text-IsQuiet text t s e =
      branch-IsQuiet (ltb q.config.limits.max_output_bytes (len (s.output +s text))) _ _ s
        (fail-IsQuiet _ "OUTPUT_LIMIT_EXCEEDED" false _ e) tt

  pub on_tool_call-IsQuiet :
      (id : String) (name : Option String) (chunk : String) (t : Turn) (s : AgentState)
      → s.status ≡ executing
      → IsQuiet (on_tool_call w q id name chunk t s)
  unfolding on_tool_call exceed abort emit ◌>>=◌ ◌>>◌
  on_tool_call-IsQuiet id name chunk t s e =
      branch-IsQuiet
        (ltb max_tool_argument_bytes (len (text_before (find call_key id t.calls) +s chunk))) _ _ s
        (fail-IsQuiet _ "TOOL_ARGUMENT_LIMIT_EXCEEDED" false _ e) tt

  pub on_error-IsQuiet :
      (code : String) (retryable : Bool) (s : AgentState)
      → s.status ≡ executing
      → IsQuiet (on_error w q code retryable s)
  unfolding on_error abort emit ◌>>=◌ ◌>>◌
  on_error-IsQuiet code retryable s e = fail-IsQuiet _ code retryable _ e
