-- ===== src/Agent/Reading.antt =====
-- What the reading of the model's stream keeps, in `run` of packages/agent/src/index.ts.
use Prim.Native.String.{len, ◌++◌ as ◌+s◌}
use vibe_go.Base.{
  sym, subst, ◌∙◌, ◌≡◌, some, none, ◌||◌, inr, inl, Option-cases, refl, String, Bool, true, false,
  Option, List, [], ◌∷◌, arith, ltb, ap,
}
use vibe_go.Base.Keyed.{find}
use vibe_go.Agent.Types.{usage, broken, ended}
use vibe_go.Runs.{
  RunStatus, failed, cancelling, assert_transition, invalid_transition, executing, same_status,
}
use vibe_go.Runs.Paths.{is_final, final_stuck, same_live, same_open}
use vibe_go.Agent.{
  leave, on_event, break_loop, next, throws, returns, M, poll, cancel, to_cancelled, transition,
  AgentRunResult, FinalStatus, run_is_completed, run_is_failed, run_is_cancelled, error, completed,
  tool_call_delta, text_delta, call_key, text_before, ModelEvent, max_tool_argument_bytes,
  StreamEnd, emit, Turn, ◌>>◌, on_error, add_output, abort, ◌>>=◌, on_broken, exceed, read_stream,
  on_tool_call, on_text, fail, cancel_if_aborted, after_stream, Flow, AgentRunRequest, World,
  AgentState,
}
use vibe_go.Agent.Quiet.{
  IsQuiet, checked-IsQuiet, on_text-IsQuiet, on_tool_call-IsQuiet, on_error-IsQuiet,
}
use vibe_go.Agent.Ledger.{
  same→eq, Cause, Ensures, comes_back, breaks, Final, status_of, goes_on, and_then-Ensures,
  branch-Ensures, Used, Inv, IsWithin, Keeps, fail-Ensures, cancel_if_aborted-Keeps,
}

module _ (w : World) (q : AgentRunRequest) (u : Used) (within : IsWithin q u) where
  abbrev pub Executes {ℓ} : {A : Type ℓ} → Flow A → Type ℓ
  Executes f = Keeps q w (same_status executing) u f

  pub fail-Executes {ℓ} :
      {A : Type ℓ} (code : String) (retryable : Bool) (s : AgentState)
      → Inv q (same_status executing) u s
      → Executes {A = A} (fail w q code retryable s)
  fail-Executes code retryable s (b, life, e) =
      fail-Ensures q w u within _ code retryable s (b, life, same_open executing s.status refl e)

  pub checks-Executes :
      (reason : String) (s : AgentState)
      → Inv q (same_status executing) u s
      → Executes (cancel_if_aborted w q reason s)
  checks-Executes reason s h =
      cancel_if_aborted-Keeps q w u within (same_status executing) reason s
        (λ st e. same_live executing st refl e) h

  on_text-Executes :
      (text : String) (t : Turn) (s : AgentState)
      → Inv q (same_status executing) u s
      → Executes (on_text w q text t s)
  unfolding on_text exceed add_output abort emit ◌>>=◌ ◌>>◌
  on_text-Executes text t s (b, life, e) =
      branch-Ensures (ltb q.config.limits.max_output_bytes (len (s.output +s text))) _ _ s
        (λ _. fail-Executes "OUTPUT_LIMIT_EXCEEDED" false _ (b, life, e))
        (λ few.
          goes_on
            ((ap (λ o. o +s text) b.0, ground (arith, few), b.2, b.3, b.4, b.5, b.6, b.7), life, e))

  on_tool_call-Executes :
      (id : String) (name : Option String) (chunk : String) (t : Turn) (s : AgentState)
      → Inv q (same_status executing) u s
      → Executes (on_tool_call w q id name chunk t s)
  unfolding on_tool_call exceed abort emit ◌>>=◌ ◌>>◌
  on_tool_call-Executes id name chunk t s h =
      branch-Ensures
        (ltb max_tool_argument_bytes (len (text_before (find call_key id t.calls) +s chunk))) _ _ s
        (λ _. fail-Executes "TOOL_ARGUMENT_LIMIT_EXCEEDED" false _ h) (λ few. goes_on h)

  after_stream-Executes :
      (t : Turn) (s : AgentState)
      → Inv q (same_status executing) u s
      → Executes (after_stream w q t s)
  unfolding after_stream ◌>>=◌ ◌>>◌
  after_stream-Executes t s h =
      and_then-Ensures _ (checks-Executes "user-cancelled-during-model" s h) (λ s' _ i.
        elim (Option-cases t.finish_reason) [
          | inl none_yet ↦ rw none_yet (fail-Executes "MODEL_STREAM_ENDED" true s' i)
          | inr (r, e) ↦ rw e (goes_on i)
        ])

  on_broken-Executes :
      (s : AgentState) → Inv q (same_status executing) u s → Executes (on_broken w q s)
  unfolding on_broken emit ◌>>=◌ ◌>>◌
  on_broken-Executes s h =
      and_then-Ensures _ (checks-Executes "user-cancelled-during-model" s h)
        (λ s' _ i. fail-Executes "MODEL_PROVIDER_ERROR" true _ i)

  status_of-is_final : (f : FinalStatus) → is_final (status_of f) ≡ true
  status_of-is_final run_is_completed = refl
  status_of-is_final run_is_failed = refl
  status_of-is_final run_is_cancelled = refl

  final_apart : (st : RunStatus) → is_final st ≡ true → same_status st cancelling ≡ false
  final_apart st e = ground (arith, e)

  cancel_stuck :
      (reason : String) (s : AgentState)
      → assert_transition s.status cancelling ≡ invalid_transition
      → same_status s.status cancelling ≡ false
      → cancel w q {A = Unit {0}} reason s ≡ throws s
  unfolding cancel to_cancelled transition ◌>>=◌ ◌>>◌
  cancel_stuck reason s stuck apart = rw (apart, stuck, to_cancelled, transition) refl

  fail_stuck :
      (code : String) (retryable : Bool) (s : AgentState)
      → assert_transition s.status failed ≡ invalid_transition
      → fail w q {A = Turn} code retryable s ≡ throws s
  unfolding fail transition ◌>>=◌ ◌>>◌
  fail_stuck code retryable s stuck = rw (stuck, transition) refl

  -- A run that has ended makes no transition: the `catch` throws.
  on_broken-breaks :
      (s : AgentState) (r : AgentRunResult)
      → Final q w u.holds s (some r)
      → w.close_fails s.turn_index ≡ true
      → Executes (on_broken w q s)
  unfolding on_broken cancel_if_aborted poll emit ◌>>=◌ ◌>>◌
  on_broken-breaks s r (st, _, _, _, _, left) fails =
      let ended = ap is_final st ∙ status_of-is_final r.status in
      let why : Cause w s = inr (inr fails) in
      and_then-Ensures {Q = λ t _. (t.status ≡ s.status) × Final q w u.holds t none} _
        (branch-Ensures (s.aborted || w.aborts s.checks) _ _ _
          (λ _.
            subst
              (Ensures (λ t _. (t.status ≡ s.status) × Final q w u.holds t none)
                (Final q w u.holds))
              (sym (
                cancel_stuck "user-cancelled-during-model" _ (final_stuck s.status cancelling ended)
                  (final_apart s.status ended)))
              (breaks (left, why)))
          (λ _. goes_on (refl, (left, why))))
        (λ t _ (same, i).
          subst Executes
            (sym (
              fail_stuck "MODEL_PROVIDER_ERROR" true _
                (final_stuck t.status failed (ap is_final same ∙ ended))))
            (breaks i))

  leave-Executes : (f : Flow Turn) → IsQuiet f → Executes f → Executes (leave w q f)
  leave-Executes (next s t) quiet h = h
  leave-Executes (throws s) quiet h = absurd quiet
  leave-Executes (returns s r) quiet (comes_back h) =
      branch-Ensures (w.close_fails s.turn_index) _ _ s (λ e. on_broken-breaks s r h e)
        (λ _. comes_back h)

  checked-Executes :
      (reason : String) (m : M Turn) (s : AgentState)
      → ((t : AgentState) → Inv q (same_status executing) u t → Executes (m t))
      → Inv q (same_status executing) u s
      → Executes ((cancel_if_aborted w q reason >> m) s)
  unfolding ◌>>=◌ ◌>>◌
  checked-Executes reason m s each h =
      and_then-Ensures _ (checks-Executes reason s h) (λ t _ i. each t i)

  on_event-Executes :
      (m : M Turn) (s : AgentState)
      → ((t : AgentState) → t.status ≡ executing → IsQuiet (m t))
      → ((t : AgentState) → Inv q (same_status executing) u t → Executes (m t))
      → Inv q (same_status executing) u s
      → Executes (on_event w q m s)
  on_event-Executes m s quiet each h =
      leave-Executes _
        (checked-IsQuiet w q "user-cancelled-during-model" m s (same→eq executing s.status h.2)
          quiet)
        (checked-Executes "user-cancelled-during-model" m s each h)

  break_loop-Executes :
      (t : Turn) (s : AgentState)
      → Inv q (same_status executing) u s
      → Executes (break_loop w q t s)
  unfolding break_loop
  break_loop-Executes t s h =
      branch-Ensures (w.close_fails s.turn_index) _ _ s (λ _. on_broken-Executes s h)
        (λ _. after_stream-Executes t s h)

  pub read_stream-Executes :
      (end : StreamEnd) (es : List ModelEvent) (t : Turn) (s : AgentState)
      → Inv q (same_status executing) u s
      → Executes (read_stream w q end es t s)
  unfolding read_stream on_error abort emit ◌>>=◌ ◌>>◌
  read_stream-Executes ended [] t s h = after_stream-Executes t s h
  read_stream-Executes broken [] t s h = on_broken-Executes s h
  read_stream-Executes end (text_delta text ∷ es) t s h =
      and_then-Ensures _
        (on_event-Executes _ s (λ s' e. on_text-IsQuiet w q text t s' e)
          (λ s' i. on_text-Executes text t s' i) h)
        (λ s' t' i. read_stream-Executes end es t' s' i)
  read_stream-Executes end (tool_call_delta id name chunk ∷ es) t s h =
      and_then-Ensures _
        (on_event-Executes _ s (λ s' e. on_tool_call-IsQuiet w q id name chunk t s' e)
          (λ s' i. on_tool_call-Executes id name chunk t s' i) h)
        (λ s' t' i. read_stream-Executes end es t' s' i)
  read_stream-Executes end (usage ∷ es) t s h =
      and_then-Ensures _ (on_event-Executes _ s (λ _ _. tt) (λ s' i. goes_on i) h)
        (λ s' t' i. read_stream-Executes end es t' s' i)
  read_stream-Executes end (completed r ∷ es) t s h =
      and_then-Ensures _ (on_event-Executes _ s (λ _ _. tt) (λ s' i. goes_on i) h)
        (λ s' t' i. break_loop-Executes t' s' i)
  read_stream-Executes end (error code retryable ∷ es) t s h =
      on_event-Executes _ s (λ s' e. on_error-IsQuiet w q code retryable s' e)
        (λ s' i. fail-Executes code retryable _ i) h
