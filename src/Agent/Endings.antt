-- ===== src/Agent/Endings.antt =====
-- The parts of `run` of packages/agent/src/index.ts before the first round, and how each can end it.
use vibe_go.Base.{
  ◌⊎◌, inl, inr, Option, some, none, [], ◌∷◌, ◌||◌, arith, ◌≡◌, refl, Bool, true, false, map, suc,
  String,
}
use vibe_go.Agent.Types.{refused, cancelled_in_queue}
use vibe_go.Runs.{passed, assert_transition, RunStatus, created, queued, planning, same_status}
use vibe_go.Runs.Paths.{is_live, same_live, same_open, workflow}
use vibe_go.Context.{
  Error, err, ok, budget, Result, invalid_limit, missing_text, duplicate_item, too_many_items,
  bad_sequence, bad_estimate, invalid_compaction,
}
use vibe_go.Agent.{
  build_context, after_context, body, initial, run_created, throws, fail, from_context, pure,
  context_compacted, ◌>>◌, ◌>>=◌, transition, emit, cancel_if_aborted, ContextBuildResult,
  Acquisition, take_lease, set_messages, poll, with_context, not_scheduled, granted, acquire, Flow,
  AgentRunResult, AgentRunRequest, World, AgentState,
}
use vibe_go.Agent.Ledger.{
  Cause, Left, breaks, fail-Ensures, cancel-Ensures, and_then-Ensures, transition_from-Keeps,
  cancel_if_aborted-Keeps, branch-Ensures, close-Ensures, Inv, Final, IsWithin, Ensures, goes_on,
  Used,
}
use vibe_go.Agent.Rounds.{turns-Ends}

-- Before the first round.
abbrev pub fresh : Bool → Used
fresh holds = record { turns_begun = 0; calls_asked = 0; calls_counted = 0; holds = holds }

abbrev pub is_budget : Error → Bool
is_budget (budget bytes tokens) = true
is_budget _ = false

module _ (w : World) (q : AgentRunRequest) where
  -- Why `run` may throw: its context could not be built, for another reason than its budget, or a cause
  -- that came later.
  abbrev pub Reason : AgentState → Type 0
  Reason s = ((e : Error) × ((build_context q ≡ err e) × (is_budget e ≡ false))) ⊎ Cause w s

  -- A lease is held at the end only if the scheduler granted one.
  abbrev pub Closed : AgentState → Option AgentRunResult → Type 0
  Closed s (some r) =
      (holds : Bool) × ((holds ≡ true → w.acquisition ≡ granted) × Final q w holds s (some r))
  Closed s none =
      (holds : Bool) × ((holds ≡ true → w.acquisition ≡ granted) × (Left q holds s × Reason s))

  closed :
      (holds : Bool)
      → (holds ≡ true → w.acquisition ≡ granted)
      → (s : AgentState) (r : Option AgentRunResult) → Final q w holds s r
      → Closed s r
  closed holds asked s (some r) k = (holds, (asked, k))
  closed holds asked s none k = (holds, (asked, (k.0, inr k.1)))

  within_fresh : (holds : Bool) → IsWithin q (fresh holds)
  within_fresh holds = (omega arith, omega arith, λ e. refl)

  closes {ℓ} :
      {A : Type ℓ} {Q : AgentState → A → Type 0} {f : Flow A} (holds : Bool)
      → (holds ≡ true → w.acquisition ≡ granted)
      → Ensures Q (Final q w holds) f
      → Ensures Q Closed f
  closes holds asked h = close-Ensures h (closed holds asked)

  none_held : false ≡ true → w.acquisition ≡ granted
  none_held e = absurd (ground (arith, e))

  checks-Closed :
      (st : RunStatus) (holds : Bool) (reason : String) (s : AgentState)
      → is_live st ≡ true
      → (holds ≡ true → w.acquisition ≡ granted)
      → Inv q (same_status st) (fresh holds) s
      → Ensures
          (λ t _. Inv q (same_status st) (fresh holds) t)
          Closed
          (cancel_if_aborted w q reason s)
  checks-Closed st holds reason s live asked h = closes holds asked (
      cancel_if_aborted-Keeps q w (fresh holds) (within_fresh holds) (same_status st) reason s
        (λ x e. same_live st x live e) h)

  moves-Closed :
      (from to : RunStatus) (holds : Bool) (s : AgentState)
      → assert_transition from to ≡ passed
      → (holds ≡ true → w.acquisition ≡ granted)
      → Inv q (same_status from) (fresh holds) s
      → Ensures (λ t _. Inv q (same_status to) (fresh holds) t) Closed (transition to s)
  moves-Closed from to holds s can asked h =
      closes holds asked (transition_from-Keeps q w (fresh holds) from to s can h)

  not_scheduled-Closed :
      (Q : AgentState → Unit {0} → Type 0) (in_queue : Bool) (s : AgentState)
      → Inv q (same_status queued) (fresh false) s
      → Ensures Q Closed (not_scheduled w q in_queue s)
  unfolding not_scheduled poll ◌>>=◌
  not_scheduled-Closed Q in_queue s (b, life, e) =
      branch-Ensures ((s.aborted || w.aborts s.checks) || in_queue) _ _ _
        (λ _. closes false none_held (
          cancel-Ensures q w (fresh false) (within_fresh false) Q _ _
            (b, life, same_live queued s.status refl e)))
        (λ _. closes false none_held (
          fail-Ensures q w (fresh false) (within_fresh false) Q _ _ _
            (b, life, same_open queued s.status refl e)))

  acquire-Closed :
      (a : Acquisition) (s : AgentState)
      → w.acquisition ≡ a
      → Inv q (same_status queued) (fresh false) s
      → Ensures
          (λ t _. (w.acquisition ≡ granted) × Inv q (same_status queued) (fresh true) t)
          Closed
          (acquire w q a s)
  unfolding acquire take_lease
  acquire-Closed granted s told (b, life, e) =
      goes_on (told, ((b.0, b.1, b.2, b.3, b.4, b.5, refl, b.7), life, e))
  acquire-Closed cancelled_in_queue s told h = not_scheduled-Closed _ true s h
  acquire-Closed refused s told h = not_scheduled-Closed _ false s h

  with_context-Closed :
      (c : ContextBuildResult) (s : AgentState)
      → Inv q (same_status created) (fresh false) s
      → Ensures (λ _ _. ⊥) Closed (with_context w q c s)
  unfolding with_context set_messages emit ◌>>=◌ ◌>>◌
  with_context-Closed c s h =
      and_then-Ensures _
        (branch-Ensures {Q = λ t _. Inv q (same_status created) (fresh false) t} c.compacted
          (emit (context_compacted c)) (pure tt) s (λ _. goes_on h) (λ _. goes_on h))
        (λ s1 _ h1.
          and_then-Ensures _ (moves-Closed created queued false s1 workflow.0 none_held h1)
            (λ s2 _ h2.
              and_then-Ensures _ (checks-Closed queued false _ s2 refl none_held h2) (λ s3 _ h3.
                and_then-Ensures _ (acquire-Closed w.acquisition s3 refl h3) (λ s4 _ (asked, h4).
                  and_then-Ensures _ (checks-Closed queued true _ s4 refl (λ _. asked) h4)
                    (λ s5 _ h5.
                      and_then-Ensures _
                        (moves-Closed queued planning true s5 workflow.1 (λ _. asked) h5)
                        (λ s6 _ h6.
                          closes true (λ _. asked)
                            (turns-Ends w q _ (suc q.config.limits.max_turns) 0
                              (record s6 { messages = map from_context c.messages }) (omega arith)
                              (omega arith, (0, omega arith, h6)))))))))

  over_budget-Closed :
      (s : AgentState)
      → Inv q (same_status created) (fresh false) s
      → Ensures (λ _ _. ⊥) Closed (fail w q {A = AgentRunResult} "CONTEXT_BUDGET_EXCEEDED" false s)
  over_budget-Closed s (b, life, e) = closes false none_held (
      fail-Ensures q w (fresh false) (within_fresh false) _ _ _ s
        (b, life, same_open created s.status refl e))

  abbrev begun : AgentState
  begun = record (initial w q) { log = run_created ∷ [] }

  begun-Inv : Inv q (same_status created) (fresh false) begun
  begun-Inv = ((refl, omega arith, refl, refl, refl, refl, refl, refl), refl, refl)

  unbuilt-Closed :
      (e : Error)
      → build_context q ≡ err e
      → is_budget e ≡ false
      → Ensures (λ (_ : AgentState) (_ : AgentRunResult). ⊥) Closed (throws begun)
  unbuilt-Closed e built odd = breaks (
    false,
    (none_held, ((refl, omega arith, omega arith, (λ _. refl), refl, refl), inl (e, (built, odd)))),
  )

  after_context-Closed :
      (built : Result ContextBuildResult)
      → build_context q ≡ built
      → Ensures (λ _ _. ⊥) Closed (after_context w q built begun)
  unfolding after_context
  after_context-Closed (ok c) e = with_context-Closed c begun begun-Inv
  after_context-Closed (err (budget bytes tokens)) e = over_budget-Closed begun begun-Inv
  after_context-Closed (err invalid_limit) e = unbuilt-Closed invalid_limit e refl
  after_context-Closed (err missing_text) e = unbuilt-Closed missing_text e refl
  after_context-Closed (err duplicate_item) e = unbuilt-Closed duplicate_item e refl
  after_context-Closed (err too_many_items) e = unbuilt-Closed too_many_items e refl
  after_context-Closed (err bad_sequence) e = unbuilt-Closed bad_sequence e refl
  after_context-Closed (err bad_estimate) e = unbuilt-Closed bad_estimate e refl
  after_context-Closed (err invalid_compaction) e = unbuilt-Closed invalid_compaction e refl

  pub body-Closed : Ensures (λ _ _. ⊥) Closed (body w q (initial w q))
  unfolding body emit ◌>>=◌ ◌>>◌
  body-Closed = after_context-Closed (build_context q) refl
