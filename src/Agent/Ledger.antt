-- ===== src/Agent/Ledger.antt =====
-- What every step of the loop in packages/agent/src/index.ts keeps: the log tells the life of the run
-- and what it has used.
use Prim.Native.String.{len, ◌++◌ as ◌+s◌}
use vibe_go.Base.{
  ℕ, ◌⊎◌, Option, none, some, ◌∙◌, ◌||◌, sym, subst, not, suc, ◌≤◌, ◌≡◌, refl, String, Bool, true,
  false, List, [], ◌∷◌, arith,
}
use vibe_go.Runs.{
  RunStatus, created, cancelling, completed, failed, cancelled, same_status, passed,
  assert_transition,
}
use vibe_go.Runs.Paths.{is_final, is_open, is_live, passed_failed, passed_cancelling, workflow}
use vibe_go.Events.{last_seq}
use vibe_go.Agent.{
  event_store, throws, poll, to_cancelled, result, cancel_if_aborted, cancel, next, returns,
  run_status, model_text, turn_started, tool_requested, run_is_completed, run_is_failed,
  run_is_cancelled, run_completed, run_failed, run_cancelled, ◌>>◌, ◌>>=◌, finish, emit, branch,
  and_then, fail, M, transition, World, Flow, AgentRunResult, FinalStatus, AgentState,
  AgentRunRequest, Payload,
}

-- The status events of a log lead from `created` to a status, each by a transition that passes the
-- assertion.
abbrev pub IsHistory : List Payload → RunStatus → Type 0
IsHistory [] st = st ≡ created
IsHistory (run_status from to ∷ ps) st =
    (st ≡ to) × (assert_transition from to ≡ passed) × IsHistory ps from
IsHistory (_ ∷ ps) st = IsHistory ps st

-- The text of the events.
abbrev pub written : List Payload → String
written [] = ""
written (model_text text ∷ ps) = written ps +s text
written (_ ∷ ps) = written ps

abbrev pub turns_in : List Payload → ℕ
turns_in [] = 0
turns_in (turn_started i ∷ ps) = suc (turns_in ps)
turns_in (_ ∷ ps) = turns_in ps

abbrev pub calls_in : List Payload → ℕ
calls_in [] = 0
calls_in (tool_requested id d ∷ ps) = suc (calls_in ps)
calls_in (_ ∷ ps) = calls_in ps

-- How a part of the code ends: it goes on, `run` returns (`R` holds of the result), or an error is
-- thrown (`R` holds of none).
pub data Ensures {ℓ} {A : Type ℓ} (Q : AgentState → A → Type 0)
    (R : AgentState → Option AgentRunResult → Type 0) : Flow A → Type ℓ where
  goes_on : {s : AgentState} {a : A} → Q s a → Ensures Q R (next s a)
  comes_back : {s : AgentState} {r : AgentRunResult} → R s (some r) → Ensures Q R (returns s r)
  breaks : {s : AgentState} → R s none → Ensures Q R (throws s)

module _ {ℓ κ} {A : Type ℓ} {B : Type κ} {Q : AgentState → A → Type 0}
    {Q' : AgentState → B → Type 0} {R : AgentState → Option AgentRunResult → Type 0} where
  pub and_then-Ensures :
      {f : Flow A} (k : A → M B)
      → Ensures Q R f
      → ((s : AgentState) (a : A) → Q s a → Ensures Q' R (k a s))
      → Ensures Q' R (and_then k f)
  and_then-Ensures k (goes_on {s} {a} h) rest = rest s a h
  and_then-Ensures k (comes_back h) rest = comes_back h
  and_then-Ensures k (breaks h) rest = breaks h

module _ {ℓ} {A : Type ℓ} {Q : AgentState → A → Type 0}
    {R : AgentState → Option AgentRunResult → Type 0} where
  pub weaken-Ensures :
      {Q' : AgentState → A → Type 0} {f : Flow A}
      → Ensures Q R f
      → ((s : AgentState) (a : A) → Q s a → Q' s a)
      → Ensures Q' R f
  weaken-Ensures (goes_on {s} {a} h) rest = goes_on (rest s a h)
  weaken-Ensures (comes_back h) rest = comes_back h
  weaken-Ensures (breaks h) rest = breaks h

  pub close-Ensures :
      {R' : AgentState → Option AgentRunResult → Type 0} {f : Flow A}
      → Ensures Q R f
      → ((s : AgentState) (r : Option AgentRunResult) → R s r → R' s r)
      → Ensures Q R' f
  close-Ensures (goes_on h) rest = goes_on h
  close-Ensures (comes_back {s} {r} h) rest = comes_back (rest s (some r) h)
  close-Ensures (breaks {s} h) rest = breaks (rest s none h)

  pub branch-Ensures :
      (b : Bool) (m k : M A) (s : AgentState)
      → (b ≡ true → Ensures Q R (m s))
      → (b ≡ false → Ensures Q R (k s))
      → Ensures Q R (branch b m k s)
  branch-Ensures true m k s h g = h refl
  branch-Ensures false m k s h g = g refl

same_refl : (st : RunStatus) → same_status st st ≡ true
same_refl st = ground arith

pub same→eq : (st to : RunStatus) → same_status st to ≡ true → to ≡ st
same→eq st to h = ground arith

-- What has been used when a part of the code begins.
pub record Used : Type 0 where
  pub turns_begun : ℕ
  pub calls_asked : ℕ
  pub calls_counted : ℕ
  pub holds : Bool

live_apart : (st : RunStatus) → is_live st ≡ true → same_status st cancelling ≡ true → ⊥
live_apart st h e = ground arith

abbrev pub status_of : FinalStatus → RunStatus
status_of run_is_completed = completed
status_of run_is_failed = failed
status_of run_is_cancelled = cancelled

-- The newest event tells how the run ended.
abbrev pub IsAnnounced : FinalStatus → String → List Payload → Type 0
IsAnnounced run_is_completed output (run_completed summary reason ∷ ps) = summary ≡ output
IsAnnounced run_is_failed output (run_failed code retryable ∷ ps) = Unit
IsAnnounced run_is_cancelled output (run_cancelled reason ∷ ps) = Unit
IsAnnounced _ output _ = ⊥

-- Why `run` may throw once its context is built: `approvalDetails` threw after the last execution, the
-- time of an approval is no date, or the stream of the turn threw when it was closed.
abbrev pub Cause : World → AgentState → Type 0
Cause w s =
    (w.details_fail s.executions ≡ true)
    ⊎ (w.expiry_is_date s.waits ≡ false)
    ⊎ (w.close_fails s.turn_index ≡ true)

module _ (q : AgentRunRequest) where
  -- The state agrees with its log and with what was used.
  abbrev pub Books : Used → AgentState → Type 0
  Books u s =
      (s.output ≡ written s.log)
      × (len s.output ≤ q.config.limits.max_output_bytes)
      × (turns_in s.log ≡ u.turns_begun)
      × (s.turn_index ≡ u.turns_begun)
      × (calls_in s.log ≡ u.calls_asked)
      × (s.tool_call_count ≡ u.calls_counted)
      × (s.leased ≡ u.holds)
      × (s.releases ≡ 0)

  -- The status is one of `p`.
  abbrev pub Inv : (RunStatus → Bool) → Used → AgentState → Type 0
  Inv p u s = Books u s × IsHistory s.log s.status × (p s.status ≡ true)

  abbrev pub IsWithin : Used → Type 0
  IsWithin u =
      (u.turns_begun ≤ q.config.limits.max_turns)
      × (u.calls_asked ≤ q.config.limits.max_tool_calls)
      × (u.holds ≡ false → u.turns_begun ≡ 0)

  -- What an error leaves behind, before the lease is given back; `holds` tells whether there is one.
  abbrev pub Left : Bool → AgentState → Type 0
  Left holds s =
      IsHistory s.log s.status
      × (turns_in s.log ≤ q.config.limits.max_turns)
      × (calls_in s.log ≤ q.config.limits.max_tool_calls)
      × (holds ≡ false → turns_in s.log ≡ 0)
      × (s.leased ≡ holds)
      × (s.releases ≡ 0)

  module _ (w : World) where
    -- How `run` returns or throws, before the lease is given back.
    abbrev pub Final : Bool → AgentState → Option AgentRunResult → Type 0
    Final holds s none = Left holds s × Cause w s
    Final holds s (some r) =
        (s.status ≡ status_of r.status)
        × IsAnnounced r.status r.output s.log
        × (r.output ≡ written s.log)
        × (len r.output ≤ q.config.limits.max_output_bytes)
        × (r.last_seq ≡ last_seq q.run_id (event_store w q s.log))
        × Left holds s

    -- A part that ends within the code with a status of `p`.
    abbrev pub Keeps {ℓ} : {A : Type ℓ} → (RunStatus → Bool) → Used → Flow A → Type ℓ
    Keeps p u f = Ensures (λ s a. Inv p u s) (Final u.holds) f

    pub transition-Keeps :
        (p : RunStatus → Bool) (u : Used) (to : RunStatus) (s : AgentState)
        → ((st : RunStatus) → p st ≡ true → assert_transition st to ≡ passed)
        → Inv p u s
        → Keeps (same_status to) u (transition to s)
    unfolding transition
    transition-Keeps p u to s can (b, life, e) =
        rw (can s.status e, transition) (goes_on (b, (refl, can s.status e, life), same_refl to))

    pub transition_from-Keeps :
        (u : Used) (from to : RunStatus) (s : AgentState)
        → assert_transition from to ≡ passed
        → Inv (same_status from) u s
        → Keeps (same_status to) u (transition to s)
    transition_from-Keeps u from to s can h =
        transition-Keeps (same_status from) u to s
          (λ st e. subst (λ x. assert_transition x to ≡ passed) (sym (same→eq from st e)) can) h

    module _ (u : Used) (within : IsWithin u) where
      left : (s : AgentState) → Books u s × IsHistory s.log s.status → Left u.holds s
      left s ((text, bytes, begun, _, asked, _, held, given), life) = (
        life,
        omega (arith, begun, within.0),
        omega (arith, asked, within.1),
        (λ e. begun ∙ within.2 e),
        held,
        given,
      )

      pub breaks-Ensures {ℓ} :
          {A : Type ℓ} (Q : AgentState → A → Type 0) (p : RunStatus → Bool) (s : AgentState)
          → Inv p u s
          → Cause w s
          → Ensures Q (Final u.holds) (throws s)
      breaks-Ensures Q p s (b, life, e) why = breaks (left s (b, life), why)

      pub finish-Final :
          (f : FinalStatus) (s : AgentState)
          → Inv (same_status (status_of f)) u s
          → IsAnnounced f s.output s.log
          → Final u.holds s (some (result w q s f))
      finish-Final f s (b, life, e) told =
          (same→eq (status_of f) s.status e, told, b.0, b.1, refl, left s (b, life))

      pub fail-Ensures {ℓ} :
          {A : Type ℓ} (Q : AgentState → A → Type 0) (code : String) (retryable : Bool)
          (s : AgentState)
          → Inv is_open u s
          → Ensures Q (Final u.holds) (fail w q code retryable s)
      unfolding fail emit finish ◌>>=◌ ◌>>◌
      fail-Ensures Q code retryable s h =
          and_then-Ensures _
            (transition-Keeps (λ st. not (is_final st)) u failed s
              (λ st e. passed_failed st (ground arith)) h)
            (λ t _ i. comes_back (
              finish-Final run_is_failed (record t { log = run_failed code retryable ∷ t.log }) i
                tt))

      to_cancelled-Keeps :
          (s : AgentState) → Inv is_live u s → Keeps (same_status cancelled) u (to_cancelled w q s)
      unfolding to_cancelled ◌>>=◌ ◌>>◌
      to_cancelled-Keeps s h =
          branch-Ensures (same_status s.status cancelling) _ _ s
            (λ e. absurd (live_apart s.status h.2 e))
            (λ e.
              and_then-Ensures _ (transition-Keeps is_live u cancelling s passed_cancelling h)
                (λ t _ i. transition_from-Keeps u cancelling cancelled t workflow.7 i))

      pub cancel-Ensures {ℓ} :
          {A : Type ℓ} (Q : AgentState → A → Type 0) (reason : String) (s : AgentState)
          → Inv is_live u s
          → Ensures Q (Final u.holds) (cancel w q reason s)
      unfolding cancel emit finish ◌>>=◌ ◌>>◌
      cancel-Ensures Q reason s h = and_then-Ensures _ (to_cancelled-Keeps s h) (λ t _ i.
          comes_back
            (finish-Final run_is_cancelled (record t { log = run_cancelled reason ∷ t.log }) i tt))

      pub cancel_if_aborted-Keeps :
          (p : RunStatus → Bool) (reason : String) (s : AgentState)
          → ((st : RunStatus) → p st ≡ true → is_live st ≡ true)
          → Inv p u s
          → Keeps p u (cancel_if_aborted w q reason s)
      unfolding cancel_if_aborted poll ◌>>=◌
      cancel_if_aborted-Keeps p reason s live (b, life, e) =
          branch-Ensures (s.aborted || w.aborts s.checks) _ _ _
            (λ _. cancel-Ensures _ reason _ (b, life, live s.status e)) (λ _. goes_on (b, life, e))
