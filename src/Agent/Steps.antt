-- ===== src/Agent/Steps.antt =====
-- The steps that the parts of `run` share: events, transitions, checks of the signal, and the two ways
-- to stop a run early.
use vibe_go.Base.{suc, String, Bool, true, false, ◌||◌, ◌∷◌, length, ℕ, List, []}
use vibe_go.Runs.{
  RunStatus, cancelling, cancelled, failed, same_status, passed, invalid_transition,
  assert_transition,
}
use vibe_go.Events.{NewDomainEvent, Log, append}
use vibe_go.Agent.Types.{
  World, AgentRunRequest, AgentState, AgentRunResult, FinalStatus, run_is_failed, run_is_cancelled,
  Flow, next, returns, throws, Payload, run_status, run_failed, run_cancelled,
}
use vibe_go.Events

abbrev pub M {ℓ} : Type ℓ → Type ℓ
M A = AgentState → Flow A

-- What follows a part of the code runs only if that part goes on.
abbrev pub and_then {ℓ κ} : {A : Type ℓ} {B : Type κ} → (A → M B) → Flow A → Flow B
and_then k (next t a) = k a t
and_then k (returns t r) = returns t r
and_then k (throws t) = throws t

infixl 5 ◌>>=◌ ◌>>◌
unfoldable pub ◌>>=◌ {ℓ κ} : {A : Type ℓ} {B : Type κ} → M A → (A → M B) → M B
◌>>=◌ m k s = and_then k (m s)

unfoldable pub ◌>>◌ {ℓ} : {B : Type ℓ} → M (Unit {0}) → M B → M B
◌>>◌ m k = m >>= λ _. k

abbrev pub pure {ℓ} : {A : Type ℓ} → A → M A
pure a s = next s a

-- A test between two parts of the code.
abbrev pub branch {ℓ} : {A : Type ℓ} → Bool → M A → M A → M A
branch true m k = m
branch false m k = k

-- `this.append(…)`
unfoldable pub emit : Payload → M (Unit {0})
emit p s = next (record s { log = p ∷ s.log }) tt

unfoldable pub transition : RunStatus → M (Unit {0})
transition to s = elim (assert_transition s.status to) [
  | passed ↦ next (record s { log = run_status s.status to ∷ s.log; status = to }) tt
  | invalid_transition ↦ throws s
]

-- `controller.abort()`
unfoldable pub abort : M (Unit {0})
abort s = next (record s { aborted = true }) tt

module _ (w : World) (q : AgentRunRequest) where
  -- `controller.signal.aborted`; a signal that has aborted stays so.
  unfoldable pub poll : M Bool
  poll s =
      next (record s { aborted = s.aborted || w.aborts s.checks; checks = suc s.checks })
        (s.aborted || w.aborts s.checks)

  abbrev pub event_of : ℕ → Payload → NewDomainEvent Payload
  event_of n p = record {
    run_id = q.run_id;
    type = w.event_type n;
    source = w.event_source n;
    correlation_id = w.correlation_id n;
    payload = p;
  }

  -- What the event store holds once the events of a log are appended one by one.
  unfoldable pub event_store : List Payload → List (Log Payload)
  event_store [] = q.store
  event_store (p ∷ ps) =
      let before = event_store ps in
      (append (event_of (length ps) p) (w.event_id (length ps)) (w.now (length ps)) before).0

  abbrev pub result : AgentState → FinalStatus → AgentRunResult
  result s f = record {
    status = f;
    output = s.output;
    last_seq = Events.last_seq q.run_id (event_store s.log);
  }

  unfoldable pub finish {ℓ} : {A : Type ℓ} → FinalStatus → M A
  finish f s = returns s (result s f)

  -- The status test and the two transitions of `cancel`.
  unfoldable pub to_cancelled : M (Unit {0})
  to_cancelled s =
      branch (same_status s.status cancelling) (transition cancelled)
        (transition cancelling >> transition cancelled) s

  unfoldable pub cancel {ℓ} : {A : Type ℓ} → String → M A
  cancel reason = do to_cancelled; emit (run_cancelled reason); finish run_is_cancelled

  unfoldable pub fail {ℓ} : {A : Type ℓ} → String → Bool → M A
  fail code retryable = do transition failed; emit (run_failed code retryable); finish run_is_failed

  -- `if (controller.signal.aborted) return await cancel(reason);`
  unfoldable pub cancel_if_aborted : String → M (Unit {0})
  cancel_if_aborted reason = poll >>= λ aborted. branch aborted (cancel reason) (pure tt)
