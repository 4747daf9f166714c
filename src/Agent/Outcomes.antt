-- ===== src/Agent/Outcomes.antt =====
-- How `run` of packages/agent/src/index.ts ends.
use Prim.Native.String.{len}
use vibe_go.Base.{
  if◌then◌else◌, ap, [], length, ◌∷◌, ◌+◌, ◌≤◌, ◌∙◌, ◌⊎◌, inl, inr, Bool-cases, sym, arith, ◌≡◌,
  refl, ℕ, Bool, true, false, List, suc, ◌++◌, map,
}
use vibe_go.Agent.Endings.{Closed, Reason, body-Closed}
use vibe_go.Events.{Log, last_seq, events_of}
use vibe_go.Events.Numbering.{append-last_seq, append-payloads}
use vibe_go.Agent.{
  Payload, throws, returns, run, release, finally, event_store, event_of, granted, Flow,
  AgentRunResult, AgentRunRequest, World, AgentState,
}
use vibe_go.Agent.Ledger.{
  calls_in, turns_in, written, IsAnnounced, IsHistory, status_of, Ensures, goes_on, comes_back,
  breaks, Left,
}
use mathlib.Core.List.{append-nil, append_assoc}

module _ (w : World) (q : AgentRunRequest) where
  -- What is known of the state once the lease is given back, however the run ended.
  abbrev Free : AgentState → Type 0
  Free s =
      IsHistory s.log s.status
      × (turns_in s.log ≤ q.config.limits.max_turns)
      × (calls_in s.log ≤ q.config.limits.max_tool_calls)
      × (s.leased ≡ false)
      × (s.releases ≤ 1)
      × (s.releases ≡ 1 → w.acquisition ≡ granted)
      × (s.releases ≡ 0 → turns_in s.log ≡ 0)

  abbrev Known : AgentState → AgentRunResult → Type 0
  Known s r =
      (s.status ≡ status_of r.status)
      × IsAnnounced r.status r.output s.log
      × (r.output ≡ written s.log)
      × (len r.output ≤ q.config.limits.max_output_bytes)
      × (r.last_seq ≡ last_seq q.run_id (event_store w q s.log))
      × Free s

  abbrev given_back : AgentState → AgentState
  given_back s = record s {
    leased = false;
    releases = if s.leased then suc s.releases else s.releases;
  }

  -- Giving back the lease changes nothing else.
  release-given_back : (s : AgentState) → release w q s ≡ given_back s
  release-given_back s = elim (Bool-cases s.leased) [
    | inl held ↦ rw held refl
    | inr no_lease ↦ rw no_lease refl
  ]

  was_leased : (b : Bool) (n : ℕ) → n ≡ 0 → (if b then suc n else n) ≡ 1 → b ≡ true
  was_leased b n e f = ground (arith, e, f)

  not_leased : (b : Bool) (n : ℕ) → (if b then suc n else n) ≡ 0 → b ≡ false
  not_leased b n f = ground (arith, f)

  at_most_one : (b : Bool) (n : ℕ) → n ≡ 0 → (if b then suc n else n) ≤ 1
  at_most_one b n e = ground (arith, e)

  Left-Free :
      (holds : Bool) (s : AgentState)
      → (holds ≡ true → w.acquisition ≡ granted)
      → Left q holds s
      → Free (given_back s)
  Left-Free holds s asked (life, begun, called, none_begun, held, given) = (
    life,
    begun,
    called,
    refl,
    at_most_one s.leased s.releases given,
    (λ e. asked (sym held ∙ was_leased s.leased s.releases given e)),
    (λ e. none_begun (sym held ∙ not_leased s.leased s.releases e)),
  )

  -- `run` returns a state and a result that `P` holds of; or it throws for a reason, in a state that `T`
  -- holds of.
  abbrev Ends :
      (AgentState → AgentRunResult → Type 0) → (AgentState → Type 0) → Flow AgentRunResult → Type 0
  Ends P T f =
      ((s : AgentState) × ((r : AgentRunResult) × ((f ≡ returns s r) × P s r)))
      ⊎ ((s : AgentState) × ((f ≡ throws s) × (Reason w q s × T s)))

  abbrev pub Outcome : (AgentState → AgentRunResult → Type 0) → (AgentState → Type 0) → Type 0
  Outcome P T = Ends P T (run w q)

  finally-Ends :
      (f : Flow AgentRunResult)
      → Ensures (λ _ _. ⊥) (Closed w q) f
      → Ends Known Free (finally w q f)
  finally-Ends f (goes_on h) = absurd h
  finally-Ends f (comes_back {s} {r} (holds, (asked, k))) = inl (
    given_back s,
    (
      r,
      (
        ap (λ t. returns t r) (release-given_back s),
        (k.0, k.1, k.2, k.3, k.4, Left-Free holds s asked k.5),
      ),
    ),
  )
  finally-Ends f (breaks {s} (holds, (asked, (k, why)))) =
      inr (given_back s, (ap throws (release-given_back s), (why, Left-Free holds s asked k)))

  run-Known : Outcome Known Free
  unfolding run
  run-Known = finally-Ends _ (body-Closed w q)

  Outcome-weaken :
      (P P' : AgentState → AgentRunResult → Type 0) (T T' : AgentState → Type 0)
      → ((s : AgentState) (r : AgentRunResult) → P s r → P' s r)
      → ((s : AgentState) → T s → T' s)
      → Outcome P T
      → Outcome P' T'
  Outcome-weaken P P' T T' f g (inl (s, (r, (e, h)))) = inl (s, (r, (e, f s r h)))
  Outcome-weaken P P' T T' f g (inr (s, (e, (why, h)))) = inr (s, (e, (why, g s h)))

  -- Whatever the model, the tools, the user and the scheduler answer, and whenever the run is aborted,
  -- `run` ends, and the statuses in its log lead from `created` by transitions that pass the assertion.
  -- Where it returns they lead to the returned one, the newest event tells how the run ended, and the
  -- output is the text of the events. It throws only if its context cannot be built for another reason
  -- than its budget, if `approvalDetails` throws, if the time of an approval is no date, or if the
  -- stream of the turn throws when it is closed.
  pub run-IsHistory :
      Outcome
        (λ s r.
          (s.status ≡ status_of r.status)
          × IsHistory s.log s.status
          × IsAnnounced r.status r.output s.log
          × (r.output ≡ written s.log))
        (λ s. IsHistory s.log s.status)
  run-IsHistory =
      Outcome-weaken Known _ Free _ (λ s r k. (k.0, k.5.0, k.1, k.2)) (λ s k. k.0) run-Known

  -- Whether `run` returns or throws (for a reason as above), it has begun at most `max_turns` turns and
  -- asked for at most `max_tool_calls` calls of tools; what it returns is at most `max_output_bytes`
  -- bytes of output.
  pub run-bounds :
      Outcome
        (λ s r.
          (turns_in s.log ≤ q.config.limits.max_turns)
          × (calls_in s.log ≤ q.config.limits.max_tool_calls)
          × (len r.output ≤ q.config.limits.max_output_bytes))
        (λ s.
          (turns_in s.log ≤ q.config.limits.max_turns)
          × (calls_in s.log ≤ q.config.limits.max_tool_calls))
  run-bounds =
      Outcome-weaken Known _ Free _ (λ s r k. (k.5.1, k.5.2, k.3)) (λ s k. (k.1, k.2)) run-Known

  -- Whether it has held a lease: none is held at the end, at most one was given back, which the scheduler
  -- had granted, and without one no turn was begun.
  abbrev pub IsReleased : AgentState → Type 0
  IsReleased s =
      (s.leased ≡ false)
      × (s.releases ≤ 1)
      × (s.releases ≡ 1 → w.acquisition ≡ granted)
      × (s.releases ≡ 0 → turns_in s.log ≡ 0)

  -- Whether `run` returns or throws (for a reason as above), it holds no lease at its end, and has given
  -- back at most one, which the scheduler had granted; if it has given back none, it has begun no turn.
  pub run-releases : Outcome (λ s r. IsReleased s) IsReleased
  run-releases =
      Outcome-weaken Known _ Free _ (λ s r k. (k.5.3, k.5.4, k.5.5, k.5.6))
        (λ s k. (k.3, k.4, k.5, k.6)) run-Known

  -- The payloads that the store has for the run, oldest first.
  abbrev pub payloads : List (Log Payload) → List Payload
  payloads store = map (λ e. e.event.payload) (events_of q.run_id store)

  abbrev pub oldest_first : List Payload → List Payload
  oldest_first [] = []
  oldest_first (p ∷ ps) = oldest_first ps ++ p ∷ []

  event_store-last_seq :
      (ps : List Payload)
      → last_seq q.run_id (event_store w q ps) ≡ last_seq q.run_id q.store + length ps
  unfolding event_store
  event_store-last_seq [] = omega arith
  event_store-last_seq (p ∷ ps) = omega (
    arith,
    append-last_seq (event_of w q (length ps) p) (w.event_id (length ps)) (w.now (length ps))
        (event_store w q ps),
    event_store-last_seq ps,
  )

  event_store-payloads :
      (ps : List Payload) → payloads (event_store w q ps) ≡ payloads q.store ++ oldest_first ps
  unfolding event_store
  event_store-payloads [] = sym (append-nil (payloads q.store))
  event_store-payloads (p ∷ ps) =
      append-payloads (event_of w q (length ps) p) (w.event_id (length ps)) (w.now (length ps))
        (event_store w q ps)
      ∙ ap (λ xs. xs ++ p ∷ []) (event_store-payloads ps)
      ∙ append_assoc (payloads q.store) (oldest_first ps) (p ∷ [])

  -- The store that the run leaves behind holds, for this run, what it held before and then the events
  -- of the log in their order; and where `run` returns, the number in its result is the last one of the
  -- store: the last number before the run and one more for each event of the log.
  pub run-stored :
      Outcome
        (λ s r.
          (payloads (event_store w q s.log) ≡ payloads q.store ++ oldest_first s.log)
          × (r.last_seq ≡ last_seq q.run_id q.store + length s.log))
        (λ s. payloads (event_store w q s.log) ≡ payloads q.store ++ oldest_first s.log)
  run-stored =
      Outcome-weaken Known _ Free _
        (λ s r k. (event_store-payloads s.log, k.4 ∙ event_store-last_seq s.log))
        (λ s k. event_store-payloads s.log) run-Known
