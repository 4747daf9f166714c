-- ===== src/Events/Examples.antt =====
-- A store with one event of one run.
use vibe_go.Base.{ℕ, ◌≡◌, String, List, [], ◌∷◌, map}
use vibe_go.Events.{
  NewDomainEvent, StoredEvent, Log, stored, no_single_run, system, append, append_batch,
}
use vibe_go.Events.Resuming.{Step, Reach, IsOneRun, Resumes, append_batch-Resumes}

abbrev event : String → String → NewDomainEvent ℕ
event run_id type = record {
  run_id = run_id;
  type = type;
  source = system;
  correlation_id = "c";
  payload = 1;
}

abbrev one : List (Log ℕ)
one = (append (event "r" "run.created") "evt_1" "noon" []).0

one-Reach : Reach one
one-Reach = Reach.next Reach.start (Step.appends (event "r" "run.created") "evt_1" "noon")

append_batch-Resumes_example :
    let batch = event "r" "a" ∷ event "r" "b" ∷ [] in
    let t = append_batch batch (λ n. "evt") "noon" one in
    (IsOneRun (event "r" "a") (event "r" "b" ∷ [])
      → (fs : List (StoredEvent ℕ)) × (t.1 ≡ stored fs)
        × (map (λ f. f.event) fs ≡ batch)
        × Resumes one t.0 "r" fs)
    × ((IsOneRun (event "r" "a") (event "r" "b" ∷ []) → ⊥) → t ≡ (one, no_single_run))
append_batch-Resumes_example =
    append_batch-Resumes (event "r" "a") (event "r" "b" ∷ []) (λ n. "evt") "noon" one-Reach
