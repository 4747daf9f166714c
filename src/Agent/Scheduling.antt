-- ===== src/Agent/Scheduling.antt =====
-- The request of a run to the scheduler, `toSchedulerRequest` of packages/agent/src/index.ts.
use vibe_go.Base.{if◌then◌else◌, ◌≤◌, inr, inl, Bool-cases, arith, ◌≡◌, refl, ℕ, true, Option}
use vibe_go.Scheduler.{
  ResourceKind, wanted, amount, is_whole, Scheduler, Priority, acquire, promised, rejected,
  duplicate_run, is_known, model_calls, tool_processes, external_sandboxes,
}
use vibe_go.Scheduler.History.{Reach}
use vibe_go.Scheduler.Capacity.{acquire-modest}
use vibe_go.Agent.{has_tools, sandboxes_of, to_scheduler_request, SandboxMode, AgentRunRequest}

sandboxes_of-le : (mode : SandboxMode) → sandboxes_of mode ≤ 1
sandboxes_of-le mode = ground arith

request_modest :
    (q : AgentRunRequest) (priority : Option Priority) (k : ResourceKind)
    → (is_whole (amount k (to_scheduler_request q priority).resources) ≡ true)
      × (wanted k (to_scheduler_request q priority) ≤ 1)
unfolding to_scheduler_request
request_modest q priority model_calls = (refl, omega arith)
request_modest q priority tool_processes = elim (Bool-cases (has_tools q)) [
  | inl some_tools ↦ rw some_tools (refl, omega arith)
  | inr no_tools ↦ rw no_tools (refl, omega arith)
]
request_modest q priority external_sandboxes = (refl, sandboxes_of-le q.config.sandbox_mode)

-- In every history of the scheduler the request of a run is promised a lease, unless the run is already
-- queued or active: no request of the loop is too large for the policy.
pub to_scheduler_request-promised :
    (now : ℕ) (q : AgentRunRequest) (priority : Option Priority) {scheduler : Scheduler}
    → Reach scheduler
    → (acquire now (to_scheduler_request q priority) scheduler).1
      ≡ (if is_known scheduler q.run_id then rejected duplicate_run else promised scheduler.order)
unfolding to_scheduler_request
to_scheduler_request-promised now q priority reach =
    acquire-modest now (to_scheduler_request q priority) reach (request_modest q priority)
