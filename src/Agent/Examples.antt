-- ===== src/Agent/Examples.antt =====
-- A run of two turns: the model calls a tool, and then answers.
use Prim.Native.String.{len}
use vibe_go.Base.{
  ◌++◌, ◌+◌, length, ℕ, zero, suc, ◌≤◌, ◌≡◌, refl, true, false, none, some, List, [], ◌∷◌,
  if◌then◌else◌,
}
use vibe_go.Agent.{
  event_store, stop, text_delta, tool_calls, returned, completed, tool_call_delta, failed, approved,
  allow, decided, ended, to_scheduler_request, granted, external_sandbox, World, ModelEvent,
  Execution, AgentToolDescriptor, AgentRunRequest,
}
use vibe_go.Agent.Ledger.{IsHistory, IsAnnounced, status_of, written, turns_in, calls_in}
use vibe_go.Agent.Outcomes.{
  Outcome, IsReleased, payloads, oldest_first, run-IsHistory, run-bounds, run-releases, run-stored,
}
use vibe_go.Agent.Scheduling.{to_scheduler_request-promised}
use vibe_go.Events.{orchestrator, last_seq}
use vibe_go.Scheduler.{
  valid_policy, Policy, exclusive, Scheduler, new, acquire, promised, rejected, duplicate_run,
  is_known,
}
use vibe_go.Scheduler.History.{Reach}

abbrev shell : AgentToolDescriptor
shell = record { name = "process.run"; id = "shell" }

abbrev request : AgentRunRequest
request = record {
  config = record {
    workspace_id = "w";
    user_message = "Run the tests.";
    sandbox_mode = external_sandbox;
    limits = record {
      max_turns = 3;
      max_model_input_tokens = 1000;
      max_tool_calls = 2;
      max_output_bytes = 100;
      max_context_bytes = 1000;
    };
  };
  run_id = "run_1";
  context_items = [];
  tool_runtime = some (record { descriptors = shell ∷ []; can_approve = true });
  model_tool_calls = true;
  has_broker = true;
  store = [];
}

abbrev answers : ℕ → List ModelEvent
answers (suc zero) = tool_call_delta "c1" (some "process_run") "{}" ∷ completed tool_calls ∷ []
answers _ = text_delta "Done." ∷ completed stop ∷ []

-- The first execution asks for an approval, which the user gives.
abbrev executions_of : ℕ → Execution
executions_of zero = failed (some "APPROVAL_REQUIRED")
executions_of _ = returned "\"ok\""

abbrev world : World
world = record {
  aborts = λ n. false;
  stream = answers;
  stream_end = λ n. ended;
  execution = executions_of;
  wait = λ n. decided allow;
  approve = λ n. approved;
  acquisition = granted;
  is_json = λ s. true;
  cut = λ n s. s;
  error_content = λ c m. c;
  details_fail = λ n. false;
  expiry_is_date = λ n. true;
  close_fails = λ n. false;
  event_type = λ n. "run";
  event_source = λ n. orchestrator;
  correlation_id = λ n. "t";
  event_id = λ n. "id";
  now = λ n. "now";
}

run-IsHistory_example :
    Outcome world request
      (λ s r.
        (s.status ≡ status_of r.status)
        × IsHistory s.log s.status
        × IsAnnounced r.status r.output s.log
        × (r.output ≡ written s.log))
      (λ s. IsHistory s.log s.status)
run-IsHistory_example = run-IsHistory world request

run-bounds_example :
    Outcome world request
      (λ s r. (turns_in s.log ≤ 3) × (calls_in s.log ≤ 2) × (len r.output ≤ 100))
      (λ s. (turns_in s.log ≤ 3) × (calls_in s.log ≤ 2))
run-bounds_example = run-bounds world request

run-releases_example :
    Outcome world request (λ s r. IsReleased world request s) (IsReleased world request)
run-releases_example = run-releases world request

run-stored_example :
    Outcome world request
      (λ s r.
        (payloads world request (event_store world request s.log)
          ≡ payloads world request [] ++ oldest_first world request s.log)
        × (r.last_seq ≡ last_seq "run_1" request.store + length s.log))
      (λ s.
        payloads world request (event_store world request s.log)
        ≡ payloads world request [] ++ oldest_first world request s.log)
run-stored_example = run-stored world request

abbrev policy : Policy
policy = record {
  max_active_runs = 1;
  max_active_model_calls = 1;
  max_active_tool_processes = 1;
  max_external_sandboxes = 1;
  workspace_write_mode = exclusive;
}

abbrev idle : Scheduler
idle = record { policy = policy; active = []; queue = []; order = 0; settled = []; released = [] }

begins : new policy ≡ some idle
unfolding new valid_policy
begins = refl

to_scheduler_request-promised_example :
    (acquire 5 (to_scheduler_request request none) idle).1
    ≡ (if is_known idle "run_1" then rejected duplicate_run else promised 0)
to_scheduler_request-promised_example =
    to_scheduler_request-promised 5 request none (Reach.start policy begins)
