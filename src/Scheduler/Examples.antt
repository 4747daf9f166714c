-- ===== src/Scheduler/Examples.antt =====
-- A scheduler for one run at a time, with one run active and two queued.
use vibe_go.Base.{◌+◌, String, true, ◌≡◌, refl, none, some, [], ◌∷◌, All, get_elem?, length}
use vibe_go.Base.Keyed.{has, put}
use vibe_go.Scheduler.{
  Scheduler, Policy, Request, Priority, interactive, background, QueueEntry, exclusive, write,
  whole, new, acquire, inspect, active_resource_usage, conflicts_any, valid_policy,
  pick_candidate_index, can_grant,
}
use vibe_go.Scheduler.History.{Step, Reach}
use vibe_go.Scheduler.Order.{IsBefore, pick_candidate_index-some}
use vibe_go.Scheduler.Capacity.{WithinCapacity, Reach-WithinCapacity}
use vibe_go.Scheduler.Exclusive.{IsExclusive, Reach-IsExclusive}
use vibe_go.Scheduler.Settling.{SettlesOnce, Reach-SettlesOnce}
use vibe_go.Scheduler.Pump.{IsSettled}
use vibe_go.Scheduler.Draining.{release_all-grants, count_granted}
use vibe_go.Scheduler.Liveness.{Reach-IsSettled, release_all}
use vibe_go.Scheduler.Preflight.{Foretells, inspect-Foretells}

abbrev policy : Policy
policy = record {
  max_active_runs = 1;
  max_active_model_calls = 2;
  max_active_tool_processes = 2;
  max_external_sandboxes = 1;
  workspace_write_mode = exclusive;
}

abbrev request : String → String → Priority → Request
request run_id workspace_id priority = record {
  run_id = run_id;
  workspace_id = workspace_id;
  workspace_access = write;
  resources = record {
    model_calls = some (whole 1);
    tool_processes = none;
    external_sandboxes = none;
  };
  priority = some priority;
}

abbrev idle : Scheduler
idle = record { policy = policy; active = []; queue = []; order = 0; settled = []; released = [] }

abbrev busy : Scheduler
busy =
    (acquire 3 (request "c" "home" interactive)
      (acquire 2 (request "b" "home" background)
        (acquire 1 (request "a" "home" background) idle).0).0).0

idle-Reach : Reach idle
unfolding new valid_policy
idle-Reach = Reach.start policy refl

busy-Reach : Reach busy
busy-Reach =
    Reach.next
      (Reach.next (Reach.next idle-Reach (Step.acquires 1 (request "a" "home" background)))
        (Step.acquires 2 (request "b" "home" background)))
      (Step.acquires 3 (request "c" "home" interactive))

busy_runs : length busy.active ≡ 1
unfolding acquire has active_resource_usage conflicts_any put
busy_runs = refl

busy_waits : length busy.queue ≡ 2
unfolding acquire has active_resource_usage conflicts_any put
busy_waits = refl

-- The run that came last is chosen first, since it is interactive.
abbrev freed : Scheduler
freed = record {
  policy = policy;
  active = [];
  queue =
      record { request = request "b" "home" background; order = 1 }
      ∷ record { request = request "c" "home" interactive; order = 2 }
      ∷ [];
  order = 3;
  settled = [];
  released = [];
}

freed_choice : pick_candidate_index freed ≡ some 1
unfolding pick_candidate_index active_resource_usage conflicts_any
freed_choice = refl

pick_candidate_index-some_example :
    (e : QueueEntry) × (get_elem? freed.queue 1 ≡ some e)
    × (can_grant policy [] e.request ≡ true)
    × All (λ x. can_grant policy [] x.request ≡ true → IsBefore e x) freed.queue
pick_candidate_index-some_example = pick_candidate_index-some freed 1 freed_choice

Reach-WithinCapacity_example : WithinCapacity busy
Reach-WithinCapacity_example = Reach-WithinCapacity busy-Reach

Reach-IsExclusive_example : IsExclusive busy.active
Reach-IsExclusive_example = Reach-IsExclusive busy-Reach

Reach-SettlesOnce_example : SettlesOnce busy
Reach-SettlesOnce_example = Reach-SettlesOnce busy-Reach

Reach-IsSettled_example : IsSettled busy
Reach-IsSettled_example = Reach-IsSettled busy-Reach

release_all-grants_example :
    let t = release_all (length busy.active + length busy.queue) 9 busy in
    Reach t
    × (t.active ≡ [])
    × (t.queue ≡ [])
    × All (λ e. count_granted e.order t.settled ≡ 1) busy.queue
release_all-grants_example = release_all-grants 9 busy-Reach

inspect-Foretells_example :
    Foretells 9
      (request "d" "work" background)
      busy
      (inspect busy (request "d" "work" background)).0
inspect-Foretells_example = inspect-Foretells 9 (request "d" "work" background) busy-Reach
