-- ===== src/Approval/Examples.antt =====
-- A broker with one wait, whose timer is armed.
use vibe_go.Base.{if◌then◌else◌, false, ◌≡◌, ◌<◌, refl, none, some, [], ◌∷◌}
use vibe_go.Base.Keyed.{find, has, put}
use vibe_go.Approval.{
  not_found, Broker, Options, ApprovalRequest, allow, deny, unwatched, write, PendingEntry, new,
  wait_for_decision, decide, accepted, already_decided, pending_key, other_run, state_of,
}
use vibe_go.Approval.History.{Step, Reach}
use vibe_go.Approval.Bounded.{IsBounded, Reach-IsBounded}
use vibe_go.Approval.Once.{EndsOnce, Reach-EndsOnce}
use vibe_go.Approval.Decisions.{IsEnded, decide_once}

abbrev options : Options
options = record { timeout_ms = some 1000; max_pending = some 2; max_history = some 2 }

abbrev empty : Broker
empty = record {
  timeout_ms = 1000;
  max_pending = 2;
  max_history = 2;
  pending = [];
  history = [];
  next_ticket = 0;
  settled = [];
  timers = [];
  listeners = [];
}

abbrev request : ApprovalRequest
request = record {
  approval_id = "a";
  run_id = "r";
  turn_id = "t";
  call_id = "c";
  tool_id = "shell";
  tool_version = "1";
  risk = write;
  argument_bytes = 10;
  details = none;
  created_at = 1;
  expires_at = 100;
}

abbrev waiting : Broker
waiting = (wait_for_decision 1 request unwatched empty).0

empty-Reach : Reach empty
unfolding new
empty-Reach = Reach.start options refl

waiting-Reach : Reach waiting
waiting-Reach = Reach.next empty-Reach (Step.waits 1 request unwatched)

Reach-IsBounded_example : IsBounded waiting
Reach-IsBounded_example = Reach-IsBounded waiting-Reach

Reach-EndsOnce_example : EndsOnce waiting
Reach-EndsOnce_example = Reach-EndsOnce waiting-Reach

accepts : (decide 2 "a" allow (some "r") waiting).1 ≡ accepted
unfolding decide wait_for_decision find has put
accepts = refl

decide_once_example :
    let c = (decide 2 "a" allow (some "r") waiting).0 in
    (e : PendingEntry) × (find pending_key "a" waiting.pending ≡ some e)
    × (other_run (some "r") e.request.run_id ≡ false)
    × (2 < e.request.expires_at)
    × (c.settled ≡ (e.ticket, state_of allow) ∷ waiting.settled)
    × IsEnded "a" e (state_of allow) c
    × (decide 3 "a" deny (some "s") c
        ≡ (c, if other_run (some "s") e.request.run_id then not_found else already_decided))
decide_once_example = decide_once 2 3 "a" allow deny (some "r") (some "s") waiting accepts
