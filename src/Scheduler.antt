-- ===== src/Scheduler.antt =====
-- packages/scheduler/src/index.ts, with the policy and lease types of packages/contracts/src/index.ts.
-- The promise of an `acquire` is named by the `order` of its queue entry; `settled` lists the
-- promises that were resolved or rejected after they had been handed out, newest first, and
-- `released` the leases whose `released` flag is set. Time is an argument.
mod Types
pub mod History
pub mod Order
pub mod Pump
pub mod Capacity
pub mod Exclusive
pub mod Settling
pub mod Handles
pub mod Leases
pub mod Liveness
pub mod Draining
pub mod Preflight
mod Examples
pub use Types.*
use vibe_go.Base.{
  ℕ, zero, suc, ◌+◌, String, Bool, true, false, not, ◌&&◌, ◌||◌, Option, none, some, List, [], ◌∷◌,
  ◌++◌, ◌==◌, ◌=s◌, ltb, leb, if◌then◌else◌, length, any, find_index, get_elem?, remove_at, map,
}
use vibe_go.Base.Keyed.{has, put, delete}

-- `SchedulerPolicySchema`: positive integers up to a maximum.
within : ℕ → ℕ → Bool
within most n = ltb 0 n && leb n most

unfoldable pub valid_policy : Policy → Bool
unfolding within
valid_policy p =
    within 4 p.max_active_runs
    && within 8 p.max_active_model_calls
    && within 32 p.max_active_tool_processes
    && within 4 p.max_external_sandboxes

-- The constructor; `none` is the schema's error.
unfoldable pub new : Policy → Option Scheduler
new p =
    if valid_policy p
    then some
        (record { policy = p; active = []; queue = []; order = 0; settled = []; released = [] })
    else none

abbrev pub active_key : ActiveEntry → String
active_key e = e.request.run_id

abbrev pub queue_key : QueueEntry → String
queue_key e = e.request.run_id

-- `resources[kind] ?? 0`. An amount that is not whole is turned away before it is added.
abbrev pub or_zero : Option Amount → Amount
or_zero none = whole 0
or_zero (some a) = a

abbrev pub is_whole : Amount → Bool
is_whole (whole n) = true
is_whole other = false

abbrev pub units : Amount → ℕ
units (whole n) = n
units other = 0

abbrev pub amount : ResourceKind → Resources → Amount
amount model_calls r = or_zero r.model_calls
amount tool_processes r = or_zero r.tool_processes
amount external_sandboxes r = or_zero r.external_sandboxes

abbrev pub wanted : ResourceKind → Request → ℕ
wanted k r = units (amount k r.resources)

abbrev pub limit : Policy → ResourceKind → ℕ
limit p model_calls = p.max_active_model_calls
limit p tool_processes = p.max_active_tool_processes
limit p external_sandboxes = p.max_external_sandboxes

pub active_resource_usage : ResourceKind → List ActiveEntry → ℕ
active_resource_usage k [] = 0
active_resource_usage k (e ∷ es) = wanted k e.request + active_resource_usage k es

abbrev pub is_write : Access → Bool
is_write write = true
is_write read = false

pub workspace_conflicts : Request → Request → Bool
workspace_conflicts active next =
    if active.workspace_id =s next.workspace_id
    then is_write active.workspace_access || is_write next.workspace_access
    else false

pub conflicts_any : List ActiveEntry → Request → Bool
conflicts_any es r = any (λ e. workspace_conflicts e.request r) es

abbrev over : Policy → List ActiveEntry → Request → ResourceKind → Bool
over p es r k = ltb (limit p k) (active_resource_usage k es + wanted k r)

pub can_grant : Policy → List ActiveEntry → Request → Bool
can_grant p es r =
    if leb p.max_active_runs (length es)
    then false
    else if over p es r model_calls
    then false
    else if over p es r tool_processes
    then false
    else if over p es r external_sandboxes
    then false
    else not (conflicts_any es r)

abbrev fits : Policy → Request → ResourceKind → Bool
fits p r k = leb (wanted k r) (limit p k)

pub can_ever_grant : Policy → Request → Bool
can_ever_grant p r =
    is_whole (amount model_calls r.resources)
    && is_whole (amount tool_processes r.resources)
    && is_whole (amount external_sandboxes r.resources)
    && fits p r model_calls
    && fits p r tool_processes
    && fits p r external_sandboxes

-- `value === 'interactive' ? 1 : 0`
abbrev pub rank : Option Priority → ℕ
rank (some interactive) = 1
rank _ = 0

-- The comparator of `sort` is at most 0: higher priority first, then lower `order`.
abbrev pub not_after : QueueEntry → QueueEntry → Bool
not_after a b =
    if rank a.request.priority == rank b.request.priority
    then leb a.order b.order
    else ltb (rank b.request.priority) (rank a.request.priority)

pub enumerate : ℕ → List QueueEntry → List (QueueEntry × ℕ)
enumerate i [] = []
enumerate i (e ∷ es) = (e, i) ∷ enumerate (suc i) es

-- `Array.prototype.sort` is stable; so is insertion sort.
pub insert_sorted : QueueEntry × ℕ → List (QueueEntry × ℕ) → List (QueueEntry × ℕ)
insert_sorted x [] = x ∷ []
insert_sorted x (y ∷ ys) = if not_after x.0 y.0 then x ∷ y ∷ ys else y ∷ insert_sorted x ys

pub sort : List (QueueEntry × ℕ) → List (QueueEntry × ℕ)
unfolding insert_sorted
sort [] = []
sort (x ∷ xs) = insert_sorted x (sort xs)

pub first_grantable : Policy → List ActiveEntry → List (QueueEntry × ℕ) → Option ℕ
unfolding can_grant
first_grantable p es [] = none
first_grantable p es ((e, i) ∷ xs) =
    if can_grant p es e.request then some i else first_grantable p es xs

-- `none` is the index -1.
pub pick_candidate_index : Scheduler → Option ℕ
unfolding enumerate sort first_grantable
pick_candidate_index s = first_grantable s.policy s.active (sort (enumerate 0 s.queue))

pub create_lease : ℕ → QueueEntry → Lease
create_lease now e = record {
  serial = e.order;
  run_id = e.request.run_id;
  workspace_lease = record {
    workspace_id = e.request.workspace_id;
    mode = e.request.workspace_access;
    holder_run_id = e.request.run_id;
    acquired_at = now;
  };
  model_calls = wanted model_calls e.request;
  tool_processes = wanted tool_processes e.request;
  external_sandboxes = wanted external_sandboxes e.request;
}

-- The body of the loop of `pump` for the entry that `splice` took from the queue.
pub grant : ℕ → ℕ → QueueEntry → Scheduler → Scheduler
unfolding create_lease
grant now i e s = record s {
  queue = remove_at i s.queue;
  active = put active_key (record { request = e.request; lease = create_lease now e }) s.active;
  settled = resolved (create_lease now e) ∷ s.settled;
}

-- One round of the loop; `none` is its `return`.
pub pump_once : ℕ → Scheduler → Option Scheduler
unfolding grant pick_candidate_index
pump_once now s = elim (pick_candidate_index s) [
  | none ↦ none
  | some i ↦ elim (get_elem? s.queue i) [ none ↦ none | some e ↦ some (grant now i e s) ]
]

pub pump_loop : ℕ → ℕ → Scheduler → Scheduler
pump_loop zero now s = s
pump_loop (suc fuel) now s = elim (pump_once now s) [ none ↦ s | some t ↦ pump_loop fuel now t ]

-- A round takes one entry from the queue, so the length of the queue bounds the rounds that grant.
pub pump : ℕ → Scheduler → Scheduler
unfolding pump_loop pump_once
pump now s = pump_loop (suc (length s.queue)) now s

pub is_known : Scheduler → String → Bool
is_known s run_id = has active_key run_id s.active || has queue_key run_id s.queue

pub enqueue : Request → Scheduler → Scheduler
enqueue r s = record s {
  queue = s.queue ++ record { request = r; order = s.order } ∷ [];
  order = suc s.order;
}

pub acquire : ℕ → Request → Scheduler → Scheduler × Acquired
unfolding is_known can_ever_grant enqueue pump
acquire now r s =
    if is_known s r.run_id
    then (s, rejected duplicate_run)
    else if not (can_ever_grant s.policy r)
    then (s, rejected unsatisfiable)
    else (pump now (enqueue r s), promised s.order)

-- `splice(i, 1)` and the rejection of the entry's promise.
pub cancel_at : ℕ → QueueEntry → Scheduler → Scheduler
cancel_at i e s = record s { queue = remove_at i s.queue; settled = cancelled e.order ∷ s.settled }

pub cancel_queued : String → Scheduler → Scheduler × Bool
unfolding cancel_at
cancel_queued run_id s = elim (find_index (λ e. queue_key e =s run_id) s.queue) [
  | none ↦ (s, false)
  | some i ↦ elim (get_elem? s.queue i) [ none ↦ (s, true) | some e ↦ (cancel_at i e s, true) ]
]

pub is_released : ℕ → List ℕ → Bool
is_released n xs = any (λ m. m == n) xs

-- `released = true; this.active.delete(request.runId)`
pub drop_lease : Lease → Scheduler → Scheduler
drop_lease l s = record s {
  released = l.serial ∷ s.released;
  active = delete active_key l.run_id s.active;
}

-- `lease.release()`
pub release : ℕ → Lease → Scheduler → Scheduler
unfolding pump is_released drop_lease
release now l s = if is_released l.serial s.released then s else pump now (drop_lease l s)

pub data InspectionStatus : Type 0 where
  ready waiting blocked : InspectionStatus

pub data DecisionRef : Type 0 where
  scheduler_ready scheduler_unsatisfiable scheduler_duplicate_run : DecisionRef
  scheduler_workspace_conflict scheduler_capacity_busy : DecisionRef

-- The status and the decision reference, which determine the reason code.
pub inspect : Scheduler → Request → InspectionStatus × DecisionRef
inspect s r =
    if not (can_ever_grant s.policy r)
    then (blocked, scheduler_unsatisfiable)
    else if is_known s r.run_id
    then (blocked, scheduler_duplicate_run)
    else if can_grant s.policy s.active r
    then (ready, scheduler_ready)
    else if conflicts_any s.active r
    then (waiting, scheduler_workspace_conflict)
    else (waiting, scheduler_capacity_busy)

pub active_count : Scheduler → ℕ
active_count s = length s.active

pub queued_run_ids : Scheduler → List String
queued_run_ids s = map queue_key s.queue

pub active_run_ids : Scheduler → List String
active_run_ids s = map active_key s.active
