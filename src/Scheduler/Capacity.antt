-- ===== src/Scheduler/Capacity.antt =====
-- The limits of the policy.
use vibe_go.Base.{
  ℕ, String, ◌+◌, ◌≤◌, ◌<◌, ◌≡◌, true, false, some, List, [], ◌∷◌, arith, All, All-append,
  All-remove_at, length, get_elem?, if◌then◌else◌, Bool-cases, inl, inr, refl,
}
use vibe_go.Base.Keyed.{put, delete, length-put, length-delete}
use vibe_go.Scheduler.{
  ResourceKind, model_calls, tool_processes, external_sandboxes, Policy, Request, ActiveEntry,
  QueueEntry, Scheduler, valid_policy, new, active_key, wanted, limit, active_resource_usage,
  can_grant, can_ever_grant, grant, enqueue, cancel_at, drop_lease, acquire, is_known, is_whole,
  amount, rejected, promised, duplicate_run, conflicts_any,
}
use vibe_go.Scheduler.History.{Reach, new-some}
use vibe_go.Scheduler.Pump.{Reach_inv}

module _ (p : Policy) (es : List ActiveEntry) (r : Request) (able : can_grant p es r ≡ true) where
  pub can_grant-runs : length es < p.max_active_runs
  unfolding can_grant
  can_grant-runs = ground arith

  pub can_grant-usage : (k : ResourceKind) → active_resource_usage k es + wanted k r ≤ limit p k
  unfolding can_grant
  can_grant-usage model_calls = ground arith
  can_grant-usage tool_processes = ground arith
  can_grant-usage external_sandboxes = ground arith

  pub can_grant-conflicts_any : conflicts_any es r ≡ false
  unfolding can_grant
  can_grant-conflicts_any = ground arith

usage-put :
    (k : ResourceKind) (a : ActiveEntry) (es : List ActiveEntry)
    → active_resource_usage k (put active_key a es)
      ≤ active_resource_usage k es + wanted k a.request
unfolding put active_resource_usage
usage-put k a [] = omega arith
usage-put k a (e ∷ es) = ground (arith, usage-put k a es)

pub usage-delete :
    (k : ResourceKind) (id : String) (es : List ActiveEntry)
    → active_resource_usage k (delete active_key id es) ≤ active_resource_usage k es
unfolding delete active_resource_usage
usage-delete k id [] = omega arith
usage-delete k id (e ∷ es) = ground (arith, usage-delete k id es)

pub record WithinCapacity (s : Scheduler) : Type 0 where
  pub valid : valid_policy s.policy ≡ true
  pub runs : length s.active ≤ s.policy.max_active_runs
  pub usage : (k : ResourceKind) → active_resource_usage k s.active ≤ limit s.policy k
  pub grantable : All (λ e. can_ever_grant s.policy e.request ≡ true) s.queue

new-WithinCapacity : (p : Policy) (s : Scheduler) → new p ≡ some s → WithinCapacity s
unfolding active_resource_usage
new-WithinCapacity p s h =
    let (valid, policy, active, queue, _, _, _) = new-some p s h in
    record {
      valid = rw policy valid;
      runs = rw active (omega arith);
      usage = λ k. rw active (omega arith);
      grantable = rw queue tt;
    }

grant-WithinCapacity :
    (now i : ℕ) (e : QueueEntry) (s : Scheduler)
    → get_elem? s.queue i ≡ some e
    → can_grant s.policy s.active e.request ≡ true
    → WithinCapacity s
    → WithinCapacity (grant now i e s)
unfolding grant
grant-WithinCapacity now i e s there able h = record {
  valid = h.valid;
  runs =
      omega
        (arith, length-put active_key _ s.active, can_grant-runs s.policy s.active e.request able);
  usage = λ k.
      omega (arith, usage-put k _ s.active, can_grant-usage s.policy s.active e.request able k);
  grantable = All-remove_at _ i s.queue h.grantable;
}

-- In every history the active runs stay within each limit of the policy, which is itself valid, and
-- every queued request could be granted by an idle scheduler.
pub Reach-WithinCapacity : {s : Scheduler} → Reach s → WithinCapacity s
unfolding enqueue cancel_at drop_lease
Reach-WithinCapacity =
    Reach_inv WithinCapacity new-WithinCapacity grant-WithinCapacity
      (λ r s fresh possible h. record {
        valid = h.valid;
        runs = h.runs;
        usage = h.usage;
        grantable = All-append _ s.queue _ h.grantable (possible, tt);
      })
      (λ i e s there h. record {
        valid = h.valid;
        runs = h.runs;
        usage = h.usage;
        grantable = All-remove_at _ i s.queue h.grantable;
      })
      (λ l s out once h. record {
        valid = h.valid;
        runs = omega (arith, length-delete active_key l.run_id s.active, h.runs);
        usage = λ k. omega (arith, usage-delete k l.run_id s.active, h.usage k);
        grantable = h.grantable;
      })

can_ever_grant-modest :
    (p : Policy) (r : Request)
    → valid_policy p ≡ true
    → ((k : ResourceKind) → (is_whole (amount k r.resources) ≡ true) × (wanted k r ≤ 1))
    → can_ever_grant p r ≡ true
unfolding can_ever_grant valid_policy
can_ever_grant-modest p r valid modest =
    let (one, few) = modest model_calls in
    let (two, some_few) = modest tool_processes in
    let (three, any_few) = modest external_sandboxes in
    ground (arith, one, two, three, few, some_few, any_few, valid)

-- In every history a request for at most one unit of each resource is rejected only while its run is
-- known.
pub acquire-modest :
    (now : ℕ) (r : Request) {s : Scheduler}
    → Reach s
    → ((k : ResourceKind) → (is_whole (amount k r.resources) ≡ true) × (wanted k r ≤ 1))
    → (acquire now r s).1
      ≡ (if is_known s r.run_id then rejected duplicate_run else promised s.order)
unfolding acquire
acquire-modest now r {s} reach modest =
    let able = can_ever_grant-modest s.policy r (Reach-WithinCapacity reach).valid modest in
    elim (Bool-cases (is_known s r.run_id)) [
      | inl known ↦ rw (known, acquire) refl
      | inr new_run ↦ rw (new_run, able, acquire) refl
    ]
