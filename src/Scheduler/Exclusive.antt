-- ===== src/Scheduler/Exclusive.antt =====
-- One writer to a workspace, one place for a run.
use vibe_go.Base.{
  ℕ, zero, suc, String, ◌≡◌, refl, false, some, List, [], ◌∷◌, arith, All, All-map, All-append,
  All-remove_at, get_elem?, remove_at, eq_iff, ◌∙◌,
}
use vibe_go.Base.Keyed.{
  put, delete, has, has_of_get_elem?, Distinct-concat, Distinct, All-put, All-delete, Distinct-put,
  Distinct-delete, has-put, has-delete,
}
use vibe_go.Scheduler.{
  Policy, Request, Lease, ActiveEntry, QueueEntry, Scheduler, new, active_key, queue_key,
  workspace_conflicts, conflicts_any, grant, enqueue, is_known, cancel_at, drop_lease,
}
use vibe_go.Scheduler.History.{Reach, new-some}
use vibe_go.Scheduler.Pump.{Reach_inv}
use vibe_go.Scheduler.Capacity.{can_grant-conflicts_any}

workspace_conflicts_comm : (a b : Request) → workspace_conflicts a b ≡ workspace_conflicts b a
unfolding workspace_conflicts
workspace_conflicts_comm a b =
    ground (arith, eq_iff a.workspace_id b.workspace_id, eq_iff b.workspace_id a.workspace_id)

-- No two entries want one workspace, unless both only read it.
abbrev pub IsExclusive : List ActiveEntry → Type 0
IsExclusive [] = Unit {0}
IsExclusive (e ∷ es) =
    All (λ (x : ActiveEntry). workspace_conflicts e.request x.request ≡ false) es × IsExclusive es

conflicts_any-All :
    (es : List ActiveEntry) (r : Request)
    → conflicts_any es r ≡ false
    → All (λ (x : ActiveEntry). workspace_conflicts x.request r ≡ false) es
unfolding conflicts_any
conflicts_any-All [] r h = tt
conflicts_any-All (e ∷ es) r h = (ground arith, conflicts_any-All es r (ground arith))

IsExclusive-put :
    (a : ActiveEntry) (es : List ActiveEntry)
    → All (λ (x : ActiveEntry). workspace_conflicts x.request a.request ≡ false) es
    → IsExclusive es
    → IsExclusive (put active_key a es)
unfolding put
IsExclusive-put a [] free h = (tt, tt)
IsExclusive-put a (e ∷ es) free h = ground (
  arith,
  IsExclusive-put a es free.1 h.1,
  All-put active_key (λ x. workspace_conflicts e.request x.request ≡ false) a es h.0 free.0,
  All-map es (λ x k. workspace_conflicts_comm a.request x.request ∙ k) free.1,
)

IsExclusive-delete :
    (id : String) (es : List ActiveEntry) → IsExclusive es → IsExclusive (delete active_key id es)
unfolding delete
IsExclusive-delete id [] h = tt
IsExclusive-delete id (e ∷ es) h = ground (
  arith,
  IsExclusive-delete id es h.1,
  All-delete active_key (λ x. workspace_conflicts e.request x.request ≡ false) id es h.0,
)

new-IsExclusive : (p : Policy) (s : Scheduler) → new p ≡ some s → IsExclusive s.active
new-IsExclusive p s h = ground (arith, new-some p s h)

-- In every history no two active runs conflict over a workspace: a writer has it for itself.
pub Reach-IsExclusive : {s : Scheduler} → Reach s → IsExclusive s.active
unfolding grant enqueue cancel_at drop_lease
Reach-IsExclusive =
    Reach_inv (λ s. IsExclusive s.active) new-IsExclusive
      (λ now i e s there able h.
        IsExclusive-put _ s.active
          (conflicts_any-All s.active e.request
            (can_grant-conflicts_any s.policy s.active e.request able))
          h)
      (λ r s fresh possible h. h) (λ i e s there h. h)
      (λ l s out once h. IsExclusive-delete l.run_id s.active h)

-- A run has one place: it is active once, or queued once, or neither.
pub record HasPlaces (s : Scheduler) : Type 0 where
  pub active : Distinct active_key s.active
  pub queued : Distinct queue_key s.queue
  pub apart : All (λ e. has active_key (queue_key e) s.active ≡ false) s.queue

has-remove_at :
    (k : String) (i : ℕ) (q : List QueueEntry)
    → has queue_key k q ≡ false
    → has queue_key k (remove_at i q) ≡ false
unfolding has
has-remove_at k i [] h = refl
has-remove_at k zero (x ∷ q) h = ground arith
has-remove_at k (suc i) (x ∷ q) h = ground (arith, has-remove_at k i q)

Distinct-remove_at :
    (i : ℕ) (q : List QueueEntry) → Distinct queue_key q → Distinct queue_key (remove_at i q)
Distinct-remove_at i [] h = tt
Distinct-remove_at zero (x ∷ q) h = h.1
Distinct-remove_at (suc i) (x ∷ q) h =
    (has-remove_at (queue_key x) i q h.0, Distinct-remove_at i q h.1)

-- What is left of a queue without repeated runs names another run than the entry taken out.
remove_at-other :
    (i : ℕ) (q : List QueueEntry) (e : QueueEntry)
    → Distinct queue_key q
    → get_elem? q i ≡ some e
    → has queue_key (queue_key e) (remove_at i q) ≡ false
unfolding has
remove_at-other i [] e h at = absurd (ground arith)
remove_at-other zero (x ∷ q) e h at = ground arith
remove_at-other (suc i) (x ∷ q) e h at = ground (
  arith,
  remove_at-other i q e h.1 at,
  has_of_get_elem? queue_key i q e,
  eq_iff (queue_key x) (queue_key e),
)

apart-put :
    (a : ActiveEntry) (es : List ActiveEntry) (q : List QueueEntry)
    → has queue_key (active_key a) q ≡ false
    → All (λ e. has active_key (queue_key e) es ≡ false) q
    → All (λ e. has active_key (queue_key e) (put active_key a es) ≡ false) q
unfolding has
apart-put a es [] h k = tt
apart-put a es (x ∷ q) h k = (
  ground (
    arith,
    k.0,
    has-put active_key (queue_key x) a es,
    eq_iff (queue_key x) (active_key a),
    eq_iff (active_key a) (queue_key x),
  ),
  apart-put a es q (ground arith) k.1,
)

pub grant-HasPlaces :
    (now i : ℕ) (e : QueueEntry) (s : Scheduler)
    → get_elem? s.queue i ≡ some e
    → HasPlaces s
    → HasPlaces (grant now i e s)
unfolding grant
grant-HasPlaces now i e s there h = record {
  active = Distinct-put active_key _ s.active h.active;
  queued = Distinct-remove_at i s.queue h.queued;
  apart =
      apart-put _ s.active (remove_at i s.queue) (remove_at-other i s.queue e h.queued there)
        (All-remove_at _ i s.queue h.apart);
}

pub enqueue-HasPlaces :
    (r : Request) (s : Scheduler)
    → is_known s r.run_id ≡ false
    → HasPlaces s
    → HasPlaces (enqueue r s)
unfolding enqueue is_known
enqueue-HasPlaces r s fresh h = record {
  active = h.active;
  queued = Distinct-concat queue_key s.queue _ h.queued (ground arith);
  apart = All-append _ s.queue _ h.apart (ground arith, tt);
}

pub cancel_at-HasPlaces :
    (i : ℕ) (e : QueueEntry) (s : Scheduler) → HasPlaces s → HasPlaces (cancel_at i e s)
unfolding cancel_at
cancel_at-HasPlaces i e s h = record {
  active = h.active;
  queued = Distinct-remove_at i s.queue h.queued;
  apart = All-remove_at _ i s.queue h.apart;
}

pub drop_lease-HasPlaces : (l : Lease) (s : Scheduler) → HasPlaces s → HasPlaces (drop_lease l s)
unfolding drop_lease
drop_lease-HasPlaces l s h = record {
  active = Distinct-delete active_key l.run_id s.active h.active;
  queued = h.queued;
  apart = All-map s.queue (λ e k. has-delete active_key (queue_key e) l.run_id s.active k) h.apart;
}

pub new-HasPlaces : (s : Scheduler) → s.active ≡ [] → s.queue ≡ [] → HasPlaces s
new-HasPlaces s active queue = record {
  active = rw active tt;
  queued = rw queue tt;
  apart = rw queue tt;
}

-- In every history a run is active once, or queued once, or neither.
pub Reach-HasPlaces : {s : Scheduler} → Reach s → HasPlaces s
Reach-HasPlaces =
    Reach_inv HasPlaces
      (λ p s h. let (_, _, active, queue, _, _, _) = new-some p s h in new-HasPlaces s active queue)
      (λ now i e s there able h. grant-HasPlaces now i e s there h)
      (λ r s fresh possible h. enqueue-HasPlaces r s fresh h)
      (λ i e s there h. cancel_at-HasPlaces i e s h) (λ l s out once h. drop_lease-HasPlaces l s h)
