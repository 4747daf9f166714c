-- ===== src/Scheduler/Liveness.antt =====
-- The queue does not starve: nothing that could run waits, and releases drain it.
use vibe_go.Base.{
  ℕ, zero, suc, ◌+◌, ◌≤◌, ◌<◌, ◌≡◌, refl, sym, ap, true, false, List, [], ◌∷◌, arith, All, ◌-◌,
  subst, All-remove_at, Bool-cases, Option-cases, get_elem?, length, length-remove_at, inl, inr,
  ◌⊎◌, String, find_index, ◌=s◌, eq_iff,
}
use vibe_go.Base.Keyed.{has, length-put, length-delete-has}
use vibe_go.Scheduler.{
  Policy, Request, Lease, QueueEntry, ActiveEntry, Scheduler, active_key, queue_key, valid_policy,
  can_grant, can_ever_grant, conflicts_any, active_resource_usage, grant, enqueue, pump, acquire,
  cancel_at, cancel_queued, drop_lease, release, is_known, is_released,
}
use vibe_go.Scheduler.History.{Reach, Step, new-some}
use vibe_go.Scheduler.Pump.{IsSettled, pump-IsSettled, pump_inv}
use vibe_go.Scheduler.Capacity.{Reach-WithinCapacity}
use vibe_go.Scheduler.Handles.{HasHandles, IsActiveLease}
use vibe_go.Scheduler.Leases.{Reach-HasHandles}

acquire-IsSettled :
    (now : ℕ) (r : Request) (s : Scheduler) → IsSettled s → IsSettled (acquire now r s).0
unfolding acquire
acquire-IsSettled now r s h = elim (Bool-cases (is_known s r.run_id)) [
  | inl known ↦ rw (known, acquire) h
  | inr fresh ↦ elim (Bool-cases (can_ever_grant s.policy r)) [
    | inl possible ↦ rw (fresh, possible, acquire) (pump-IsSettled now (enqueue r s))
    | inr never ↦ rw (fresh, never, acquire) h
  ]
]

cancel_queued-IsSettled :
    (run_id : String) (s : Scheduler) → IsSettled s → IsSettled (cancel_queued run_id s).0
unfolding cancel_queued cancel_at
cancel_queued-IsSettled run_id s h =
    elim (Option-cases (find_index (λ e. queue_key e =s run_id) s.queue)) [
      | inl missing ↦ rw (missing, cancel_queued) h
      | inr (i, at) ↦ elim (Option-cases (get_elem? s.queue i)) [
        | inl outside ↦ rw (at, cancel_queued) (rw (outside, cancel_queued) h)
        | inr (e, there) ↦
            rw (at, cancel_queued) (rw (there, cancel_queued) (All-remove_at _ i s.queue h))
      ]
    ]

release-IsSettled :
    (now : ℕ) (l : Lease) (s : Scheduler) → IsSettled s → IsSettled (release now l s)
unfolding release
release-IsSettled now l s h = elim (Bool-cases (is_released l.serial s.released)) [
  | inl again ↦ rw (again, release) h
  | inr once ↦ rw (once, release) (pump-IsSettled now (drop_lease l s))
]

-- After every call, in every history, no queued request could be granted: the scheduler never keeps
-- a run waiting for capacity or a workspace that is free.
pub Reach-IsSettled : {s : Scheduler} → Reach s → IsSettled s
Reach-IsSettled (Reach.start p {s} e) =
    let (_, _, _, queue, _, _, _) = new-some p s e in rw queue tt
Reach-IsSettled (Reach.next {s} r (Step.acquires now q)) =
    acquire-IsSettled now q s (Reach-IsSettled r)
Reach-IsSettled (Reach.next {s} r (Step.cancels id)) =
    cancel_queued-IsSettled id s (Reach-IsSettled r)
Reach-IsSettled (Reach.next {s} r (Step.releases now l out)) =
    release-IsSettled now l s (Reach-IsSettled r)

can_grant_idle :
    (p : Policy) (r : Request)
    → valid_policy p ≡ true
    → can_ever_grant p r ≡ true
    → can_grant p [] r ≡ true
unfolding can_grant can_ever_grant valid_policy active_resource_usage conflicts_any
can_grant_idle p r valid possible = ground arith

settled_empty :
    (p : Policy) (es : List ActiveEntry) (q : List QueueEntry)
    → valid_policy p ≡ true
    → es ≡ []
    → All (λ e. can_ever_grant p e.request ≡ true) q
    → All (λ e. can_grant p es e.request ≡ false) q
    → q ≡ []
settled_empty p es [] valid idle possible stuck = refl
settled_empty p es (e ∷ q) valid idle possible stuck = absurd (
    ground (
      arith,
      can_grant_idle p e.request valid possible.0,
      stuck.0,
      ap (λ xs. can_grant p xs e.request) idle,
    ))

-- No deadlock: when no run is active, nothing waits.
pub idle-queue : {s : Scheduler} → Reach s → s.active ≡ [] → s.queue ≡ []
idle-queue {s} r idle =
    let c = Reach-WithinCapacity r in
    settled_empty s.policy s.active s.queue c.valid idle c.grantable (Reach-IsSettled r)

load : Scheduler → ℕ
load s = length s.active + length s.queue

load_idle : (s : Scheduler) → s.active ≡ [] → s.queue ≡ [] → load s ≡ 0
unfolding load
load_idle s active queue = rw (active, queue) (omega arith)

pump-load : (now : ℕ) (s : Scheduler) → load (pump now s) ≤ load s
unfolding load
pump-load now s =
    pump_inv (λ t. length t.active + length t.queue ≤ length s.active + length s.queue) now
      (λ i e t there able h.
        unfold grant in
        omega (arith, length-put active_key _ t.active, length-remove_at i t.queue e there, h))
      s (omega arith)

drop_lease-load :
    (l : Lease) (s : Scheduler)
    → has active_key l.run_id s.active ≡ true
    → load (drop_lease l s) < load s
unfolding load drop_lease
drop_lease-load l s held = omega (arith, length-delete-has active_key l.run_id s.active held)

release_live :
    (now : ℕ) (l : Lease) (s : Scheduler)
    → is_released l.serial s.released ≡ false
    → release now l s ≡ pump now (drop_lease l s)
unfolding release
release_live now l s live = rw (live, release)

release-load :
    (now : ℕ) (l : Lease) (s : Scheduler)
    → is_released l.serial s.released ≡ false
    → has active_key l.run_id s.active ≡ true
    → load (release now l s) < load s
release-load now l s live held = omega (
  arith,
  ap load (release_live now l s live),
  pump-load now (drop_lease l s),
  drop_lease-load l s held,
)

-- The holder of the oldest active lease releases it.
unfoldable pub release_oldest : ℕ → Scheduler → Scheduler
release_oldest now s = elim s.active [ [] ↦ s | a ∷ _ ↦ release now a.lease s ]

unfoldable pub release_all : ℕ → ℕ → Scheduler → Scheduler
release_all zero now s = s
release_all (suc n) now s = release_all n now (release_oldest now s)

-- Either nothing is active, or the oldest active entry's lease is released.
abbrev Oldest : ℕ → Scheduler → Type 0
Oldest now s =
    ((s.active ≡ []) × (release_oldest now s ≡ s))
    ⊎ ((a : ActiveEntry) × IsActiveLease s a
        × (has active_key a.lease.run_id s.active ≡ true)
        × (release_oldest now s ≡ release now a.lease s))

oldest : (now : ℕ) (s : Scheduler) → HasHandles s → Oldest now s
unfolding release_oldest has
oldest now s h = from s.active refl
  where
    from : (es : List ActiveEntry) → s.active ≡ es → Oldest now s
    from [] e = inl (e, ground arith)
    from (a ∷ es) e =
        let held : All (IsActiveLease s) (a ∷ es) = subst (All (IsActiveLease s)) e h.active in
        inr (
          a,
          held.0,
          ground (arith, held.0.named, eq_iff (active_key a) a.lease.run_id),
          ground arith,
        )

release_oldest-Reach :
    (now : ℕ) (s : Scheduler)
    → Reach s
    → Reach (release_oldest now s) × (load (release_oldest now s) ≤ load s - 1)
release_oldest-Reach now s r = elim (oldest now s (Reach-HasHandles r)) [
  | inl (none_active, same) ↦ (
    subst Reach (sym same) r,
    omega (arith, ap load same, load_idle s none_active (idle-queue r none_active)),
  )
  | inr (a, lease, held, same) ↦ (
    subst Reach (sym same) (Reach.next r (Step.releases now a.lease lease.handed_out)),
    omega (arith, ap load same, release-load now a.lease s lease.fresh held),
  )
]

release_all-drains :
    (n now : ℕ) (s : Scheduler)
    → Reach s
    → load s ≤ n
    → Reach (release_all n now s) × (load (release_all n now s) ≡ 0)
unfolding release_all
release_all-drains zero now s r h = (r, omega arith)
release_all-drains (suc n) now s r h =
    let (reach, less) = release_oldest-Reach now s r in
    release_all-drains n now (release_oldest now s) reach (omega (arith, less, h))

-- After as many releases as there are active and queued runs nothing is active and nothing waits.
pub release_all-empties :
    (now : ℕ) {s : Scheduler}
    → Reach s
    → let t = release_all (length s.active + length s.queue) now s in
      Reach t × (t.active ≡ []) × (t.queue ≡ [])
unfolding load
release_all-empties now {s} r =
    let (reach, empty) =
      release_all-drains (length s.active + length s.queue) now s r (omega arith) in
    (reach, ground (arith, empty), ground (arith, empty))
