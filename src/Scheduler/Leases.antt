-- ===== src/Scheduler/Leases.antt =====
-- Every call keeps the leases accounted for.
use vibe_go.Base.{
  ℕ, ◌≤◌, ◌≡◌, refl, ap, false, some, inl, inr, arith, ◌=s◌, All-map, All-zip, ◌≢◌, All-get_elem?,
  =s-refl, get_elem?, eq_iff, Bool-cases,
}
use vibe_go.Base.Keyed.{
  delete, find, has, find-put, find-delete, All-put, All-delete, find-none_of_has, All-without,
}
use vibe_go.Scheduler.{
  Request, Lease, QueueEntry, ActiveEntry, Scheduler, active_key, queue_key, create_lease, grant,
  enqueue, cancel_at, drop_lease, is_released,
}
use vibe_go.Scheduler.History.{Reach, IsHandedOut, new-some}
use vibe_go.Scheduler.Pump.{Reach_inv}
use vibe_go.Scheduler.Exclusive.{
  HasPlaces, grant-HasPlaces, enqueue-HasPlaces, cancel_at-HasPlaces, drop_lease-HasPlaces,
  new-HasPlaces,
}
use vibe_go.Scheduler.Settling.{
  count_settled, SettlesOnce, count_waiting-remove_at, grant-SettlesOnce, enqueue-SettlesOnce,
  cancel_at-SettlesOnce, drop_lease-SettlesOnce, new-SettlesOnce,
}
use vibe_go.Scheduler.Handles.{
  IsInForce, IsAccounted, IsActiveLease, HasHandles, AllHandedOut-map, AllHandedOut_at,
  count_settled_pos, same_serial, is_released-false,
}

abbrev IsOrderly : Scheduler → Type 0
IsOrderly s = HasPlaces s × SettlesOnce s × HasHandles s

settled_at_most_once : (s : Scheduler) → SettlesOnce s → (n : ℕ) → count_settled n s.settled ≤ 1
settled_at_most_once s once n = ground (arith, once n)

waiting_unsettled :
    (s : Scheduler) (i : ℕ) (e : QueueEntry)
    → SettlesOnce s
    → get_elem? s.queue i ≡ some e
    → count_settled e.order s.settled ≡ 0
waiting_unsettled s i e once there =
    ground (arith, once e.order, count_waiting-remove_at e.order i s.queue e there)

waiting_inactive :
    (s : Scheduler) (i : ℕ) (e : QueueEntry)
    → HasPlaces s
    → get_elem? s.queue i ≡ some e
    → has active_key (queue_key e) s.active ≡ false
waiting_inactive s i e places there = All-get_elem? _ i s.queue e places.apart there

module _ (now i : ℕ) (e : QueueEntry) (s : Scheduler) (there : get_elem? s.queue i ≡ some e)
    (places : HasPlaces s) (once : SettlesOnce s) (h : HasHandles s) where
  grant-IsAccounted :
      (l : Lease)
      → IsAccounted s.released s.active l
      → IsAccounted (grant now i e s).released (grant now i e s).active l
  unfolding grant
  grant-IsAccounted l (inl gone) = inl gone
  grant-IsAccounted l (inr (a, found, same)) = inr (
    a,
    ground (
      arith,
      eq_iff (queue_key e) l.run_id,
      find-put active_key l.run_id (record { request = e.request; lease = create_lease now e })
          s.active,
      find-none_of_has active_key (queue_key e) s.active (waiting_inactive s i e places there),
      ap (λ k. find active_key k s.active),
      found,
    ),
    same,
  )

  grant-HasHandles : HasHandles (grant now i e s)
  unfolding grant create_lease
  grant-HasHandles = record {
    accounted = (
      inr (
        record { request = e.request; lease = create_lease now e },
        rw (
          find-put active_key e.request.run_id
              (record { request = e.request; lease = create_lease now e }) s.active,
          =s-refl e.request.run_id,
        ),
        refl,
      ),
      AllHandedOut-map _ _ s.settled (λ l _ k. grant-IsAccounted l k) h.accounted,
    );
    active =
        All-put active_key (IsActiveLease (grant now i e s)) _ s.active
          (All-map s.active
            (λ a k. record { fresh = k.fresh; named = k.named; handed_out = inr k.handed_out })
            h.active)
          (record {
            fresh =
                is_released-false e.order s.settled s.released h.released
                  (waiting_unsettled s i e once there);
            named = refl;
            handed_out = inl refl;
          });
    released = All-map s.released (λ n k. omega (arith, k)) h.released;
  }

enqueue-HasHandles : (r : Request) (s : Scheduler) → HasHandles s → HasHandles (enqueue r s)
unfolding enqueue
enqueue-HasHandles r s h = record {
  accounted = h.accounted;
  active =
      All-map s.active
        (λ a k. record { fresh = k.fresh; named = k.named; handed_out = k.handed_out }) h.active;
  released = h.released;
}

cancel_at-HasHandles :
    (i : ℕ) (e : QueueEntry) (s : Scheduler) → HasHandles s → HasHandles (cancel_at i e s)
unfolding cancel_at
cancel_at-HasHandles i e s h = record {
  accounted = h.accounted;
  active =
      All-map s.active
        (λ a k. record { fresh = k.fresh; named = k.named; handed_out = k.handed_out }) h.active;
  released = All-map s.released (λ n k. omega (arith, k)) h.released;
}

module _ (l : Lease) (s : Scheduler) (out : IsHandedOut l s.settled)
    (live : is_released l.serial s.released ≡ false) (once : SettlesOnce s) (h : HasHandles s) where
  in_force : IsInForce l s.active
  in_force = elim (AllHandedOut_at (IsAccounted s.released s.active) l s.settled h.accounted out) [
    | inl gone ↦ absurd (ground arith)
    | inr held ↦ held
  ]

  drop_lease-IsAccounted :
      (k : Lease)
      → IsAccounted s.released s.active k
      → IsAccounted (drop_lease l s).released (drop_lease l s).active k
  unfolding drop_lease is_released
  drop_lease-IsAccounted k (inl gone) = inl (ground arith)
  drop_lease-IsAccounted k (inr (a, found, same)) = elim (Bool-cases (l.run_id =s k.run_id)) [
    | inl one_run ↦
        let (b, held, lease) = in_force in
        let run : l.run_id ≡ k.run_id = (eq_iff l.run_id k.run_id).0 one_run in
        let leases : l ≡ k =
          ground (arith, found, held, same, lease, ap (λ r. find active_key r s.active) run) in
        inl (rw leases (ground arith))
    | inr other_run ↦
        inr (a, rw (find-delete active_key k.run_id l.run_id s.active, other_run) found, same)
  ]

  drop_lease-IsActiveLease :
      (a : ActiveEntry)
      → (active_key a =s l.run_id) ≡ false
      → IsActiveLease s a
      → IsActiveLease (drop_lease l s) a
  unfolding drop_lease is_released
  drop_lease-IsActiveLease a other k = record {
    fresh = ground (arith, k.fresh, distinct);
    named = k.named;
    handed_out = k.handed_out;
  }
    where
      distinct : l.serial ≢ a.lease.serial
      distinct e =
          let same : l ≡ a.lease =
            same_serial l a.lease s.settled (settled_at_most_once s once l.serial) out k.handed_out
              e in
          absurd (
            ground (
              arith,
              ap (λ (x : Lease). x.run_id) same,
              k.named,
              other,
              eq_iff (active_key a) l.run_id,
            ))

  drop_lease-HasHandles : HasHandles (drop_lease l s)
  unfolding drop_lease
  drop_lease-HasHandles = record {
    accounted = AllHandedOut-map _ _ s.settled (λ k _ m. drop_lease-IsAccounted k m) h.accounted;
    active =
        All-zip (delete active_key l.run_id s.active) (λ a o k. drop_lease-IsActiveLease a o k)
          (All-without active_key l.run_id s.active)
          (All-delete active_key (IsActiveLease s) l.run_id s.active h.active);
    released = (count_settled_pos l s.settled out, h.released);
  }

Reach-IsOrderly : {s : Scheduler} → Reach s → IsOrderly s
Reach-IsOrderly =
    Reach_inv IsOrderly
      (λ p s h.
        let (_, _, active, queue, order, settled, released) = new-some p s h in
        (
          new-HasPlaces s active queue,
          new-SettlesOnce s queue settled order,
          record { accounted = rw settled tt; active = rw active tt; released = rw released tt },
        ))
      (λ now i e s there able h. (
        grant-HasPlaces now i e s there h.0,
        grant-SettlesOnce now i e s there h.1,
        grant-HasHandles now i e s there h.0 h.1 h.2,
      ))
      (λ r s fresh possible h.
        (enqueue-HasPlaces r s fresh h.0, enqueue-SettlesOnce r s h.1, enqueue-HasHandles r s h.2))
      (λ i e s there h. (
        cancel_at-HasPlaces i e s h.0,
        cancel_at-SettlesOnce i e s there h.1,
        cancel_at-HasHandles i e s h.2,
      ))
      (λ l s out live h. (
        drop_lease-HasPlaces l s h.0,
        drop_lease-SettlesOnce l s h.1,
        drop_lease-HasHandles l s out live h.1 h.2,
      ))

-- In every history the active runs are exactly those with a lease that was handed out and not yet
-- released: such a lease is in force, and an active entry has such a lease of its own run.
pub Reach-HasHandles : {s : Scheduler} → Reach s → HasHandles s
Reach-HasHandles r = (Reach-IsOrderly r).2
