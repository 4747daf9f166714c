-- ===== src/Scheduler/Preflight.antt =====
-- `inspect` foretells what `acquire` does.
use vibe_go.Base.{
  ℕ, ◌≡◌, refl, sym, ap, subst, true, false, some, [], ◌∷◌, ◌++◌, arith, All-map, All-append,
  All-append_right, All-get_elem?, Bool-cases, get_elem?, inl, inr, length,
}
use vibe_go.Base.Keyed.{has, has-put_keep, has-put_self}
use vibe_go.Scheduler.{
  Request, QueueEntry, Scheduler, rejected, promised, Rejection, active_key, can_grant,
  can_ever_grant, grant, enqueue, pump, acquire, inspect, InspectionStatus, ready, waiting, blocked,
  is_known, conflicts_any,
}
use vibe_go.Scheduler.History.{Reach}
use vibe_go.Scheduler.Pump.{IsSettled, pump_loop_inv, pump_first}
use vibe_go.Scheduler.Liveness.{Reach-IsSettled}

module _ (now : ℕ) (r : Request) (s : Scheduler) (settled : IsSettled s) where
  new_entry : QueueEntry
  new_entry = record { request = r; order = s.order }

  -- A candidate of the longer queue is the new entry.
  candidate_is_new :
      (i : ℕ) (e : QueueEntry)
      → get_elem? (s.queue ++ new_entry ∷ []) i ≡ some e
      → can_grant s.policy s.active e.request ≡ true
      → e.request ≡ r
  unfolding new_entry
  candidate_is_new i e there able =
      let only : can_grant s.policy s.active e.request ≡ true → e.request ≡ r =
        All-get_elem? (λ x. can_grant s.policy s.active x.request ≡ true → x.request ≡ r) i
          (s.queue ++ new_entry ∷ []) e
          (All-append _ s.queue _ (All-map s.queue (λ x no can. absurd (ground arith)) settled)
            (λ _. refl, tt))
          there in
      only able

  -- The run of the new request is active.
  abbrev IsActive : Scheduler → Type 0
  IsActive t = has active_key r.run_id t.active ≡ true

  grant-IsActive :
      (i : ℕ) (e : QueueEntry) (t : Scheduler) → IsActive t → IsActive (grant now i e t)
  unfolding grant
  grant-IsActive i e t h = has-put_keep active_key r.run_id _ t.active h

  grant-IsActive_self :
      (i : ℕ) (e : QueueEntry) (t : Scheduler) → e.request ≡ r → IsActive (grant now i e t)
  unfolding grant
  grant-IsActive_self i e t same =
      subst (λ (q : Request). has active_key q.run_id (grant now i e t).active ≡ true) same
        (has-put_self active_key _ t.active)

  pump-enqueue_able : can_grant s.policy s.active r ≡ true → IsActive (pump now (enqueue r s))
  unfolding enqueue new_entry
  pump-enqueue_able able = elim (pump_first now (enqueue r s)) [
    | inl (stuck, same) ↦
        absurd (ground (arith, able, (All-append_right _ s.queue (new_entry ∷ []) stuck).0))
    | inr (i, e, there, can, same) ↦ subst IsActive (sym same) (
        pump_loop_inv IsActive now (λ j d t _ _ h. grant-IsActive j d t h)
          (length (enqueue r s).queue) (grant now i e (enqueue r s))
          (grant-IsActive_self i e (enqueue r s) (candidate_is_new i e there can)))
  ]

  pump-enqueue_unable : can_grant s.policy s.active r ≡ false → pump now (enqueue r s) ≡ enqueue r s
  unfolding enqueue new_entry
  pump-enqueue_unable unable = elim (pump_first now (enqueue r s)) [
    | inl (stuck, same) ↦ same
    | inr (i, e, there, can, same) ↦ absurd (
        ground
          (arith, can, unable, ap (can_grant s.policy s.active) (candidate_is_new i e there can)))
  ]

-- What each status announces of an `acquire` of the same request: the run becomes active at once;
-- the request joins the queue and nothing else changes; the request is rejected and nothing
-- changes.
abbrev pub Foretells : ℕ → Request → Scheduler → InspectionStatus → Type 0
Foretells now r s ready =
    (has active_key r.run_id (acquire now r s).0.active ≡ true)
    × ((acquire now r s).1 ≡ promised s.order)
Foretells now r s waiting = acquire now r s ≡ (enqueue r s, promised s.order)
Foretells now r s blocked = (why : Rejection) × (acquire now r s ≡ (s, rejected why))

-- In every history the status that `inspect` returns is what an `acquire` would meet.
pub inspect-Foretells :
    (now : ℕ) (r : Request) {s : Scheduler} → Reach s → Foretells now r s (inspect s r).0
unfolding inspect acquire
inspect-Foretells now r {s} reach = elim (Bool-cases (can_ever_grant s.policy r)) [
  | inr never ↦ elim (Bool-cases (is_known s r.run_id)) [
    | inl known ↦ rw (never, inspect) (Rejection.duplicate_run, rw (known, acquire))
    | inr fresh ↦ rw (never, inspect) (Rejection.unsatisfiable, rw (fresh, never, acquire))
  ]
  | inl possible ↦ elim (Bool-cases (is_known s r.run_id)) [
    | inl known ↦ rw (possible, known, inspect) (Rejection.duplicate_run, rw (known, acquire))
    | inr fresh ↦ elim (Bool-cases (can_grant s.policy s.active r)) [
      | inl able ↦
          rw (possible, fresh, able, inspect)
            (
              rw (fresh, possible, acquire)
                  (pump-enqueue_able now r s (Reach-IsSettled reach) able),
              rw (fresh, possible, acquire),
            )
      | inr unable ↦
          let same : acquire now r s ≡ (enqueue r s, promised s.order) =
            rw (fresh, possible, acquire)
              (ap (λ t. (t, promised s.order))
                (pump-enqueue_unable now r s (Reach-IsSettled reach) unable)) in
          elim (Bool-cases (conflicts_any s.active r)) [
            | inl busy ↦ rw (possible, fresh, unable, busy, inspect) same
            | inr full ↦ rw (possible, fresh, unable, full, inspect) same
          ]
    ]
  ]
]
