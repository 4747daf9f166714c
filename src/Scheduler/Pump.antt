-- ===== src/Scheduler/Pump.antt =====
-- The loop of `pump`: each round grants one entry, and the loop ends when nothing can be granted.
use vibe_go.Base.{
  ℕ, zero, suc, ◌<◌, ◌≡◌, sym, subst, ap, true, false, none, some, ◌⊎◌, inl, inr, arith, All,
  Bool-cases, Option-cases, get_elem?, find_index, length, length-remove_at, ◌∙◌, String, ◌=s◌,
}
use vibe_go.Scheduler.{
  Policy, QueueEntry, Scheduler, can_grant, pick_candidate_index, grant, pump_once, pump_loop, pump,
  Lease, release, acquire, cancel_queued, Request, is_known, can_ever_grant, enqueue, cancel_at,
  is_released, drop_lease, new, queue_key,
}
use vibe_go.Scheduler.Order.{pick_candidate_index-some, pick_candidate_index-none}
use vibe_go.Scheduler.History.{Step, Reach, IsHandedOut}

-- No queued request could be granted now.
abbrev pub IsSettled : Scheduler → Type 0
IsSettled s = All (λ x. can_grant s.policy s.active x.request ≡ false) s.queue

-- What one round does.
abbrev pub Grants : ℕ → Scheduler → Scheduler → Type 0
Grants now s t =
    (i : ℕ) × (e : QueueEntry) × (get_elem? s.queue i ≡ some e)
    × (can_grant s.policy s.active e.request ≡ true)
    × (t ≡ grant now i e s)

pump_once-some : (now : ℕ) (s t : Scheduler) → pump_once now s ≡ some t → Grants now s t
unfolding pump_once
pump_once-some now s t h = elim (Option-cases (pick_candidate_index s)) [
  | inl nowhere ↦ absurd (ground arith)
  | inr (i, at) ↦
      let (e, there, able, best) = pick_candidate_index-some s i at in
      (i, e, there, able, ground arith)
]

pump_once-none : (now : ℕ) (s : Scheduler) → pump_once now s ≡ none → IsSettled s
unfolding pump_once
pump_once-none now s h = elim (Option-cases (pick_candidate_index s)) [
  | inl nowhere ↦ pick_candidate_index-none s nowhere
  | inr (i, at) ↦
      let (e, there, able, best) = pick_candidate_index-some s i at in absurd (ground arith)
]

length-grant :
    (now i : ℕ) (e : QueueEntry) (s : Scheduler)
    → get_elem? s.queue i ≡ some e
    → length s.queue ≡ suc (length (grant now i e s).queue)
unfolding grant
length-grant now i e s h = length-remove_at i s.queue e h

pump_loop-IsSettled :
    (fuel now : ℕ) (s : Scheduler) → length s.queue < fuel → IsSettled (pump_loop fuel now s)
unfolding pump_loop
pump_loop-IsSettled zero now s h = absurd (omega arith)
pump_loop-IsSettled (suc fuel) now s h = elim (Option-cases (pump_once now s)) [
  | inl stop ↦ rw (stop, pump_loop) (pump_once-none now s stop)
  | inr (t, more) ↦
      let (i, e, there, able, same) = pump_once-some now s t more in
      let shorter : length s.queue ≡ suc (length t.queue) =
        length-grant now i e s there ∙ ap (λ (u : Scheduler). suc (length u.queue)) (sym same) in
      rw (more, pump_loop) (pump_loop-IsSettled fuel now t (omega arith))
]

-- `pump` stops only when no queued request can be granted: its rounds suffice.
pub pump-IsSettled : (now : ℕ) (s : Scheduler) → IsSettled (pump now s)
unfolding pump
pump-IsSettled now s = pump_loop-IsSettled (suc (length s.queue)) now s (omega arith)

-- The first round: nothing can be granted, or one entry is and the loop goes on.
pub pump_first :
    (now : ℕ) (s : Scheduler)
    → (IsSettled s × (pump now s ≡ s))
      ⊎ ((i : ℕ) × (e : QueueEntry) × (get_elem? s.queue i ≡ some e)
          × (can_grant s.policy s.active e.request ≡ true)
          × (pump now s ≡ pump_loop (length s.queue) now (grant now i e s)))
unfolding pump pump_loop
pump_first now s = elim (Option-cases (pump_once now s)) [
  | inl stop ↦ inl (pump_once-none now s stop, rw (stop, pump_loop))
  | inr (t, more) ↦
      let (i, e, there, able, same) = pump_once-some now s t more in
      inr (i, e, there, able, rw (more, pump_loop) (ap (pump_loop (length s.queue) now) same))
]

-- The rule for the loop: what every grant keeps, `pump` keeps.
module _ {κ} (P : Scheduler → Type κ) (now : ℕ)
    (keep : (i : ℕ) (e : QueueEntry) (s : Scheduler)
      → get_elem? s.queue i ≡ some e
      → can_grant s.policy s.active e.request ≡ true
      → P s
      → P (grant now i e s)) where
  pub pump_loop_inv : (fuel : ℕ) (s : Scheduler) → P s → P (pump_loop fuel now s)
  unfolding pump_loop
  pump_loop_inv zero s h = h
  pump_loop_inv (suc fuel) s h = elim (Option-cases (pump_once now s)) [
    | inl stop ↦ rw (stop, pump_loop) h
    | inr (t, more) ↦
        let (i, e, there, able, same) = pump_once-some now s t more in
        rw (more, pump_loop) (pump_loop_inv fuel t (subst P (sym same) (keep i e s there able h)))
  ]

  pub pump_inv : (s : Scheduler) → P s → P (pump now s)
  unfolding pump
  pump_inv s h = pump_loop_inv (suc (length s.queue)) s h

-- The rule for histories: what every grant and the direct effect of every call keep, holds of
-- every scheduler that its clients can bring about.
module _ (P : Scheduler → Type 0) (on_new : (p : Policy) (s : Scheduler) → new p ≡ some s → P s)
    (on_grant : (now i : ℕ) (e : QueueEntry) (s : Scheduler)
      → get_elem? s.queue i ≡ some e
      → can_grant s.policy s.active e.request ≡ true
      → P s
      → P (grant now i e s))
    (on_enqueue : (r : Request) (s : Scheduler)
      → is_known s r.run_id ≡ false
      → can_ever_grant s.policy r ≡ true
      → P s
      → P (enqueue r s))
    (on_cancel : (i : ℕ) (e : QueueEntry) (s : Scheduler)
      → get_elem? s.queue i ≡ some e
      → P s
      → P (cancel_at i e s))
    (on_drop : (l : Lease) (s : Scheduler)
      → IsHandedOut l s.settled
      → is_released l.serial s.released ≡ false
      → P s
      → P (drop_lease l s)) where
  acquire_inv : (now : ℕ) (r : Request) (s : Scheduler) → P s → P (acquire now r s).0
  unfolding acquire
  acquire_inv now r s h = elim (Bool-cases (is_known s r.run_id)) [
    | inl known ↦ rw (known, acquire) h
    | inr fresh ↦ elim (Bool-cases (can_ever_grant s.policy r)) [
      | inl possible ↦
          rw (fresh, possible, acquire)
            (pump_inv P now (on_grant now) (enqueue r s) (on_enqueue r s fresh possible h))
      | inr never ↦ rw (fresh, never, acquire) h
    ]
  ]

  cancel_queued_inv : (run_id : String) (s : Scheduler) → P s → P (cancel_queued run_id s).0
  unfolding cancel_queued
  cancel_queued_inv run_id s h =
      elim (Option-cases (find_index (λ e. queue_key e =s run_id) s.queue)) [
        | inl missing ↦ rw (missing, cancel_queued) h
        | inr (i, at) ↦ elim (Option-cases (get_elem? s.queue i)) [
          | inl outside ↦ rw (at, cancel_queued) (rw (outside, cancel_queued) h)
          | inr (e, there) ↦
              rw (at, cancel_queued) (rw (there, cancel_queued) (on_cancel i e s there h))
        ]
      ]

  release_inv :
      (now : ℕ) (l : Lease) (s : Scheduler) → IsHandedOut l s.settled → P s → P (release now l s)
  unfolding release
  release_inv now l s out h = elim (Bool-cases (is_released l.serial s.released)) [
    | inl again ↦ rw (again, release) h
    | inr once ↦
        rw (once, release) (pump_inv P now (on_grant now) (drop_lease l s) (on_drop l s out once h))
  ]

  pub Step_inv : {s t : Scheduler} → Step s t → P s → P t
  Step_inv {s} (Step.acquires now r) h = acquire_inv now r s h
  Step_inv {s} (Step.cancels run_id) h = cancel_queued_inv run_id s h
  Step_inv {s} (Step.releases now l out) h = release_inv now l s out h

  pub Reach_inv : {s : Scheduler} → Reach s → P s
  Reach_inv (Reach.start p {s} e) = on_new p s e
  Reach_inv (Reach.next r st) = Step_inv st (Reach_inv r)
