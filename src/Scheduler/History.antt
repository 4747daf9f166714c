-- ===== src/Scheduler/History.antt =====
-- Histories of a scheduler: any sequence of calls that its clients can make.
use vibe_go.Base.{ℕ, String, ◌≡◌, ◌⊎◌, true, some, arith, List, [], ◌∷◌}
use vibe_go.Scheduler.{
  Scheduler, Policy, Request, Lease, Settlement, resolved, cancelled, new, valid_policy, acquire,
  cancel_queued, release,
}

-- A lease can be released by whoever a promise handed it to.
abbrev pub IsHandedOut : Lease → List Settlement → Type 0
IsHandedOut l [] = ⊥
IsHandedOut l (resolved k ∷ xs) = (l ≡ k) ⊎ IsHandedOut l xs
IsHandedOut l (cancelled n ∷ xs) = IsHandedOut l xs

-- What callers can do, in any order.
pub data Step (s : Scheduler) : Scheduler → Type 0 where
  acquires : (now : ℕ) (r : Request) → Step s (acquire now r s).0
  cancels : (run_id : String) → Step s (cancel_queued run_id s).0
  releases : (now : ℕ) (l : Lease) → IsHandedOut l s.settled → Step s (release now l s)

pub data Reach : Scheduler → Type 0 where
  start : (p : Policy) {s : Scheduler} → new p ≡ some s → Reach s
  next : {s t : Scheduler} → Reach s → Step s t → Reach t

pub new-some :
    (p : Policy) (s : Scheduler)
    → new p ≡ some s
    → (valid_policy p ≡ true)
      × (s.policy ≡ p)
      × (s.active ≡ [])
      × (s.queue ≡ [])
      × (s.order ≡ 0)
      × (s.settled ≡ [])
      × (s.released ≡ [])
unfolding new
new-some p s h = (
  ground arith,
  ground arith,
  ground arith,
  ground arith,
  ground arith,
  ground arith,
  ground arith,
)
