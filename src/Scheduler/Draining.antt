-- ===== src/Scheduler/Draining.antt =====
-- What releases do for the queue of `Scheduler`, packages/scheduler/src/index.ts: every waiting promise
-- gets a lease.
use vibe_go.Base.{
  ℕ, zero, suc, ◌+◌, ◌≡◌, refl, ap, ◌∙◌, List, [], ◌∷◌, arith, All, Bool-cases, inl, inr, length,
  ◌≤◌,
}
use vibe_go.Scheduler.{
  ActiveEntry, Lease, QueueEntry, Settlement, resolved, cancelled, Scheduler, grant, pump,
  drop_lease, release, is_released,
}
use vibe_go.Scheduler.History.{Reach}
use vibe_go.Scheduler.Pump.{pump_inv}
use vibe_go.Scheduler.Settling.{one, count_waiting, count_settled, SettlesOnce, Reach-SettlesOnce}
use vibe_go.Scheduler.Liveness.{release_oldest, release_all, release_all-empties}

-- How often the promise `n` was resolved with a lease, and how often it was rejected.
abbrev pub count_granted : ℕ → List Settlement → ℕ
count_granted n [] = 0
count_granted n (resolved l ∷ xs) = one n l.serial + count_granted n xs
count_granted n (cancelled m ∷ xs) = count_granted n xs

abbrev count_cancelled : ℕ → List Settlement → ℕ
count_cancelled n [] = 0
count_cancelled n (resolved l ∷ xs) = count_cancelled n xs
count_cancelled n (cancelled m ∷ xs) = one n m + count_cancelled n xs

count_settled-sum :
    (n : ℕ) (xs : List Settlement) → count_settled n xs ≡ count_granted n xs + count_cancelled n xs
count_settled-sum n [] = refl
count_settled-sum n (resolved l ∷ xs) = omega (arith, count_settled-sum n xs)
count_settled-sum n (cancelled m ∷ xs) = omega (arith, count_settled-sum n xs)

-- From `s` to `t` no promise was made or rejected.
abbrev Spares : Scheduler → Scheduler → Type 0
Spares s t =
    (t.order ≡ s.order) × ((n : ℕ) → count_cancelled n t.settled ≡ count_cancelled n s.settled)

pump-Spares : (now : ℕ) (s : Scheduler) → Spares s (pump now s)
pump-Spares now s =
    pump_inv (Spares s) now (λ i e t there able h. unfold grant in h) s (refl, λ n. refl)

release-Spares : (now : ℕ) (l : Lease) (s : Scheduler) → Spares s (release now l s)
unfolding release drop_lease
release-Spares now l s = elim (Bool-cases (is_released l.serial s.released)) [
  | inl again ↦ rw (again, release) (refl, λ n. refl)
  | inr once ↦ rw (once, release) (pump-Spares now (drop_lease l s))
]

release_oldest-Spares : (now : ℕ) (s : Scheduler) → Spares s (release_oldest now s)
unfolding release_oldest
release_oldest-Spares now s = from s.active
  where
    from : (es : List ActiveEntry) → Spares s (elim es [ [] ↦ s | a ∷ _ ↦ release now a.lease s ])
    from [] = (refl, λ n. refl)
    from (a ∷ es) = release-Spares now a.lease s

release_all-Spares : (n now : ℕ) (s : Scheduler) → Spares s (release_all n now s)
unfolding release_all
release_all-Spares zero now s = (refl, λ n. refl)
release_all-Spares (suc n) now s =
    let first = release_oldest-Spares now s in
    let rest = release_all-Spares n now (release_oldest now s) in
    (rest.0 ∙ first.0, λ m. rest.1 m ∙ first.1 m)

-- A promise that waits in `s` was neither made later nor settled.
waiting_promise :
    (s t : Scheduler) (n : ℕ)
    → SettlesOnce s
    → SettlesOnce t
    → Spares s t
    → t.queue ≡ []
    → 1 ≤ count_waiting n s.queue
    → count_granted n t.settled ≡ 1
waiting_promise s t n before after (order, spared) empty waits = ground (
  arith,
  before n,
  after n,
  order,
  spared n,
  ap (count_waiting n) empty,
  waits,
  count_settled-sum n s.settled,
  count_settled-sum n t.settled,
)

All-waiting :
    (q : List QueueEntry) (P : ℕ → Type 0)
    → ((n : ℕ) → 1 ≤ count_waiting n q → P n)
    → All (λ e. P e.order) q
All-waiting [] P h = tt
All-waiting (e ∷ q) P h =
    (h e.order (ground arith), All-waiting q P (λ n w. h n (omega (arith, w))))

-- Every promise that waits gets its lease: when the holders release their leases one after the other,
-- the oldest first, then after as many releases as there are active and queued runs the history goes
-- on with nothing active and nothing waiting, and each promise that waited was resolved with a lease,
-- once.
pub release_all-grants :
    (now : ℕ) {s : Scheduler}
    → Reach s
    → let t = release_all (length s.active + length s.queue) now s in
      Reach t
      × (t.active ≡ [])
      × (t.queue ≡ [])
      × All (λ e. count_granted e.order t.settled ≡ 1) s.queue
release_all-grants now {s} r =
    let n = length s.active + length s.queue in
    let (reach, idle, empty) = release_all-empties now r in
    (
      reach,
      idle,
      empty,
      All-waiting s.queue (λ m. count_granted m (release_all n now s).settled ≡ 1)
          (λ m waits.
            waiting_promise s (release_all n now s) m (Reach-SettlesOnce r)
              (Reach-SettlesOnce reach) (release_all-Spares n now s) empty waits),
    )
