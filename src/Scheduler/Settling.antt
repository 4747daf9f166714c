-- ===== src/Scheduler/Settling.antt =====
-- Every promise that `acquire` hands out is waiting or settled, and settles once.
use vibe_go.Base.{
  ℕ, zero, suc, ◌+◌, ◌≡◌, some, List, [], ◌∷◌, ◌++◌, arith, ◌==◌, ltb, if◌then◌else◌, get_elem?,
  remove_at,
}
use vibe_go.Scheduler.{
  Request, Lease, QueueEntry, Settlement, resolved, cancelled, Scheduler, create_lease, grant,
  enqueue, cancel_at, drop_lease,
}
use vibe_go.Scheduler.History.{Reach, new-some}
use vibe_go.Scheduler.Pump.{Reach_inv}

abbrev pub one : ℕ → ℕ → ℕ
one n m = if n == m then 1 else 0

abbrev pub serial_of : Settlement → ℕ
serial_of (resolved l) = l.serial
serial_of (cancelled n) = n

-- How often the promise `n` waits, and how often it was settled.
abbrev pub count_waiting : ℕ → List QueueEntry → ℕ
count_waiting n [] = 0
count_waiting n (e ∷ q) = one n e.order + count_waiting n q

abbrev pub count_settled : ℕ → List Settlement → ℕ
count_settled n [] = 0
count_settled n (x ∷ xs) = one n (serial_of x) + count_settled n xs

abbrev pub SettlesOnce : Scheduler → Type 0
SettlesOnce s =
    (n : ℕ) → count_waiting n s.queue + count_settled n s.settled ≡ (if ltb n s.order then 1 else 0)

pub count_waiting-remove_at :
    (n i : ℕ) (q : List QueueEntry) (e : QueueEntry)
    → get_elem? q i ≡ some e
    → count_waiting n q ≡ count_waiting n (remove_at i q) + one n e.order
count_waiting-remove_at n i [] e h = ground arith
count_waiting-remove_at n zero (x ∷ q) e h = ground arith
count_waiting-remove_at n (suc i) (x ∷ q) e h = ground (arith, count_waiting-remove_at n i q e)

count_waiting-append :
    (n : ℕ) (q : List QueueEntry) (e : QueueEntry)
    → count_waiting n (q ++ e ∷ []) ≡ count_waiting n q + one n e.order
count_waiting-append n [] e = ground arith
count_waiting-append n (x ∷ q) e = omega (arith, count_waiting-append n q e)

pub grant-SettlesOnce :
    (now i : ℕ) (e : QueueEntry) (s : Scheduler)
    → get_elem? s.queue i ≡ some e
    → SettlesOnce s
    → SettlesOnce (grant now i e s)
unfolding grant create_lease
grant-SettlesOnce now i e s there h n =
    omega (arith, count_waiting-remove_at n i s.queue e there, h n)

pub enqueue-SettlesOnce : (r : Request) (s : Scheduler) → SettlesOnce s → SettlesOnce (enqueue r s)
unfolding enqueue
enqueue-SettlesOnce r s h n =
    ground (arith, count_waiting-append n s.queue (record { request = r; order = s.order }), h n)

pub cancel_at-SettlesOnce :
    (i : ℕ) (e : QueueEntry) (s : Scheduler)
    → get_elem? s.queue i ≡ some e
    → SettlesOnce s
    → SettlesOnce (cancel_at i e s)
unfolding cancel_at
cancel_at-SettlesOnce i e s there h n =
    omega (arith, count_waiting-remove_at n i s.queue e there, h n)

pub drop_lease-SettlesOnce :
    (l : Lease) (s : Scheduler) → SettlesOnce s → SettlesOnce (drop_lease l s)
unfolding drop_lease
drop_lease-SettlesOnce l s h = h

pub new-SettlesOnce : (s : Scheduler) → s.queue ≡ [] → s.settled ≡ [] → s.order ≡ 0 → SettlesOnce s
new-SettlesOnce s queue settled order n = rw (queue, settled, order) (ground arith)

-- In every history each promise handed out so far either waits in the queue once or was settled
-- once, and never both; no other promise waits or is settled.
pub Reach-SettlesOnce : {s : Scheduler} → Reach s → SettlesOnce s
Reach-SettlesOnce =
    Reach_inv SettlesOnce
      (λ p s h.
        let (_, _, _, queue, order, settled, _) = new-some p s h in
        new-SettlesOnce s queue settled order)
      (λ now i e s there able h. grant-SettlesOnce now i e s there h)
      (λ r s fresh possible h. enqueue-SettlesOnce r s h)
      (λ i e s there h. cancel_at-SettlesOnce i e s there h)
      (λ l s out once h. drop_lease-SettlesOnce l s h)
