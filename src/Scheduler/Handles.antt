-- ===== src/Scheduler/Handles.antt =====
-- Leases: a lease that was handed out and not released is in force, and nothing else is.
use vibe_go.Base.{
  ℕ, ◌≤◌, ◌≡◌, refl, sym, ap, subst, ◌∙◌, true, false, some, List, [], ◌∷◌, ◌⊎◌, inl, inr, arith,
  All,
}
use vibe_go.Base.Keyed.{find}
use vibe_go.Scheduler.{
  Lease, ActiveEntry, Settlement, resolved, cancelled, Scheduler, active_key, is_released,
}
use vibe_go.Scheduler.History.{IsHandedOut}
use vibe_go.Scheduler.Settling.{count_settled}

-- The run of the lease is active, under this very lease.
abbrev pub IsInForce : Lease → List ActiveEntry → Type 0
IsInForce l es = (a : ActiveEntry) × (find active_key l.run_id es ≡ some a) × (a.lease ≡ l)

abbrev pub IsAccounted : List ℕ → List ActiveEntry → Lease → Type 0
IsAccounted released es l = (is_released l.serial released ≡ true) ⊎ IsInForce l es

abbrev pub AllHandedOut : (Lease → Type 0) → List Settlement → Type 0
AllHandedOut P [] = Unit {0}
AllHandedOut P (resolved l ∷ xs) = P l × AllHandedOut P xs
AllHandedOut P (cancelled n ∷ xs) = AllHandedOut P xs

pub record IsActiveLease (s : Scheduler) (a : ActiveEntry) : Type 0 where
  pub fresh : is_released a.lease.serial s.released ≡ false
  pub named : a.lease.run_id ≡ active_key a
  pub handed_out : IsHandedOut a.lease s.settled

pub record HasHandles (s : Scheduler) : Type 0 where
  pub accounted : AllHandedOut (IsAccounted s.released s.active) s.settled
  pub active : All (IsActiveLease s) s.active
  pub released : All (λ n. 1 ≤ count_settled n s.settled) s.released

pub AllHandedOut-map :
    (P Q : Lease → Type 0) (xs : List Settlement)
    → ((l : Lease) → IsHandedOut l xs → P l → Q l)
    → AllHandedOut P xs
    → AllHandedOut Q xs
AllHandedOut-map P Q [] f h = tt
AllHandedOut-map P Q (resolved l ∷ xs) f h =
    (f l (inl refl) h.0, AllHandedOut-map P Q xs (λ k m. f k (inr m)) h.1)
AllHandedOut-map P Q (cancelled n ∷ xs) f h = AllHandedOut-map P Q xs f h

pub AllHandedOut_at :
    (P : Lease → Type 0) (l : Lease) (xs : List Settlement)
    → AllHandedOut P xs
    → IsHandedOut l xs
    → P l
AllHandedOut_at P l [] h m = elim m [ ]
AllHandedOut_at P l (resolved k ∷ xs) h (inl e) = subst P (sym e) h.0
AllHandedOut_at P l (resolved k ∷ xs) h (inr m) = AllHandedOut_at P l xs h.1 m
AllHandedOut_at P l (cancelled n ∷ xs) h m = AllHandedOut_at P l xs h m

pub count_settled_pos :
    (l : Lease) (xs : List Settlement) → IsHandedOut l xs → 1 ≤ count_settled l.serial xs
count_settled_pos l [] m = elim m [ ]
count_settled_pos l (resolved k ∷ xs) (inl e) = rw e (ground arith)
count_settled_pos l (resolved k ∷ xs) (inr m) = omega (arith, count_settled_pos l xs m)
count_settled_pos l (cancelled n ∷ xs) m = omega (arith, count_settled_pos l xs m)

-- Two leases that settled the same promise are one.
pub same_serial :
    (l k : Lease) (xs : List Settlement)
    → count_settled l.serial xs ≤ 1
    → IsHandedOut l xs
    → IsHandedOut k xs
    → l.serial ≡ k.serial
    → l ≡ k
same_serial l k [] h p q e = elim p [ ]
same_serial l k (resolved j ∷ xs) h (inl p) (inl q) e = p ∙ sym q
same_serial l k (resolved j ∷ xs) h (inl p) (inr q) e =
    absurd (ground (arith, ap (λ (x : Lease). x.serial) p, count_settled_pos k xs q))
same_serial l k (resolved j ∷ xs) h (inr p) (inl q) e =
    absurd (ground (arith, ap (λ (x : Lease). x.serial) q, count_settled_pos l xs p))
same_serial l k (resolved j ∷ xs) h (inr p) (inr q) e = same_serial l k xs (omega arith) p q e
same_serial l k (cancelled n ∷ xs) h p q e = same_serial l k xs (omega arith) p q e

pub is_released-false :
    (n : ℕ) (settled : List Settlement) (released : List ℕ)
    → All (λ m. 1 ≤ count_settled m settled) released
    → count_settled n settled ≡ 0
    → is_released n released ≡ false
unfolding is_released
is_released-false n settled [] h e = refl
is_released-false n settled (m ∷ ms) h e =
    ground
      (arith, h.0, ap (λ (k : ℕ). count_settled k settled), is_released-false n settled ms h.1 e)
