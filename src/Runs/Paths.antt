-- ===== src/Runs/Paths.antt =====
-- The histories of a run that `assertTransition` lets through.
use vibe_go.Base.{not, ap, refl, ◌≡◌, Bool, true, false, ◌⊎◌, arith, List, [], ◌∷◌, any, All}
use vibe_go.Runs.{
  invalid_transition, RunStatus, created, queued, planning, executing, waiting_approval, cancelling,
  completed, failed, cancelled, timed_out, needs_recovery, same_status, transitions, can_transition,
  passed, assert_transition,
}

-- The states of a run, newest first: it starts as `created`, and each later state passed the
-- assertion.
abbrev pub IsLife : List RunStatus → Type 0
IsLife [] = ⊥
IsLife (s ∷ []) = s ≡ created
IsLife (t ∷ s ∷ h) = (assert_transition s t ≡ passed) × IsLife (s ∷ h)

abbrev pub visited : RunStatus → List RunStatus → Bool
visited v h = any (same_status v) h

abbrev pub is_final : RunStatus → Bool
is_final completed = true
is_final failed = true
is_final cancelled = true
is_final timed_out = true
is_final needs_recovery = true
is_final _ = false

abbrev pub is_open : RunStatus → Bool
is_open s = not (is_final s)

passed_from : (s t : RunStatus) → assert_transition s t ≡ passed → is_final s ≡ false
unfolding assert_transition can_transition transitions
passed_from s t h = ground arith

pub passed_failed : (s : RunStatus) → is_open s ≡ true → assert_transition s failed ≡ passed
unfolding assert_transition can_transition transitions
passed_failed s h = ground arith

-- A run that has ended makes no transition.
pub final_stuck : (s t : RunStatus) → is_final s ≡ true → assert_transition s t ≡ invalid_transition
unfolding assert_transition can_transition transitions
final_stuck s t h = ground arith

-- The states from which a run can be cancelled.
abbrev pub is_live : RunStatus → Bool
is_live queued = true
is_live planning = true
is_live executing = true
is_live waiting_approval = true
is_live _ = false

pub same_live : (s t : RunStatus) → is_live s ≡ true → same_status s t ≡ true → is_live t ≡ true
same_live s t h e = ground arith

pub live_open : (s : RunStatus) → is_live s ≡ true → is_open s ≡ true
live_open s h = ground arith

pub same_open : (s t : RunStatus) → is_open s ≡ true → same_status s t ≡ true → is_open t ≡ true
same_open s t h e = ground arith

pub passed_cancelling : (s : RunStatus) → is_live s ≡ true → assert_transition s cancelling ≡ passed
unfolding assert_transition can_transition transitions
passed_cancelling s h = ground arith

-- The steps of a run that nothing stops, and the last one of a cancelled run.
pub workflow :
    (assert_transition created queued ≡ passed)
    × (assert_transition queued planning ≡ passed)
    × (assert_transition planning executing ≡ passed)
    × (assert_transition executing planning ≡ passed)
    × (assert_transition executing completed ≡ passed)
    × (assert_transition executing waiting_approval ≡ passed)
    × (assert_transition waiting_approval executing ≡ passed)
    × (assert_transition cancelling cancelled ≡ passed)
unfolding assert_transition can_transition transitions
workflow = (refl, refl, refl, refl, refl, refl, refl, refl)

-- The states that a state can be entered from.
passed_into :
    (s t : RunStatus)
    → assert_transition s t ≡ passed
    → (t ≡ completed → s ≡ executing)
      × (t ≡ cancelled → s ≡ cancelling)
      × (t ≡ executing → (s ≡ planning) ⊎ (s ≡ waiting_approval))
      × (t ≡ waiting_approval → (s ≡ planning) ⊎ (s ≡ executing))
      × (t ≡ planning → (s ≡ queued) ⊎ (s ≡ executing))
unfolding assert_transition can_transition transitions
passed_into s t h = (ground arith, ground arith, ground arith, ground arith, ground arith)

-- The states in which the work of a run has begun or is done.
abbrev works : RunStatus → Bool
works executing = true
works waiting_approval = true
works completed = true
works _ = false

abbrev pub IsOrderly : RunStatus → List RunStatus → Type 0
IsOrderly s h =
    (works s ≡ true → (visited planning h ≡ true) × (visited queued h ≡ true))
    × (s ≡ planning → visited queued h ≡ true)
    × (s ≡ completed → visited executing h ≡ true)
    × (s ≡ cancelled → visited cancelling h ≡ true)
    × All (λ v. is_final v ≡ false) h

next-IsOrderly :
    (s t : RunStatus) (h : List RunStatus)
    → assert_transition s t ≡ passed
    → IsOrderly s h
    → IsOrderly t (s ∷ h)
next-IsOrderly s t h m o =
    let (done, stopped, run, wait, plan) = passed_into s t m in
    (
      λ e. ground (arith, m, o.0, o.1, done, run, wait, plan),
      (λ e. ground (arith, o.0, plan e)),
      (λ e. ground (arith, done e)),
      (λ e. ground (arith, stopped e)),
      (passed_from s t m, o.4),
    )

-- In the life of a run every state but the newest is not final. A run that executes, waits for an
-- approval or is completed has been queued and planned before; a planned one has been queued, a
-- completed one has executed, and a cancelled one has been cancelling.
pub IsLife-IsOrderly : (s : RunStatus) (h : List RunStatus) → IsLife (s ∷ h) → IsOrderly s h
IsLife-IsOrderly s [] l =
    (λ e. ground arith, (λ e. ground arith), (λ e. ground arith), (λ e. ground arith), tt)
IsLife-IsOrderly t (s ∷ h) l = next-IsOrderly s t h l.0 (IsLife-IsOrderly s h l.1)

-- A life ends in a final state exactly when no state can follow.
pub IsLife-is_final :
    (s : RunStatus) (h : List RunStatus)
    → IsLife (s ∷ h)
    → (is_final s ≡ true → (t : RunStatus) → IsLife (t ∷ s ∷ h) → ⊥)
      × (is_final s ≡ false → IsLife (failed ∷ s ∷ h))
IsLife-is_final s h l =
    (λ e t k. ground (arith, passed_from s t k.0), (λ e. (passed_failed s (ap not e), l)))
