-- ===== src/Runs.antt =====
-- The states of a run, `TRANSITIONS`, `canTransition` and `assertTransition` of
-- packages/contracts/src/index.ts.
pub mod Paths
mod Examples
use vibe_go.Base.{Bool, true, false, ◌||◌, Option, none, some, List, [], ◌∷◌, any, if◌then◌else◌}

pub data RunStatus : Type 0 where
  created queued planning executing waiting_approval cancelling : RunStatus
  completed failed cancelled timed_out needs_recovery : RunStatus

-- `===` on the names of two states.
abbrev pub same_status : RunStatus → RunStatus → Bool
same_status created created = true
same_status queued queued = true
same_status planning planning = true
same_status executing executing = true
same_status waiting_approval waiting_approval = true
same_status cancelling cancelling = true
same_status completed completed = true
same_status failed failed = true
same_status cancelled cancelled = true
same_status timed_out timed_out = true
same_status needs_recovery needs_recovery = true
same_status _ _ = false

pub transitions : RunStatus → List RunStatus
transitions created = queued ∷ failed ∷ needs_recovery ∷ []
transitions queued = planning ∷ cancelling ∷ failed ∷ needs_recovery ∷ []
transitions planning =
    executing ∷ waiting_approval ∷ cancelling ∷ failed ∷ timed_out ∷ needs_recovery ∷ []
transitions executing =
    planning ∷ waiting_approval ∷ cancelling ∷ completed ∷ failed ∷ timed_out ∷ needs_recovery ∷ []
transitions waiting_approval = executing ∷ cancelling ∷ failed ∷ timed_out ∷ needs_recovery ∷ []
transitions cancelling = cancelled ∷ failed ∷ needs_recovery ∷ []
transitions completed = []
transitions failed = []
transitions cancelled = []
transitions timed_out = []
transitions needs_recovery = []

pub can_transition : RunStatus → RunStatus → Bool
unfolding transitions
can_transition from to = any (λ s. same_status s to) (transitions from)

pub data Asserted : Type 0 where
  passed invalid_transition : Asserted

pub assert_transition : RunStatus → RunStatus → Asserted
unfolding can_transition
assert_transition from to = if can_transition from to then passed else invalid_transition
