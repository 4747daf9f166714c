-- ===== src/Runs/Examples.antt =====
-- The life of a run that does its work.
use vibe_go.Base.{refl, List, [], ◌∷◌}
use vibe_go.Runs.{
  RunStatus, created, queued, planning, executing, waiting_approval, completed, assert_transition,
  transitions,
}
use vibe_go.Runs.Paths.{IsLife, IsOrderly, IsLife-IsOrderly}

abbrev past : List RunStatus
past = executing ∷ waiting_approval ∷ planning ∷ queued ∷ created ∷ []

life : IsLife (completed ∷ past)
unfolding assert_transition transitions
life = (refl, (refl, (refl, (refl, (refl, refl)))))

IsLife-IsOrderly_example : IsOrderly completed past
IsLife-IsOrderly_example = IsLife-IsOrderly completed past life
