-- ===== src/Workspaces/Examples.antt =====
-- A registry with one workspace besides the default one.
use vibe_go.Base.{arith, ◌≡◌, refl, true, false, none, some, [], ◌∷◌, if◌then◌else◌, ltb}
use vibe_go.Base.Keyed.{has}
use vibe_go.Base.Text.{trim, trim_start, trim_end}
use vibe_go.Workspaces.{
  persistence_failed, thrown, restore_all, snapshot, restore_persisted_entries, resolve_root, done,
  remove, normalize_directory, new, default_entry, add, Host, Registry, RegistrationInput,
  WorkspaceEntry,
}
use vibe_go.Workspaces.Keeping.{IsRegistry}
use vibe_go.Workspaces.Histories.{Reach, Step, Reach-IsRegistry}
use vibe_go.Workspaces.Restoring.{is_done, IsStable, save_failure-rollback, new-snapshot}

abbrev host : Host
host = record {
  resolve_path = λ p. p;
  realpath = λ p. some p;
  is_directory = λ p. true;
  basename = λ p. "home";
  cut = λ n s. s;
}

abbrev app : WorkspaceEntry
app = record { id = "app"; label = "App"; root = "/home/app"; is_default = false }

abbrev app_input : RegistrationInput
app_input = record { id = "app"; path = "/home/app"; label = some "App" }

abbrev empty : Registry
empty = record { entries = default_entry host "/home" ∷ []; persists = true; saved = none }

abbrev both : Registry
both = record { entries = default_entry host "/home" ∷ app ∷ []; persists = true; saved = none }

opens : new host "/home" (some []) ≡ done empty
unfolding new normalize_directory restore_persisted_entries restore_all trim trim_start trim_end
opens = refl

opened_twice : Reach host (remove "app" true (add host app_input false empty).0).0
opened_twice =
    Reach.next (Reach.next (Reach.start "/home" (some []) opens) (Step.adds app_input false))
      (Step.removes "app" true)

Reach-IsRegistry_example : IsRegistry (remove "app" true (add host app_input false empty).0).0
Reach-IsRegistry_example = Reach-IsRegistry host opened_twice

save_failure-rollback_example :
    ((add host (record app_input { id = "web" }) true both).0 ≡ both)
    × (is_done (add host (record app_input { id = "web" }) true both).1 ≡ false)
    × (resolve_root "app" (remove "app" true both).0 ≡ resolve_root "app" both)
    × (is_done (remove "app" true both).1 ≡ false)
save_failure-rollback_example =
    save_failure-rollback host both (record app_input { id = "web" }) "app" "app" refl

home : normalize_directory host "/home" ≡ done "/home"
unfolding normalize_directory trim trim_start trim_end
home = refl

both_fine : IsRegistry both
unfolding has
both_fine = (((refl, refl), ((refl, refl, refl), tt)), (refl, (refl, tt)))

app-IsStable : IsStable host app
unfolding normalize_directory trim trim_start trim_end
app-IsStable = (refl, refl, omega arith, omega arith, refl)

new-snapshot_example :
    new host "/home" (some (snapshot (default_entry host "/home" ∷ app ∷ [])))
    ≡ (if ltb 128 1 then thrown persistence_failed else done both)
new-snapshot_example =
    new-snapshot host "/home" "/home" (app ∷ []) home both_fine (app-IsStable, tt)
