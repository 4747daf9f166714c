-- ===== src/Execution/Examples.antt =====
-- Runs of the guards of packages/execution/src/index.ts, and what their theorems say of them.
use vibe_go.Base.{
  ◌↔◌, ◌≡◌, refl, String, true, false, List, [], ◌∷◌, none, some, if◌then◌else◌, ◌=s◌, All,
}
use vibe_go.Base.Text.{codes}
use vibe_go.Execution.Argv.Safety.{IsPermitted}
use vibe_go.Execution.Argv.Equivalence.{validate-IsPermitted}
use vibe_go.Execution.Paths.{Host, split, join}
use vibe_go.Execution.Paths.Safety.{IsPart}
use vibe_go.Execution.Paths.Inside.{resolve-IsInside, IsInside}
use vibe_go.Execution.Argv
use vibe_go.Execution.Paths

abbrev defaults : Argv.Config
defaults = record {
  allowed_env = some ("PATH" ∷ "HOME" ∷ []);
  env = none;
  shell = some true;
  allow_shell_metacharacters = none;
  max_args = none;
  max_arg_bytes = some (Argv.whole 16);
}

abbrev options : Argv.ArgvGuardOptions
options = record {
  allowed_env = none;
  env = some (("PATH", some "/bin") ∷ ("HOME", none) ∷ []);
  shell = some (some false);
  allow_shell_metacharacters = none;
  max_args = some (some (Argv.whole 2));
  max_arg_bytes = none;
}

abbrev list_all : List String
list_all = "ls" ∷ "-l" ∷ []

abbrev listed : Argv.ValidatedArgv
listed = record { argv = list_all; shell = false; env = ("PATH", "/bin") ∷ [] }

validate-listed : Argv.validate defaults options list_all ≡ Argv.passes listed
unfolding Argv.validate Argv.validate_with Argv.merge_options Argv.validate_args Argv.check_arg
    Argv.validate_env
validate-listed = refl

validate-IsPermitted_example :
    (Argv.validate defaults options list_all ≡ Argv.passes listed)
    ↔ IsPermitted (Argv.merge_options defaults options) list_all listed
validate-IsPermitted_example = validate-IsPermitted defaults options list_all listed

abbrev host : Host
host = record {
  realpath = λ p. if p =s "/w" then some "/w" else if p =s "/w/a" then some "/w/a" else none;
  is_symbolic_link = λ p. false;
  is_absolute = λ p. Paths.starts_with (codes "/") (codes p);
  resolve_path = λ root parts. Paths.append root (Paths.append "/" (join parts));
  relative = λ root p. if p =s "/w" then "" else if p =s "/w/a" then "a" else "..";
  dirname = λ p. "/w";
  sep = "/";
}

resolve_a : Paths.resolve host "/w" "./a" ≡ Paths.passes "/w/a"
unfolding Paths.resolve Paths.normalize_relative_path Paths.normalize_parts split join
    Paths.resolve_candidate Paths.is_within
resolve_a = refl

resolve-IsInside_example :
    (root : String) × (normalized : String) × (host.realpath "/w" ≡ some root)
    × (Paths.normalize_relative_path host "./a" ≡ Paths.passes normalized)
    × All IsPart (split normalized)
    × (Paths.is_within host root (host.resolve_path root (split normalized)) ≡ true)
    × IsInside host root (host.resolve_path root (split normalized)) "/w/a"
resolve-IsInside_example = resolve-IsInside host "/w" "./a" "/w/a" resolve_a
