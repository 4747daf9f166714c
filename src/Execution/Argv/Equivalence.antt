-- ===== src/Execution/Argv/Equivalence.antt =====
-- The guard of arguments of packages/execution/src/index.ts lets through exactly what is permitted.
use vibe_go.Base.{
  Bool-cases, inr, inl, not, true, arith, false, [], ◌∷◌, List, refl, ℕ, Bool, String, ◌↔◌, ◌≡◌,
  ◌||◌, ◌&&◌, length, All, none, some, ◌≤◌,
}
use vibe_go.Base.Text.{codes, some_in}
use vibe_go.Execution.Argv.{
  check_config, value_of, merge_options, limit_of, is_shell_character, entries_of, check_key,
  passes, name_of_codes, is_limit, is_true, is_control, check_value, ValidatedArgv, Entries,
  ArgvGuardOptions, validate_with, validate_env, validate_args, is_nul, is_in, check_arg, Config,
  validate,
}
use vibe_go.Execution.Argv.Safety.{
  validate_with-passes, variables, IsPermitted, IsEntry, IsHarmless, IsLine, IsPlain,
}

plain_tests :
    (allow : Bool) (c : ℕ)
    → IsPlain allow c
    → (is_nul c ≡ false) × (is_control c ≡ false) × ((not allow && is_shell_character c) ≡ false)
plain_tests true c (inl tab, b, s) = (ground (arith, tab), ground (arith, tab), refl)
plain_tests true c (inr most, b, s) = (ground (arith, most), ground (arith, most, b), refl)
plain_tests false c (a, b, s) = elim (Bool-cases (is_shell_character c)) [
  | inl shell ↦ absurd (ground (arith, s shell))
  | inr calm ↦ elim a [
    | inl tab ↦ (ground (arith, tab), ground (arith, tab), calm)
    | inr most ↦ (ground (arith, most), ground (arith, most, b), calm)
  ]
]

or_both : (a b : Bool) → a ≡ false → b ≡ false → (a || b) ≡ false
or_both a b e f = ground (arith, e, f)

and_or_both : (a b d : Bool) → (a && b) ≡ false → (a && d) ≡ false → (a && (b || d)) ≡ false
and_or_both a b d e f = ground (arith, e, f)

text_tests :
    (allow : Bool) (cs : List ℕ)
    → All (IsPlain allow) cs
    → (some_in is_nul cs ≡ false)
      × (some_in is_control cs ≡ false)
      × ((not allow && some_in is_shell_character cs) ≡ false)
text_tests true [] h = (refl, refl, refl)
text_tests false [] h = (refl, refl, refl)
text_tests allow (c ∷ cs) h =
    let (a, b, s) = plain_tests allow c h.0 in
    let (a', b', s') = text_tests allow cs h.1 in
    (or_both _ _ a a', or_both _ _ b b', and_or_both (not allow) (is_shell_character c) _ s s')

IsHarmless-check_arg :
    (allow : Bool) (most : ℕ) (v : String) → IsHarmless allow most v → check_arg allow most v ≡ none
unfolding check_arg
IsHarmless-check_arg allow most v (plain, short) =
    let (a, b, s) = text_tests allow (codes v) plain in ground (arith, a, b, s, short)

IsHarmless-validate_args :
    (allow : Bool) (most : ℕ) (vs : List String)
    → All (IsHarmless allow most) vs
    → validate_args allow most vs ≡ passes vs
unfolding validate_args
IsHarmless-validate_args allow most [] h = refl
IsHarmless-validate_args allow most (v ∷ vs) h =
    let good = IsHarmless-check_arg allow most v h.0 in
    let rest = IsHarmless-validate_args allow most vs h.1 in ground (arith, good, rest)

IsEntry-check_key :
    (allowed : List String) (k : String)
    → is_in k allowed ≡ true
    → name_of_codes (codes k) ≡ true
    → check_key allowed k ≡ none
IsEntry-check_key allowed k a b = ground (arith, a, b)

IsLine-check_value : (v : String) → IsLine v → check_value v ≡ none
IsLine-check_value v (a, b) = ground (arith, a, b)

IsEntry-validate_env :
    (allowed : List String) (es : Entries)
    → All (IsEntry allowed) es
    → validate_env allowed es ≡ passes (variables es)
unfolding validate_env
IsEntry-validate_env allowed [] h = refl
IsEntry-validate_env allowed ((k, none) ∷ es) ((a, b, f), h) =
    let good = IsEntry-check_key allowed k a b in
    let rest = IsEntry-validate_env allowed es h in ground (arith, good, rest)
IsEntry-validate_env allowed ((k, some v) ∷ es) ((a, b, f), h) =
    let good = IsEntry-check_key allowed k a b in
    let clean = IsLine-check_value v (f v refl) in
    let rest = IsEntry-validate_env allowed es h in ground (arith, good, clean, rest)

config_passes :
    (c : Config) (argv : List String)
    → is_true c.shell ≡ false
    → is_limit (limit_of 128 c.max_args) ≡ true
    → is_limit (limit_of 65536 c.max_arg_bytes) ≡ true
    → 1 ≤ length argv
    → length argv ≤ value_of (limit_of 128 c.max_args)
    → check_config c argv ≡ none
config_passes c argv s a b least most = ground (arith, s, a, b, least, most)

IsPermitted-validate_with :
    (c : Config) (argv : List String) (r : ValidatedArgv)
    → IsPermitted c argv r
    → validate_with c argv ≡ passes r
unfolding validate_with
IsPermitted-validate_with c argv r (s, a, b, least, most, harmless, entries, same) =
    let good = config_passes c argv s a b least most in
    let plain = IsHarmless-validate_args _ _ argv harmless in
    let clean = IsEntry-validate_env _ (entries_of c.env) entries in
    ground (arith, good, plain, clean, same)

-- The guard lets arguments through exactly when they are permitted under the options of the call merged
-- into the defaults: no shell is asked for, the limits are positive safe integers, there are from one
-- to the limit of arguments, each of them has no control character, no character of the shell unless
-- these are allowed, and at most the limit of bytes, and every variable is allowed, has a name's shape
-- and a text of one line. It then returns the arguments as they are, with exactly the variables that
-- have a value (but none named `__proto__`), and without a shell.
pub validate-IsPermitted :
    (defaults : Config) (options : ArgvGuardOptions) (argv : List String) (r : ValidatedArgv)
    → (validate defaults options argv ≡ passes r)
      ↔ IsPermitted (merge_options defaults options) argv r
unfolding validate
validate-IsPermitted defaults options argv r = (
  validate_with-passes (merge_options defaults options) argv r,
  IsPermitted-validate_with (merge_options defaults options) argv r,
)
