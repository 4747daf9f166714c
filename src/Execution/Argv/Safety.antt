-- ===== src/Execution/Argv/Safety.antt =====
-- What `ArgvGuard` of packages/execution/src/index.ts lets through.
use Prim.Native.String.{len}
use vibe_go.Base.{
  [], List, refl, ℕ, Bool, Option, some, subst, length, inl, inr, true, Option-cases, ◌∷◌, ◌≢◌, sym,
  not, ◌≤◌, none, All, ◌⊎◌, false, arith, String, ◌≡◌, ◌||◌, ◌&&◌,
}
use vibe_go.Base.Text.{is_line_end, codes, some_in}
use vibe_go.Execution.Argv.{
  is_limit, entries_of, to_allowed_env, limit_of, value_of, is_true, check_config, validate_with,
  ValidatedArgv, Config, validate_env, check_value, check_key, assign, refused, name_of_codes,
  is_in, ArgvGuardErrorCode, Guarded, Entries, is_shell_character, is_control, is_nul,
  validate_args, passes, check_arg,
}

-- A character that an argument may have.
abbrev pub IsPlain : Bool → ℕ → Type 0
IsPlain allow c = ((c ≡ 9) ⊎ (32 ≤ c)) × (c ≢ 127) × (is_shell_character c ≡ true → allow ≡ true)

abbrev pub IsHarmless : Bool → ℕ → String → Type 0
IsHarmless allow most v = All (IsPlain allow) (codes v) × (len v ≤ most)

IsPlain-char :
    (allow : Bool) (c : ℕ)
    → is_nul c ≡ false
    → is_control c ≡ false
    → (not allow && is_shell_character c) ≡ false
    → IsPlain allow c
IsPlain-char allow c a b s = (ground (arith, a, b), ground (arith, b), λ h. ground (arith, s, h))

or_false : (a b : Bool) → (a || b) ≡ false → (a ≡ false) × (b ≡ false)
or_false a b e = (ground (arith, e), ground (arith, e))

and_or_false : (a b d : Bool) → (a && (b || d)) ≡ false → ((a && b) ≡ false) × ((a && d) ≡ false)
and_or_false a b d e = (ground (arith, e), ground (arith, e))

IsPlain-chars :
    (allow : Bool) (cs : List ℕ)
    → some_in is_nul cs ≡ false
    → some_in is_control cs ≡ false
    → (not allow && some_in is_shell_character cs) ≡ false
    → All (IsPlain allow) cs
IsPlain-chars allow [] a b s = tt
IsPlain-chars allow (c ∷ cs) a b s =
    let (a1, a2) = or_false (is_nul c) _ a in
    let (b1, b2) = or_false (is_control c) _ b in
    let (s1, s2) = and_or_false (not allow) (is_shell_character c) _ s in
    (IsPlain-char allow c a1 b1 s1, IsPlain-chars allow cs a2 b2 s2)

check_arg-none :
    (allow : Bool) (most : ℕ) (v : String) → check_arg allow most v ≡ none → IsHarmless allow most v
unfolding check_arg
check_arg-none allow most v e = (
  IsPlain-chars allow (codes v) (ground (arith, e)) (ground (arith, e)) (ground (arith, e)),
  ground (arith, e),
)

passes_inj {ℓ} : {A : Type ℓ} (a b : A) → passes a ≡ passes b → a ≡ b
passes_inj a b e = ground (arith, e)

Guarded-cases {ℓ} :
    {A : Type ℓ} (g : Guarded A)
    → ((code : ArgvGuardErrorCode) × (g ≡ refused code)) ⊎ ((a : A) × (g ≡ passes a))
Guarded-cases (refused code) = inl (code, refl)
Guarded-cases (passes a) = inr (a, refl)

validate_args-passes :
    (allow : Bool) (most : ℕ) (vs ws : List String)
    → validate_args allow most vs ≡ passes ws
    → (ws ≡ vs) × All (IsHarmless allow most) vs
unfolding validate_args
validate_args-passes allow most [] ws e = (sym (passes_inj _ _ e), tt)
validate_args-passes allow most (v ∷ vs) ws e = elim (Option-cases (check_arg allow most v)) [
  | inr (code, bad) ↦ absurd (ground (arith, bad, e))
  | inl good ↦ elim (Guarded-cases (validate_args allow most vs)) [
    | inl (code, bad) ↦ absurd (ground (arith, good, bad, e))
    | inr (us, fine) ↦
        let (same, plain) = validate_args-passes allow most vs us fine in
        (ground (arith, good, fine, e, same), (check_arg-none allow most v good, plain))
  ]
]

abbrev pub IsLine : String → Type 0
IsLine v = (some_in is_nul (codes v) ≡ false) × (some_in is_line_end (codes v) ≡ false)

-- An entry of the environment that may be passed on: an allowed name, and a text of one line if any.
abbrev pub IsEntry : List String → String × Option String → Type 0
IsEntry allowed (k, o) =
    (is_in k allowed ≡ true)
    × (name_of_codes (codes k) ≡ true)
    × ((v : String) → o ≡ some v → IsLine v)

-- The variables that have a value, but for one with the name of the prototype.
abbrev pub variables : Entries → List (String × String)
variables [] = []
variables ((k, none) ∷ es) = variables es
variables ((k, some v) ∷ es) = assign k v (variables es)

check_key-none :
    (allowed : List String) (k : String)
    → check_key allowed k ≡ none
    → (is_in k allowed ≡ true) × (name_of_codes (codes k) ≡ true)
check_key-none allowed k e = (ground (arith, e), ground (arith, e))

check_value-none : (v : String) → check_value v ≡ none → IsLine v
check_value-none v e = (ground (arith, e), ground (arith, e))

some_inj : (v w : String) → some v ≡ some w → v ≡ w
some_inj v w e = ground (arith, e)

validate_env-passes :
    (allowed : List String) (es : Entries) (vs : List (String × String))
    → validate_env allowed es ≡ passes vs
    → (vs ≡ variables es) × All (IsEntry allowed) es
unfolding validate_env
validate_env-passes allowed [] vs e = (sym (passes_inj _ _ e), tt)
validate_env-passes allowed ((k, none) ∷ es) vs e = elim (Option-cases (check_key allowed k)) [
  | inr (code, bad) ↦ absurd (ground (arith, bad, e))
  | inl good ↦
      let (name, shape) = check_key-none allowed k good in
      let (same, fine) = validate_env-passes allowed es vs (ground (arith, good, e)) in
      (same, ((name, shape, λ v n. absurd (ground (arith, n))), fine))
]
validate_env-passes allowed ((k, some v) ∷ es) vs e = elim (Option-cases (check_key allowed k)) [
  | inr (code, bad) ↦ absurd (ground (arith, bad, e))
  | inl good ↦ elim (Option-cases (check_value v)) [
    | inr (code, bad) ↦ absurd (ground (arith, good, bad, e))
    | inl clean ↦ elim (Guarded-cases (validate_env allowed es)) [
      | inl (code, bad) ↦ absurd (ground (arith, good, clean, bad, e))
      | inr (us, rest) ↦
          let (name, shape) = check_key-none allowed k good in
          let (same, fine) = validate_env-passes allowed es us rest in
          (
            ground (arith, good, clean, rest, e, same),
            ((name, shape, λ w n. subst IsLine (some_inj v w n) (check_value-none v clean)), fine),
          )
    ]
  ]
]

-- The limits that hold for a call, and what the arguments and the variables have to be.
abbrev pub IsPermitted : Config → List String → ValidatedArgv → Type 0
IsPermitted c argv r =
    (is_true c.shell ≡ false)
    × (is_limit (limit_of 128 c.max_args) ≡ true)
    × (is_limit (limit_of 65536 c.max_arg_bytes) ≡ true)
    × (1 ≤ length argv)
    × (length argv ≤ value_of (limit_of 128 c.max_args))
    × All
        (IsHarmless (is_true c.allow_shell_metacharacters)
          (value_of (limit_of 65536 c.max_arg_bytes)))
        argv
    × All (IsEntry (to_allowed_env c.allowed_env)) (entries_of c.env)
    × (r ≡ record { argv = argv; shell = false; env = variables (entries_of c.env) })

config_bounds :
    (c : Config) (argv : List String)
    → check_config c argv ≡ none
    → (is_true c.shell ≡ false)
      × (is_limit (limit_of 128 c.max_args) ≡ true)
      × (is_limit (limit_of 65536 c.max_arg_bytes) ≡ true)
      × (1 ≤ length argv)
      × (length argv ≤ value_of (limit_of 128 c.max_args))
config_bounds c argv e =
    (ground (arith, e), ground (arith, e), ground (arith, e), ground (arith, e), ground (arith, e))

same_result :
    (args argv : List String) (vars vars' : List (String × String)) (r : ValidatedArgv)
    → args ≡ argv
    → vars ≡ vars'
    → passes (record { argv = args; shell = false; env = vars }) ≡ passes r
    → r ≡ record { argv = argv; shell = false; env = vars' }
same_result args argv vars vars' r a b e = ground (arith, a, b, e)

pub validate_with-passes :
    (c : Config) (argv : List String) (r : ValidatedArgv)
    → validate_with c argv ≡ passes r
    → IsPermitted c argv r
unfolding validate_with
validate_with-passes c argv r e = elim (Option-cases (check_config c argv)) [
  | inr (code, bad) ↦ absurd (ground (arith, bad, e))
  | inl good ↦
      elim (Guarded-cases (
        validate_args (is_true c.allow_shell_metacharacters)
          (value_of (limit_of 65536 c.max_arg_bytes)) argv)) [
            | inl (code, bad) ↦ absurd (ground (arith, good, bad, e))
            | inr (args, plain) ↦
                elim (Guarded-cases
                  (validate_env (to_allowed_env c.allowed_env) (entries_of c.env))) [
                    | inl (code, bad) ↦ absurd (ground (arith, good, plain, bad, e))
                    | inr (vars, clean) ↦
                        let (a, harmless) = validate_args-passes _ _ argv args plain in
                        let (b, entries) = validate_env-passes _ _ vars clean in
                        let (s, args_limit, bytes_limit, least, most) = config_bounds c argv good in
                        (
                          s,
                          args_limit,
                          bytes_limit,
                          least,
                          most,
                          harmless,
                          entries,
                          same_result args argv vars _ r a b
                              (ground (arith, good, plain, clean, e)),
                        )
                  ]
          ]
]
